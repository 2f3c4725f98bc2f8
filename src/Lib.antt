-- ===== src/Lib.antt =====
-- A block device whose objects are messages of a Telegram channel.
--
-- The device is cut into objects of a fixed size. A write seals the objects that it touches in
-- binary envelopes, keeps them in files of a cache directory, and notes them as dirty in a SQLite
-- database with a log of the written ranges. A flush sends the dirty envelopes to a remote backend,
-- enters their references in a manifest, has the manifest committed, and clears the dirty rows. A
-- read takes an object from its dirty file, from the cache, from the backend, or as zeros.
--
-- Files, with the paths of the code from the repository's root:
--   Prelude: Boolean tests, lists, results with a state, bytes and digits, tables of rows.
--   Format: crates/tgdrive-core/src/format.rs. Format/Digest has SHA-256 and hex as a parameter
--     (`Digest`), Format/Envelope `ObjectEnvelope::encode` and `decode`, with RoundTrip and Strict
--     below it, and Format/Manifest the flat manifest, with serde_json as a parameter. Format/Tree
--     cuts a manifest into leaves and puts it together, `Manifest::tree_leaves` and
--     `from_tree_root_and_leaves`, and Format/Superblock has the superblock and its text.
--   Errors: the errors of the core as values; the messages' texts are left out.
--   Block: `BlockMap` of crates/tgdrive-core/src/block.rs, and Block/Bounds its addresses.
--   Cache: `LocalStore` of crates/tgdrive-core/src/cache.rs, a record with a list of rows for each
--     table and a function from paths to contents for the files. Cache/Lru and Cache/Evict follow an
--     eviction.
--   Backend: crates/tgdrive-core/src/backend.rs. Backend/Traits has `RemoteBackend` and
--     `ManifestCommitter` as operations on a state, and `Channel`, what the device relies on: a
--     message that was accepted stays, and is what its reference reads. Backend/Memory is
--     `MemoryBackend`.
--   Disk: the abstract specification, a function from addresses to bytes, and its `overwrite`.
--   Device: `BlockDevice` of crates/tgdrive-core/src/block.rs. Every method is a function of the
--     device to a result and the device after it, with the same name. Device/Holds says what an
--     object contains and where from, Device/Represents what disk a device stands for; the other
--     children prove the methods against it.
--   Nbd: crates/tgdrive-nbd/src/server.rs. Nbd/Stream reads and writes a connection, Nbd/Handshake is
--     `negotiate`, Nbd/Serve the request loop of `handle_client`, by functions of the same names.
--     Nbd/Wire and Nbd/Opening are the protocol from the client's side, and Nbd/Wire the interface
--     `IsDisk` of a backend that is a disk, which Nbd/Device fills for the block device. Nbd/Parse,
--     Nbd/Session and Nbd/Client prove the server against them, and Nbd/Ends that its loops end.
--   Telegram: crates/tgdrive-telegram/src/client.rs, with grammers as a parameter (`Chat`, and what is
--     relied on in `Keeps` and `Answers` of Telegram/Chats). Telegram/Storage is `TelegramStorage` as a
--     backend and its superblocks, Telegram/Manifests `commit_manifest` and the way back from a
--     superblock, by functions of the same names. Telegram/Reads, Sends and Safe say what the calls do to
--     the messages, where Telegram/Distinct has lists of numbers without repeats; Telegram/Leaves,
--     Posts, Commits and Recover follow a commit and the way back, Telegram/Scan the choice of a
--     superblock. Telegram/Backend has the client as the channel of a block
--     device, and Telegram/Disk the device over it.
--   Config: crates/tgdrive-core/src/config.rs, by functions of the same names; Config/Sizes has what the
--     sizes of a loaded configuration are.
--   Tests: a channel that satisfies the assumptions, a sample device, runs and examples.
--
-- Bounds: the loops of `read_at` and `write_at` have a round for every byte, and a round moves on by
-- a byte at least. The loops of a connection have a round for every byte that comes. Sums on
-- u64 and usize wrap at 2 ^ 64, as they do in a release build.
--
-- Not modelled: two calls at a time (a method runs to its end, so that the locks guard nothing), the
-- failure of SQLite statements and file writes, the NBD server's socket and its connections at the
-- same time, a failure to send to a client, deletions in the chat while the client relies on it,
-- the session file and the login of the Telegram client, and the command line.
pub mod Prelude
pub mod Format
pub mod Errors
pub mod Block
pub mod Cache
pub mod Backend
pub mod Disk
pub mod Device
pub mod Nbd
pub mod Telegram
pub mod Config
pub mod Tests
