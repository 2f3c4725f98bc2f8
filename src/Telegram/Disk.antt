-- ===== src/Telegram/Disk.antt =====
-- The block device over the Telegram client: a flush is durable.
use telegram_block_device.Prelude.{
  ℕ, ◌≡◌, refl, sym, subst, Option, some, none, List, ◌∷◌, Result, ok,
}
use telegram_block_device.Prelude.Bytes.{Text}
use telegram_block_device.Format.Digest.{Digest}
use telegram_block_device.Format.Manifest.{Manifest, ManifestJson, IsLossless}
use telegram_block_device.Format.Tree.RoundTrip.{IsComplete}
use telegram_block_device.Format.Superblock.{Superblock, SuperblockJson}
use telegram_block_device.Format.Superblock
use telegram_block_device.Block.{BlockMap}
use telegram_block_device.Cache.{DirtyObject, fresh}
use telegram_block_device.Errors.{Error}
use telegram_block_device.Device.{BlockDevice, flush}
use telegram_block_device.Device
use telegram_block_device.Device.Represents.{IsSized, Represents}
use telegram_block_device.Device.Flush.Moves.{Moves, Holds-Moves}
use telegram_block_device.Device.Flush.Commit.{All, Flushed, KeepsMessages, restarted}
use telegram_block_device.Device.Flush.Commit
use telegram_block_device.Device.Flush.Durable.{flush_lem}
use telegram_block_device.Device.Flush.Complete.{IsCommitted, flush-IsCommitted}
use telegram_block_device.Telegram.Posts.{HasSuperblock}
use telegram_block_device.Telegram.{Chat, TreeJson, ReadsBack}
use telegram_block_device.Telegram.Chats.{Keeps, Answers}
use telegram_block_device.Telegram.Storage.{telegram}
use telegram_block_device.Telegram.Manifests.{commit_manifest, fetch_manifest_from_superblock}
use telegram_block_device.Telegram.Sends.{Later}
use telegram_block_device.Telegram.Recover.{fetch_manifest_from_superblock-commit_manifest}
use telegram_block_device.Telegram.Backend.{
  telegram_channel, still_there, commit_manifest-KeepsMessages,
}

module _ (T : Chat) (K : Keeps T) (answers : Answers T K) (D : Digest) (J : ManifestJson)
    (L : TreeJson) (serde : SuperblockJson) (m : BlockMap) (f : ℕ → ℕ) where
  -- A device started from a manifest on a chat, with an empty cache.
  abbrev pub started : Text → ℕ → Manifest → T.State → BlockDevice (telegram T D)
  started cache_dir now manifest t =
      Device.new (telegram T D) m t (fresh cache_dir (λ _. none) now) manifest

  started-Represents :
      (cache_dir : Text) (now : ℕ) (e : BlockDevice (telegram T D)) (t : T.State)
      → Later T K e.backend t
      → Represents D
          (telegram T D)
          (telegram_channel T K answers D)
          m
          f
          (restarted D J (telegram T D) (telegram_channel T K answers D) m cache_dir now e)
      → Represents D
          (telegram T D)
          (telegram_channel T K answers D)
          m
          f
          (started cache_dir now e.manifest t)
  started-Represents cache_dir now e t later r = record {
    same_map = r.same_map;
    ascending = r.ascending;
    each = λ id lt.
        Holds-Moves D (telegram T D) (telegram_channel T K answers D) moves id _ tt (r.each id lt);
  }
    where
      moves :
          Moves D
            (telegram T D)
            (telegram_channel T K answers D)
            (All D J (telegram T D) (telegram_channel T K answers D))
            (restarted D J (telegram T D) (telegram_channel T K answers D) m cache_dir now e)
            (started cache_dir now e.manifest t)
      moves = record {
        same_map = refl;
        same_store = refl;
        same_committer = refl;
        same_entry = λ id _. refl;
        messages = still_there T K answers D later;
      }

  survives :
      (e : BlockDevice (telegram T D)) (c : Option _)
      (r : Result Error (Unit {0}) × BlockDevice (telegram T D)) (t : T.State)
      → r.0 ≡ ok tt
      → Later T K r.1.backend t
      → Flushed D J (telegram T D) (telegram_channel T K answers D) m f c r
      → (cache_dir : Text) (now : ℕ)
      → Represents D
          (telegram T D)
          (telegram_channel T K answers D)
          m
          f
          (started cache_dir now r.1.manifest t)
  survives e c r t good later (Commit.failed x bad rep) cache_dir now = cc
  survives e c r t good later (Commit.succeeded done rep clean same lasts) cache_dir now =
      started-Represents cache_dir now r.1 t later (lasts cache_dir now)

  -- A device of sizes in their range over a chat that keeps its messages and answers, with JSON that reads
  -- back, represents a disk, has a complete manifest and a dirty object and commits with
  -- `commit_manifest`, and its flush succeeds. However the chat goes on, there is a message in it whose
  -- text decodes to a superblock of a manifest's generation that leads to this manifest; and a device
  -- that is started from it on the chat, with an empty cache, represents the disk.
  pub flush-recover :
      (now : ℕ) (row : DirtyObject) (rows : List DirtyObject) (d : BlockDevice (telegram T D))
      (t : T.State) (cache_dir : Text) (later_now : ℕ)
      → IsSized m
      → Represents D (telegram T D) (telegram_channel T K answers D) m f d
      → IsLossless J
      → ReadsBack L
      → Superblock.ReadsBack serde
      → IsComplete d.manifest
      → d.store.dirty_rows ≡ row ∷ rows
      → d.committer ≡ some (commit_manifest T D J L serde now)
      → (flush D J (telegram T D) d).0 ≡ ok tt
      → Later T K (flush D J (telegram T D) d).1.backend t
      → (b : Superblock) × (manifest : Manifest) × (b.manifest_generation ≡ manifest.generation)
        × HasSuperblock T K D J L serde t b
        × ((fetch_manifest_from_superblock T D J L serde b t).0 ≡ ok manifest)
        × Represents D
            (telegram T D)
            (telegram_channel T K answers D)
            m
            f
            (started cache_dir later_now manifest t)
  flush-recover now row rows d t cache_dir later_now sized r lossless reads serde_reads complete
        dirty has good later =
      let e : BlockDevice (telegram T D) = (flush D J (telegram T D) d).1 in
      let done : IsCommitted D J (telegram T D) (commit_manifest T D J L serde now) d e =
        flush-IsCommitted D J (telegram T D) row rows (commit_manifest T D J L serde now) d dirty
          has good in
      let safe : KeepsMessages D J (telegram T D) (telegram_channel T K answers D) d.committer =
        subst (KeepsMessages D J (telegram T D) (telegram_channel T K answers D)) (sym has)
          (commit_manifest-KeepsMessages T K answers D J L serde now) in
      let (b, generation, posted, fetched) =
        fetch_manifest_from_superblock-commit_manifest T K D J L serde now e.manifest
          e.map.device_size e.map.logical_sector_size e.map.object_size done.before t answers
          lossless reads serde_reads (done.complete complete) done.returned
          (subst (λ s. Later T K s t) (sym done.after) later) in
      (
        b,
        e.manifest,
        generation,
        posted,
        fetched,
        survives e d.committer (flush D J (telegram T D) d) t good later
            (flush_lem D J (telegram T D) (telegram_channel T K answers D) m f sized d r safe)
            cache_dir later_now,
      )
