-- ===== src/Device.antt =====
-- The device: crates/tgdrive-core/src/block.rs, `BlockDevice`. One call runs at a time: the locks
-- guard nothing then. The stopwatch of the metrics reads `elapsed`, and the averages, which are
-- floats, are left out. Sizes and offsets are u64 and usize of 64 bits, whose sums wrap.
pub mod Holds
pub mod Fills
pub mod ReadObject
pub mod Represents
pub mod Prefetch
pub mod ReadAhead
pub mod Read
pub mod WriteObject
pub mod Write
pub mod Refuse
pub mod Attempt
pub mod Flush
use telegram_block_device.Prelude.{
  ℕ, zero, suc, ◌+◌, ◌-◌, ◌*◌, ◌%◌, ◌^◌, min, max, ◌≡◌, Bool, true, false, not, ◌&&◌, ◌||◌, Option,
  none, some, List, [], ◌∷◌, ◌++◌, map, Result, ok, err, Exec, ok_or, ensure, map_err, pure, raise,
  lift, gets, modify, ◌>>=◌, ◌>>◌, length, take, drop, slice, splice, resize, replicate, ltb, leb,
  ◌==◌, if◌then◌else◌,
}
use telegram_block_device.Prelude.Bytes.{Text, text_eq}
use telegram_block_device.Format.Digest.{Digest, sha256_hex}
use telegram_block_device.Format.Envelope
use telegram_block_device.Format.Envelope.{ObjectEnvelope, FormatError, decode}
use telegram_block_device.Format.Manifest.{RemoteObjectRef, ManifestObject, Manifest, ManifestJson}
use telegram_block_device.Block.{BlockMap, locate}
use telegram_block_device.Cache.{
  LocalStore, DirtyObject, cache_path, read_cache, write_cache, mark_dirty, dirty_objects,
  dirty_object, stats, clear_dirty_and_wal, replace_from_manifest,
}
use telegram_block_device.Backend.{RemoteBackend, ManifestCommitter}
use telegram_block_device.Errors.{
  Error, format, read_out_of_bounds, write_out_of_bounds, dirty_checksum_mismatch,
  dirty_checksum_mismatch_for, object_out_of_range, no_remote_ref, no_checksum,
  remote_checksum_mismatch, manifest_missing_object, file_not_found, backpressure, out_of_fuel,
}

pub record DeviceMetrics : Type 0 where
  pub cache_hits : ℕ
  pub cache_misses : ℕ
  pub uploads : ℕ
  pub upload_ms_total : ℕ
  pub downloads : ℕ
  pub download_ms_total : ℕ

-- `fetch_add` on an AtomicU64
abbrev add_u64 : ℕ → ℕ → ℕ
add_u64 a b = (a + b) % 2 ^ 64

abbrev pub record_upload : ℕ → DeviceMetrics → DeviceMetrics
record_upload ms m = record m {
  uploads = add_u64 m.uploads 1;
  upload_ms_total = add_u64 m.upload_ms_total ms;
}

abbrev record_download : ℕ → DeviceMetrics → DeviceMetrics
record_download ms m = record m {
  downloads = add_u64 m.downloads 1;
  download_ms_total = add_u64 m.download_ms_total ms;
}

pub record BlockDevice (B : RemoteBackend) : Type 0 where
  pub map : BlockMap
  pub backend : B.State
  pub store : LocalStore
  pub manifest : Manifest
  pub metrics : DeviceMetrics
  pub committer : Option (ManifestCommitter B)
  pub max_dirty_objects : ℕ
  pub read_ahead_objects : ℕ
  pub elapsed : ℕ

abbrev pub no_metrics : DeviceMetrics
no_metrics = record {
  cache_hits = 0;
  cache_misses = 0;
  uploads = 0;
  upload_ms_total = 0;
  downloads = 0;
  download_ms_total = 0;
}

abbrev pub new : (B : RemoteBackend) → BlockMap → B.State → LocalStore → Manifest → BlockDevice B
new B map backend store manifest = record {
  map = map;
  backend = backend;
  store = store;
  manifest = manifest;
  metrics = no_metrics;
  committer = none;
  max_dirty_objects = 4096;
  read_ahead_objects = 4;
  elapsed = 0;
}

abbrev pub with_committer :
    {B : RemoteBackend} → BlockDevice B → ManifestCommitter B → BlockDevice B
with_committer d c = record d { committer = some c }

abbrev pub pad_object : List ℕ → ℕ → List ℕ
pad_object payload object_size = resize object_size 0 payload

-- `iter().find(|object| object.object_id == id)`
unfoldable pub find_object : ℕ → List ManifestObject → Option ManifestObject
find_object id [] = none
find_object id (o ∷ os) = if o.object_id == id then some o else find_object id os

-- The payload of stored bytes, filled up to a whole object.
abbrev pub unpack : ℕ → Result FormatError ObjectEnvelope → Result Error (List ℕ)
unpack object_size (ok envelope) = ok (pad_object envelope.payload object_size)
unpack object_size (err e) = err (format e)

abbrev pub unwrap : Digest → ℕ → ℕ → ℕ → List ℕ → Result Error (List ℕ)
unwrap D object_size id generation encoded = unpack object_size (decode D encoded id generation)

-- The first object of that number gets a new entry.
unfoldable pub replace_object : ℕ → ManifestObject → List ManifestObject → List ManifestObject
replace_object id entry [] = []
replace_object id entry (o ∷ os) =
    if o.object_id == id then entry ∷ os else o ∷ replace_object id entry os

-- An object that the read-ahead has to fetch.
pub record Wanted : Type 0 where
  pub object_id : ℕ
  pub generation : ℕ
  pub sha256 : Text
  pub remote : RemoteObjectRef

unfoldable pub is_dirty : ℕ → List DirtyObject → Bool
is_dirty id [] = false
is_dirty id (row ∷ rows) = row.object_id == id || is_dirty id rows

unfoldable pub max_generation : List DirtyObject → Option ℕ
max_generation [] = none
max_generation (row ∷ rows) = elim (max_generation rows) [
  | none ↦ some row.generation
  | some g ↦ some (max row.generation g)
]

module _ (D : Digest) (J : ManifestJson) (B : RemoteBackend) where
  abbrev pub Action : Type 0 → Type 0
  Action A = Exec Error (BlockDevice B) A

  abbrev pub in_store : {A : Type 0} → Exec Error LocalStore A → Action A
  in_store m d = let (r, s) = m d.store in (r, record d { store = s })

  abbrev in_backend : {A : Type 0} → Exec Error B.State A → Action A
  in_backend m d = let (r, s) = m d.backend in (r, record d { backend = s })

  abbrev count : (DeviceMetrics → DeviceMetrics) → Action (Unit {0})
  count f d = (ok tt, record d { metrics = f d.metrics })

  abbrev hit : DeviceMetrics → DeviceMetrics
  hit m = record m { cache_hits = add_u64 m.cache_hits 1 }

  abbrev miss : ℕ → DeviceMetrics → DeviceMetrics
  miss n m = record m { cache_misses = add_u64 m.cache_misses n }

  pub read_dirty : ℕ → DirtyObject → Action (List ℕ)
  read_dirty id row = do
    d ← gets (λ d. d)
    encoded ← lift (ok_or (d.store.files row.cache_path) (file_not_found row.cache_path))
    lift (ensure (text_eq (sha256_hex D encoded) row.sha256) (dirty_checksum_mismatch_for id))
    lift (unwrap D d.map.object_size id row.generation encoded)

  pub download : ℕ → ℕ → RemoteObjectRef → Text → Action (List ℕ)
  download id generation remote sha = do
    count (miss 1)
    d ← gets (λ d. d)
    encoded ← in_backend (B.fetch_object remote)
    count (record_download d.elapsed)
    lift (ensure (text_eq (sha256_hex D encoded) sha) (remote_checksum_mismatch id))
    modify (λ d. record d { store = (write_cache D id generation encoded false d.store).1 })
    lift (unwrap D d.map.object_size id generation encoded)

  pub from_cache : ℕ → ℕ → RemoteObjectRef → Text → Option (List ℕ) → Action (List ℕ)
  unfolding download
  from_cache id generation remote sha (some cached) = do
    count hit
    d ← gets (λ d. d)
    lift (unwrap D d.map.object_size id generation cached)
  from_cache id generation remote sha none = download id generation remote sha

  pub read_stored : ℕ → ManifestObject → Action (List ℕ)
  unfolding from_cache
  read_stored id entry = do
    remote ← lift (ok_or entry.remote (no_remote_ref id))
    sha ← lift (ok_or entry.sha256 (no_checksum id))
    cached ← in_store (read_cache D id entry.generation sha)
    from_cache id entry.generation remote sha cached

  pub read_clean : ℕ → ManifestObject → Action (List ℕ)
  unfolding read_stored
  read_clean id entry d =
      if entry.zero then (ok (replicate d.map.object_size 0), d) else read_stored id entry d

  pub read_undirtied : ℕ → Option DirtyObject → Action (List ℕ)
  unfolding read_dirty read_clean
  read_undirtied id (some row) = read_dirty id row
  read_undirtied id none = do
    d ← gets (λ d. d)
    entry ← lift (ok_or (find_object id d.manifest.objects) (object_out_of_range id))
    read_clean id entry

  unfoldable pub read_object : ℕ → Action (List ℕ)
  unfolding read_undirtied
  read_object id d = read_undirtied id (dirty_object d.store id) d

  -- `write_dirty_object`; the envelope's `flags` are 0.
  unfoldable pub write_dirty_object : ℕ → List ℕ → ℕ → ℕ → Action (Unit {0})
  write_dirty_object id object offset len = do
    d ← gets (λ d. d)
    lift (ensure (ltb (stats d.store).dirty_objects d.max_dirty_objects) backpressure)
    let generation = add_u64 d.manifest.generation 1
    let encoded = Envelope.encode D (record {
      object_id = id;
      generation = generation;
      object_size = d.map.object_size;
      flags = 0;
      payload = resize d.map.object_size 0 object;
    })
    let (sha, store) = write_cache D id generation encoded true d.store
    modify (λ d. record d {
      store = mark_dirty id generation (cache_path store id generation) sha offset len store;
    })

  -- The loop of `read_at`; it returns what was read and the address behind it.
  unfoldable pub read_loop : ℕ → ℕ → ℕ → List ℕ → Action (List ℕ × ℕ)
  read_loop fuel zero cursor out = pure (out, cursor)
  read_loop zero (suc remaining) cursor out = raise out_of_fuel
  read_loop (suc fuel) (suc remaining) cursor out = do
    d ← gets (λ d. d)
    (id, at) ← lift (locate d.map cursor)
    let n = min (suc remaining) (d.map.object_size - at)
    object ← read_object id
    read_loop fuel (suc remaining - n) (add_u64 cursor n) (out ++ slice at (at + n) object)

  -- The tests of one round of the read-ahead behind the one for a dirty object.
  pub wanted_uncached : ℕ → ℕ → RemoteObjectRef → Text → Option (List ℕ) → Action (Option Wanted)
  wanted_uncached id generation remote sha (some cached) = do count hit; pure none
  wanted_uncached id generation remote sha none =
      pure
        (some (record { object_id = id; generation = generation; sha256 = sha; remote = remote }))

  pub wanted_refs : ℕ → ℕ → Option RemoteObjectRef → Option Text → Action (Option Wanted)
  unfolding wanted_uncached
  wanted_refs id generation (some remote) (some sha) = do
    cached ← in_store (read_cache D id generation sha)
    wanted_uncached id generation remote sha cached
  wanted_refs id generation _ _ = pure none

  pub wanted_entry : ℕ → ManifestObject → Action (Option Wanted)
  unfolding wanted_refs
  wanted_entry id entry d =
      if entry.zero
      then (ok none, d)
      else wanted_refs id entry.generation entry.remote entry.sha256 d

  abbrev push : Option Wanted → List Wanted → List Wanted
  push none out = out
  push (some w) out = out ++ w ∷ []

  pub wanted_loop : List DirtyObject → ℕ → ℕ → List Wanted → Action (List Wanted)
  unfolding wanted_entry
  wanted_loop dirty zero id out d = (ok out, d)
  wanted_loop dirty (suc n) id out d = elim (is_dirty id dirty) [
    | true ↦ wanted_loop dirty n (id + 1) out d
    | false ↦ elim (find_object id d.manifest.objects) [
      | none ↦ (ok out, d)
      | some entry ↦ (do w ← wanted_entry id entry; wanted_loop dirty n (id + 1) (push w out)) d
    ]
  ]

  -- What came back is kept where its checksum and its envelope are right.
  pub keep_fetched : List Wanted → List (Option (List ℕ)) → LocalStore → LocalStore
  keep_fetched (w ∷ ws) (some encoded ∷ found) s = keep_fetched ws found (
      if not (text_eq (sha256_hex D encoded) w.sha256)
      then s
      else elim (decode D encoded w.object_id w.generation) [
        | ok _ ↦ (write_cache D w.object_id w.generation encoded false s).1
        | err _ ↦ s
      ])
  keep_fetched (w ∷ ws) (none ∷ found) s = keep_fetched ws found s
  keep_fetched _ _ s = s

  pub fetch_wanted : List Wanted → Action (Unit {0})
  unfolding keep_fetched
  fetch_wanted [] = pure tt
  fetch_wanted (w ∷ ws) = do
    count (miss (length (w ∷ ws)))
    d ← gets (λ d. d)
    found ← in_backend (B.get_messages_by_id (map (λ w. w.remote.message_id) (w ∷ ws)))
    count (record_download d.elapsed)
    modify (λ d. record d { store = keep_fetched (w ∷ ws) found d.store })

  unfoldable pub prefetch_objects : ℕ → ℕ → Action (Unit {0})
  unfolding wanted_loop fetch_wanted
  prefetch_objects start n = do
    d ← gets (λ d. d)
    wanted ← wanted_loop (dirty_objects d.store) (min n (2 ^ 64 - 1 - start)) start []
    fetch_wanted wanted

  -- The read-ahead after a read that ends where an object begins. Its result is dropped.
  pub read_ahead : ℕ → BlockDevice B → BlockDevice B
  unfolding prefetch_objects
  read_ahead cursor d =
      if ltb cursor d.map.device_size
      then elim (locate d.map cursor) [
        | err _ ↦ d
        | ok place ↦ if place.1 == 0 then (prefetch_objects place.0 d.read_ahead_objects d).1 else d
      ]
      else d

  -- Every round reads at least a byte, so `len` rounds are enough.
  unfoldable pub read_at : ℕ → ℕ → Action (List ℕ)
  unfolding read_loop read_ahead
  read_at offset len = do
    d ← gets (λ d. d)
    lift (ensure (leb (add_u64 offset len) d.map.device_size) read_out_of_bounds)
    (out, cursor) ← read_loop len len offset []
    modify (read_ahead cursor)
    pure out

  -- What a write starts from: a whole object is not read before it is overwritten.
  pub base_object : ℕ → ℕ → ℕ → Action (List ℕ)
  base_object id at n d =
      if at == 0 && n == d.map.object_size
      then (ok (replicate d.map.object_size 0), d)
      else read_object id d

  -- The loop of `write_at` on the bytes that are left.
  unfoldable pub write_loop : ℕ → ℕ → List ℕ → Action (Unit {0})
  unfolding base_object
  write_loop fuel cursor [] = pure tt
  write_loop zero cursor (b ∷ bytes) = raise out_of_fuel
  write_loop (suc fuel) cursor (b ∷ bytes) = do
    d ← gets (λ d. d)
    (id, at) ← lift (locate d.map cursor)
    let n = min (length (b ∷ bytes)) (d.map.object_size - at)
    object ← base_object id at n
    write_dirty_object id (splice object at (take n (b ∷ bytes))) at n
    write_loop fuel (add_u64 cursor n) (drop n (b ∷ bytes))

  unfoldable pub write_at : ℕ → List ℕ → Action (Unit {0})
  unfolding write_loop
  write_at offset bytes = do
    d ← gets (λ d. d)
    lift (ensure (leb (add_u64 offset (length bytes)) d.map.device_size) write_out_of_bounds)
    write_loop (length bytes) offset bytes

  abbrev discard : Option RemoteObjectRef → List RemoteObjectRef → List RemoteObjectRef
  discard none garbage = garbage
  discard (some old) garbage = garbage ++ old ∷ []

  -- The manifest with the upload of one object entered.
  unfoldable pub entered :
      ManifestObject → DirtyObject → RemoteObjectRef → Text → Manifest → Manifest
  entered old row remote sha m = record m {
    objects =
        replace_object row.object_id
          (record old {
            generation = row.generation;
            remote = some remote;
            sha256 = some sha;
            zero = false;
          })
          m.objects;
    garbage = discard old.remote m.garbage;
  }

  -- One round of the loop of `flush`.
  pub upload : DirtyObject → Action (Unit {0})
  unfolding entered
  upload row = do
    d ← gets (λ d. d)
    encoded ← lift (ok_or (d.store.files row.cache_path) (file_not_found row.cache_path))
    envelope ← lift (map_err format (decode D encoded row.object_id row.generation))
    let sha = sha256_hex D encoded
    lift (ensure (text_eq sha row.sha256) dirty_checksum_mismatch)
    remote ← in_backend (B.send_object row.object_id row.generation encoded sha)
    count (record_upload d.elapsed)
    d ← gets (λ d. d)
    old ← lift (
        ok_or (find_object row.object_id d.manifest.objects)
          (manifest_missing_object row.object_id))
    modify (λ d. record d { manifest = entered old row remote sha d.manifest })

  pub upload_all : List DirtyObject → Action (Unit {0})
  unfolding upload
  upload_all [] = pure tt
  upload_all (row ∷ rows) = do upload row; upload_all rows

  abbrev pub commit_with : Option (ManifestCommitter B) → Action (Unit {0})
  commit_with none d = (ok tt, d)
  commit_with (some c) d =
      in_backend (c d.manifest d.map.device_size d.map.logical_sector_size d.map.object_size) d

  pub commit : Action (Unit {0})
  commit d = commit_with d.committer d

  abbrev pub next_generation : Option ℕ → Manifest → ℕ
  next_generation none m = add_u64 m.generation 1
  next_generation (some g) m = g

  pub flush_dirty : List DirtyObject → Action (Unit {0})
  unfolding upload_all commit
  flush_dirty [] = pure tt
  flush_dirty (row ∷ rows) = do
    modify (λ d. record d {
      manifest = record d.manifest {
        generation = next_generation (max_generation (row ∷ rows)) d.manifest;
      };
    })
    upload_all (row ∷ rows)
    commit
    d ← gets (λ d. d)
    in_store (replace_from_manifest D J d.manifest)
    modify (λ d. record d { store = clear_dirty_and_wal d.store })

  unfoldable pub flush : Action (Unit {0})
  unfolding flush_dirty
  flush d = flush_dirty (dirty_objects d.store) d
