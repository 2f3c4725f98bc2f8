-- ===== src/Cache.antt =====
-- The local store: crates/tgdrive-core/src/cache.rs, `LocalStore`. The SQLite database is a record of
-- its tables, and the object files a function from paths. Numbers that pass through SQLite's signed
-- integers (`as i64`) stay below 2^63. Statements and file writes succeed; a missing file, a failed
-- constraint and a checksum that does not match are the errors. `now` is the stamp of the clock, in
-- the order of SQLite's text comparison. The columns `updated_at` and `created_at` and the row number
-- of a log entry are never read, and left out.
pub mod Paths
pub mod Evict
pub mod Lru
use telegram_block_device.Prelude.{
  ℕ, zero, suc, ◌+◌, ◌-◌, ◌%◌, ◌^◌, min, max, ◌≡◌, Bool, true, false, not, ◌&&◌, ◌||◌, Option, none,
  some, List, [], ◌∷◌, ◌++◌, map, Result, ok, err, Exec, take, length, ltb, leb, ◌==◌,
  if◌then◌else◌,
}
use telegram_block_device.Prelude.Table.{find, delete, select, upsert, put, row_at}
use telegram_block_device.Prelude.Bytes.{Text, codes, text_eq, hex16}
use telegram_block_device.Prelude.Sorting.{sort_by_key}
use telegram_block_device.Format.Digest.{Digest, sha256_hex}
use telegram_block_device.Format.Manifest.{
  RemoteObjectRef, ManifestObject, Manifest, ManifestJson, hash_hex,
}
use telegram_block_device.Errors.{Error, cache_checksum_mismatch, constraint}

pub record DirtyObject : Type 0 where
  pub object_id : ℕ
  pub generation : ℕ
  pub cache_path : Text
  pub sha256 : Text

pub record CacheEntry : Type 0 where
  pub object_id : ℕ
  pub generation : ℕ
  pub cache_path : Text
  pub sha256 : Text
  pub dirty : Bool
  pub last_access_at : ℕ

pub record WalEntry : Type 0 where
  pub object_id : ℕ
  pub offset : ℕ
  pub len : ℕ
  pub generation : ℕ
  pub sha256 : Text

pub record ObjectRow : Type 0 where
  pub object_id : ℕ
  pub generation : ℕ
  pub sha256 : Option Text
  pub zero : Bool

pub record RefRow : Type 0 where
  pub object_id : ℕ
  pub chat_id : ℕ
  pub message_id : ℕ
  pub generation : ℕ
  pub sha256 : Text

pub record ManifestState : Type 0 where
  pub device_uuid : ℕ
  pub generation : ℕ
  pub manifest_hash : Text
  pub manifest_json : List ℕ

pub record LocalStats : Type 0 where
  pub dirty_objects : ℕ
  pub cache_entries : ℕ
  pub wal_entries : ℕ

pub record LocalStore : Type 0 where
  pub cache_dir : Text
  pub files : Text → Option (List ℕ)
  pub manifest_state : Option ManifestState
  pub objects : List ObjectRow
  pub remote_refs : List RefRow
  pub dirty_rows : List DirtyObject
  pub wal_entries : List WalEntry
  pub cache_entries : List CacheEntry
  pub now : ℕ

-- `migrate` on a new database, with the files that the cache directory holds.
abbrev pub fresh : Text → (Text → Option (List ℕ)) → ℕ → LocalStore
fresh cache_dir files now = record {
  cache_dir = cache_dir;
  files = files;
  manifest_state = none;
  objects = [];
  remote_refs = [];
  dirty_rows = [];
  wal_entries = [];
  cache_entries = [];
  now = now;
}

-- `fs::write` and `fs::remove_file`
unfoldable pub write_file : Text → List ℕ → (Text → Option (List ℕ)) → Text → Option (List ℕ)
write_file path bytes files q = if text_eq path q then some bytes else files q

unfoldable pub remove_file : Text → (Text → Option (List ℕ)) → Text → Option (List ℕ)
remove_file path files q = if text_eq path q then none else files q

-- `{object_id:016x}-{generation:016x}.bin` in the folder `objects`
unfoldable pub object_path : Text → ℕ → ℕ → Text
object_path dir object_id generation =
    dir
    ++ (codes "/objects/" ++ (hex16 object_id ++ (codes "-" ++ (hex16 generation ++ codes ".bin"))))

abbrev pub cache_path : LocalStore → ℕ → ℕ → Text
cache_path s object_id generation = object_path s.cache_dir object_id generation

abbrev pub is_entry : ℕ → ℕ → CacheEntry → Bool
is_entry object_id generation row = row.object_id == object_id && row.generation == generation

-- COALESCE((SELECT dirty …), 0)
abbrev was_dirty : Option CacheEntry → Bool
was_dirty none = false
was_dirty (some row) = row.dirty

unfoldable pub put_entry : ℕ → ℕ → Text → Bool → LocalStore → LocalStore
put_entry object_id generation sha dirty s = record s {
  cache_entries =
      upsert (is_entry object_id generation)
        (record {
          object_id = object_id;
          generation = generation;
          cache_path = cache_path s object_id generation;
          sha256 = sha;
          dirty = dirty;
          last_access_at = s.now;
        })
        s.cache_entries;
}

unfoldable pub read_file :
    Digest → ℕ → ℕ → Text → Option (List ℕ) → Exec Error LocalStore (Option (List ℕ))
unfolding put_entry
read_file D object_id generation expected_sha none s = (ok none, s)
read_file D object_id generation expected_sha (some bytes) s =
    if not (text_eq (sha256_hex D bytes) expected_sha)
    then (err (cache_checksum_mismatch object_id), s)
    else (
      ok (some bytes),
      put_entry object_id generation expected_sha
          (was_dirty (find (is_entry object_id generation) s.cache_entries)) s,
    )

unfoldable pub read_cache : Digest → ℕ → ℕ → Text → Exec Error LocalStore (Option (List ℕ))
unfolding read_file
read_cache D object_id generation expected_sha s =
    read_file D object_id generation expected_sha (s.files (cache_path s object_id generation)) s

-- Returns the checksum of what was written.
unfoldable pub write_cache : Digest → ℕ → ℕ → List ℕ → Bool → LocalStore → Text × LocalStore
unfolding put_entry
write_cache D object_id generation bytes dirty s = (
  sha256_hex D bytes,
  put_entry object_id generation (sha256_hex D bytes) dirty
      (record s { files = write_file (cache_path s object_id generation) bytes s.files }),
)

-- The log ranges of one object version that overlap or adjoin [low, high].
unfoldable pub touches : ℕ → ℕ → ℕ → ℕ → WalEntry → Bool
touches object_id generation low high row =
    row.object_id == object_id
    && row.generation == generation
    && leb row.offset high
    && leb low (row.offset + row.len)

-- SELECT MIN(offset), MAX(offset + len)
unfoldable pub extent : List WalEntry → Option (ℕ × ℕ)
extent [] = none
extent (row ∷ rows) = elim (extent rows) [
  | none ↦ some (row.offset, row.offset + row.len)
  | some span ↦ some (min row.offset span.0, max (row.offset + row.len) span.1)
]

abbrev pub merged_range : ℕ → ℕ → Option (ℕ × ℕ) → ℕ × ℕ
merged_range low high none = (low, high)
merged_range low high (some span) = (min low span.0, max high span.1)

-- The log after a write to `len` bytes from `offset` on: ranges that it touches are merged into one.
unfoldable pub log_write : ℕ → ℕ → Text → ℕ → ℕ → List WalEntry → List WalEntry
unfolding touches extent
log_write object_id generation sha offset len rows =
    let high = (offset + len) % 2 ^ 64 in
    let (start, end) =
      merged_range offset high (extent (select (touches object_id generation offset high) rows)) in
    delete (touches object_id generation start end) rows
    ++ record {
      object_id = object_id;
      offset = start;
      len = end - start;
      generation = generation;
      sha256 = sha;
    }
      ∷ []

unfoldable pub mark_dirty : ℕ → ℕ → Text → Text → ℕ → ℕ → LocalStore → LocalStore
mark_dirty object_id generation path sha offset len s = record s {
  dirty_rows =
      put (λ row. row.object_id)
        (record { object_id = object_id; generation = generation; cache_path = path; sha256 = sha })
        s.dirty_rows;
  wal_entries = log_write object_id generation sha offset len s.wal_entries;
}

-- ORDER BY object_id, which is the order of the rows
unfoldable pub dirty_objects : LocalStore → List DirtyObject
dirty_objects s = s.dirty_rows

unfoldable pub dirty_object : LocalStore → ℕ → Option DirtyObject
dirty_object s object_id = row_at (λ row. row.object_id) object_id s.dirty_rows

unfoldable pub stats : LocalStore → LocalStats
stats s = record {
  dirty_objects = length s.dirty_rows;
  cache_entries = length s.cache_entries;
  wal_entries = length s.wal_entries;
}

abbrev clean : CacheEntry → CacheEntry
clean row = record row { dirty = false }

unfoldable pub clear_dirty_and_wal : LocalStore → LocalStore
clear_dirty_and_wal s = record s {
  dirty_rows = [];
  wal_entries = [];
  cache_entries = map clean s.cache_entries;
}

-- INSERT INTO objects, which fails on a second row with one key.
unfoldable pub insert_objects : List ManifestObject → List ObjectRow → Option (List ObjectRow)
insert_objects [] rows = some rows
insert_objects (o ∷ os) rows = elim (row_at (λ row. row.object_id) o.object_id rows) [
  | some _ ↦ none
  | none ↦ insert_objects os (
      put (λ row. row.object_id)
        (record {
          object_id = o.object_id;
          generation = o.generation;
          sha256 = o.sha256;
          zero = o.zero;
        })
        rows)
]

insert_refs : List ManifestObject → List RefRow → List RefRow
insert_refs [] rows = rows
insert_refs (o ∷ os) rows = insert_refs os (elim o.remote [
  | none ↦ rows
  | some r ↦
      put (λ row. row.object_id)
        (record {
          object_id = o.object_id;
          chat_id = r.chat_id;
          message_id = r.message_id;
          generation = r.generation;
          sha256 = r.sha256;
        })
        rows
])

-- One transaction: a failed constraint leaves the tables as they were. The keys of `remote_refs` are
-- among those of `objects`, so its own inserts cannot fail where those succeed.
unfoldable pub replace_from_manifest :
    Digest → ManifestJson → Manifest → Exec Error LocalStore (Unit {0})
unfolding insert_objects insert_refs
replace_from_manifest D J m s = elim (insert_objects m.objects []) [
  | none ↦ (err constraint, s)
  | some rows ↦ (
    ok tt,
    record s {
      objects = rows;
      remote_refs = insert_refs m.objects [];
      manifest_state = some (record {
        device_uuid = m.device_uuid;
        generation = m.generation;
        manifest_hash = hash_hex D J m;
        manifest_json = J.encode_json m;
      });
    },
  )
]

unfoldable pub load_manifest : ManifestJson → LocalStore → Result Error (Option Manifest)
load_manifest J s = elim s.manifest_state [
  | none ↦ ok none
  | some row ↦ elim (J.decode_json row.manifest_json) [ ok m ↦ ok (some m) | err e ↦ err e ]
]

unfoldable pub remote_ref : LocalStore → ℕ → Option RemoteObjectRef
remote_ref s object_id = elim (row_at (λ row. row.object_id) object_id s.remote_refs) [
  | none ↦ none
  | some row ↦ some (record {
    chat_id = row.chat_id;
    message_id = row.message_id;
    object_id = object_id;
    generation = row.generation;
    sha256 = row.sha256;
  })
]

abbrev is_clean : CacheEntry → Bool
is_clean row = not row.dirty

-- ORDER BY last_access_at ASC LIMIT …, which both statements use; rows of one stamp come in table order.
unfoldable pub victims : ℕ → List CacheEntry → List CacheEntry
victims to_remove rows =
    take to_remove (sort_by_key (λ row. row.last_access_at) (select is_clean rows))

unfoldable pub remove_files : List CacheEntry → (Text → Option (List ℕ)) → Text → Option (List ℕ)
unfolding remove_file
remove_files [] files = files
remove_files (row ∷ rows) files = remove_files rows (remove_file row.cache_path files)

unfoldable pub is_among : CacheEntry → List CacheEntry → Bool
is_among row [] = false
is_among row (x ∷ xs) = is_entry row.object_id row.generation x || is_among row xs

-- Returns how many entries were evicted. The subquery of the deletion picks clean rows only.
unfoldable pub evict_clean_lru : ℕ → LocalStore → ℕ × LocalStore
unfolding victims remove_files is_among
evict_clean_lru max_entries s =
    let count = length (select is_clean s.cache_entries) in
    let rows = victims (count - max_entries) s.cache_entries in
    if leb count max_entries then (0, s) else (
      count - max_entries,
      record s {
        files = remove_files rows s.files;
        cache_entries = delete (λ row. is_clean row && is_among row rows) s.cache_entries;
      },
    )
