-- ===== src/Cache/Evict.antt =====
-- Eviction spares what is dirty.
use telegram_block_device.Prelude.{
  ℕ, ◌-◌, ◌≡◌, false, not, Option, none, List, [], ◌∷◌, ◌++◌, length,
}
use telegram_block_device.Prelude.Bytes.{Text, text_eq}
use telegram_block_device.Prelude.Table.{select}
use telegram_block_device.Prelude.Sorting.{Shuffle, AllBefore}
use telegram_block_device.Cache.{LocalStore, CacheEntry}

-- No entry of `rows` is of the file at `path`.
abbrev pub Spares : Text → List CacheEntry → Type 0
Spares path [] = Unit {0}
Spares path (row ∷ rows) = (text_eq row.cache_path path ≡ false) × Spares path rows

-- The file of no row is there.
abbrev pub AllGone : (Text → Option (List ℕ)) → List CacheEntry → Type 0
AllGone files [] = Unit {0}
AllGone files (row ∷ rows) = (files row.cache_path ≡ none) × AllGone files rows

abbrev clean_rows : List CacheEntry → List CacheEntry
clean_rows rows = select (λ row. not row.dirty) rows

-- What an eviction down to `max_entries` leaves. The clean entries are those that are gone and those that
-- are kept; what is gone was used no later than what is kept, and its files are removed. The dirty
-- entries, the dirty rows and the file at `path` stay.
pub record Evicts (max_entries : ℕ) (s : LocalStore) (path : Text) (r : ℕ × LocalStore)
    : Type 0 where
  pub gone : List CacheEntry
  pub kept : List CacheEntry
  pub parts : Shuffle (clean_rows s.cache_entries) (gone ++ kept)
  pub left : Shuffle (clean_rows r.1.cache_entries) kept
  pub count : r.0 ≡ length (clean_rows s.cache_entries) - max_entries
  pub as_many : length gone ≡ r.0
  pub oldest : AllBefore (λ row. row.last_access_at) gone kept
  pub removed : AllGone r.1.files gone
  pub entries :
      select (λ row. row.dirty) r.1.cache_entries ≡ select (λ row. row.dirty) s.cache_entries
  pub rows : r.1.dirty_rows ≡ s.dirty_rows
  pub file : r.1.files path ≡ s.files path
