-- ===== src/Tests/Stores.antt =====
-- The theorems on the local store at concrete inputs.
use telegram_block_device.Prelude.{ℕ, true, false, none, [], ◌∷◌, Bool}
use telegram_block_device.Prelude.Bytes.{Text, codes}
use telegram_block_device.Cache.{LocalStore, CacheEntry, fresh}

abbrev entry : ℕ → Text → Bool → ℕ → CacheEntry
entry object_id cache_path dirty last_access_at = record {
  object_id = object_id;
  generation = 1;
  cache_path = cache_path;
  sha256 = [];
  dirty = dirty;
  last_access_at = last_access_at;
}

abbrev crowded : LocalStore
crowded = record (fresh [] (λ _. none) 9) {
  cache_entries =
      entry 0 (codes "0") false 5 ∷ entry 1 (codes "1") true 1 ∷ entry 2 (codes "2") false 3 ∷ [];
}
