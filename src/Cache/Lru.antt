-- ===== src/Cache/Lru.antt =====
-- Rows of the table of cached objects that an eviction picks: crates/tgdrive-core/src/cache.rs.
use telegram_block_device.Prelude.{
  ℕ, zero, suc, ◌≡◌, refl, ap, true, false, ◌&&◌, Bool, Bool-cases, inl, inr, List, [], ◌∷◌, take,
  drop, leb, arith,
}
use telegram_block_device.Prelude.Table.{delete, select}
use telegram_block_device.Prelude.Sorting.{
  Shuffle, nil, insert, Inserted, here, there, sort_by_key, sort_in,
}
use telegram_block_device.Cache.{CacheEntry, is_entry, is_among}

-- No row has the primary key of `x`.
abbrev pub Misses : CacheEntry → List CacheEntry → Type 0
Misses x [] = Unit {0}
Misses x (y ∷ ys) = (is_entry y.object_id y.generation x ≡ false) × Misses x ys

-- No two rows have one primary key.
abbrev pub HasKeys : List CacheEntry → Type 0
HasKeys [] = Unit {0}
HasKeys (x ∷ xs) = Misses x xs × HasKeys xs

Misses-select :
    (p : CacheEntry → Bool) (x : CacheEntry) (ys : List CacheEntry)
    → Misses x ys
    → Misses x (select p ys)
unfolding select
Misses-select p x [] h = tt
Misses-select p x (y ∷ ys) (e, h) = ground (arith, Misses-select p x ys h)

pub HasKeys-select :
    (p : CacheEntry → Bool) (xs : List CacheEntry) → HasKeys xs → HasKeys (select p xs)
unfolding select
HasKeys-select p [] h = tt
HasKeys-select p (x ∷ xs) (m, h) = ground (arith, HasKeys-select p xs h, Misses-select p x xs m)

swap :
    (x y : CacheEntry)
    → is_entry y.object_id y.generation x ≡ false
    → is_entry x.object_id x.generation y ≡ false
swap x y h = ground arith

abbrev by_access : CacheEntry → ℕ
by_access row = row.last_access_at

Misses-sort_in :
    (x y : CacheEntry) (ys : List CacheEntry)
    → is_entry y.object_id y.generation x ≡ false
    → Misses x ys
    → Misses x (sort_in by_access y ys)
unfolding sort_in
Misses-sort_in x y [] e h = (e, tt)
Misses-sort_in x y (z ∷ zs) e (k, h) = elim (Bool-cases (leb (by_access y) (by_access z))) [
  | inl before ↦ rw before (e, (k, h))
  | inr behind ↦ rw behind (k, Misses-sort_in x y zs e h)
]

HasKeys-sort_in :
    (x : CacheEntry) (ys : List CacheEntry)
    → Misses x ys
    → HasKeys ys
    → HasKeys (sort_in by_access x ys)
unfolding sort_in
HasKeys-sort_in x [] m h = (tt, tt)
HasKeys-sort_in x (y ∷ ys) (e, m) (k, h) = elim (Bool-cases (leb (by_access x) (by_access y))) [
  | inl before ↦ rw before ((e, m), (k, h))
  | inr behind ↦ rw behind (Misses-sort_in y x ys (swap x y e) k, HasKeys-sort_in x ys m h)
]

Misses-sort_by_key :
    (x : CacheEntry) (ys : List CacheEntry) → Misses x ys → Misses x (sort_by_key by_access ys)
unfolding sort_by_key
Misses-sort_by_key x [] h = tt
Misses-sort_by_key x (y ∷ ys) (e, h) =
    Misses-sort_in x y (sort_by_key by_access ys) e (Misses-sort_by_key x ys h)

pub HasKeys-sort_by_key : (xs : List CacheEntry) → HasKeys xs → HasKeys (sort_by_key by_access xs)
unfolding sort_by_key
HasKeys-sort_by_key [] h = tt
HasKeys-sort_by_key (x ∷ xs) (m, h) =
    HasKeys-sort_in x (sort_by_key by_access xs) (Misses-sort_by_key x xs m)
      (HasKeys-sort_by_key xs h)

delete_none : (xs : List CacheEntry) → delete (λ row. is_among row []) xs ≡ xs
unfolding delete is_among
delete_none [] = refl
delete_none (x ∷ xs) = ap (λ t. x ∷ t) (delete_none xs)

delete_missed :
    (x : CacheEntry) (gone xs : List CacheEntry)
    → Misses x xs
    → delete (λ row. is_among row (x ∷ gone)) xs ≡ delete (λ row. is_among row gone) xs
unfolding delete is_among
delete_missed x gone [] h = refl
delete_missed x gone (y ∷ ys) (e, h) = rw (e, delete_missed x gone ys h) refl

self : (x : CacheEntry) → is_entry x.object_id x.generation x ≡ true
self x = ground arith

-- To delete the first rows leaves the others.
pub delete-take :
    (n : ℕ) (xs : List CacheEntry)
    → HasKeys xs
    → delete (λ row. is_among row (take n xs)) xs ≡ drop n xs
unfolding delete is_among
delete-take zero xs h = delete_none xs
delete-take (suc n) [] h = refl
delete-take (suc n) (x ∷ xs) (m, h) =
    rw (self x, delete_missed x (take n xs) xs m) (delete-take n xs h)

module _ (p : CacheEntry → Bool) where
  delete-Inserted_out :
      {x : CacheEntry} {ys zs : List CacheEntry}
      → Inserted x ys zs
      → p x ≡ true
      → delete p zs ≡ delete p ys
  unfolding delete
  delete-Inserted_out (here ys) e = rw e refl
  delete-Inserted_out (there y i) e = elim (Bool-cases (p y)) [
    | inl out ↦ rw out (delete-Inserted_out i e)
    | inr stays ↦ rw stays (ap (λ t. y ∷ t) (delete-Inserted_out i e))
  ]

  delete-Inserted :
      {x : CacheEntry} {ys zs : List CacheEntry}
      → Inserted x ys zs
      → p x ≡ false
      → Inserted x (delete p ys) (delete p zs)
  unfolding delete
  delete-Inserted (here ys) e = rw e (here (delete p ys))
  delete-Inserted (there y i) e = elim (Bool-cases (p y)) [
    | inl out ↦ rw out (delete-Inserted i e)
    | inr stays ↦ rw stays (there y (delete-Inserted i e))
  ]

  pub delete-Shuffle :
      {xs zs : List CacheEntry} → Shuffle xs zs → Shuffle (delete p xs) (delete p zs)
  unfolding delete
  delete-Shuffle nil = nil
  delete-Shuffle (insert {x = x} s i) = elim (Bool-cases (p x)) [
    | inl out ↦ rw (out, delete-Inserted_out i out) (delete-Shuffle s)
    | inr stays ↦ rw stays (insert (delete-Shuffle s) (delete-Inserted i stays))
  ]

pub select-delete :
    (p q : CacheEntry → Bool) (xs : List CacheEntry)
    → select p (delete (λ row. p row && q row) xs) ≡ delete q (select p xs)
unfolding select delete
select-delete p q [] = refl
select-delete p q (x ∷ xs) = ground (arith, select-delete p q xs)
