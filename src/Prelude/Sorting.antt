-- ===== src/Prelude/Sorting.antt =====
-- `sort_by_key`, which is stable, and that it undoes a shuffle of keys that are all different.
use mathlib.Core.Path.{◌≡◌, refl, sym, ap, ◌∙◌}
use mathlib.Core.List.{List, [], ◌∷◌}
use native.Mathlib.Omega.{arith}
use Prim.Native.Nat.{ℕ, zero, suc, ◌≤◌, ◌<◌}
use mathlib.Core.Logic.{inl, inr}
use telegram_block_device.Prelude.Lists.{take, drop, length}
use telegram_block_device.Prelude.Tests.{if◌then◌else◌, leb, Bool-cases}

module _ {ℓ} {A : Type ℓ} where
  -- `zs` is `ys` with `x` put in somewhere.
  pub data Inserted (x : A) : List A → List A → Type ℓ where
    here : (ys : List A) → Inserted x ys (x ∷ ys)
    there : (y : A) {ys zs : List A} → Inserted x ys zs → Inserted x (y ∷ ys) (y ∷ zs)

  -- The second list has the elements of the first in any order.
  pub data Shuffle : List A → List A → Type ℓ where
    nil : Shuffle [] []
    insert : {x : A} {xs ys zs : List A} → Shuffle xs ys → Inserted x ys zs → Shuffle (x ∷ xs) zs

  length-Inserted : {x : A} {ys zs : List A} → Inserted x ys zs → length zs ≡ suc (length ys)
  length-Inserted (here ys) = refl
  length-Inserted (there y i) = ap suc (length-Inserted i)

  pub length-Shuffle : {xs zs : List A} → Shuffle xs zs → length xs ≡ length zs
  length-Shuffle nil = refl
  length-Shuffle (insert s i) = ap suc (length-Shuffle s) ∙ sym (length-Inserted i)

module _ {ℓ} {A : Type ℓ} (key : A → ℕ) where
  unfoldable pub sort_in : A → List A → List A
  sort_in x [] = x ∷ []
  sort_in x (y ∷ ys) =
      let rest = sort_in x ys in if leb (key x) (key y) then x ∷ y ∷ ys else y ∷ rest

  unfoldable pub sort_by_key : List A → List A
  unfolding sort_in
  sort_by_key [] = []
  sort_by_key (x ∷ xs) = sort_in x (sort_by_key xs)

  -- Every key is above `k`.
  abbrev pub Above : ℕ → List A → Type 0
  Above k [] = Unit {0}
  Above k (x ∷ xs) = (k < key x) × Above k xs

  -- Every key is below those behind it.
  abbrev pub IsRising : List A → Type 0
  IsRising [] = Unit {0}
  IsRising (x ∷ xs) = Above (key x) xs × IsRising xs

  Above-sort_in : (k : ℕ) (x : A) (ys : List A) → k < key x → Above k ys → Above k (sort_in x ys)
  unfolding sort_in
  Above-sort_in k x [] lt a = (lt, tt)
  Above-sort_in k x (y ∷ ys) lt (low, a) = ground (arith, Above-sort_in k x ys lt a)

  Above-sort_by_key : (k : ℕ) (ys : List A) → Above k ys → Above k (sort_by_key ys)
  unfolding sort_by_key
  Above-sort_by_key k [] a = tt
  Above-sort_by_key k (y ∷ ys) (low, a) =
      Above-sort_in k y (sort_by_key ys) low (Above-sort_by_key k ys a)

  sort_in_front : (x : A) (ys : List A) → Above (key x) ys → sort_in x ys ≡ x ∷ ys
  unfolding sort_in
  sort_in_front x [] a = refl
  sort_in_front x (y ∷ ys) (low, a) = ground arith

  sort_in_behind : (x y : A) (ys : List A) → key x < key y → sort_in y (x ∷ ys) ≡ x ∷ sort_in y ys
  unfolding sort_in
  sort_in_behind x y ys lt = ground arith

  sort_by_key-Inserted :
      (x : A) (ys zs : List A)
      → Inserted x ys zs
      → Above (key x) ys
      → sort_by_key zs ≡ x ∷ sort_by_key ys
  unfolding sort_by_key
  sort_by_key-Inserted x ys _ (here _) a =
      sort_in_front x (sort_by_key ys) (Above-sort_by_key (key x) ys a)
  sort_by_key-Inserted x (y ∷ ys) (_ ∷ zs) (there _ i) (low, a) =
      ap (sort_in y) (sort_by_key-Inserted x ys zs i a) ∙ sort_in_behind x y (sort_by_key ys) low

  Above-Inserted :
      (k : ℕ) (x : A) (ys zs : List A) → Inserted x ys zs → k < key x → Above k ys → Above k zs
  Above-Inserted k x ys _ (here _) lt a = (lt, a)
  Above-Inserted k x (y ∷ ys) (_ ∷ zs) (there _ i) lt (low, a) =
      (low, Above-Inserted k x ys zs i lt a)

  Above-Shuffle : (k : ℕ) (xs zs : List A) → Shuffle xs zs → Above k xs → Above k zs
  Above-Shuffle k [] [] nil a = tt
  Above-Shuffle k [] (_ ∷ _) none_fits a = elim none_fits [ ]
  Above-Shuffle k (x ∷ xs) zs (insert {ys = ys} s i) (lt, a) =
      Above-Inserted k x ys zs i lt (Above-Shuffle k xs ys s a)

  pub sort_by_key-Shuffle : (xs zs : List A) → Shuffle xs zs → IsRising xs → sort_by_key zs ≡ xs
  unfolding sort_by_key
  sort_by_key-Shuffle [] [] nil r = refl
  sort_by_key-Shuffle [] (_ ∷ _) none_fits r = elim none_fits [ ]
  sort_by_key-Shuffle (x ∷ xs) zs (insert {ys = ys} s i) (a, r) =
      sort_by_key-Inserted x ys zs i (Above-Shuffle (key x) xs ys s a)
      ∙ ap (λ t. x ∷ t) (sort_by_key-Shuffle xs ys s r)

  Inserted-sort_in : (x : A) (ys : List A) → Inserted x ys (sort_in x ys)
  unfolding sort_in
  Inserted-sort_in x [] = here []
  Inserted-sort_in x (y ∷ ys) = elim (Bool-cases (leb (key x) (key y))) [
    | inl before ↦ rw before (here (y ∷ ys))
    | inr behind ↦ rw behind (there y (Inserted-sort_in x ys))
  ]

  pub Shuffle-sort_by_key : (xs : List A) → Shuffle xs (sort_by_key xs)
  unfolding sort_by_key
  Shuffle-sort_by_key [] = nil
  Shuffle-sort_by_key (x ∷ xs) =
      insert (Shuffle-sort_by_key xs) (Inserted-sort_in x (sort_by_key xs))

  -- No key is below `k`.
  abbrev pub AtLeast : ℕ → List A → Type 0
  AtLeast k [] = Unit {0}
  AtLeast k (x ∷ xs) = (k ≤ key x) × AtLeast k xs

  -- No key is above one behind it.
  abbrev pub IsSorted : List A → Type 0
  IsSorted [] = Unit {0}
  IsSorted (x ∷ xs) = AtLeast (key x) xs × IsSorted xs

  AtLeast-mono : (j k : ℕ) (xs : List A) → j ≤ k → AtLeast k xs → AtLeast j xs
  AtLeast-mono j k [] le h = tt
  AtLeast-mono j k (x ∷ xs) le (low, h) = (omega arith, AtLeast-mono j k xs le h)

  AtLeast-sort_in :
      (k : ℕ) (x : A) (ys : List A) → k ≤ key x → AtLeast k ys → AtLeast k (sort_in x ys)
  unfolding sort_in
  AtLeast-sort_in k x [] le h = (le, tt)
  AtLeast-sort_in k x (y ∷ ys) le (low, h) = ground (arith, AtLeast-sort_in k x ys le h)

  sort_in-IsSorted : (x : A) (ys : List A) → IsSorted ys → IsSorted (sort_in x ys)
  unfolding sort_in
  sort_in-IsSorted x [] h = (tt, tt)
  sort_in-IsSorted x (y ∷ ys) (low, h) = elim (Bool-cases (leb (key x) (key y))) [
    | inl before ↦
        let le : key x ≤ key y = ground arith in
        rw before ((le, AtLeast-mono (key x) (key y) ys le low), (low, h))
    | inr behind ↦
        rw behind (AtLeast-sort_in (key y) x ys (ground arith) low, sort_in-IsSorted x ys h)
  ]

  pub sort_by_key-IsSorted : (xs : List A) → IsSorted (sort_by_key xs)
  unfolding sort_by_key
  sort_by_key-IsSorted [] = tt
  sort_by_key-IsSorted (x ∷ xs) = sort_in-IsSorted x (sort_by_key xs) (sort_by_key-IsSorted xs)

  -- No key of the first list is above one of the second.
  abbrev pub AllBefore : List A → List A → Type 0
  AllBefore [] ys = Unit {0}
  AllBefore (x ∷ xs) ys = AtLeast (key x) ys × AllBefore xs ys

  AtLeast-drop : (k n : ℕ) (xs : List A) → AtLeast k xs → AtLeast k (drop n xs)
  AtLeast-drop k zero xs h = h
  AtLeast-drop k (suc n) [] h = tt
  AtLeast-drop k (suc n) (x ∷ xs) (low, h) = AtLeast-drop k n xs h

  pub AllBefore-IsSorted : (n : ℕ) (xs : List A) → IsSorted xs → AllBefore (take n xs) (drop n xs)
  AllBefore-IsSorted zero xs h = tt
  AllBefore-IsSorted (suc n) [] h = tt
  AllBefore-IsSorted (suc n) (x ∷ xs) (low, h) =
      (AtLeast-drop (key x) n xs low, AllBefore-IsSorted n xs h)
