-- ===== src/Prelude/Table.antt =====
-- A table of a database as a list of rows; the test of a `WHERE` clause picks rows.
use mathlib.Core.Path.{◌≡◌, refl}
use mathlib.Core.Bool.{Bool, true, false}
use mathlib.Core.Option.{Option, none, some}
use mathlib.Core.List.{List, [], ◌∷◌}
use native.Mathlib.Omega.{arith}
use Prim.Native.Nat.{ℕ, suc, ◌≤◌, ◌<◌}
use mathlib.Core.Logic.{◌≢◌}
use telegram_block_device.Prelude.Tests.{if◌then◌else◌, ltb, ◌==◌}
use telegram_block_device.Prelude.Lists.{length}

module _ {ℓ} {A : Type ℓ} where
  -- SELECT of at most one row
  unfoldable pub find : (A → Bool) → List A → Option A
  find p [] = none
  find p (x ∷ xs) = if p x then some x else find p xs

  -- DELETE … WHERE
  unfoldable pub delete : (A → Bool) → List A → List A
  delete p [] = []
  delete p (x ∷ xs) = let rest = delete p xs in if p x then rest else x ∷ rest

  -- SELECT … WHERE
  unfoldable pub select : (A → Bool) → List A → List A
  select p [] = []
  select p (x ∷ xs) = let rest = select p xs in if p x then x ∷ rest else rest

  -- INSERT OR REPLACE, where `p` tests for the primary key of the new row
  unfoldable pub upsert : (A → Bool) → A → List A → List A
  upsert p x xs = x ∷ delete p xs

  pub find-delete_self : (p : A → Bool) (xs : List A) → find p (delete p xs) ≡ none
  unfolding find delete
  find-delete_self p [] = refl
  find-delete_self p (x ∷ xs) = ground (arith, find-delete_self p xs)

  -- A row that the deletion does not pick is found as before.
  pub find-delete_ne :
      (p q : A → Bool) (xs : List A)
      → ((x : A) → p x ≡ true → q x ≡ false)
      → find p (delete q xs) ≡ find p xs
  unfolding find delete
  find-delete_ne p q [] h = refl
  find-delete_ne p q (x ∷ xs) h = ground (arith, h x, find-delete_ne p q xs h)

  pub find-upsert_self :
      (p : A → Bool) (x : A) (xs : List A) → p x ≡ true → find p (upsert p x xs) ≡ some x
  unfolding find upsert
  find-upsert_self p x xs h = rw h

  pub find-upsert_ne :
      (p q : A → Bool) (x : A) (xs : List A)
      → p x ≡ false
      → ((y : A) → p y ≡ true → q y ≡ false)
      → find p (upsert q x xs) ≡ find p xs
  unfolding find upsert
  find-upsert_ne p q x xs miss h = rw miss (find-delete_ne p q xs h)

  pub find_picks : (p : A → Bool) (xs : List A) (x : A) → find p xs ≡ some x → p x ≡ true
  unfolding find
  find_picks p [] x h = ground arith
  find_picks p (y ∷ ys) x h = ground (arith, find_picks p ys x)

-- A table whose key is its row number: the rows stand in key order, so `ORDER BY` the key reads them
-- as they are, and INSERT OR REPLACE writes at the key's place.
module _ {ℓ} {A : Type ℓ} (key : A → ℕ) where
  unfoldable pub put : A → List A → List A
  put r [] = r ∷ []
  put r (x ∷ xs) =
      if ltb (key r) (key x) then r ∷ x ∷ xs else if key x == key r then r ∷ xs else x ∷ put r xs

  unfoldable pub row_at : ℕ → List A → Option A
  row_at k [] = none
  row_at k (x ∷ xs) = if key x == k then some x else row_at k xs

  -- Keys rise, from `low` on.
  abbrev pub IsAscending : ℕ → List A → Type 0
  IsAscending low [] = Unit {0}
  IsAscending low (x ∷ xs) = (low ≤ key x) × IsAscending (suc (key x)) xs

  pub row_at-put_self : (r : A) (xs : List A) → row_at (key r) (put r xs) ≡ some r
  unfolding put row_at
  row_at-put_self r [] = ground arith
  row_at-put_self r (x ∷ xs) = ground (arith, row_at-put_self r xs)

  pub row_at-put_ne : (k : ℕ) (r : A) (xs : List A) → key r ≢ k → row_at k (put r xs) ≡ row_at k xs
  unfolding put row_at
  row_at-put_ne k r [] h = ground arith
  row_at-put_ne k r (x ∷ xs) h = ground (arith, row_at-put_ne k r xs h)

  pub put-IsAscending :
      (low : ℕ) (r : A) (xs : List A)
      → IsAscending low xs
      → low ≤ key r
      → IsAscending low (put r xs)
  unfolding put
  put-IsAscending low r [] h le = (le, tt)
  put-IsAscending low r (x ∷ xs) h le = ground (arith, put-IsAscending (suc (key x)) r xs h.1)

  pub row_at_below : (low k : ℕ) (xs : List A) → IsAscending low xs → k < low → row_at k xs ≡ none
  unfolding row_at
  row_at_below low k [] h lt = refl
  row_at_below low k (x ∷ xs) h lt = ground (arith, row_at_below (suc (key x)) k xs h.1)

  pub row_at_key : (k : ℕ) (xs : List A) (r : A) → row_at k xs ≡ some r → key r ≡ k
  unfolding row_at
  row_at_key k [] r h = ground arith
  row_at_key k (x ∷ xs) r h = ground (arith, row_at_key k xs r)

  pub length-put : (r : A) (xs : List A) → length (put r xs) ≤ suc (length xs)
  unfolding put
  length-put r [] = omega arith
  length-put r (x ∷ xs) = ground (arith, length-put r xs)
