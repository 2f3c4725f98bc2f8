-- ===== src/Telegram/Distinct.antt =====
-- Numbers without repeats, for which `get_messages_by_id` finds every message.
use telegram_block_device.Prelude.{
  ℕ, zero, suc, ◌+◌, ◌<◌, ◌≡◌, refl, ap₂, Option, List, [], ◌∷◌, ◌++◌, map, arith, ◌==◌, false,
}
use telegram_block_device.Telegram.Chats.{once, without}

abbrev pub Lacks : ℕ → List ℕ → Type 0
Lacks id [] = Unit {0}
Lacks id (j ∷ js) = ((j == id) ≡ false) × Lacks id js

abbrev pub Distinct : List ℕ → Type 0
Distinct [] = Unit {0}
Distinct (id ∷ ids) = Lacks id ids × Distinct ids

Lacks-append : (id : ℕ) (xs ys : List ℕ) → Lacks id (xs ++ ys) → Lacks id xs
Lacks-append id [] ys h = tt
Lacks-append id (x ∷ xs) ys (e, h) = (e, Lacks-append id xs ys h)

pub Distinct-front : (xs ys : List ℕ) → Distinct (xs ++ ys) → Distinct xs
Distinct-front [] ys h = tt
Distinct-front (x ∷ xs) ys (l, h) = (Lacks-append x xs ys l, Distinct-front xs ys h)

pub Distinct-back : (xs ys : List ℕ) → Distinct (xs ++ ys) → Distinct ys
Distinct-back [] ys h = h
Distinct-back (x ∷ xs) ys (l, h) = Distinct-back xs ys h

-- The numbers from `n` on.
abbrev pub from : ℕ → ℕ → List ℕ
from n zero = []
from n (suc k) = n ∷ from (n + 1) k

Lacks-from : (id n k : ℕ) → id < n → Lacks id (from n k)
Lacks-from id n zero lt = tt
Lacks-from id n (suc k) lt = (ground arith, Lacks-from id (n + 1) k (omega arith))

pub Distinct-from : (n k : ℕ) → Distinct (from n k)
Distinct-from n zero = tt
Distinct-from n (suc k) = (Lacks-from n (n + 1) k (omega arith), Distinct-from (n + 1) k)

module _ {A : Type 0} where
  abbrev Agree : (ℕ → Option A) → (ℕ → Option A) → List ℕ → Type 0
  Agree g f [] = Unit {0}
  Agree g f (id ∷ ids) = (g id ≡ f id) × Agree g f ids

  Agree-refl : (f : ℕ → Option A) (ids : List ℕ) → Agree f f ids
  Agree-refl f [] = tt
  Agree-refl f (id ∷ ids) = (refl, Agree-refl f ids)

  Agree-without :
      (g f : ℕ → Option A) (id : ℕ) (ids : List ℕ)
      → Lacks id ids
      → Agree g f ids
      → Agree (without id g) f ids
  Agree-without g f id [] l h = tt
  Agree-without g f id (j ∷ js) (e, l) (k, h) = (rw e k, Agree-without g f id js l h)

  once-Agree :
      (g f : ℕ → Option A) (ids : List ℕ) → Distinct ids → Agree g f ids → once g ids ≡ map f ids
  once-Agree g f [] d h = refl
  once-Agree g f (id ∷ ids) (l, d) (k, h) =
      ap₂ (λ x xs. x ∷ xs) k (once-Agree (without id g) f ids d (Agree-without g f id ids l h))

  -- Without repeats, every number is answered.
  pub once-Distinct : (f : ℕ → Option A) (ids : List ℕ) → Distinct ids → once f ids ≡ map f ids
  once-Distinct f ids d = once-Agree f f ids d (Agree-refl f ids)
