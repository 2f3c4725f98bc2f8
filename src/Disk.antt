-- ===== src/Disk.antt =====
-- The abstract device: a byte for every address. Reads and writes of ranges, against the slices and
-- splices of the objects that store them.
use telegram_block_device.Prelude.{
  ℕ, zero, suc, ◌+◌, ◌-◌, ◌≤◌, ◌<◌, ◌≡◌, refl, sym, ◌∙◌, ap, ap₂, List, [], ◌∷◌, ◌++◌, length, take,
  drop, slice, splice, get_or, arith, ltb, if◌then◌else◌, ◌⊎◌, inl, inr, length-append,
  get_or-append_left, get_or-append_right,
}

-- The `n` bytes from `start` on.
unfoldable pub bytes_from : (ℕ → ℕ) → ℕ → ℕ → List ℕ
bytes_from f start zero = []
bytes_from f start (suc n) = f start ∷ bytes_from f (start + 1) n

-- The device after a write.
unfoldable pub overwrite : (ℕ → ℕ) → ℕ → List ℕ → ℕ → ℕ
overwrite f start bytes a =
    if ltb a start
    then f a
    else if ltb a (start + length bytes)
    then get_or bytes (a - start) 0
    else f a

pub length-bytes_from : (f : ℕ → ℕ) (start n : ℕ) → length (bytes_from f start n) ≡ n
unfolding bytes_from
length-bytes_from f start zero = refl
length-bytes_from f start (suc n) = ap suc (length-bytes_from f (start + 1) n)

pub bytes_from_eq :
    (f g : ℕ → ℕ) (start n : ℕ)
    → ((a : ℕ) → start ≤ a → a < start + n → f a ≡ g a)
    → bytes_from f start n ≡ bytes_from g start n
unfolding bytes_from
bytes_from_eq f g start zero h = refl
bytes_from_eq f g start (suc n) h =
    ap₂ (λ x xs. x ∷ xs) (h start (omega arith) (omega arith))
      (bytes_from_eq f g (start + 1) n (λ a p q. h a (omega arith) (omega arith)))

pub bytes_from-add :
    (f : ℕ → ℕ) (start m n : ℕ)
    → bytes_from f start (m + n) ≡ bytes_from f start m ++ bytes_from f (start + m) n
unfolding bytes_from
bytes_from-add f start zero n =
    let e : zero + n ≡ n = omega arith in let g : start + 0 ≡ start = omega arith in rw (e, g)
bytes_from-add f start (suc m) n =
    let e : suc m + n ≡ suc (m + n) = omega arith in
    let g : start + suc m ≡ start + 1 + m = omega arith in
    rw (e, g) (ap (λ t. f start ∷ t) (bytes_from-add f (start + 1) m n))

pub take-bytes_from :
    (f : ℕ → ℕ) (start k n : ℕ) → k ≤ n → take k (bytes_from f start n) ≡ bytes_from f start k
unfolding bytes_from
take-bytes_from f start zero n h = refl
take-bytes_from f start (suc k) zero h = absurd (omega arith)
take-bytes_from f start (suc k) (suc n) h =
    ap (λ t. f start ∷ t) (take-bytes_from f (start + 1) k n (omega arith))

pub drop-bytes_from :
    (f : ℕ → ℕ) (start k n : ℕ)
    → k ≤ n
    → drop k (bytes_from f start n) ≡ bytes_from f (start + k) (n - k)
unfolding bytes_from
drop-bytes_from f start zero n h =
    let e : n - 0 ≡ n = omega arith in let g : start + 0 ≡ start = omega arith in rw (e, g)
drop-bytes_from f start (suc k) zero h = absurd (omega arith)
drop-bytes_from f start (suc k) (suc n) h =
    let e : suc n - suc k ≡ n - k = omega arith in
    let g : start + suc k ≡ start + 1 + k = omega arith in
    rw (e, g) (drop-bytes_from f (start + 1) k n (omega arith))

-- A slice of an object is a range of the device.
pub slice-bytes_from :
    (f : ℕ → ℕ) (start at k n : ℕ)
    → at + k ≤ n
    → slice at (at + k) (bytes_from f start n) ≡ bytes_from f (start + at) k
slice-bytes_from f start at k n h =
    let e : at + k - at ≡ k = omega arith in
    rw (e, drop-bytes_from f start at n (omega arith))
      (take-bytes_from f (start + at) k (n - at) (omega arith))

get_or-shift :
    (b : ℕ) (bytes : List ℕ) (k : ℕ) → 0 < k → get_or (b ∷ bytes) k 0 ≡ get_or bytes (k - 1) 0
get_or-shift b bytes zero h = absurd (omega arith)
get_or-shift b bytes (suc k) h = let e : suc k - 1 ≡ k = omega arith in rw e

overwrite_tail :
    (f : ℕ → ℕ) (start b : ℕ) (bytes : List ℕ) (a : ℕ)
    → start + 1 ≤ a
    → overwrite f start (b ∷ bytes) a ≡ overwrite f (start + 1) bytes a
unfolding overwrite
overwrite_tail f start b bytes a h =
    let e : a - start - 1 ≡ a - (start + 1) = omega arith in
    ground (arith, get_or-shift b bytes (a - start), ap (λ k. get_or bytes k 0) e)

-- The range that was written holds what was written.
pub bytes_from-overwrite_self :
    (f : ℕ → ℕ) (start : ℕ) (bytes : List ℕ)
    → bytes_from (overwrite f start bytes) start (length bytes) ≡ bytes
unfolding bytes_from
bytes_from-overwrite_self f start [] = refl
bytes_from-overwrite_self f start (b ∷ bytes) =
    ap₂ (λ x xs. x ∷ xs) (first f start b bytes)
      (bytes_from_eq _ _ (start + 1) (length bytes) (λ a p q. overwrite_tail f start b bytes a p)
        ∙ bytes_from-overwrite_self f (start + 1) bytes)
  where
    first : (f : ℕ → ℕ) (start b : ℕ) (bytes : List ℕ) → overwrite f start (b ∷ bytes) start ≡ b
    first f start b bytes =
        let e : start - start ≡ 0 = omega arith in
        unfold overwrite in ground (arith, ap (λ k. get_or (b ∷ bytes) k 0) e)

pub overwrite_outside :
    (f : ℕ → ℕ) (start : ℕ) (bytes : List ℕ) (a : ℕ)
    → (a < start) ⊎ (start + length bytes ≤ a)
    → overwrite f start bytes a ≡ f a
unfolding overwrite
overwrite_outside f start bytes a h = ground arith

-- A splice into an object is a write to the device.
pub splice-bytes_from :
    (f : ℕ → ℕ) (start at n : ℕ) (bytes : List ℕ)
    → at + length bytes ≤ n
    → splice (bytes_from f start n) at bytes ≡ bytes_from (overwrite f (start + at) bytes) start n
splice-bytes_from f start at n bytes h =
    let w : ℕ → ℕ = overwrite f (start + at) bytes in
    let k : ℕ = length bytes in
    let e : at + (k + (n - (at + k))) ≡ n = omega arith in
    let g : start + (at + k) ≡ start + at + k = omega arith in
    ap₂ (λ x y. x ++ y)
      (take-bytes_from f start at n (omega arith)
        ∙ bytes_from_eq f w start at
            (λ a p q. sym (overwrite_outside f (start + at) bytes a (inl (omega arith)))))
      (ap₂ (λ x y. x ++ y) (sym (bytes_from-overwrite_self f (start + at) bytes))
        (drop-bytes_from f start (at + k) n (omega arith)
          ∙ ap (λ s. bytes_from f s (n - (at + k))) g
          ∙ bytes_from_eq f w (start + at + k) (n - (at + k))
              (λ a p q. sym (overwrite_outside f (start + at) bytes a (inr (omega arith))))))
    ∙ ap (λ t. bytes_from w start at ++ t) (sym (bytes_from-add w (start + at) k (n - (at + k))))
    ∙ sym (bytes_from-add w start at (k + (n - (at + k))))
    ∙ ap (bytes_from w start) e

-- Two writes, one behind the other, are one.
pub overwrite-append :
    (f : ℕ → ℕ) (start : ℕ) (xs ys : List ℕ) (a : ℕ)
    → overwrite (overwrite f start xs) (start + length xs) ys a ≡ overwrite f start (xs ++ ys) a
overwrite-append f start xs ys a = elim (ℕ-order a start) [
  | inl before ↦
      overwrite_outside _ (start + length xs) ys a (inl (omega arith))
      ∙ overwrite_outside f start xs a (inl before)
      ∙ sym (overwrite_outside f start (xs ++ ys) a (inl before))
  | inr behind ↦
      unfold overwrite in
      ground (
        arith,
        length-append xs ys,
        get_or-append_left xs ys (a - start) 0,
        get_or-append_right xs ys (a - start) (a - (start + length xs)) 0,
      )
]
  where
    ℕ-order : (a b : ℕ) → (a < b) ⊎ (b ≤ a)
    ℕ-order a b = grind arith
