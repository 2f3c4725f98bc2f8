-- ===== src/Prelude/Bytes.antt =====
-- Texts and byte strings as lists of numbers: equality, big-endian numbers, fixed-width hexadecimal.
use Prim.Native.Char.{code}
use Prim.Native.String.{String}
use Prim.Native.Nat.pow
use Prim.Native.Nat.{ℕ, zero, suc, ◌+◌, ◌-◌, ◌*◌, ◌/◌, ◌%◌, ◌^◌, ◌≤◌, ◌<◌}
use mathlib.Core.Path.{◌≡◌, refl, ap, ap₂, sym, ◌∙◌}
use mathlib.Core.Logic.{◌≢◌}
use mathlib.Core.Bool.{Bool, true, false, ◌&&◌}
use mathlib.Core.List.{List, [], ◌∷◌, ◌++◌, map, append-nil, append_assoc}
use native.Mathlib.Omega.{arith}
use native.Mathlib.Nat.{pow-suc, div-add-mod, mod-lt, add-zero}
use telegram_block_device.Prelude.Tests.{◌==◌, ltb, if◌then◌else◌}
use telegram_block_device.Prelude.Lists.{length, length-append, take, drop}

-- UTF-8 text, and the content of files and messages.
abbrev pub Text : Type 0
Text = List ℕ

-- The bytes of an ASCII literal.
abbrev pub codes : String → Text
codes String.[] = []
codes (String.◌∷◌ c s) = code c ∷ codes s

unfoldable pub text_eq : Text → Text → Bool
text_eq [] [] = true
text_eq (x ∷ xs) (y ∷ ys) = (x == y) && text_eq xs ys
text_eq _ _ = false

pub text_eq_refl : (s : Text) → text_eq s s ≡ true
unfolding text_eq
text_eq_refl [] = refl
text_eq_refl (x ∷ xs) = ground (arith, text_eq_refl xs)

pub text_eq→eq : (s t : Text) → text_eq s t ≡ true → s ≡ t
unfolding text_eq
text_eq→eq [] [] h = refl
text_eq→eq [] (y ∷ ys) h = ground arith
text_eq→eq (x ∷ xs) [] h = ground arith
text_eq→eq (x ∷ xs) (y ∷ ys) h = ground (arith, text_eq→eq xs ys)

pub text_ne : (s t : Text) → s ≢ t → text_eq s t ≡ false
text_ne s t h = ground (arith, text_eq→eq s t)

-- The last `w` digits of `n` in base `b`, the highest first: `to_be_bytes` at base 256, and the
-- digits of `{n:016x}` at base 16.
unfoldable pub digits_be : ℕ → ℕ → ℕ → List ℕ
digits_be b zero n = []
digits_be b (suc w) n = digits_be b w (n / b) ++ (n % b) ∷ []

value_from : ℕ → ℕ → List ℕ → ℕ
value_from b acc [] = acc
value_from b acc (d ∷ ds) = value_from b (acc * b + d) ds

-- `from_be_bytes` at base 256
unfoldable pub value_be : ℕ → List ℕ → ℕ
unfolding value_from
value_be b ds = value_from b 0 ds

pub length-digits_be : (b w n : ℕ) → length (digits_be b w n) ≡ w
unfolding digits_be
length-digits_be b zero n = refl
length-digits_be b (suc w) n =
    omega
      (arith, length-append (digits_be b w (n / b)) ((n % b) ∷ []), length-digits_be b w (n / b))

value_from-append :
    (b acc : ℕ) (xs : List ℕ) (d : ℕ)
    → value_from b acc (xs ++ d ∷ []) ≡ value_from b acc xs * b + d
unfolding value_from
value_from-append b acc [] d = refl
value_from-append b acc (x ∷ xs) d = value_from-append b (acc * b + x) xs d

div_bound : (b w n : ℕ) → n < b ^ suc w → n / b < b ^ w
div_bound b w n h = grind (arith, pow-suc b w, div-add-mod n b)

-- A number that fits `w` digits is read back.
pub value_be-digits_be : (b w n : ℕ) → n < b ^ w → value_be b (digits_be b w n) ≡ n
unfolding value_be digits_be
value_be-digits_be b zero n h = omega (arith, pow.zero b)
value_be-digits_be b (suc w) n h = rw (value_from-append b 0 (digits_be b w (n / b)) (n % b)) (
    omega (
      arith,
      ap (λ (t : ℕ). t * b) (unfold value_be in value_be-digits_be b w (n / b) (div_bound b w n h)),
      div-add-mod n b,
    ))

-- So the digits tell such numbers apart.
pub digits_be_injective :
    (b w m n : ℕ) → m < b ^ w → n < b ^ w → digits_be b w m ≡ digits_be b w n → m ≡ n
digits_be_injective b w m n hm hn e =
    sym (value_be-digits_be b w m hm) ∙ ap (value_be b) e ∙ value_be-digits_be b w n hn

abbrev pub IsBelow : ℕ → List ℕ → Type 0
IsBelow b [] = Unit {0}
IsBelow b (d ∷ ds) = (d < b) × IsBelow b ds

pub div_digit : (b v d : ℕ) → d < b → ((v * b + d) / b ≡ v) × ((v * b + d) % b ≡ d)
div_digit b v d h =
    let pos : 0 < b = omega arith in
    grind (arith, div-add-mod (v * b + d) b, mod-lt (v * b + d) pos)

digits_be-value_from :
    (b m v : ℕ) (ds : List ℕ)
    → IsBelow b ds
    → digits_be b (m + length ds) (value_from b v ds) ≡ digits_be b m v ++ ds
unfolding digits_be value_from
digits_be-value_from b m v [] h = rw add-zero (sym (append-nil (digits_be b m v)))
digits_be-value_from b m v (d ∷ ds) h =
    let e : m + suc (length ds) ≡ suc m + length ds = omega arith in
    let q : (v * b + d) / b ≡ v = (div_digit b v d h.0).0 in
    let r : (v * b + d) % b ≡ d = (div_digit b v d h.0).1 in
    rw e (
      digits_be-value_from b (suc m) (v * b + d) ds h.1
      ∙ ap (λ t. t ++ ds) (ap₂ (λ x y. digits_be b m x ++ y ∷ []) q r)
      ∙ append_assoc (digits_be b m v) (d ∷ []) ds)

-- Digits below the base are those of their value.
pub digits_be-value_be :
    (b : ℕ) (ds : List ℕ) → IsBelow b ds → digits_be b (length ds) (value_be b ds) ≡ ds
unfolding value_be digits_be
digits_be-value_be b ds h =
    let e : zero + length ds ≡ length ds = omega arith in rw e at (digits_be-value_from b 0 0 ds h)

-- `format!("{n:016x}")` of a u64
abbrev pub hex_digit : ℕ → ℕ
hex_digit d = if ltb d 10 then b'0' + d else b'a' + (d - 10)

unfoldable pub hex16 : ℕ → Text
hex16 n = map hex_digit (digits_be 16 16 n)

pub IsBelow-take : (b n : ℕ) (ds : List ℕ) → IsBelow b ds → IsBelow b (take n ds)
IsBelow-take b zero ds h = tt
IsBelow-take b (suc n) [] h = tt
IsBelow-take b (suc n) (d ∷ ds) h = (h.0, IsBelow-take b n ds h.1)

pub IsBelow-drop : (b n : ℕ) (ds : List ℕ) → IsBelow b ds → IsBelow b (drop n ds)
IsBelow-drop b zero ds h = h
IsBelow-drop b (suc n) [] h = tt
IsBelow-drop b (suc n) (d ∷ ds) h = IsBelow-drop b n ds h.1

mul_le : (x y z : ℕ) → x ≤ y → x * z ≤ y * z
mul_le x y z h = grind arith

value_from_bound :
    (b acc : ℕ) (ds : List ℕ) → IsBelow b ds → value_from b acc ds < (acc + 1) * b ^ length ds
unfolding value_from
value_from_bound b acc [] h = rw (pow.zero b) (omega arith)
value_from_bound b acc (d ∷ ds) h =
    grind (arith, value_from_bound b (acc * b + d) ds h.1, pow-suc b (length ds), scaled)
  where
    scaled : (acc * b + d + 1) * b ^ length ds ≤ (acc + 1) * (b ^ length ds * b)
    scaled = grind (arith, mul_le (acc * b + d + 1) ((acc + 1) * b) (b ^ length ds) (grind arith))

pub value_be_bound : (b : ℕ) (ds : List ℕ) → IsBelow b ds → value_be b ds < b ^ length ds
unfolding value_be
value_be_bound b ds h = omega (arith, value_from_bound b 0 ds h)

pub digits_be-IsBelow : (b w n : ℕ) → 0 < b → IsBelow b (digits_be b w n)
unfolding digits_be
digits_be-IsBelow b zero n pos = tt
digits_be-IsBelow b (suc w) n pos =
    IsBelow-snoc b (digits_be b w (n / b)) (n % b) (digits_be-IsBelow b w (n / b) pos)
      (mod-lt n pos)
  where
    IsBelow-snoc : (b : ℕ) (ds : List ℕ) (d : ℕ) → IsBelow b ds → d < b → IsBelow b (ds ++ d ∷ [])
    IsBelow-snoc b [] d h lt = (lt, tt)
    IsBelow-snoc b (x ∷ ds) d h lt = (h.0, IsBelow-snoc b ds d h.1 lt)

unhex_digit : ℕ → ℕ
unhex_digit c = if ltb c b':' then c - b'0' else c - b'W'

map-unhex_digit : (ds : List ℕ) → IsBelow 16 ds → map unhex_digit (map hex_digit ds) ≡ ds
unfolding unhex_digit
map-unhex_digit [] h = refl
map-unhex_digit (d ∷ ds) h = ground (arith, map-unhex_digit ds h.1)

pub hex16_injective : (m n : ℕ) → m < 2 ^ 64 → n < 2 ^ 64 → hex16 m ≡ hex16 n → m ≡ n
unfolding hex16
hex16_injective m n hm hn e = digits_be_injective 16 16 m n (omega arith) (omega arith) (
    sym (map-unhex_digit (digits_be 16 16 m) (digits_be-IsBelow 16 16 m (omega arith)))
    ∙ ap (map unhex_digit) e
    ∙ map-unhex_digit (digits_be 16 16 n) (digits_be-IsBelow 16 16 n (omega arith)))

pub length-hex16 : (n : ℕ) → length (hex16 n) ≡ 16
unfolding hex16
length-hex16 n = length-map_hex (digits_be 16 16 n) ∙ length-digits_be 16 16 n
  where
    length-map_hex : (ds : List ℕ) → length (map hex_digit ds) ≡ length ds
    length-map_hex [] = refl
    length-map_hex (d ∷ ds) = ap suc (length-map_hex ds)
