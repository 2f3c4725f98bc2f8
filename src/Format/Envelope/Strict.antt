-- ===== src/Format/Envelope/Strict.antt =====
-- What `decode` accepts: the encoding of its result, with any two reserved bytes.
use telegram_block_device.Prelude.{
  ℕ, ◌+◌, ◌-◌, ◌%◌, ◌^◌, ◌≤◌, ◌<◌, ◌≡◌, refl, ap, ap₂, sym, subst, Bool, true, false, ==_iff, ◌∙◌,
  List, ◌++◌, ok, arith, length, drop, slice, length-drop, length-take, drop-drop, take-append-drop,
  append-nil, not, ltb, ◌==◌, passed, ok_injective,
}
use telegram_block_device.Prelude.Bytes.{
  length-digits_be, text_eq, text_eq→eq, digits_be, value_be, value_be_bound, digits_be-value_be,
  IsBelow, IsBelow-take, IsBelow-drop,
}
use telegram_block_device.Format.Digest.{Digest}
use telegram_block_device.Format.Envelope.{ObjectEnvelope, magic, layout, encode, decode}
use telegram_block_device.Format.Envelope.RoundTrip.{at_payload}

-- Every test that an accepted envelope has passed, and where its fields come from.
record Accepted (D : Digest) (bytes : List ℕ) (id generation : ℕ) (e : ObjectEnvelope)
    : Type 0 where
  long : ltb (length bytes) 76 ≡ false
  magic_at : not (text_eq (slice 0 8 bytes) magic) ≡ false
  version_at : not (value_be 256 (slice 8 10 bytes) == 1) ≡ false
  id_at : not (value_be 256 (slice 12 20 bytes) == id) ≡ false
  generation_at : not (value_be 256 (slice 20 28 bytes) == generation) ≡ false
  len_at : not (length bytes == (76 + value_be 256 (slice 28 36 bytes)) % 2 ^ 64) ≡ false
  sha_at : not (text_eq (D.sha256_bytes (drop 76 bytes)) (slice 40 72 bytes)) ≡ false
  fields :
      record {
        object_id = value_be 256 (slice 12 20 bytes);
        generation = value_be 256 (slice 20 28 bytes);
        object_size = value_be 256 (slice 36 40 bytes);
        flags = value_be 256 (slice 72 76 bytes);
        payload = drop 76 bytes;
      }
      ≡ e

decode-Accepted :
    (D : Digest) (bytes : List ℕ) (id generation : ℕ) (e : ObjectEnvelope)
    → decode D bytes id generation ≡ ok e
    → Accepted D bytes id generation e
unfolding decode
decode-Accepted D bytes id generation e h =
    let p₁ = passed _ _ _ h in
    let p₂ = passed _ _ _ p₁.1 in
    let p₃ = passed _ _ _ p₂.1 in
    let p₄ = passed _ _ _ p₃.1 in
    let p₅ = passed _ _ _ p₄.1 in
    let p₆ = passed _ _ _ p₅.1 in
    let p₇ = passed _ _ _ p₆.1 in
    record {
      long = p₁.0;
      magic_at = p₂.0;
      version_at = p₃.0;
      id_at = p₄.0;
      generation_at = p₅.0;
      len_at = p₆.0;
      sha_at = p₇.0;
      fields = ok_injective p₇.1;
    }

slice-drop : (m k : ℕ) (bytes : List ℕ) → m ≤ k → drop m bytes ≡ slice m k bytes ++ drop k bytes
slice-drop m k bytes h =
    let e : m + (k - m) ≡ k = omega arith in
    sym (take-append-drop (k - m) (drop m bytes))
    ∙ ap (λ t. slice m k bytes ++ t) (drop-drop m (k - m) bytes ∙ ap (λ n. drop n bytes) e)

length-slice :
    (m k : ℕ) (bytes : List ℕ) → k ≤ length bytes → m ≤ k → length (slice m k bytes) ≡ k - m
length-slice m k bytes h le = omega (arith, length-take (k - m) (drop m bytes), length-drop m bytes)

short_false : (n : ℕ) → ltb n 76 ≡ false → 76 ≤ n
short_false n h = ground arith

-- A field of the header is the big-endian form of the number read from it.
field_back :
    (m k w : ℕ) (bytes : List ℕ)
    → IsBelow 256 bytes
    → k ≤ length bytes
    → m + w ≡ k
    → slice m k bytes ≡ digits_be 256 w (value_be 256 (slice m k bytes))
field_back m k w bytes bs le e =
    let n : length (slice m k bytes) ≡ w = omega (arith, length-slice m k bytes le (omega arith)) in
    sym (
      ap (λ v. digits_be 256 v (value_be 256 (slice m k bytes))) (sym n)
      ∙ digits_be-value_be 256 (slice m k bytes)
          (IsBelow-take 256 (k - m) (drop m bytes) (IsBelow-drop 256 m bytes bs)))

peel :
    (m k : ℕ) (bytes field rest : List ℕ)
    → m ≤ k
    → slice m k bytes ≡ field
    → drop k bytes ≡ rest
    → drop m bytes ≡ field ++ rest
peel m k bytes field rest le f r = slice-drop m k bytes le ∙ ap₂ (λ x y. x ++ y) f r

not-false : (b : Bool) → not b ≡ false → b ≡ true
not-false true h = refl
not-false false h = cc

test_eq : (x y : ℕ) → not (x == y) ≡ false → x ≡ y
test_eq x y h = (==_iff x y).0 (not-false _ h)

-- The length field holds the number of bytes behind the header: its sum cannot have wrapped.
len_back :
    (bytes : List ℕ)
    → IsBelow 256 bytes
    → 76 ≤ length bytes
    → length bytes ≡ (76 + value_be 256 (slice 28 36 bytes)) % 2 ^ 64
    → value_be 256 (slice 28 36 bytes) ≡ length (drop 76 bytes)
len_back bytes bs long e = omega (arith, bound, length-drop 76 bytes)
  where
    bound : value_be 256 (slice 28 36 bytes) < 256 ^ 8
    bound =
        subst (λ w. value_be 256 (slice 28 36 bytes) < 256 ^ w)
          (length-slice 28 36 bytes (omega arith) (omega arith))
          (value_be_bound 256 (slice 28 36 bytes)
            (IsBelow-take 256 8 (drop 28 bytes) (IsBelow-drop 256 28 bytes bs)))

-- Of bytes below 256, `decode` accepts nothing but what `encode` could have written, up to the two
-- reserved bytes, and only under the identity that the caller expects.
pub decode_strict :
    (D : Digest) (bytes : List ℕ) (id generation : ℕ) (e : ObjectEnvelope)
    → IsBelow 256 bytes
    → decode D bytes id generation ≡ ok e
    → (bytes ≡ layout D (slice 10 12 bytes) e) × (e.object_id ≡ id) × (e.generation ≡ generation)
unfolding layout
decode_strict D bytes id generation e bs h = (
  subst (λ e. bytes ≡ layout D (slice 10 12 bytes) e) a.fields rebuilt,
  ap (λ e. e.object_id) (sym a.fields) ∙ test_eq _ _ a.id_at,
  ap (λ e. e.generation) (sym a.fields) ∙ test_eq _ _ a.generation_at,
)
  where
    a : Accepted D bytes id generation e
    a = decode-Accepted D bytes id generation e h

    long : 76 ≤ length bytes
    long = short_false (length bytes) a.long

    rebuilt :
        bytes
        ≡ layout D (slice 10 12 bytes) (record {
          object_id = value_be 256 (slice 12 20 bytes);
          generation = value_be 256 (slice 20 28 bytes);
          object_size = value_be 256 (slice 36 40 bytes);
          flags = value_be 256 (slice 72 76 bytes);
          payload = drop 76 bytes;
        })
    rebuilt = peel 0 8 bytes magic _ (omega arith) (text_eq→eq _ _ (not-false _ a.magic_at)) (
        peel 8 10 bytes _ _ (omega arith)
          (field_back 8 10 2 bytes bs (omega (arith, long)) refl
            ∙ ap (digits_be 256 2) (test_eq _ _ a.version_at))
          (peel 10 12 bytes _ _ (omega arith) refl (
            peel 12 20 bytes _ _ (omega arith)
              (field_back 12 20 8 bytes bs (omega (arith, long)) refl)
              (peel 20 28 bytes _ _ (omega arith)
                (field_back 20 28 8 bytes bs (omega (arith, long)) refl)
                (peel 28 36 bytes _ _ (omega arith)
                  (field_back 28 36 8 bytes bs (omega (arith, long)) refl
                    ∙ ap (digits_be 256 8) (len_back bytes bs long (test_eq _ _ a.len_at)))
                  (peel 36 40 bytes _ _ (omega arith)
                    (field_back 36 40 4 bytes bs (omega (arith, long)) refl)
                    (peel 40 72 bytes _ _ (omega arith)
                      (sym (text_eq→eq _ _ (not-false _ a.sha_at)))
                      (peel 72 76 bytes _ _ (omega arith)
                        (field_back 72 76 4 bytes bs (omega (arith, long)) refl)
                        (sym (append-nil (drop 76 bytes)))))))))))

-- What encode wrote is accepted with its payload only, whether or not its fields fit their widths.
pub payload-decode :
    (D : Digest) (e : ObjectEnvelope) (id generation : ℕ) (f : ObjectEnvelope)
    → decode D (encode D e) id generation ≡ ok f
    → f.payload ≡ e.payload
unfolding encode
payload-decode D e id generation f h =
    sym (ap (λ e. e.payload) (decode-Accepted D (encode D e) id generation f h).fields)
    ∙ at_payload D (digits_be 256 2 0) (length-digits_be 256 2 0) e
