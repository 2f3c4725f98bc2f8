-- ===== src/Format/Envelope/RoundTrip.antt =====
-- `decode` reads back what `encode` wrote, and accepts nothing else but for two reserved bytes.
use telegram_block_device.Prelude.{
  ℕ, ◌+◌, ◌-◌, ◌^◌, ◌<◌, ◌≡◌, refl, ap, sym, ◌∙◌, List, [], ◌++◌, ok, arith, length, drop, slice,
  take, length-append, drop-append_length, take-append_length, drop-drop, append-nil,
}
use telegram_block_device.Prelude.Bytes.{
  text_eq_refl, digits_be, length-digits_be, value_be-digits_be,
}
use telegram_block_device.Format.Digest.{Digest}
use telegram_block_device.Format.Envelope.{ObjectEnvelope, magic, layout, encode, decode}

-- The fields have the widths of their Rust types; no `Vec` is longer than `isize::MAX`.
pub record IsWellFormed (e : ObjectEnvelope) : Type 0 where
  pub object_id : e.object_id < 2 ^ 64
  pub generation : e.generation < 2 ^ 64
  pub object_size : e.object_size < 2 ^ 32
  pub flags : e.flags < 2 ^ 32
  pub payload : length e.payload < 2 ^ 63

-- Reading on: behind a field of known length stands the rest.
drop_next :
    (m n k : ℕ) (bytes x rest : List ℕ)
    → drop m bytes ≡ x ++ rest
    → length x ≡ n
    → m + n ≡ k
    → drop k bytes ≡ rest
drop_next m n k bytes x rest e hx hk =
    rw (← hk) (sym (drop-drop m n bytes) ∙ ap (drop n) e ∙ drop-append_length n x rest hx)

slice_at :
    (m k : ℕ) (bytes x rest : List ℕ)
    → drop m bytes ≡ x ++ rest
    → length x ≡ k - m
    → slice m k bytes ≡ x
slice_at m k bytes x rest e hx = ap (take (k - m)) e ∙ take-append_length (k - m) x rest hx

module _ (D : Digest) (reserved : List ℕ) (two : length reserved ≡ 2) (e : ObjectEnvelope) where
  -- The suffixes of the layout, one for each field.
  abbrev bytes : List ℕ
  bytes = layout D reserved e

  abbrev from_flags : List ℕ
  from_flags = digits_be 256 4 e.flags ++ (e.payload ++ [])

  abbrev from_sha : List ℕ
  from_sha = D.sha256_bytes e.payload ++ from_flags

  abbrev from_size : List ℕ
  from_size = digits_be 256 4 e.object_size ++ from_sha

  abbrev from_len : List ℕ
  from_len = digits_be 256 8 (length e.payload) ++ from_size

  abbrev from_generation : List ℕ
  from_generation = digits_be 256 8 e.generation ++ from_len

  abbrev from_id : List ℕ
  from_id = digits_be 256 8 e.object_id ++ from_generation

  abbrev from_version : List ℕ
  from_version = digits_be 256 2 1 ++ (reserved ++ from_id)

  at_magic : drop 0 bytes ≡ magic ++ from_version
  unfolding layout
  at_magic = refl

  at_version : drop 8 bytes ≡ from_version
  at_version = drop_next 0 8 8 bytes magic _ at_magic refl refl

  at_reserved : drop 10 bytes ≡ reserved ++ from_id
  at_reserved = drop_next 8 2 10 bytes _ _ at_version (length-digits_be 256 2 1) refl

  at_id : drop 12 bytes ≡ from_id
  at_id = drop_next 10 2 12 bytes _ _ at_reserved two refl

  at_generation : drop 20 bytes ≡ from_generation
  at_generation = drop_next 12 8 20 bytes _ _ at_id (length-digits_be 256 8 e.object_id) refl

  at_len : drop 28 bytes ≡ from_len
  at_len = drop_next 20 8 28 bytes _ _ at_generation (length-digits_be 256 8 e.generation) refl

  at_size : drop 36 bytes ≡ from_size
  at_size = drop_next 28 8 36 bytes _ _ at_len (length-digits_be 256 8 (length e.payload)) refl

  at_sha : drop 40 bytes ≡ from_sha
  at_sha = drop_next 36 4 40 bytes _ _ at_size (length-digits_be 256 4 e.object_size) refl

  at_flags : drop 72 bytes ≡ from_flags
  at_flags = drop_next 40 32 72 bytes _ _ at_sha (D.length-sha256_bytes e.payload) refl

  pub at_payload : drop 76 bytes ≡ e.payload
  at_payload =
      drop_next 72 4 76 bytes _ _ at_flags (length-digits_be 256 4 e.flags) refl
      ∙ append-nil e.payload

  length-layout : length bytes ≡ 76 + length e.payload
  unfolding layout
  length-layout =
      simp (append-nil, length-append, length-digits_be, D.length-sha256_bytes, two) (omega arith)

  -- Both the header and the payload come back, whatever the reserved bytes are.
  pub decode-layout : IsWellFormed e → decode D bytes e.object_id e.generation ≡ ok e
  unfolding decode
  decode-layout w =
      rw
        (
          slice_at 0 8 bytes magic _ at_magic refl,
          slice_at 8 10 bytes _ _ at_version (length-digits_be 256 2 1),
          slice_at 12 20 bytes _ _ at_id (length-digits_be 256 8 e.object_id),
          slice_at 20 28 bytes _ _ at_generation (length-digits_be 256 8 e.generation),
          slice_at 28 36 bytes _ _ at_len (length-digits_be 256 8 (length e.payload)),
          slice_at 36 40 bytes _ _ at_size (length-digits_be 256 4 e.object_size),
          slice_at 40 72 bytes _ _ at_sha (D.length-sha256_bytes e.payload),
          slice_at 72 76 bytes _ _ at_flags (length-digits_be 256 4 e.flags),
          at_payload,
          length-layout,
          value_be-digits_be 256 8 e.object_id (omega arith),
          value_be-digits_be 256 8 e.generation (omega arith),
          value_be-digits_be 256 8 (length e.payload) (omega arith),
          value_be-digits_be 256 4 e.object_size (omega arith),
          value_be-digits_be 256 4 e.flags (omega arith),
          text_eq_refl (D.sha256_bytes e.payload),
          text_eq_refl magic,
          value_be-digits_be 256 2 1 (omega arith),
        )
        (ground arith)

-- What `encode` wrote, `decode` reads back under the same identity.
pub decode-encode :
    (D : Digest) (e : ObjectEnvelope)
    → IsWellFormed e
    → decode D (encode D e) e.object_id e.generation ≡ ok e
unfolding encode
decode-encode D e w = decode-layout D (digits_be 256 2 0) (length-digits_be 256 2 0) e w
