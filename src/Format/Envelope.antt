-- ===== src/Format/Envelope.antt =====
-- The envelope around every stored object (`ObjectEnvelope` of crates/tgdrive-core/src/format.rs).
pub mod RoundTrip
pub mod Strict
use telegram_block_device.Prelude.{
  ℕ, ◌+◌, ◌%◌, ◌^◌, ◌<◌, List, [], ◌∷◌, concat, not, Result, ok, err, length, drop, slice, ltb,
  ◌==◌, if◌then◌else◌,
}
use telegram_block_device.Prelude.Bytes.{codes, text_eq, digits_be, value_be}
use telegram_block_device.Format.Digest.{Digest}
use telegram_block_device.Format.Digest

pub data FormatError : Type 0 where
  invalid_magic truncated checksum_mismatch payload_length_mismatch : FormatError
  unsupported_version : ℕ → FormatError
  object_id_mismatch generation_mismatch : ℕ → ℕ → FormatError

pub record ObjectEnvelope : Type 0 where
  pub object_id : ℕ
  pub generation : ℕ
  pub object_size : ℕ
  pub flags : ℕ
  pub payload : List ℕ

abbrev pub magic : List ℕ
magic = codes "TGDRV001"

abbrev pub version : ℕ
version = 1

-- OBJECT_HEADER_LEN
abbrev pub object_header_len : ℕ
object_header_len = 76

-- What `encode` writes, with the two reserved bytes a parameter.
pub layout : Digest → List ℕ → ObjectEnvelope → List ℕ
layout D reserved e = concat (
    magic
    ∷ digits_be 256 2 version
    ∷ reserved
    ∷ digits_be 256 8 e.object_id
    ∷ digits_be 256 8 e.generation
    ∷ digits_be 256 8 (length e.payload)
    ∷ digits_be 256 4 e.object_size
    ∷ D.sha256_bytes e.payload
    ∷ digits_be 256 4 e.flags
    ∷ e.payload
    ∷ [])

unfoldable pub encode : Digest → ObjectEnvelope → List ℕ
unfolding layout
encode D e = layout D (digits_be 256 2 0) e

-- The tests in the source's order; `usize` has 64 bits, and its sum wraps.
unfoldable pub decode : Digest → List ℕ → ℕ → ℕ → Result FormatError ObjectEnvelope
decode D bytes expected_object_id expected_generation =
    let got_version = value_be 256 (slice 8 10 bytes) in
    let object_id = value_be 256 (slice 12 20 bytes) in
    let generation = value_be 256 (slice 20 28 bytes) in
    let payload_len = value_be 256 (slice 28 36 bytes) in
    let payload = drop object_header_len bytes in
    if ltb (length bytes) object_header_len
    then err truncated
    else if not (text_eq (slice 0 8 bytes) magic)
    then err invalid_magic
    else if not (got_version == version)
    then err (unsupported_version got_version)
    else if not (object_id == expected_object_id)
    then err (object_id_mismatch expected_object_id object_id)
    else if not (generation == expected_generation)
    then err (generation_mismatch expected_generation generation)
    else if not (length bytes == (object_header_len + payload_len) % 2 ^ 64)
    then err payload_length_mismatch
    else if not (text_eq (D.sha256_bytes payload) (slice 40 72 bytes))
    then err checksum_mismatch
    else ok (record {
      object_id = object_id;
      generation = generation;
      object_size = value_be 256 (slice 36 40 bytes);
      flags = value_be 256 (slice 72 76 bytes);
      payload = payload;
    })

unfoldable pub sha256_hex : Digest → ObjectEnvelope → List ℕ
unfolding encode Digest.sha256_hex
sha256_hex D e = Digest.sha256_hex D (encode D e)
