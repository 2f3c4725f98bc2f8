-- ===== src/Format/Digest.antt =====
-- The SHA-256 of the sha2 crate and the encoding of the hex crate, which the program only calls.
use telegram_block_device.Prelude.{ℕ, ◌≡◌, List, length}
use telegram_block_device.Prelude.Bytes.{Text}

-- The digest is a `[u8; 32]`.
pub record Digest : Type 0 where
  pub sha256_bytes : List ℕ → List ℕ
  pub encode : List ℕ → Text
  pub length-sha256_bytes : (bytes : List ℕ) → length (sha256_bytes bytes) ≡ 32

-- `sha256_hex`
unfoldable pub sha256_hex : Digest → List ℕ → Text
sha256_hex D bytes = D.encode (D.sha256_bytes bytes)
