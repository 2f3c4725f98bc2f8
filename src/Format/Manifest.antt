-- ===== src/Format/Manifest.antt =====
-- The manifest and its references (crates/tgdrive-core/src/format.rs and backend.rs). Identifiers of
-- chats and messages are signed in the source and only copied and compared: they stand here as the
-- numbers of their bit patterns, and so do UUIDs.
use telegram_block_device.Prelude.{
  ℕ, suc, zero, ◌+◌, ◌≡◌, Bool, true, Option, none, List, [], ◌∷◌, Result, ok, ensure,
}
use telegram_block_device.Prelude.Bytes.{Text, codes, text_eq}
use telegram_block_device.Format.Digest.{Digest, sha256_hex}
use telegram_block_device.Errors.{Error, manifest_hash_mismatch}

pub record RemoteObjectRef : Type 0 where
  pub chat_id : ℕ
  pub message_id : ℕ
  pub object_id : ℕ
  pub generation : ℕ
  pub sha256 : Text

pub record ManifestObject : Type 0 where
  pub object_id : ℕ
  pub generation : ℕ
  pub remote : Option RemoteObjectRef
  pub sha256 : Option Text
  pub zero : Bool

pub record Manifest : Type 0 where
  pub magic : Text
  pub format_version : ℕ
  pub device_uuid : ℕ
  pub generation : ℕ
  pub object_size : ℕ
  pub object_count : ℕ
  pub objects : List ManifestObject
  pub garbage : List RemoteObjectRef

abbrev pub manifest_magic : Text
manifest_magic = codes "TGDRIVE_MANIFEST"

unfoldable pub empty_object : ℕ → ManifestObject
empty_object object_id = record {
  object_id = object_id;
  generation = 0;
  remote = none;
  sha256 = none;
  zero = true;
}

-- The objects numbered from `start` on.
unfoldable pub empty_objects : ℕ → ℕ → List ManifestObject
unfolding empty_object
empty_objects start zero = []
empty_objects start (suc n) = empty_object start ∷ empty_objects (start + 1) n

-- `Manifest::empty`
unfoldable pub empty : ℕ → ℕ → ℕ → Manifest
unfolding empty_objects
empty device_uuid object_size object_count = record {
  magic = manifest_magic;
  format_version = 1;
  device_uuid = device_uuid;
  generation = 0;
  object_size = object_size;
  object_count = object_count;
  objects = empty_objects 0 object_count;
  garbage = [];
}

-- serde_json on manifests, which the program only calls.
pub record ManifestJson : Type 0 where
  pub encode_json : Manifest → List ℕ
  pub decode_json : List ℕ → Result Error Manifest

-- What the program relies on where it reads a manifest back.
pub record IsLossless (J : ManifestJson) : Type 0 where
  pub decode_json-encode_json : (m : Manifest) → J.decode_json (J.encode_json m) ≡ ok m

-- `Manifest::hash_hex`
unfoldable pub hash_hex : Digest → ManifestJson → Manifest → Text
hash_hex D J m = sha256_hex D (J.encode_json m)

-- `Manifest::verify_hash`
unfoldable pub verify_hash : Digest → ManifestJson → Manifest → Text → Result Error (Unit {0})
verify_hash D J m expected = ensure (text_eq (hash_hex D J m) expected) manifest_hash_mismatch
