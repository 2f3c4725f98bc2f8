-- ===== src/Format/Superblock.antt =====
-- The superblock, the text of the pinned message: crates/tgdrive-core/src/format.rs. serde_json is a
-- parameter, and so are the clock and the UUID generator, whose values are arguments. A time is a number.
use telegram_block_device.Prelude.{
  ℕ, ◌≡◌, refl, ap, ◌∙◌, Option, none, some, [], ◌∷◌, ◌++◌, Result, ok, ok_or, and_then,
  if◌then◌else◌, ◌==◌, ==_refl,
}
use telegram_block_device.Prelude.Bytes.{Text, codes}
use telegram_block_device.Format.Manifest.{RemoteObjectRef}
use telegram_block_device.Errors.{Error, missing_superblock_prefix}

pub data ManifestEncoding : Type 0 where
  flat_json tree : ManifestEncoding

pub record Superblock : Type 0 where
  pub magic : Text
  pub format_version : ℕ
  pub device_uuid : ℕ
  pub device_size : ℕ
  pub logical_sector_size : ℕ
  pub object_size : ℕ
  pub current_manifest_message_id : ℕ
  pub manifest_generation : ℕ
  pub manifest_hash : Text
  pub previous_manifest_message_id : Option ℕ
  pub previous_manifest_hash : Option Text
  pub previous_manifest_generation : Option ℕ
  pub manifest_encoding : ManifestEncoding
  pub root_index_message_id : Option ℕ
  pub created_at : ℕ
  pub last_commit_at : ℕ

abbrev pub superblock_magic : Text
superblock_magic = codes "TGDRIVE_SUPERBLOCK"

-- The fields that `for_manifest` takes from the superblock before.
abbrev pub field {ℓ} : {A : Type ℓ} → (Superblock → A) → Option Superblock → Option A
field f none = none
field f (some s) = some (f s)

abbrev pub created : ℕ → Option Superblock → ℕ
created now none = now
created now (some s) = s.created_at

abbrev pub for_manifest : ℕ → ℕ → ℕ → ℕ → ℕ → RemoteObjectRef → Option Superblock → Superblock
for_manifest now device_uuid device_size logical_sector_size object_size manifest_ref previous =
    record {
      magic = superblock_magic;
      format_version = 1;
      device_uuid = device_uuid;
      device_size = device_size;
      logical_sector_size = logical_sector_size;
      object_size = object_size;
      current_manifest_message_id = manifest_ref.message_id;
      manifest_generation = manifest_ref.generation;
      manifest_hash = manifest_ref.sha256;
      previous_manifest_message_id = field (λ s. s.current_manifest_message_id) previous;
      previous_manifest_hash = field (λ s. s.manifest_hash) previous;
      previous_manifest_generation = field (λ s. s.manifest_generation) previous;
      manifest_encoding = flat_json;
      root_index_message_id = none;
      created_at = created now previous;
      last_commit_at = now;
    }

-- `Superblock::new`, with a fresh UUID
abbrev pub new : ℕ → ℕ → ℕ → ℕ → ℕ → RemoteObjectRef → Superblock
new now uuid device_size logical_sector_size object_size manifest_ref =
    for_manifest now uuid device_size logical_sector_size object_size manifest_ref none

abbrev pub for_tree_manifest : ℕ → ℕ → ℕ → ℕ → ℕ → RemoteObjectRef → Option Superblock → Superblock
for_tree_manifest now device_uuid device_size logical_sector_size object_size root_ref previous =
    record (for_manifest now device_uuid device_size logical_sector_size object_size root_ref
      previous) { manifest_encoding = tree; root_index_message_id = some root_ref.message_id }

pub record SuperblockJson : Type 0 where
  pub to_string_pretty : Superblock → Text
  pub from_str : Text → Result Error Superblock

-- What the program relies on where it reads a superblock back.
pub record ReadsBack (serde : SuperblockJson) : Type 0 where
  pub from_str-to_string_pretty :
      (s : Superblock) → serde.from_str (serde.to_string_pretty s) ≡ ok s

abbrev pub text_prefix : Text
text_prefix = codes "TGDRIVE_SUPERBLOCK_V1\n"

-- `text.strip_prefix(…)`
unfoldable pub strip_prefix : Text → Text → Option Text
strip_prefix [] text = some text
strip_prefix (p ∷ ps) [] = none
strip_prefix (p ∷ ps) (c ∷ cs) = let rest = strip_prefix ps cs in if p == c then rest else none

unfoldable pub encode_text : SuperblockJson → Superblock → Text
encode_text serde s = text_prefix ++ serde.to_string_pretty s

unfoldable pub decode_text : SuperblockJson → Text → Result Error Superblock
unfolding strip_prefix
decode_text serde text =
    and_then (ok_or (strip_prefix text_prefix text) missing_superblock_prefix) serde.from_str

pub strip_prefix-append : (front text : Text) → strip_prefix front (front ++ text) ≡ some text
unfolding strip_prefix
strip_prefix-append [] text = refl
strip_prefix-append (p ∷ ps) text = rw (==_refl p) (strip_prefix-append ps text)

-- Where JSON reads a superblock back, so does the pinned text.
pub decode_text-encode_text :
    (serde : SuperblockJson) (s : Superblock)
    → ReadsBack serde
    → decode_text serde (encode_text serde s) ≡ ok s
unfolding decode_text encode_text
decode_text-encode_text serde s r =
    ap (λ text. and_then (ok_or text missing_superblock_prefix) serde.from_str)
      (strip_prefix-append text_prefix (serde.to_string_pretty s))
    ∙ r.from_str-to_string_pretty s
