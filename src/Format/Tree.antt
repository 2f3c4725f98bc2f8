-- ===== src/Format/Tree.antt =====
-- The manifest cut into leaves, and put together again: crates/tgdrive-core/src/format.rs. The root is
-- built in crates/tgdrive-telegram/src/client.rs. `chunks` panics on a span of 0: `none`.
pub mod RoundTrip
pub mod Strict
use telegram_block_device.Prelude.{
  ℕ, zero, suc, ◌+◌, ◌≡◌, Bool, not, Option, none, some, List, [], ◌∷◌, ◌++◌, Result, ok, err,
  length, take, drop, ◌==◌, if◌then◌else◌, and_then,
}
use telegram_block_device.Prelude.Bytes.{Text, codes, text_eq}
use telegram_block_device.Prelude.Sorting.{sort_by_key}
use telegram_block_device.Format.Manifest.{
  RemoteObjectRef, ManifestObject, Manifest, manifest_magic,
}
use telegram_block_device.Errors.{
  Error, leaf_magic, leaf_version, leaf_uuid, leaf_generation, leaf_index_mismatch,
  tree_object_count, tree_object_id,
}

pub record ManifestTreeLeafRef : Type 0 where
  pub leaf_index : ℕ
  pub start_object_id : ℕ
  pub object_count : ℕ
  pub remote : RemoteObjectRef

pub record ManifestTreeRoot : Type 0 where
  pub magic : Text
  pub format_version : ℕ
  pub device_uuid : ℕ
  pub generation : ℕ
  pub object_size : ℕ
  pub object_count : ℕ
  pub leaf_span : ℕ
  pub leaves : List ManifestTreeLeafRef
  pub garbage : List RemoteObjectRef

pub record ManifestTreeLeaf : Type 0 where
  pub magic : Text
  pub format_version : ℕ
  pub device_uuid : ℕ
  pub generation : ℕ
  pub leaf_index : ℕ
  pub start_object_id : ℕ
  pub objects : List ManifestObject

abbrev pub leaf_magic_text : Text
leaf_magic_text = codes "TGDRIVE_MANIFEST_LEAF"

abbrev pub root_magic_text : Text
root_magic_text = codes "TGDRIVE_MANIFEST_ROOT"

-- `slice.chunks(span)` for a span above 0; a round for every element is enough.
unfoldable pub chunks {ℓ} : {A : Type ℓ} → ℕ → ℕ → List A → List (List A)
chunks zero span xs = []
chunks (suc fuel) span [] = []
chunks (suc fuel) span (x ∷ xs) = take span (x ∷ xs) ∷ chunks fuel span (drop span (x ∷ xs))

-- `objects.first().map(…).unwrap_or_default()`
abbrev pub first_object_id : List ManifestObject → ℕ
first_object_id [] = 0
first_object_id (o ∷ os) = o.object_id

abbrev pub tree_leaf : Manifest → ℕ → List ManifestObject → ManifestTreeLeaf
tree_leaf m leaf_index objects = record {
  magic = leaf_magic_text;
  format_version = 1;
  device_uuid = m.device_uuid;
  generation = m.generation;
  leaf_index = leaf_index;
  start_object_id = first_object_id objects;
  objects = objects;
}

-- `enumerate().map(…)`, counted from `leaf_index` on.
unfoldable pub leaves_from : Manifest → ℕ → List (List ManifestObject) → List ManifestTreeLeaf
leaves_from m leaf_index [] = []
leaves_from m leaf_index (c ∷ cs) = tree_leaf m leaf_index c ∷ leaves_from m (leaf_index + 1) cs

unfoldable pub tree_leaves : Manifest → ℕ → Option (List ManifestTreeLeaf)
unfolding chunks leaves_from
tree_leaves m zero = none
tree_leaves m (suc span) = some (leaves_from m 0 (chunks (length m.objects) (suc span) m.objects))

-- The root of `commit_manifest`.
abbrev pub tree_root : Manifest → ℕ → List ManifestTreeLeafRef → ManifestTreeRoot
tree_root m leaf_span refs = record {
  magic = root_magic_text;
  format_version = 1;
  device_uuid = m.device_uuid;
  generation = m.generation;
  object_size = m.object_size;
  object_count = m.object_count;
  leaf_span = leaf_span;
  leaves = refs;
  garbage = m.garbage;
}

-- The loop over the sorted leaves.
unfoldable pub gather_objects :
    ManifestTreeRoot
    → ℕ
    → List ManifestObject
    → List ManifestTreeLeaf
    → Result Error (List ManifestObject)
gather_objects root expected_index objects [] = ok objects
gather_objects root expected_index objects (leaf ∷ leaves) =
    let rest = gather_objects root (expected_index + 1) (objects ++ leaf.objects) leaves in
    if not (text_eq leaf.magic leaf_magic_text)
    then err leaf_magic
    else if not (leaf.format_version == 1)
    then err leaf_version
    else if not (leaf.device_uuid == root.device_uuid)
    then err leaf_uuid
    else if not (leaf.generation == root.generation)
    then err leaf_generation
    else if not (leaf.leaf_index == expected_index)
    then err leaf_index_mismatch
    else rest

-- The loop over the gathered objects.
unfoldable pub check_object_ids : ℕ → List ManifestObject → Result Error (Unit {0})
check_object_ids expected_object_id [] = ok tt
check_object_ids expected_object_id (o ∷ os) =
    let rest = check_object_ids (expected_object_id + 1) os in
    if o.object_id == expected_object_id then rest else err tree_object_id

-- The manifest of a root and the objects that its leaves have.
abbrev pub rebuilt : ManifestTreeRoot → List ManifestObject → Manifest
rebuilt root objects = record {
  magic = manifest_magic;
  format_version = 1;
  device_uuid = root.device_uuid;
  generation = root.generation;
  object_size = root.object_size;
  object_count = root.object_count;
  objects = objects;
  garbage = root.garbage;
}

abbrev pub check_objects : ManifestTreeRoot → List ManifestObject → Result Error Manifest
check_objects root objects =
    if length objects == root.object_count
    then and_then (check_object_ids 0 objects) (λ _. ok (rebuilt root objects))
    else err tree_object_count

unfoldable pub from_tree_root_and_leaves :
    ManifestTreeRoot → List ManifestTreeLeaf → Result Error Manifest
unfolding gather_objects check_object_ids
from_tree_root_and_leaves root leaves =
    and_then (gather_objects root 0 [] (sort_by_key (λ leaf. leaf.leaf_index) leaves))
      (check_objects root)
