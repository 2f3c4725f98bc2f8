-- ===== src/Format/Tree/Strict.antt =====
-- What `from_tree_root_and_leaves` accepts.
use telegram_block_device.Prelude.{
  ℕ, ◌+◌, ◌≡◌, refl, sym, ◌∙◌, ap, not, false, List, [], ◌∷◌, ◌++◌, ok, concat, map, length, inl,
  inr, ◌==◌, ==_iff, arith, append-nil, append_assoc, passed, ok_injective, Bool-cases,
  Result-cases, subst,
}
use telegram_block_device.Prelude.Sorting.{sort_by_key}
use telegram_block_device.Format.Manifest.{ManifestObject, Manifest}
use telegram_block_device.Format.Tree.{
  ManifestTreeRoot, ManifestTreeLeaf, gather_objects, check_object_ids, check_objects,
  from_tree_root_and_leaves, rebuilt, leaf_magic_text,
}
use telegram_block_device.Prelude.Bytes.{Text, text_eq, text_eq→eq}
use telegram_block_device.Errors.{
  leaf_magic, leaf_version, leaf_uuid, leaf_generation, leaf_index_mismatch,
}
use telegram_block_device.Format.Tree.RoundTrip.{IsNumbered, IsComplete}

-- Leaves of the version that the program writes, with the device and the generation of the root, numbered
-- from `i` on without a gap.
abbrev pub Fit : ManifestTreeRoot → ℕ → List ManifestTreeLeaf → Type 0
Fit root i [] = Unit {0}
Fit root i (leaf ∷ leaves) =
    (leaf.magic ≡ leaf_magic_text)
    × (leaf.format_version ≡ 1)
    × (leaf.device_uuid ≡ root.device_uuid)
    × (leaf.generation ≡ root.generation)
    × (leaf.leaf_index ≡ i)
    × Fit root (i + 1) leaves

abbrev pub objects_of : List ManifestTreeLeaf → List ManifestObject
objects_of leaves = concat (map (λ leaf. leaf.objects) leaves)

equal : (a b : ℕ) → not (a == b) ≡ false → a ≡ b
equal a b h = ground arith

same_text : (s t : Text) → not (text_eq s t) ≡ false → s ≡ t
same_text s t h = text_eq→eq s t (ground arith)

gather_objects-Fit :
    (root : ManifestTreeRoot) (i : ℕ) (out : List ManifestObject) (leaves : List ManifestTreeLeaf)
    (os : List ManifestObject)
    → gather_objects root i out leaves ≡ ok os
    → Fit root i leaves × (os ≡ out ++ objects_of leaves)
unfolding gather_objects
gather_objects-Fit root i out [] os h = (tt, sym (ok_injective h) ∙ sym (append-nil out))
gather_objects-Fit root i out (leaf ∷ leaves) os h =
    let (magic, h₁) = passed (not (text_eq leaf.magic leaf_magic_text)) leaf_magic _ h in
    let (version, h₂) = passed (not (leaf.format_version == 1)) leaf_version _ h₁ in
    let (uuid, h₃) = passed (not (leaf.device_uuid == root.device_uuid)) leaf_uuid _ h₂ in
    let (generation, h₄) = passed (not (leaf.generation == root.generation)) leaf_generation _ h₃ in
    let (index, h₅) = passed (not (leaf.leaf_index == i)) leaf_index_mismatch _ h₄ in
    let (fit, e) = gather_objects-Fit root (i + 1) (out ++ leaf.objects) leaves os h₅ in
    (
      (
        same_text _ _ magic,
        equal _ _ version,
        equal _ _ uuid,
        equal _ _ generation,
        equal _ _ index,
        fit,
      ),
      e ∙ append_assoc out leaf.objects (objects_of leaves),
    )

check_object_ids_numbers :
    (i : ℕ) (os : List ManifestObject) → check_object_ids i os ≡ ok tt → IsNumbered i os
unfolding check_object_ids
check_object_ids_numbers i [] h = tt
check_object_ids_numbers i (o ∷ os) h = ground (arith, check_object_ids_numbers (i + 1) os)

-- What a manifest from a tree is known to be.
pub record Rebuilt (root : ManifestTreeRoot) (leaves : List ManifestTreeLeaf) (m : Manifest)
    : Type 0 where
  pub fit : Fit root 0 (sort_by_key (λ leaf. leaf.leaf_index) leaves)
  pub same : m ≡ rebuilt root (objects_of (sort_by_key (λ leaf. leaf.leaf_index) leaves))
  pub complete : IsComplete m

checked :
    (root : ManifestTreeRoot) (os : List ManifestObject) (m : Manifest)
    → check_objects root os ≡ ok m
    → (length os ≡ root.object_count) × IsNumbered 0 os × (rebuilt root os ≡ m)
checked root os m h = elim (Bool-cases (length os == root.object_count)) [
  | inr differs ↦ cc (rw differs at h)
  | inl counted ↦ elim (Result-cases (check_object_ids 0 os)) [
    | inr (x, bad) ↦ cc (rw (counted, bad) at h)
    | inl (_, good) ↦ (
      (==_iff _ _).0 counted,
      check_object_ids_numbers 0 os good,
      ok_injective (rw (counted, good) at h),
    )
  ]
]

rebuilt-IsComplete :
    (root : ManifestTreeRoot) (os : List ManifestObject)
    → length os ≡ root.object_count
    → IsNumbered 0 os
    → IsComplete (rebuilt root os)
rebuilt-IsComplete root os count numbered = record {
  magic = refl;
  format_version = refl;
  object_count = sym count;
  numbered = numbered;
}

-- A manifest is put together only from leaves that have the magic text and the version of a leaf and the
-- device and the generation of the root, and whose numbers, in order, have no gap; it has the objects of the leaves in that order, and they are
-- as many as the root says and numbered from 0 on.
pub from_tree_root_and_leaves_strict :
    (root : ManifestTreeRoot) (leaves : List ManifestTreeLeaf) (m : Manifest)
    → from_tree_root_and_leaves root leaves ≡ ok m
    → Rebuilt root leaves m
unfolding from_tree_root_and_leaves
from_tree_root_and_leaves_strict root leaves m h =
    elim (Result-cases (gather_objects root 0 [] (sort_by_key (λ leaf. leaf.leaf_index) leaves))) [
      | inr (x, bad) ↦ cc (rw bad at h)
      | inl (os, gathered) ↦
          let (fit, same) =
            gather_objects-Fit root 0 [] (sort_by_key (λ leaf. leaf.leaf_index) leaves) os
              gathered in
          let (count, numbered, e) = checked root os m (rw gathered at h) in
          record {
            fit = fit;
            same = sym e ∙ ap (rebuilt root) same;
            complete = subst IsComplete e (rebuilt-IsComplete root os count numbered);
          }
    ]
