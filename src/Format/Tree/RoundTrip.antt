-- ===== src/Format/Tree/RoundTrip.antt =====
-- A manifest comes back from its leaves, in whatever order they are read.
use telegram_block_device.Prelude.{
  ℕ, zero, suc, ◌+◌, ◌≤◌, ◌<◌, ◌≡◌, refl, sym, ◌∙◌, ap, some, List, [], ◌∷◌, ◌++◌, ok, length, take,
  drop, concat, ◌==◌, ==_refl, ==_iff, ap₂, true, arith, append-nil, append_assoc, take-append-drop,
  length-drop, some_eq, subst,
}
use telegram_block_device.Prelude.Bytes.{text_eq_refl}
use telegram_block_device.Prelude.Sorting.{
  sort_by_key, Shuffle, IsRising, Above, sort_by_key-Shuffle,
}
use telegram_block_device.Format.Manifest.{ManifestObject, Manifest, manifest_magic}
use telegram_block_device.Format.Tree.{
  ManifestTreeLeafRef, ManifestTreeLeaf, chunks, leaves_from, tree_leaves, tree_root,
  gather_objects, check_object_ids, from_tree_root_and_leaves, leaf_magic_text,
}

pub concat-chunks {ℓ} :
    {A : Type ℓ} (fuel span : ℕ) (xs : List A)
    → length xs ≤ fuel
    → 0 < span
    → concat (chunks fuel span xs) ≡ xs
unfolding chunks
concat-chunks zero span [] le pos = refl
concat-chunks zero span (x ∷ xs) le pos = absurd (omega arith)
concat-chunks (suc fuel) span [] le pos = refl
concat-chunks (suc fuel) span (x ∷ xs) le pos =
    ap (λ t. take span (x ∷ xs) ++ t)
      (concat-chunks fuel span (drop span (x ∷ xs)) (omega (arith, length-drop span (x ∷ xs))) pos)
    ∙ take-append-drop span (x ∷ xs)

-- The leaves are numbered upward.
leaves_from-Above :
    (m : Manifest) (k i : ℕ) (cs : List (List ManifestObject))
    → k < i
    → Above (λ leaf. leaf.leaf_index) k (leaves_from m i cs)
unfolding leaves_from
leaves_from-Above m k i [] lt = tt
leaves_from-Above m k i (c ∷ cs) lt = (lt, leaves_from-Above m k (i + 1) cs (omega arith))

leaves_from-IsRising :
    (m : Manifest) (i : ℕ) (cs : List (List ManifestObject))
    → IsRising (λ leaf. leaf.leaf_index) (leaves_from m i cs)
unfolding leaves_from
leaves_from-IsRising m i [] = tt
leaves_from-IsRising m i (c ∷ cs) =
    (leaves_from-Above m i (i + 1) cs (omega arith), leaves_from-IsRising m (i + 1) cs)

gather_objects-leaves_from :
    (m : Manifest) (span : ℕ) (refs : List ManifestTreeLeafRef) (i : ℕ) (out : List ManifestObject)
    (cs : List (List ManifestObject))
    → gather_objects (tree_root m span refs) i out (leaves_from m i cs) ≡ ok (out ++ concat cs)
unfolding gather_objects leaves_from
gather_objects-leaves_from m span refs i out [] = ap ok (sym (append-nil out))
gather_objects-leaves_from m span refs i out (c ∷ cs) =
    rw (text_eq_refl leaf_magic_text, ==_refl m.device_uuid, ==_refl m.generation, ==_refl i)
      (gather_objects-leaves_from m span refs (i + 1) (out ++ c) cs
        ∙ ap ok (append_assoc out c (concat cs)))

-- The objects are numbered from `i` on.
abbrev pub IsNumbered : ℕ → List ManifestObject → Type 0
IsNumbered i [] = Unit {0}
IsNumbered i (o ∷ os) = (o.object_id ≡ i) × IsNumbered (i + 1) os

check_object_ids-IsNumbered :
    (i : ℕ) (os : List ManifestObject) → IsNumbered i os → check_object_ids i os ≡ ok tt
unfolding check_object_ids
check_object_ids-IsNumbered i [] n = refl
check_object_ids-IsNumbered i (o ∷ os) (e, n) =
    rw (e, ==_refl i) (check_object_ids-IsNumbered (i + 1) os n)

-- What `Manifest::empty` makes and the device keeps.
pub record IsComplete (m : Manifest) : Type 0 where
  pub magic : m.magic ≡ manifest_magic
  pub format_version : m.format_version ≡ 1
  pub object_count : m.object_count ≡ length m.objects
  pub numbered : IsNumbered 0 m.objects

-- A complete manifest that is cut into leaves of a span above 0 is put together again from its root
-- and the leaves in any order.
pub from_tree_root_and_leaves-tree_leaves :
    (m : Manifest) (span : ℕ) (refs : List ManifestTreeLeafRef) (cut leaves : List ManifestTreeLeaf)
    → IsComplete m
    → tree_leaves m span ≡ some cut
    → Shuffle cut leaves
    → from_tree_root_and_leaves (tree_root m span refs) leaves ≡ ok m
unfolding from_tree_root_and_leaves tree_leaves
from_tree_root_and_leaves-tree_leaves m zero refs cut leaves w e s = cc
from_tree_root_and_leaves-tree_leaves m (suc span) refs cut leaves w e s =
    rw (sorted, gathered, counted, check_object_ids-IsNumbered 0 m.objects w.numbered)
      (ap₂
        (λ magic format_version. ok (record m { magic = magic; format_version = format_version }))
        (sym w.magic) (sym w.format_version))
  where
    pieces : List (List ManifestObject)
    pieces = chunks (length m.objects) (suc span) m.objects

    sorted : sort_by_key (λ leaf. leaf.leaf_index) leaves ≡ leaves_from m 0 pieces
    sorted =
        sort_by_key-Shuffle (λ leaf. leaf.leaf_index) cut leaves s
          (subst (IsRising (λ leaf. leaf.leaf_index)) (some_eq e) (leaves_from-IsRising m 0 pieces))
        ∙ sym (some_eq e)

    gathered :
        gather_objects (tree_root m (suc span) refs) 0 [] (leaves_from m 0 pieces) ≡ ok m.objects
    gathered =
        gather_objects-leaves_from m (suc span) refs 0 [] pieces
        ∙ ap ok (concat-chunks (length m.objects) (suc span) m.objects (omega arith) (omega arith))

    counted : (length m.objects == m.object_count) ≡ true
    counted = (==_iff _ _).1 (sym w.object_count)
