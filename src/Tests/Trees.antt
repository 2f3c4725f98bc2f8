-- ===== src/Tests/Trees.antt =====
-- The theorems on the manifest tree at concrete inputs.
use telegram_block_device.Prelude.{◌≡◌, refl, [], ◌∷◌, some, ok}
use telegram_block_device.Prelude.Sorting.{Shuffle, Inserted}
use telegram_block_device.Format.Manifest.{Manifest, empty, empty_object, empty_objects}
use telegram_block_device.Format.Tree.{
  ManifestTreeLeaf, chunks, leaves_from, tree_leaves, tree_leaf, tree_root,
  from_tree_root_and_leaves,
}
use telegram_block_device.Format.Tree.RoundTrip.{IsComplete, from_tree_root_and_leaves-tree_leaves}
use telegram_block_device.Format.Tree.Strict.{Rebuilt, from_tree_root_and_leaves_strict}

abbrev three_objects : Manifest
three_objects = empty 7 4 3

three_objects-IsComplete : IsComplete three_objects
unfolding empty empty_objects empty_object
three_objects-IsComplete = record {
  magic = refl;
  format_version = refl;
  object_count = refl;
  numbered = (refl, (refl, (refl, tt)));
}

abbrev first : ManifestTreeLeaf
first = tree_leaf three_objects 0 (empty_object 0 ∷ empty_object 1 ∷ [])

abbrev second : ManifestTreeLeaf
second = tree_leaf three_objects 1 (empty_object 2 ∷ [])

three_objects-cut : tree_leaves three_objects 2 ≡ some (first ∷ second ∷ [])
unfolding tree_leaves empty chunks leaves_from empty_objects
three_objects-cut = refl

swapped : Shuffle (first ∷ second ∷ []) (second ∷ first ∷ [])
swapped =
    Shuffle.insert (Shuffle.insert Shuffle.nil (Inserted.here []))
      (Inserted.there second (Inserted.here []))

from_tree_root_and_leaves-tree_leaves_example :
    from_tree_root_and_leaves (tree_root three_objects 2 []) (second ∷ first ∷ [])
    ≡ ok three_objects
from_tree_root_and_leaves-tree_leaves_example =
    from_tree_root_and_leaves-tree_leaves three_objects 2 [] (first ∷ second ∷ [])
      (second ∷ first ∷ []) three_objects-IsComplete three_objects-cut swapped

back_again :
    from_tree_root_and_leaves (tree_root three_objects 2 []) (second ∷ first ∷ [])
    ≡ ok three_objects
back_again =
    from_tree_root_and_leaves-tree_leaves three_objects 2 [] (first ∷ second ∷ [])
      (second ∷ first ∷ []) three_objects-IsComplete three_objects-cut swapped

from_tree_root_and_leaves_strict_example :
    Rebuilt (tree_root three_objects 2 []) (second ∷ first ∷ []) three_objects
from_tree_root_and_leaves_strict_example =
    from_tree_root_and_leaves_strict (tree_root three_objects 2 []) (second ∷ first ∷ [])
      three_objects back_again
