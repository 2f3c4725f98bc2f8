-- ===== src/Cache/Paths.antt =====
-- Files of different objects have different paths.
use telegram_block_device.Prelude.{
  ℕ, ◌^◌, ◌<◌, ◌≡◌, ◌≢◌, ◌∙◌, sym, Option, some, List, append_cancel, append_front,
}
use telegram_block_device.Prelude.Bytes.{
  Text, codes, hex16_injective, length-hex16, text_ne, text_eq_refl,
}
use telegram_block_device.Cache.{object_path, write_file}

pub object_path_object :
    (dir : Text) (i g j h : ℕ)
    → i < 2 ^ 64
    → j < 2 ^ 64
    → object_path dir i g ≡ object_path dir j h
    → i ≡ j
unfolding object_path
object_path_object dir i g j h hi hj e = hex16_injective i j hi hj (
    append_front _ _ _ _ (length-hex16 i ∙ sym (length-hex16 j))
      (append_cancel (codes "/objects/") _ _ (append_cancel dir _ _ e)))

-- A file written for one object leaves the files of the others.
pub write_file_ne :
    (dir : Text) (i g j h : ℕ) (bytes : List ℕ) (files : Text → Option (List ℕ))
    → i < 2 ^ 64
    → j < 2 ^ 64
    → i ≢ j
    → write_file (object_path dir i g) bytes files (object_path dir j h)
      ≡ files (object_path dir j h)
unfolding write_file
write_file_ne dir i g j h bytes files hi hj ne =
    rw (text_ne _ _ (λ e. ne (object_path_object dir i g j h hi hj e)))

pub write_file_self :
    (path : Text) (bytes : List ℕ) (files : Text → Option (List ℕ))
    → write_file path bytes files path ≡ some bytes
unfolding write_file
write_file_self path bytes files = rw (text_eq_refl path)
