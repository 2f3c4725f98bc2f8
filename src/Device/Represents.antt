-- ===== src/Device/Represents.antt =====
-- The device as the bytes of a disk: every object that the device reaches contains its range.
use telegram_block_device.Prelude.{
  List, length, leb, le→leb, true, ◌≤◌, ℕ, ◌+◌, ◌*◌, ◌/◌, ◌%◌, ◌^◌, ◌<◌, ◌≡◌, ◌∙◌, sym, subst, ok,
  arith,
}
use telegram_block_device.Prelude.Table.{IsAscending}
use telegram_block_device.Format.Digest.{Digest}
use telegram_block_device.Block.{BlockMap, locate}
use telegram_block_device.Backend.{RemoteBackend, Channel}
use telegram_block_device.Disk.{bytes_from}
use telegram_block_device.Device.{BlockDevice}
use telegram_block_device.Device.Holds.{Holds, Fills}
use native.Mathlib.Nat.{div-add-mod, mod-lt}

-- Sizes are u64 and u32, and no object is empty.
pub record IsSized (m : BlockMap) : Type 0 where
  pub device_size : m.device_size < 2 ^ 64
  pub object_size : m.object_size < 2 ^ 32
  pub not_empty : 0 < m.object_size

pub id_bound : (id size n : ℕ) → 0 < size → id * size < n → n < 2 ^ 64 → id < 2 ^ 64
id_bound id size n pos lt le = grind arith

-- A device that stands for the disk `f`: every object contains its range, and the dirty rows are in
-- the order of their objects, one for each at most.
module _ (D : Digest) (B : RemoteBackend) (C : Channel B) where
  pub record Represents (m : BlockMap) (f : ℕ → ℕ) (d : BlockDevice B) : Type 0 where
    pub same_map : d.map ≡ m
    pub ascending : IsAscending (λ row. row.object_id) 0 d.store.dirty_rows
    pub each :
        (id : ℕ)
        → id * m.object_size < m.device_size
        → Holds D B C d id (bytes_from f (id * m.object_size) m.object_size)

  pub Represents-Fills :
      (m : BlockMap) (f : ℕ → ℕ) {d e : BlockDevice B}
      → IsSized m
      → Represents m f d
      → Fills D B C d e
      → Represents m f e
  Represents-Fills m f s r a = record {
    same_map = a.same_map ∙ r.same_map;
    ascending = subst (IsAscending (λ row. row.object_id) 0) (sym a.same_rows) r.ascending;
    each = λ id lt.
        a.keeps id _ (id_bound id m.object_size m.device_size s.not_empty lt s.device_size)
          (r.each id lt);
  }

  -- The test of `write_at` on a range of the device.
  pub write_fits :
      (m : BlockMap) (f : ℕ → ℕ) (sized : IsSized m) (d : BlockDevice B) (offset : ℕ)
      (bytes : List ℕ)
      → Represents m f d
      → offset + length bytes ≤ m.device_size
      → leb ((offset + length bytes) % 2 ^ 64) d.map.device_size ≡ true
  write_fits m f sized d offset bytes r fits =
      let small : (offset + length bytes) % 2 ^ 64 ≡ offset + length bytes =
        omega (arith, sized.device_size) in
      rw small
        (le→leb _ _ (subst (λ m'. offset + length bytes ≤ m'.device_size) (sym r.same_map) fits))

-- Where an address of the device lies.
pub record Place (m : BlockMap) (cursor id at : ℕ) : Type 0 where
  pub found : locate m cursor ≡ ok (id, at)
  pub start : id * m.object_size + at ≡ cursor
  pub inside : at < m.object_size
  pub object_inside : id * m.object_size < m.device_size
  pub id_fits : id < 2 ^ 64

pub place :
    (m : BlockMap) (cursor : ℕ)
    → IsSized m
    → cursor < m.device_size
    → Place m cursor (cursor / m.object_size) (cursor % m.object_size)
unfolding locate
place m cursor s lt = record {
  found = ground arith;
  start = whole;
  inside = mod-lt cursor s.not_empty;
  object_inside = omega (arith, whole);
  id_fits = grind (arith, whole);
}
  where
    whole : cursor / m.object_size * m.object_size + cursor % m.object_size ≡ cursor
    whole = omega (arith, div-add-mod cursor m.object_size)
