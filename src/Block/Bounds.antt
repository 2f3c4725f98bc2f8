-- ===== src/Block/Bounds.antt =====
-- `locate` splits an address, and stays inside the objects that the device counts.
use telegram_block_device.Prelude.{
  ℕ, ◌+◌, ◌*◌, ◌/◌, ◌%◌, ◌≤◌, ◌<◌, ◌≡◌, ok, err, arith, ◌==◌, ==_iff, Bool-cases, inl, inr,
}
use telegram_block_device.Block.{BlockMap, div_ceil, object_count, locate}
use telegram_block_device.Errors.{offset_out_of_bounds}
use native.Mathlib.Nat.{div-add-mod, mod-lt}

mul_lt_cancel : (x y z : ℕ) → z * x < z * y → x < y
mul_lt_cancel x y z h = grind arith

quotient_lt : (offset size m k : ℕ) → offset < size → size ≤ m * k → offset / m < k
quotient_lt offset size m k h le =
    mul_lt_cancel (offset / m) k m (omega (arith, div-add-mod offset m))

size_le : (size m : ℕ) → 0 < m → size ≤ m * div_ceil size m
size_le size m pos = elim (Bool-cases (size % m == 0)) [
  | inl e ↦ rw e (omega (arith, div-add-mod size m, (==_iff (size % m) 0).0 e))
  | inr e ↦ rw e (omega (arith, div-add-mod size m, mod-lt size pos))
]

-- Where objects are not empty and can be counted, an address on the device lies in a counted object,
-- behind whole objects and inside its own.
pub locate_lem :
    (map : BlockMap) (offset n : ℕ)
    → 0 < map.object_size
    → offset < map.device_size
    → object_count map ≡ ok n
    → (id : ℕ) × (at : ℕ) × (locate map offset ≡ ok (id, at))
      × (id * map.object_size + at ≡ offset)
      × (at < map.object_size)
      × (id < n)
unfolding locate object_count
locate_lem map offset n pos inside count = (
  offset / map.object_size,
  offset % map.object_size,
  ground arith,
  omega (arith, div-add-mod offset map.object_size),
  mod-lt offset pos,
  ground (
    arith,
    quotient_lt offset map.device_size map.object_size n inside,
    size_le map.device_size map.object_size pos,
  ),
)

-- An address behind the device is refused.
pub locate_outside :
    (map : BlockMap) (offset : ℕ)
    → map.device_size ≤ offset
    → locate map offset ≡ err offset_out_of_bounds
unfolding locate
locate_outside map offset h = ground arith
