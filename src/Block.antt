-- ===== src/Block.antt =====
-- The addresses of a device: crates/tgdrive-core/src/block.rs, `BlockMap`.
pub mod Bounds
use telegram_block_device.Prelude.{
  ℕ, ◌+◌, ◌-◌, ◌/◌, ◌%◌, Bool, not, Result, ok, err, ltb, ◌==◌, if◌then◌else◌,
}
use telegram_block_device.Errors.{
  Error, device_size_unaligned, object_size_unaligned, offset_out_of_bounds, division_by_zero,
}

pub record BlockMap : Type 0 where
  pub device_size : ℕ
  pub logical_sector_size : ℕ
  pub object_size : ℕ

-- `n.is_multiple_of(m)`: only 0 is a multiple of 0, and so it is with `%` here.
abbrev pub is_multiple_of : ℕ → ℕ → Bool
is_multiple_of n m = n % m == 0

-- `n.div_ceil(m)`, which panics at 0
abbrev pub div_ceil : ℕ → ℕ → ℕ
div_ceil n m = if n % m == 0 then n / m else n / m + 1

unfoldable pub new : ℕ → ℕ → ℕ → Result Error BlockMap
new device_size logical_sector_size object_size =
    if not (is_multiple_of device_size logical_sector_size)
    then err device_size_unaligned
    else if not (is_multiple_of object_size logical_sector_size)
    then err object_size_unaligned
    else ok (record {
      device_size = device_size;
      logical_sector_size = logical_sector_size;
      object_size = object_size;
    })

unfoldable pub object_count : BlockMap → Result Error ℕ
object_count map =
    if map.object_size == 0
    then err division_by_zero
    else ok (div_ceil map.device_size map.object_size)

-- The object that holds an address, and the place in it.
unfoldable pub locate : BlockMap → ℕ → Result Error (ℕ × ℕ)
locate map offset =
    if not (ltb offset map.device_size)
    then err offset_out_of_bounds
    else if map.object_size == 0
    then err division_by_zero
    else ok (offset / map.object_size, offset % map.object_size)
