-- ===== src/Tests/Refusals.antt =====
-- What the device refuses, at concrete inputs.
use telegram_block_device.Prelude.{◌^◌, ◌-◌, ◌+◌, ◌≡◌, refl, [], ◌∷◌, err, arith}
use telegram_block_device.Errors.{read_out_of_bounds, write_out_of_bounds, backpressure}
use telegram_block_device.Device.{BlockDevice, read_at, write_at}
use telegram_block_device.Device.Represents.{Represents}
use telegram_block_device.Device.Flush.Moves.{Moves, Holds-Moves}
use telegram_block_device.Device.Refuse.{Refused, out_of_bounds_lem, backpressure_lem}
use telegram_block_device.Tests.Log.{log_backend, log_channel, log-IsReadable}
use telegram_block_device.Tests.Sample.{
  sum_digest, no_json, small_map, small_map-IsSized, small_device, zeros, small_device-Represents,
}

-- The sample device with no dirty object allowed.
abbrev full_device : BlockDevice log_backend
full_device = record small_device { max_dirty_objects = 0 }

full_device-Moves :
    Moves sum_digest log_backend log_channel (λ _. Unit {0}) small_device full_device
full_device-Moves = record {
  same_map = refl;
  same_store = refl;
  same_committer = refl;
  same_entry = λ id _. refl;
  messages = λ m bytes h. h;
}

full_device-Represents : Represents sum_digest log_backend log_channel small_map zeros full_device
full_device-Represents = record {
  same_map = refl;
  ascending = tt;
  each = λ id lt.
      Holds-Moves sum_digest log_backend log_channel full_device-Moves id _ tt
        (small_device-Represents.each id lt);
}

-- The sum of the range is 1 as a u64.
out_of_bounds_lem_example :
    Refused read_out_of_bounds
      (2 ^ 64 - 1 + 2)
      small_device
      (read_at sum_digest no_json log_backend (2 ^ 64 - 1) 2 small_device)
    × Refused write_out_of_bounds
        (2 ^ 64 - 1 + 2)
        small_device
        (write_at sum_digest no_json log_backend (2 ^ 64 - 1) (1 ∷ 2 ∷ []) small_device)
out_of_bounds_lem_example =
    out_of_bounds_lem sum_digest no_json log_backend small_device (2 ^ 64 - 1) (1 ∷ 2 ∷ [])
      (omega arith) (omega arith) (omega arith) (omega arith)

backpressure_lem_example :
    ((write_at sum_digest no_json log_backend 3 (9 ∷ 8 ∷ []) full_device).0 ≡ err backpressure)
    × Represents sum_digest log_backend log_channel small_map zeros
        (write_at sum_digest no_json log_backend 3 (9 ∷ 8 ∷ []) full_device).1
backpressure_lem_example =
    backpressure_lem sum_digest no_json log_backend log_channel small_map zeros 3 9 (8 ∷ [])
      full_device (log-IsReadable sum_digest) small_map-IsSized full_device-Represents (omega arith)
      (omega arith)
