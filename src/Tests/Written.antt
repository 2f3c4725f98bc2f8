-- ===== src/Tests/Written.antt =====
-- The sample device after a write that lies over the border of two objects.
use telegram_block_device.Prelude.{[], ◌∷◌, arith}
use telegram_block_device.Prelude.Table.{find, delete, select, upsert, put, row_at}
use telegram_block_device.Format.Manifest.{empty}
use telegram_block_device.Block.{locate}
use telegram_block_device.Cache.{
  object_path, read_cache, write_cache, put_entry, read_file, write_file, log_write, mark_dirty,
  dirty_object, stats, touches, extent,
}
use telegram_block_device.Disk.{overwrite}
use telegram_block_device.Device.{
  BlockDevice, find_object, read_object, write_dirty_object, write_at,
}
use telegram_block_device.Device.Represents.{Represents}
use telegram_block_device.Device.Write.{write_at_lem}
use telegram_block_device.Device.Flush.Commit.{KeepsMessages}
use telegram_block_device.Tests.Log.{log_backend, log_channel, log-IsReadable}
use telegram_block_device.Tests.Sample.{
  sum_digest, no_json, small_map, small_map-IsSized, small_device, zeros, small_device-Represents,
}

abbrev pub written_device : BlockDevice log_backend
written_device = (write_at sum_digest no_json log_backend 3 (9 ∷ 8 ∷ []) small_device).1

pub written-Represents :
    Represents sum_digest log_backend log_channel small_map
      (overwrite zeros 3 (9 ∷ 8 ∷ []))
      written_device
written-Represents =
    (write_at_lem sum_digest no_json log_backend log_channel (log-IsReadable sum_digest) small_map
      small_map-IsSized 3 (9 ∷ 8 ∷ []) 2 zeros small_device small_device-Represents (omega arith)
      (omega arith) (omega arith)).1

pub written-KeepsMessages :
    KeepsMessages sum_digest no_json log_backend log_channel written_device.committer
unfolding write_at write_dirty_object read_object find_object locate empty object_path read_cache
    write_cache put_entry read_file write_file log_write mark_dirty dirty_object stats find delete
    select upsert put row_at touches extent
written-KeepsMessages = tt
