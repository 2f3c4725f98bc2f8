-- ===== src/Tests/Runs.antt =====
-- The operations on the sample device.
use telegram_block_device.Prelude.{◌≡◌, refl, [], ◌∷◌, ok, ◌>>◌}
use telegram_block_device.Prelude.Bytes.{text_eq, digits_be, value_be, hex16}
use telegram_block_device.Prelude.Table.{find, delete, select, upsert, put, row_at}
use telegram_block_device.Format.Digest.{sha256_hex}
use telegram_block_device.Format.Envelope.{encode, decode}
use telegram_block_device.Format.Manifest.{empty}
use telegram_block_device.Block.{locate}
use telegram_block_device.Cache.{
  object_path, read_cache, write_cache, write_file, log_write, mark_dirty, dirty_objects,
  dirty_object, stats,
}
use telegram_block_device.Tests.Log.{log_backend}
use telegram_block_device.Device.{
  find_object, read_object, write_dirty_object, read_at, write_at, prefetch_objects,
}
use telegram_block_device.Tests.Sample.{sum_digest, no_json, small_device}

-- A write over the border of two objects is read back, between the zeros around it.
read_at-write_at :
    ((do
      write_at sum_digest no_json log_backend 3 (9 ∷ 8 ∷ [])
      read_at sum_digest no_json log_backend 2 4)
      small_device).0
    ≡ ok (0 ∷ 9 ∷ 8 ∷ 0 ∷ [])
unfolding write_at read_at write_dirty_object read_object prefetch_objects find_object locate empty
    object_path read_cache write_cache write_file log_write mark_dirty dirty_objects dirty_object
    stats find delete select upsert put row_at encode decode sha256_hex text_eq digits_be value_be
    hex16
read_at-write_at = refl
