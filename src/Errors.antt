-- ===== src/Errors.antt =====
-- The errors of the crates as one type: what `anyhow::Error` carries, with the numbers that its text
-- shows. `division_by_zero` is a panic, and `out_of_fuel` is no value of the program: a loop of the
-- model had too few rounds.
use telegram_block_device.Prelude.{ℕ}
use telegram_block_device.Prelude.Bytes.{Text}
use telegram_block_device.Format.Envelope.{FormatError}

pub data Error : Type 0 where
  format : FormatError → Error
  device_size_unaligned object_size_unaligned offset_out_of_bounds : Error
  read_out_of_bounds write_out_of_bounds : Error
  dirty_checksum_mismatch backpressure json constraint : Error
  dirty_checksum_mismatch_for object_out_of_range no_remote_ref no_checksum : ℕ → Error
  cache_checksum_mismatch remote_checksum_mismatch manifest_missing_object : ℕ → Error
  message_not_found transport no_media leaf_missing : ℕ → Error
  file_not_found : Text → Error
  leaf_magic leaf_version leaf_uuid leaf_generation leaf_index_mismatch : Error
  tree_object_count tree_object_id manifest_hash_mismatch missing_superblock_prefix : Error
  message_ids_empty payload_checksum_mismatch leaf_checksum_mismatch : Error
  division_by_zero out_of_fuel : Error
