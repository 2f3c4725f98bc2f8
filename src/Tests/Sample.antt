-- ===== src/Tests/Sample.antt =====
-- A small device: objects of four bytes, a stand-in for SHA-256, and JSON that is never read.
use telegram_block_device.Prelude.{
  ℕ, zero, suc, ◌+◌, ◌*◌, ◌%◌, ◌<◌, ◌≡◌, refl, none, some, List, [], ◌∷◌, err, replicate,
  length-replicate, arith,
}
use telegram_block_device.Prelude.Bytes.{codes}
use telegram_block_device.Prelude.Table.{row_at}
use telegram_block_device.Format.Digest.{Digest}
use telegram_block_device.Format.Manifest.{Manifest, ManifestJson}
use telegram_block_device.Format.Manifest
use telegram_block_device.Errors.{json}
use telegram_block_device.Block.{BlockMap}
use telegram_block_device.Cache.{LocalStore, fresh, dirty_object}
use telegram_block_device.Disk.{bytes_from}
use telegram_block_device.Device.{BlockDevice, find_object}
use telegram_block_device.Device
use telegram_block_device.Device.Holds.{Holds, in_zero}
use telegram_block_device.Device.Represents.{IsSized, Represents}
use telegram_block_device.Tests.Log.{log_backend, log_channel}

abbrev pub total : List ℕ → ℕ
total [] = 0
total (b ∷ bs) = (b + total bs) % 256

abbrev pub sum_digest : Digest
sum_digest = record {
  sha256_bytes = λ bytes. replicate 32 (total bytes);
  encode = λ bytes. bytes;
  length-sha256_bytes = λ bytes. length-replicate 32 (total bytes);
}

abbrev pub no_json : ManifestJson
no_json = record { encode_json = λ _. []; decode_json = λ _. err json }

abbrev pub small_map : BlockMap
small_map = record { device_size = 12; logical_sector_size = 2; object_size = 4 }

pub small_map-IsSized : IsSized small_map
small_map-IsSized = omega arith

abbrev pub small_store : LocalStore
small_store = fresh (codes "c") (λ _. none) 0

abbrev pub small_manifest : Manifest
small_manifest = Manifest.empty 7 4 3

abbrev pub small_device : BlockDevice log_backend
small_device = Device.new log_backend small_map [] small_store small_manifest

abbrev pub zeros : ℕ → ℕ
zeros a = 0

pub found :
    (id : ℕ) → id < 3 → find_object id small_manifest.objects ≡ some (Manifest.empty_object id)
unfolding find_object Manifest.empty Manifest.empty_objects
found zero h = refl
found (suc zero) h = refl
found (suc (suc zero)) h = refl
found (suc (suc (suc id))) h = absurd (omega arith)

each :
    (id : ℕ)
    → id * 4 < 12
    → Holds sum_digest log_backend log_channel small_device id (bytes_from zeros (id * 4) 4)
unfolding dirty_object row_at bytes_from Manifest.empty_object
each id h = in_zero (record {
  entry = Manifest.empty_object id;
  undirtied = refl;
  found = found id (omega arith);
  is_zero = refl;
  zeros = refl;
})

-- A new device is a disk of zeros.
pub small_device-Represents :
    Represents sum_digest log_backend log_channel small_map zeros small_device
small_device-Represents = record { same_map = refl; ascending = tt; each = each }
