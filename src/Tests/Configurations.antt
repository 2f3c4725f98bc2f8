-- ===== src/Tests/Configurations.antt =====
-- The theorems on the configuration at a file and a variable.
use telegram_block_device.Prelude.{
  ◌≤◌, ◌<◌, ◌≡◌, refl, subst, true, none, some, [], ok, ok_injective, if◌then◌else◌, arith,
}
use telegram_block_device.Prelude.Bytes.{Text, codes, text_eq}
use telegram_block_device.Block.{BlockMap}
use telegram_block_device.Block
use telegram_block_device.Device.Represents.{IsSized}
use telegram_block_device.Config.{
  TgDriveConfigFile, TgDriveConfig, Environment, value, not_present, Surroundings, default_file,
  load, merge_env, validate, object_count, parse_digits,
}
use telegram_block_device.Config.Sizes.{IsTyped, load-IsSized, load_override}

abbrev sample_file : TgDriveConfigFile
sample_file = record default_file { device_size = some 1048576; object_size = some 65536 }

abbrev sample_surroundings : Surroundings
sample_surroundings = record {
  read_to_string = λ path. ok [];
  from_str = λ text. ok sample_file;
  cache_dir = some (codes "/home/u/.cache");
}

abbrev sample_environment : Environment
sample_environment = λ name.
    if text_eq name (codes "TGDRIVE_OBJECT_SIZE") then value (codes "131072") else not_present

abbrev sample_config : TgDriveConfig
sample_config = record {
  device_size = 1048576;
  logical_sector_size = 4096;
  object_size = 131072;
  cache_dir = codes "/home/u/.cache/tgdrive";
  sqlite_path = codes "/home/u/.cache/tgdrive/metadata.sqlite3";
  telegram_api_id = none;
  telegram_api_hash = none;
  telegram_session_path = codes "/home/u/.cache/tgdrive/telegram.session";
  telegram_channel_id = none;
  telegram_channel_access_hash = none;
  telegram_channel_title = none;
  read_only = true;
}

loaded :
    load sample_surroundings sample_environment (some (codes "tgdrive.toml")) (some true)
    ≡ ok sample_config
unfolding load merge_env validate parse_digits text_eq
loaded = refl

typed :
    (text : Text) (file : TgDriveConfigFile)
    → sample_surroundings.from_str text ≡ ok file
    → IsTyped file
typed text file h = subst IsTyped (ok_injective h) (omega arith)

load-IsSized_example :
    (map : BlockMap) × (Block.new sample_config.device_size sample_config.logical_sector_size
        sample_config.object_size
      ≡ ok map)
    × (Block.object_count map ≡ ok (object_count sample_config))
    × IsSized map
    × (0 < sample_config.logical_sector_size)
    × (65536 ≤ sample_config.object_size)
load-IsSized_example =
    load-IsSized sample_surroundings sample_environment (some (codes "tgdrive.toml")) (some true)
      sample_config typed loaded

load_override_example : sample_config.read_only ≡ true
load_override_example =
    load_override sample_surroundings sample_environment (some (codes "tgdrive.toml")) true
      sample_config loaded
