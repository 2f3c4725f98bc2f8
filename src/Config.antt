-- ===== src/Config.antt =====
-- The configuration: crates/tgdrive-core/src/config.rs. The file system, TOML, the directory of the
-- `dirs` crate and the environment are parameters. Paths are texts of a Unix system, and signed numbers
-- their bit patterns.
pub mod Sizes
use telegram_block_device.Prelude.{
  ℕ, zero, suc, ◌+◌, ◌-◌, ◌*◌, ◌%◌, ◌^◌, Bool, true, false, not, ◌&&◌, Option, none, some, List, [],
  ◌∷◌, ◌++◌, Result, ok, err, and_then, ok_or, ensure, map_err, ltb, leb, if◌then◌else◌, ◌==◌,
}
use telegram_block_device.Prelude.Bytes.{Text, codes, text_eq}
use telegram_block_device.Block.{is_multiple_of, div_ceil}

pub data ConfigError : Type 0 where
  missing : Text → ConfigError
  device_size_alignment object_size_alignment object_size_too_small cache_required : ConfigError

-- What a load can fail with.
pub data LoadError : Type 0 where
  config : ConfigError → LoadError
  not_unicode invalid_number unreadable_file invalid_toml : LoadError

pub record TgDriveConfigFile : Type 0 where
  pub device_size : Option ℕ
  pub logical_sector_size : Option ℕ
  pub object_size : Option ℕ
  pub cache_dir : Option Text
  pub sqlite_path : Option Text
  pub telegram_api_id : Option ℕ
  pub telegram_api_hash : Option Text
  pub telegram_session_path : Option Text
  pub telegram_channel_id : Option ℕ
  pub telegram_channel_access_hash : Option ℕ
  pub telegram_channel_title : Option Text
  pub read_only : Option Bool

pub record TgDriveConfig : Type 0 where
  pub device_size : ℕ
  pub logical_sector_size : ℕ
  pub object_size : ℕ
  pub cache_dir : Text
  pub sqlite_path : Text
  pub telegram_api_id : Option ℕ
  pub telegram_api_hash : Option Text
  pub telegram_session_path : Text
  pub telegram_channel_id : Option ℕ
  pub telegram_channel_access_hash : Option ℕ
  pub telegram_channel_title : Option Text
  pub read_only : Bool

-- `TgDriveConfigFile::default()`
abbrev pub default_file : TgDriveConfigFile
default_file = record {
  device_size = none;
  logical_sector_size = none;
  object_size = none;
  cache_dir = none;
  sqlite_path = none;
  telegram_api_id = none;
  telegram_api_hash = none;
  telegram_session_path = none;
  telegram_channel_id = none;
  telegram_channel_access_hash = none;
  telegram_channel_title = none;
  read_only = none;
}

-- A variable of the environment; a text that is not UTF-8 is its bytes.
pub data Variable : Type 0 where
  not_present : Variable
  bytes_only value : Text → Variable

abbrev pub Environment : Type 0
Environment = Text → Variable

-- `str::parse` of integers: a sign, and digits.
unfoldable pub parse_digits : ℕ → Text → Option ℕ
parse_digits n [] = some n
parse_digits n (c ∷ cs) =
    let rest = parse_digits (n * 10 + (c - 48)) cs in if leb 48 c && ltb c 58 then rest else none

abbrev pub parse_number : Text → Option ℕ
parse_number [] = none
parse_number (c ∷ cs) = parse_digits 0 (c ∷ cs)

abbrev pub below : ℕ → Option ℕ → Option ℕ
below bound none = none
below bound (some n) = if ltb n bound then some n else none

abbrev pub parse_unsigned : ℕ → Text → Option ℕ
parse_unsigned w [] = none
parse_unsigned w (c ∷ cs) =
    if c == 43 then below (2 ^ w) (parse_number cs) else below (2 ^ w) (parse_number (c ∷ cs))

abbrev pub negative : ℕ → Option ℕ → Option ℕ
negative w none = none
negative w (some n) = some ((2 ^ w - n) % 2 ^ w)

abbrev pub parse_signed : ℕ → Text → Option ℕ
parse_signed w [] = none
parse_signed w (c ∷ cs) =
    if c == 45
    then negative w (below (2 ^ (w - 1) + 1) (parse_number cs))
    else if c == 43
    then below (2 ^ (w - 1)) (parse_number cs)
    else below (2 ^ (w - 1)) (parse_number (c ∷ cs))

abbrev pub present : Option ℕ → Result LoadError (Option ℕ)
present none = err invalid_number
present (some n) = ok (some n)

-- `env_u64`, `env_u32`, `env_i32` and `env_i64`, with the parser of the type.
abbrev pub env_number : (Text → Option ℕ) → Variable → Result LoadError (Option ℕ)
env_number parse (value text) = present (parse text)
env_number parse not_present = ok none
env_number parse (bytes_only text) = err not_unicode

abbrev pub is_yes : Text → Bool
is_yes text =
    if text_eq text (codes "1")
    then true
    else if text_eq text (codes "true")
    then true
    else if text_eq text (codes "TRUE")
    then true
    else if text_eq text (codes "yes")
    then true
    else text_eq text (codes "YES")

abbrev pub env_bool : Variable → Result LoadError (Option Bool)
env_bool (value text) = ok (some (is_yes text))
env_bool not_present = ok none
env_bool (bytes_only text) = err not_unicode

abbrev pub env_path : Variable → Option Text
env_path (value text) = some text
env_path not_present = none
env_path (bytes_only text) = some text

-- `env::var(…).ok()`
abbrev pub env_text : Variable → Option Text
env_text (value text) = some text
env_text not_present = none
env_text (bytes_only text) = none

abbrev pub or_else {ℓ} : {A : Type ℓ} → Option A → Option A → Option A
or_else (some a) b = some a
or_else none b = b

abbrev pub unwrap_or {ℓ} : {A : Type ℓ} → Option A → A → A
unwrap_or (some a) b = a
unwrap_or none b = b

unfoldable pub merge_env : Environment → TgDriveConfigFile → Result LoadError TgDriveConfigFile
unfolding parse_digits text_eq
merge_env env file =
    and_then (env_number (parse_unsigned 64) (env (codes "TGDRIVE_DEVICE_SIZE"))) (λ device_size.
      and_then (env_number (parse_unsigned 32) (env (codes "TGDRIVE_LOGICAL_SECTOR_SIZE")))
        (λ logical_sector_size.
          and_then (env_number (parse_unsigned 32) (env (codes "TGDRIVE_OBJECT_SIZE")))
            (λ object_size.
              and_then (env_number (parse_signed 32) (env (codes "TELEGRAM_API_ID")))
                (λ telegram_api_id.
                  and_then (env_number (parse_signed 64) (env (codes "TELEGRAM_CHANNEL_ID")))
                    (λ telegram_channel_id.
                      and_then
                        (env_number (parse_signed 64) (env (codes "TELEGRAM_CHANNEL_ACCESS_HASH")))
                        (λ telegram_channel_access_hash.
                          and_then (env_bool (env (codes "TGDRIVE_READ_ONLY"))) (λ read_only.
                            ok (record {
                              device_size = or_else device_size file.device_size;
                              logical_sector_size =
                                  or_else logical_sector_size file.logical_sector_size;
                              object_size = or_else object_size file.object_size;
                              cache_dir =
                                  or_else (env_path (env (codes "TGDRIVE_CACHE_DIR")))
                                    file.cache_dir;
                              sqlite_path =
                                  or_else (env_path (env (codes "TGDRIVE_SQLITE_PATH")))
                                    file.sqlite_path;
                              telegram_api_id = or_else telegram_api_id file.telegram_api_id;
                              telegram_api_hash =
                                  or_else (env_text (env (codes "TELEGRAM_API_HASH")))
                                    file.telegram_api_hash;
                              telegram_session_path =
                                  or_else (env_path (env (codes "TELEGRAM_SESSION_PATH")))
                                    file.telegram_session_path;
                              telegram_channel_id =
                                  or_else telegram_channel_id file.telegram_channel_id;
                              telegram_channel_access_hash =
                                  or_else telegram_channel_access_hash
                                    file.telegram_channel_access_hash;
                              telegram_channel_title =
                                  or_else (env_text (env (codes "TELEGRAM_CHANNEL_TITLE")))
                                    file.telegram_channel_title;
                              read_only = or_else read_only file.read_only;
                            }))))))))

abbrev pub is_empty : Text → Bool
is_empty [] = true
is_empty (c ∷ cs) = false

-- `TgDriveConfig::validate`
unfoldable pub validate : TgDriveConfig → Result ConfigError (Unit {0})
validate c =
    if not (is_multiple_of c.device_size c.logical_sector_size)
    then err device_size_alignment
    else if not (is_multiple_of c.object_size c.logical_sector_size)
    then err object_size_alignment
    else if ltb c.object_size (64 * 1024)
    then err object_size_too_small
    else if not c.read_only && is_empty c.cache_dir
    then err cache_required
    else ok tt

-- `PathBuf::join` with a relative path
abbrev pub join : Text → Text → Text
join [] name = name
join (c ∷ []) name = if c == 47 then c ∷ name else c ∷ 47 ∷ name
join (c ∷ d ∷ cs) name = c ∷ join (d ∷ cs) name

-- The file system, `toml::from_str` and `dirs::cache_dir()`.
pub record Surroundings : Type 0 where
  pub read_to_string : Text → Result LoadError Text
  pub from_str : Text → Result LoadError TgDriveConfigFile
  pub cache_dir : Option Text

module _ (S : Surroundings) where
  abbrev pub default_cache_dir : Option Text → Option Text
  default_cache_dir none = none
  default_cache_dir (some base) = some (join base (codes "tgdrive"))

  abbrev pub read_config : Option Text → Result LoadError TgDriveConfigFile
  read_config none = ok default_file
  read_config (some path) = and_then (S.read_to_string path) S.from_str

  abbrev pub with_defaults : Option Bool → Text → TgDriveConfigFile → TgDriveConfig
  with_defaults read_only_override cache_dir file = record {
    device_size = unwrap_or file.device_size (64 * 1024 * 1024);
    logical_sector_size = unwrap_or file.logical_sector_size 4096;
    object_size = unwrap_or file.object_size (256 * 1024);
    cache_dir = cache_dir;
    sqlite_path = unwrap_or file.sqlite_path (join cache_dir (codes "metadata.sqlite3"));
    telegram_api_id = file.telegram_api_id;
    telegram_api_hash = file.telegram_api_hash;
    telegram_session_path =
        unwrap_or file.telegram_session_path (join cache_dir (codes "telegram.session"));
    telegram_channel_id = file.telegram_channel_id;
    telegram_channel_access_hash = file.telegram_channel_access_hash;
    telegram_channel_title = file.telegram_channel_title;
    read_only = unwrap_or read_only_override (unwrap_or file.read_only false);
  }

  abbrev pub validated : TgDriveConfig → Result LoadError TgDriveConfig
  validated c = and_then (map_err config (validate c)) (λ _. ok c)

  abbrev pub completed : Option Bool → TgDriveConfigFile → Result LoadError TgDriveConfig
  completed read_only_override file =
      and_then
        (ok_or (or_else file.cache_dir (default_cache_dir S.cache_dir))
          (config (missing (codes "cache_dir"))))
        (λ cache_dir. validated (with_defaults read_only_override cache_dir file))

  unfoldable pub load : Environment → Option Text → Option Bool → Result LoadError TgDriveConfig
  unfolding merge_env validate
  load env config_path read_only_override =
      and_then (read_config config_path)
        (λ file. and_then (merge_env env file) (completed read_only_override))

-- `TgDriveConfig::object_count`
unfoldable pub object_count : TgDriveConfig → ℕ
object_count c = div_ceil c.device_size c.object_size
