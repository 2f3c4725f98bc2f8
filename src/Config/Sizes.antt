-- ===== src/Config/Sizes.antt =====
-- The sizes of a configuration that is loaded.
use telegram_block_device.Prelude.{
  ℕ, ◌^◌, ◌≤◌, ◌<◌, ◌≡◌, refl, sym, ap, subst, inl, inr, Bool, Bool-cases, true, false, not, Option,
  none, some, [], ◌∷◌, Result, ok, err, map_err, ok_or, ok_injective, passed, taken, ltb, ◌==◌,
  arith,
}
use telegram_block_device.Prelude.Bytes.{Text, codes}
use telegram_block_device.Block.{BlockMap, is_multiple_of}
use telegram_block_device.Block
use telegram_block_device.Device.Represents.{IsSized}
use telegram_block_device.Config.{
  TgDriveConfigFile, TgDriveConfig, Environment, Variable, value, not_present, bytes_only,
  Surroundings, below, parse_number, parse_unsigned, parse_signed, env_bool, ConfigError,
  env_number, present, or_else, unwrap_or, merge_env, validate, with_defaults, read_config,
  default_cache_dir, load, object_count, config, missing,
}

abbrev map_of : TgDriveConfig → BlockMap
map_of c = record {
  device_size = c.device_size;
  logical_sector_size = c.logical_sector_size;
  object_size = c.object_size;
}

-- The sizes of a configuration that has been validated.
pub record IsValid (c : TgDriveConfig) : Type 0 where
  pub accepted : Block.new c.device_size c.logical_sector_size c.object_size ≡ ok (map_of c)
  pub sector : 0 < c.logical_sector_size
  pub object : 65536 ≤ c.object_size

not-false : (b : Bool) → not b ≡ false → b ≡ true
not-false true h = refl
not-false false h = cc

not_zero : (n : ℕ) → 65536 ≤ n → (n == 0) ≡ false
not_zero n h = ground arith

sector_positive : (n sector : ℕ) → is_multiple_of n sector ≡ true → 65536 ≤ n → 0 < sector
sector_positive n sector h large = ground arith

validate-IsValid : (c : TgDriveConfig) → validate c ≡ ok tt → IsValid c
unfolding validate
validate-IsValid c h =
    let p₁ = passed (not (is_multiple_of c.device_size c.logical_sector_size)) _ _ h in
    let p₂ = passed (not (is_multiple_of c.object_size c.logical_sector_size)) _ _ p₁.1 in
    let p₃ = passed (ltb c.object_size 65536) _ _ p₂.1 in
    let t₁ : not (is_multiple_of c.device_size c.logical_sector_size) ≡ false = p₁.0 in
    let t₂ : not (is_multiple_of c.object_size c.logical_sector_size) ≡ false = p₂.0 in
    let t₃ : ltb c.object_size 65536 ≡ false = p₃.0 in
    let large : 65536 ≤ c.object_size = ground arith in
    record {
      accepted = unfold Block.new in rw (t₁, t₂) refl;
      sector = sector_positive c.object_size c.logical_sector_size (not-false _ t₂) large;
      object = large;
    }

abbrev pub Fits : ℕ → Option ℕ → Type 0
Fits bound none = Unit {0}
Fits bound (some n) = (n < bound)

-- The sizes of a file are of their types.
abbrev pub IsTyped : TgDriveConfigFile → Type 0
IsTyped file =
    Fits (2 ^ 64) file.device_size
    × Fits (2 ^ 32) file.logical_sector_size
    × Fits (2 ^ 32) file.object_size

below-Fits : (bound : ℕ) (n : Option ℕ) → Fits bound (below bound n)
below-Fits bound none = tt
below-Fits bound (some n) = elim (Bool-cases (ltb n bound)) [
  | inl lt ↦ rw lt (smaller n bound lt)
  | inr ge ↦ rw ge tt
]
  where
    smaller : (n bound : ℕ) → ltb n bound ≡ true → n < bound
    smaller n bound h = ground arith

parse_unsigned-Fits : (w : ℕ) (text : Text) → Fits (2 ^ w) (parse_unsigned w text)
parse_unsigned-Fits w [] = tt
parse_unsigned-Fits w (c ∷ cs) = elim (Bool-cases (c == 43)) [
  | inl plus ↦ rw plus (below-Fits (2 ^ w) (parse_number cs))
  | inr other ↦ rw other (below-Fits (2 ^ w) (parse_number (c ∷ cs)))
]

present-Fits : (bound : ℕ) (n r : Option ℕ) → Fits bound n → present n ≡ ok r → Fits bound r
present-Fits bound none r f h = cc
present-Fits bound (some n) r f h = subst (Fits bound) (ok_injective h) f

env_number-Fits :
    (w : ℕ) (v : Variable) (r : Option ℕ) → env_number (parse_unsigned w) v ≡ ok r → Fits (2 ^ w) r
env_number-Fits w (value text) r h =
    present-Fits (2 ^ w) (parse_unsigned w text) r (parse_unsigned-Fits w text) h
env_number-Fits w not_present r h = subst (Fits (2 ^ w)) (ok_injective h) tt
env_number-Fits w (bytes_only text) r h = cc

or_else-Fits : (bound : ℕ) (a b : Option ℕ) → Fits bound a → Fits bound b → Fits bound (or_else a b)
or_else-Fits bound (some a) b f g = f
or_else-Fits bound none b f g = g

unwrap_or-Fits :
    (bound : ℕ) (a : Option ℕ) (b : ℕ) → Fits bound a → b < bound → unwrap_or a b < bound
unwrap_or-Fits bound (some a) b f lt = f
unwrap_or-Fits bound none b f lt = lt

merge_env-IsTyped :
    (env : Environment) (file merged : TgDriveConfigFile)
    → IsTyped file
    → merge_env env file ≡ ok merged
    → IsTyped merged
unfolding merge_env
merge_env-IsTyped env file merged (fd, fs, fo) h =
    let (device, d, h₁) =
      taken (env_number (parse_unsigned 64) (env (codes "TGDRIVE_DEVICE_SIZE"))) _ merged h in
    let (sector, s, h₂) =
      taken (env_number (parse_unsigned 32) (env (codes "TGDRIVE_LOGICAL_SECTOR_SIZE"))) _ merged
        h₁ in
    let (object, o, h₃) =
      taken (env_number (parse_unsigned 32) (env (codes "TGDRIVE_OBJECT_SIZE"))) _ merged h₂ in
    let (api_id, _, h₄) =
      taken (env_number (parse_signed 32) (env (codes "TELEGRAM_API_ID"))) _ merged h₃ in
    let (channel_id, _, h₅) =
      taken (env_number (parse_signed 64) (env (codes "TELEGRAM_CHANNEL_ID"))) _ merged h₄ in
    let (access_hash, _, h₆) =
      taken (env_number (parse_signed 64) (env (codes "TELEGRAM_CHANNEL_ACCESS_HASH"))) _ merged
        h₅ in
    let (read_only, _, h₇) = taken (env_bool (env (codes "TGDRIVE_READ_ONLY"))) _ merged h₆ in
    subst IsTyped (ok_injective h₇) (
      or_else-Fits (2 ^ 64) device file.device_size
          (env_number-Fits 64 (env (codes "TGDRIVE_DEVICE_SIZE")) device d) fd,
      or_else-Fits (2 ^ 32) sector file.logical_sector_size
          (env_number-Fits 32 (env (codes "TGDRIVE_LOGICAL_SECTOR_SIZE")) sector s) fs,
      or_else-Fits (2 ^ 32) object file.object_size
          (env_number-Fits 32 (env (codes "TGDRIVE_OBJECT_SIZE")) object o) fo,
    )

accepted : {A : Type 0} (r : Result ConfigError A) {a : A} → map_err config r ≡ ok a → r ≡ ok a
accepted (ok a) h = cc
accepted (err e) h = cc

module _ (S : Surroundings) (env : Environment) (path : Option Text) where
  -- What a load goes through.
  record Loaded (read_only_override : Option Bool) (c : TgDriveConfig) : Type 0 where
    file : TgDriveConfigFile
    merged : TgDriveConfigFile
    cache_dir : Text
    read : read_config S path ≡ ok file
    merges : merge_env env file ≡ ok merged
    valid : validate c ≡ ok tt
    completes : with_defaults S read_only_override cache_dir merged ≡ c

  load-Loaded :
      (read_only_override : Option Bool) (c : TgDriveConfig)
      → load S env path read_only_override ≡ ok c
      → Loaded read_only_override c
  unfolding load
  load-Loaded read_only_override c h =
      let (file, r, h₁) = taken (read_config S path) _ c h in
      let (merged, m, h₂) = taken (merge_env env file) _ c h₁ in
      let (cache_dir, d, h₃) =
        taken
          (ok_or (or_else merged.cache_dir (default_cache_dir S S.cache_dir))
            (config (missing (codes "cache_dir"))))
          _ c h₂ in
      let (_, v, h₄) =
        taken (map_err config (validate (with_defaults S read_only_override cache_dir merged))) _ c
          h₃ in
      record {
        file = file;
        merged = merged;
        cache_dir = cache_dir;
        read = r;
        merges = m;
        valid = subst (λ c. validate c ≡ ok tt) (ok_injective h₄) (accepted _ v);
        completes = ok_injective h₄;
      }

  file-IsTyped :
      (file : TgDriveConfigFile)
      → ((text : Text) (file : TgDriveConfigFile) → S.from_str text ≡ ok file → IsTyped file)
      → read_config S path ≡ ok file
      → IsTyped file
  file-IsTyped file typed = by_path path
    where
      by_path : (path : Option Text) → read_config S path ≡ ok file → IsTyped file
      by_path none h = subst IsTyped (ok_injective h) (tt, tt, tt)
      by_path (some path) h =
          let (text, r, h₁) = taken (S.read_to_string path) S.from_str file h in typed text file h₁

  -- If TOML reads sizes of their types, a configuration that is loaded, from wherever its sizes come,
  -- is one that `BlockMap::new` accepts, with the same number of objects; its sizes are of their types, a
  -- sector is not empty, and an object has 64 KiB at least.
  pub load-IsSized :
      (read_only_override : Option Bool) (c : TgDriveConfig)
      → ((text : Text) (file : TgDriveConfigFile) → S.from_str text ≡ ok file → IsTyped file)
      → load S env path read_only_override ≡ ok c
      → (map : BlockMap) × (Block.new c.device_size c.logical_sector_size c.object_size ≡ ok map)
        × (Block.object_count map ≡ ok (object_count c))
        × IsSized map
        × (0 < c.logical_sector_size)
        × (65536 ≤ c.object_size)
  unfolding object_count Block.object_count
  load-IsSized read_only_override c typed h =
      let l : Loaded read_only_override c = load-Loaded read_only_override c h in
      let v : IsValid c = validate-IsValid c l.valid in
      let (fd, fs, fo) =
        merge_env-IsTyped env l.file l.merged (file-IsTyped l.file typed l.read) l.merges in
      let device : c.device_size < 2 ^ 64 =
        subst (λ c. c.device_size < 2 ^ 64) l.completes
          (unwrap_or-Fits (2 ^ 64) l.merged.device_size 67108864 fd (omega arith)) in
      let object : c.object_size < 2 ^ 32 =
        subst (λ c. c.object_size < 2 ^ 32) l.completes
          (unwrap_or-Fits (2 ^ 32) l.merged.object_size 262144 fo (omega arith)) in
      (
        map_of c,
        v.accepted,
        rw (not_zero c.object_size v.object) refl,
        record { device_size = device; object_size = object; not_empty = omega (arith, v.object) },
        v.sector,
        v.object,
      )

  -- Whatever the file and the environment say, an override of the command line decides whether a loaded
  -- configuration is for reading only.
  pub load_override :
      (read_only : Bool) (c : TgDriveConfig)
      → load S env path (some read_only) ≡ ok c
      → c.read_only ≡ read_only
  load_override read_only c h =
      sym (ap (λ c. c.read_only) (load-Loaded (some read_only) c h).completes)
