-- ===== src/Config.antt =====
-- internal/config/env.go: how the tree of settings, which the source walks by reflection, is filled
-- from environment variables and normalised. A setting is a field with its tags and its value, of the
-- kind that reflect names. The parsers of the standard library are the record `Parsers`.
pub mod Defaults
pub mod Sso
pub mod Load
pub mod Leaves
pub mod Loaded
use dinchy.Prelude.{
  Texts, ℕ, ◌%◌, ◌^◌, String, Bool, true, false, ◌||◌, Option, none, some, List, [], ◌∷◌, ◌==◌,
  if◌then◌else◌,
}
use dinchy.Errors.{GoError, failure, Result, ok, err, internal_because}
use dinchy.Errors.Codes.{config_load_failed}
use dinchy.Transform.{apply}

-- int and time.Duration
pub data ℤ : Type 0 where
  pos negsuc : ℕ → ℤ

-- The value of a field: reflect.Int64 is a duration in nanoseconds, an unsigned integer has a width
-- in bits, and a floating-point number is its bit pattern.
pub data Value : Type 0 where
  text : String → Value
  flag : Bool → Value
  int : ℤ → Value
  duration : ℤ → Value
  uint : ℕ → ℕ → Value
  float : ℕ → ℕ → Value
  other : Value

-- the name of a field, and its tags env and mod
pub record Tags : Type 0 where
  pub name : String
  pub env : String
  pub modifiers : String

mutual
  pub data Setting : Type 0 where
    setting : Tags → Value → Setting
    group : String → Settings → Setting

  pub data Settings : Type 0 where
    no_settings : Settings
    more : Setting → Settings → Settings

pub record Parsers : Type 0 where
  pub texts : Texts
  pub scan_int : String → Option ℤ
  pub parse_duration : String → Option ℤ
  pub parse_uint64 : String → Option ℕ
  pub parse_float : ℕ → String → Option ℕ

infixl 5 ◌>>=◌
abbrev pub ◌>>=◌ : {A B : Type 0} → Result A → (A → Result B) → Result B
ok a >>= f = f a
err e >>= f = err e

abbrev pub load_failed : GoError
load_failed = internal_because config_load_failed failure

-- the recursion over the fields that loadFromEnvValue and applyModsValue share
unfoldable mutual
  pub walk_setting : (Tags → Value → Result Value) → Setting → Result Setting
  walk_setting f (setting tags v) = do v' ← f tags v; ok (setting tags v')
  walk_setting f (group name settings) = do settings' ← walk f settings; ok (group name settings')

  pub walk : (Tags → Value → Result Value) → Settings → Result Settings
  walk f no_settings = ok no_settings
  walk f (more s settings) = do
    s' ← walk_setting f s
    settings' ← walk f settings
    ok (more s' settings')

module _ (parsers : Parsers) where
  abbrev is_truthy : String → Bool
  is_truthy raw = raw == "1" || raw == "true" || raw == "t" || raw == "yes" || raw == "on"

  abbrev parsed : {A : Type 0} → (A → Value) → Option A → Result Value
  parsed f none = err load_failed
  parsed f (some a) = ok (f a)

  -- The switch on the kind. SetUint keeps the bits that the field has.
  unfoldable pub set_from : String → Value → Result Value
  set_from raw (text _) = ok (text raw)
  set_from raw (flag _) = ok (flag (is_truthy (parsers.texts.to_lower raw)))
  set_from raw (int _) = parsed int (parsers.scan_int raw)
  set_from raw (duration _) = parsed duration (parsers.parse_duration raw)
  set_from raw (uint bits _) = parsed (λ n. uint bits (n % 2 ^ bits)) (parsers.parse_uint64 raw)
  set_from raw (float bits _) = parsed (float bits) (parsers.parse_float bits raw)
  set_from raw other = err load_failed

  -- one field of loadFromEnvValue
  unfoldable pub load_value : (String → String) → Tags → Value → Result Value
  unfolding set_from
  load_value getenv tags v =
      if tags.env == "" || getenv tags.env == "" then ok v else set_from (getenv tags.env) v

  -- loadFromEnvValue
  unfoldable pub load_from_env : (String → String) → Settings → Result Settings
  unfolding load_value walk
  load_from_env getenv settings = walk (load_value getenv) settings

  abbrev normalised : Option String → Result Value
  normalised none = err load_failed
  normalised (some s) = ok (text s)

  -- one field of applyModsValue with a tag
  unfoldable pub modify : String → Value → Result Value
  unfolding apply
  modify spec (text s) = normalised (apply parsers.texts spec s)
  modify spec v = err load_failed

  unfoldable pub mod_value : Tags → Value → Result Value
  unfolding modify
  mod_value tags v = if tags.modifiers == "" then ok v else modify tags.modifiers v

  -- applyModsValue
  unfoldable pub apply_mods : Settings → Result Settings
  unfolding mod_value walk
  apply_mods settings = walk mod_value settings
