-- ===== src/Examples/Settings.antt =====
-- The theorems on the configuration, its modifiers and the offered providers at concrete settings.
use dinchy.Prelude.{
  Texts, Bool, String, ◌≡◌, ◌≢◌, refl, true, false, ◌⊎◌, none, some, ◌==◌, if◌then◌else◌,
}
use dinchy.Errors.{Result, ok, err}
use dinchy.Transform.{spec_email, apply}
use dinchy.Config.{Parsers}
use dinchy.Config.Defaults.{default_settings}
use dinchy.Config.Load.{System, Config, load_env_file, config_of, smtp_enabled, text_in, load}
use dinchy.Config.Leaves.{Zipped, leaves}
use dinchy.Config.Loaded.{IsLoaded, load_ok}

-- functions on texts that leave a text alone
abbrev plain : Texts
plain = record {
  trim_space = λ s. s;
  to_lower = λ s. s;
  to_upper = λ s. s;
  first_byte = λ s. s;
  after_first_byte = λ s. "";
}

email_accepted : apply plain spec_email "" ≢ none
unfolding apply
email_accepted h = cc

abbrev parsers : Parsers
parsers = record {
  texts = plain;
  scan_int = λ s. none;
  parse_duration = λ s. none;
  parse_uint64 = λ s. if s == "66123" then some 66123 else none;
  parse_float = λ bits s. none;
}

-- only the name of the listen address is set
abbrev system : System
system = record {
  getenv = λ key. if key == "DINCHY_ADDR" then ":80" else "";
  user_home_dir = some "/root";
  join = λ parts. "";
  exists = λ path. false;
  godotenv_load = λ path. none;
}

abbrev is_valid : Config → Bool
is_valid config = true

abbrev ok_or : {A : Type 0} → A → Result A → A
ok_or a (ok b) = b
ok_or a (err e) = a

abbrev configuration : Config
configuration = ok_or (config_of default_settings) (load system parsers is_valid)

loads : load system parsers is_valid ≡ ok configuration
unfolding load
loads = refl

load_ok_example :
    (getenv : String → String) × (load_env_file system ≡ ok getenv)
    × Zipped
        (IsLoaded system parsers is_valid getenv)
        (leaves default_settings)
        (leaves configuration.settings)
    × (configuration ≡ config_of configuration.settings)
    × (is_valid configuration ≡ true)
    × ((smtp_enabled configuration.settings ≡ false)
        ⊎ ((text_in "PublicBaseURL" configuration.settings == "") ≡ false))
load_ok_example = load_ok system parsers is_valid configuration loads

-- the address is the one of the environment
listens : text_in "Addr" configuration.settings ≡ ":80"
unfolding load text_in
listens = refl
