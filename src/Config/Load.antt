-- ===== src/Config/Load.antt =====
-- internal/config/config.go: Load. The file system, the process environment and godotenv are the
-- record `System`; the validator, a library, is a test on the configuration.
use dinchy.Prelude.{
  String, Bool, not, ◌&&◌, ◌||◌, Option, none, some, List, [], ◌∷◌, ◌==◌, if◌then◌else◌,
}
use dinchy.Errors.{GoError, failure, Result, ok, err, internal_because}
use dinchy.Errors.Codes.{config_load_failed, config_validation_failed}
use dinchy.Auth.Sso.{SsoProviderConfig}
use dinchy.Config.{
  text, Settings, setting, group, no_settings, more, Parsers, ◌>>=◌, load_failed, load_from_env,
  apply_mods,
}
use dinchy.Config.Defaults.{default_settings}
use dinchy.Config.Sso.{SsoEnvConfig, configured_sso_providers}

-- `godotenv_load` gives the environment after the file was read, none where it cannot be.
pub record System : Type 0 where
  pub getenv : String → String
  pub user_home_dir : Option String
  pub join : List String → String
  pub exists : String → Bool
  pub godotenv_load : String → Option (String → String)

-- Config: the fields that are read from the environment, and SSOProviders
pub record Config : Type 0 where
  pub settings : Settings
  pub sso_providers : List SsoProviderConfig

-- the field of a struct, and the struct in a field, by its name
unfoldable pub text_in : String → Settings → String
text_in name no_settings = ""
text_in name (more (setting tags (text s)) settings) =
    let rest = text_in name settings in if tags.name == name then s else rest
text_in name (more _ settings) = text_in name settings

unfoldable pub struct_in : String → Settings → Settings
struct_in name no_settings = no_settings
struct_in name (more (group n inner) settings) =
    let rest = struct_in name settings in if n == name then inner else rest
struct_in name (more (setting _ _) settings) = struct_in name settings

abbrev pub sso_env_of : Settings → SsoEnvConfig
sso_env_of settings =
    let sso = struct_in "SSO" settings in
    record {
      google_client_id = text_in "GoogleClientID" sso;
      google_secret = text_in "GoogleSecret" sso;
      google_callback_url = text_in "GoogleCallbackURL" sso;
      github_client_id = text_in "GitHubClientID" sso;
      github_secret = text_in "GitHubSecret" sso;
      github_callback_url = text_in "GitHubCallbackURL" sso;
      gitlab_client_id = text_in "GitLabClientID" sso;
      gitlab_secret = text_in "GitLabSecret" sso;
      gitlab_callback_url = text_in "GitLabCallbackURL" sso;
    }

-- SSOProviders, derived from the other settings
abbrev pub config_of : Settings → Config
config_of settings = record {
  settings = settings;
  sso_providers = configured_sso_providers (sso_env_of settings);
}

-- SMTPConfig.Enabled
unfoldable pub smtp_enabled : Settings → Bool
unfolding text_in struct_in
smtp_enabled settings =
    let smtp = struct_in "SMTP" settings in
    not (text_in "Host" smtp == "") || not (text_in "From" smtp == "")

module _ (system : System) where
  abbrev loaded_from : Option (String → String) → Result (String → String)
  loaded_from none = err load_failed
  loaded_from (some getenv) = ok getenv

  unfoldable pub load_env_path : String → Result (String → String)
  load_env_path p = loaded_from (system.godotenv_load p)

  -- the home directory, where $XDG_CONFIG_HOME is not set
  abbrev config_in : Option String → Result String
  config_in none = err load_failed
  config_in (some home) = ok (system.join (home ∷ ".config" ∷ []))

  abbrev config_home : Result String
  config_home =
      if system.getenv "XDG_CONFIG_HOME" == ""
      then config_in system.user_home_dir
      else ok (system.getenv "XDG_CONFIG_HOME")

  abbrev from_path : String → Result (String → String)
  from_path xdg_path =
      if system.exists xdg_path
      then load_env_path xdg_path
      else if system.exists "/etc/dinchy/dinchy.env"
      then load_env_path "/etc/dinchy/dinchy.env"
      else ok system.getenv

  -- loadEnvFile, with the environment that it leaves
  unfoldable pub load_env_file : Result (String → String)
  unfolding load_env_path
  load_env_file =
      if system.getenv "DINCHY_ENV_FILE" == ""
      then config_home >>= (λ xdg. from_path (system.join (xdg ∷ "dinchy" ∷ "dinchy.env" ∷ [])))
      else load_env_path (system.getenv "DINCHY_ENV_FILE")

abbrev pub wrapped : {A : Type 0} → Result A → Result A
wrapped (ok a) = ok a
wrapped (err e) = err (internal_because config_load_failed e)

abbrev pub invalid : GoError
invalid = internal_because config_validation_failed failure

module _ (system : System) (parsers : Parsers) (is_valid : Config → Bool) where
  -- validateStruct
  unfoldable pub validate_struct : Config → Result Config
  validate_struct config = if is_valid config then ok config else err invalid

  -- the rule on the public base URL
  unfoldable pub require_base_url : Config → Result Config
  unfolding smtp_enabled
  require_base_url config =
      if smtp_enabled config.settings && text_in "PublicBaseURL" config.settings == ""
      then err invalid
      else ok config

  unfoldable pub load : Result Config
  unfolding load_env_file load_from_env apply_mods validate_struct require_base_url
  load = do
    getenv ← wrapped (load_env_file system)
    filled ← load_from_env parsers getenv default_settings
    normal ← apply_mods parsers filled
    config ← validate_struct (config_of normal)
    require_base_url config
