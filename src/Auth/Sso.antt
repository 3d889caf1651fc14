-- ===== src/Auth/Sso.antt =====
-- internal/features/auth: the single sign-on of sso_service.go and sso_helpers.go, over the library
-- goth, which is a parameter. The cookies that carry and clear the transaction are not modelled:
-- startSSO returns the transaction, and completeSSO takes it.
pub mod Callback
pub mod Registry
pub mod Start
use dinchy.Prelude.{
  ℕ, ◌+◌, String, Bool, true, false, ◌&&◌, ◌||◌, not, Option, none, some, List, [], ◌∷◌, find,
  keep_if, ltb, ◌==◌, if◌then◌else◌,
}
use dinchy.Errors.{
  GoError, no_rows, failure, Result, ok, err, app, bad_request, unauthorized, internal,
  internal_because, missing_or, is_no_rows,
}
use dinchy.Errors.Codes.{
  sso_provider_not_found, sso_cache_required, sso_invalid_state, sso_login_failed, login_sso_start,
  login_sso_callback, login_generate_token, login_find_user, login_find_account,
}
use dinchy.Db.{UserRow}
use dinchy.Db.Users.{find_user_by_provider_account, find_user_by_email, insert_account}
use dinchy.World.{Env, World, SsoState, SsoItem}
use dinchy.World.Exec.{Exec, pure, raise, some_or, fail_as, attempt, require, ◌>>=◌, ◌>>◌}
use dinchy.World.Effects.{clock_now, generate_id, random_token, select, statement, tick}
use dinchy.Session.{create}
use dinchy.Auth.{User, user_from_row}
use dinchy.Auth.Login.{resolve_login_organization}

-- internal/config/sso.go
pub record SsoProviderConfig : Type 0 where
  pub id : String
  pub name : String
  pub client_id : String
  pub secret : String
  pub callback_url : String
  pub enabled : Bool

pub record GothUser : Type 0 where
  pub user_id : String
  pub email : String

-- A goth.Provider with its sessions, which are kept as their marshalled text. `authorize` and
-- `fetch_user` ask the provider's server, so they also depend on the time of the call.
pub record Provider : Type 0 where
  pub begin_auth : String → Option String
  pub auth_url : String → Option String
  pub unmarshal_session : String → Option String
  pub authorize : ℕ → String → String → String → Option String
  pub fetch_user : ℕ → String → Option GothUser

-- a URL that net/url has parsed
pub record Url : Type 0 where
  pub is_abs : Bool
  pub is_rooted : Bool
  pub request_uri : String
  pub state : String

-- The libraries and the settings of the single sign-on.
pub record SsoRegistry : Type 0 where
  pub env_providers : List SsoProviderConfig
  pub state_lifetime : ℕ
  pub cache_key : String → String
  pub has_redis : Bool
  pub google : SsoProviderConfig → Provider
  pub github : SsoProviderConfig → Provider
  pub gitlab : SsoProviderConfig → Provider
  pub parse_url : String → Option Url
  pub to_lower : String → String

abbrev pub bad_state : GoError
bad_state = app bad_request sso_invalid_state

abbrev pub login_refused : GoError
login_refused = app unauthorized sso_login_failed

module _ (env : Env) (sso : SsoRegistry) where
  -- newGothProvider
  abbrev pub new_goth_provider : SsoProviderConfig → Option Provider
  new_goth_provider cfg =
      if cfg.id == "google"
      then some (sso.google cfg)
      else if cfg.id == "github"
      then some (sso.github cfg)
      else if cfg.id == "gitlab"
      then some (sso.gitlab cfg)
      else none

  abbrev pub if_enabled : Option SsoProviderConfig → Option SsoProviderConfig
  if_enabled none = none
  if_enabled (some cfg) = if cfg.enabled then some cfg else none

  -- effectiveSSOProviderConfig, and the test that follows it
  abbrev pub enabled_provider : String → Option SsoProviderConfig
  enabled_provider provider_id = if_enabled (find (λ cfg. cfg.id == provider_id) sso.env_providers)

  abbrev has_state : String → Option Url → Bool
  has_state query_state none = false
  has_state query_state (some url) = url.state == query_state

  -- validateSSOState
  abbrev pub is_valid_state : Option String → String → Bool
  is_valid_state none query_state = false
  is_valid_state (some auth_url) query_state = has_state query_state (sso.parse_url auth_url)

  abbrev path_of : Option Url → String
  path_of none = "/"
  path_of (some url) = if url.is_abs || not url.is_rooted then "/" else url.request_uri

  abbrev pub internal_return_path : String → String
  internal_return_path raw = if raw == "" then "/" else path_of (sso.parse_url raw)

  -- a call of the library, which may fail
  unfoldable pub call : {A : Type 0} → (ℕ → Option A) → Exec A
  call f w = elim (f w.step) [ none ↦ (err failure, tick w) | some a ↦ (ok a, tick w) ]

  abbrev pub is_at : ℕ → String → SsoItem → Bool
  is_at now key i = i.key == key && ltb now i.gone_at

  -- the Redis commands on a transaction
  unfoldable pub get_state : String → Exec SsoState
  get_state transaction w =
      if env.fault w.step
      then (err failure, tick w)
      else elim (find (is_at w.now (sso.cache_key transaction)) w.sso_states) [
        | none ↦ (err failure, tick w)
        | some i ↦ (ok i.value, tick w)
      ]

  abbrev pub without_key : String → List SsoItem → List SsoItem
  without_key key items = keep_if (λ i. not (i.key == key)) items

  unfoldable pub set_state : String → SsoState → Exec (Unit {0})
  set_state transaction state w = if env.fault w.step then (err failure, tick w) else (
    ok tt,
    record (tick w) {
      sso_states =
          record {
            key = sso.cache_key transaction;
            value = state;
            gone_at = w.now + sso.state_lifetime;
          }
          ∷ without_key (sso.cache_key transaction) w.sso_states;
    },
  )

  unfoldable pub delete_state : String → Exec (Unit {0})
  delete_state transaction w = if env.fault w.step then (err failure, tick w) else (
    ok tt,
    record (tick w) { sso_states = without_key (sso.cache_key transaction) w.sso_states },
  )

  -- startSSO: the provider's URL and the transaction
  unfoldable pub start_sso : String → String → String → Exec (String × String)
  start_sso provider_id return_to organization_slug = do
    cfg ← some_or (app bad_request sso_provider_not_found) (enabled_provider provider_id)
    require sso.has_redis (internal sso_cache_required)
    provider ← some_or (internal_because login_sso_start failure) (new_goth_provider cfg)
    state ← fail_as (internal_because login_generate_token) (random_token env)
    session ← some_or (internal_because login_sso_start failure) (provider.begin_auth state)
    auth_url ← some_or (internal_because login_sso_start failure) (provider.auth_url session)
    transaction ← fail_as (internal_because login_generate_token) (random_token env)
    fail_as (internal_because login_sso_start) (
        set_state transaction (record {
          provider_id = provider_id;
          return_to = internal_return_path return_to;
          organization_slug = organization_slug;
          state = state;
          provider_session = session;
        }))
    pure (auth_url, transaction)

  abbrev if_verified : Option User → Option User
  if_verified none = none
  if_verified (some user) = if user.email_verified then some user else none

  -- the user with the provider's email, to whom the provider's account is linked
  unfoldable pub link_by_email : String → GothUser → Exec User
  link_by_email provider_id goth_user = if goth_user.email == "" then raise login_refused else do
    row ←
        fail_as (missing_or login_refused login_find_user)
          (select env (find_user_by_email (sso.to_lower (env.trim_space goth_user.email))))
    user ← some_or login_refused (if_verified (user_from_row row))
    id ← generate_id env
    created ← clock_now env
    updated ← clock_now env
    fail_as (internal_because login_find_account) (
        statement env (
          insert_account (record {
            id = id;
            user_id = user.id;
            provider = provider_id;
            provider_account_id = goth_user.user_id;
            password_hash = none;
            created_at = created;
            updated_at = updated;
          })))
    pure user

  or_link : String → GothUser → Option User → Exec User
  or_link provider_id goth_user none = link_by_email provider_id goth_user
  or_link provider_id goth_user (some user) = pure user

  by_account : String → GothUser → Result UserRow → Exec User
  unfolding or_link
  by_account provider_id goth_user (ok row) = or_link provider_id goth_user (user_from_row row)
  by_account provider_id goth_user (err e) =
      if is_no_rows e
      then link_by_email provider_id goth_user
      else raise (internal_because login_find_user e)

  unfoldable pub sso_user : String → GothUser → Exec User
  unfolding by_account
  sso_user provider_id goth_user = do
    found ← attempt (select env (find_user_by_provider_account provider_id goth_user.user_id))
    by_account provider_id goth_user found

  -- the part of completeSSO that asks the provider who the user is
  unfoldable pub ask_provider : Provider → SsoState → String → String → Exec GothUser
  ask_provider provider cached query_state code = do
    session ←
        some_or (internal_because login_sso_callback failure)
          (provider.unmarshal_session cached.provider_session)
    require (is_valid_state (provider.auth_url session) query_state) bad_state
    authorized ←
        fail_as (internal_because login_sso_callback)
          (call (λ n. provider.authorize n session code query_state))
    fail_as (internal_because login_sso_callback) (call (λ n. provider.fetch_user n authorized))

  -- the part of completeSSO that checks the transaction
  unfoldable pub find_state : String → String → String → Exec SsoState
  find_state provider_id query_state transaction = do
    require (sso.has_redis && not (transaction == "")) bad_state
    cached ← fail_as (λ e. bad_state) (get_state transaction)
    require (cached.provider_id == provider_id && cached.state == query_state) bad_state
    pure cached

  -- the end of completeSSO: the session of the user in the transaction's organization
  unfoldable pub finish_sso : User → SsoState → String → String → String → Exec (String × String)
  finish_sso user cached transaction ip user_agent = do
    organization ← resolve_login_organization env user.id cached.organization_slug
    token ← create env user.id organization.id ip user_agent
    fail_as (internal_because login_sso_callback) (delete_state transaction)
    pure (cached.return_to, token)

  -- the part of completeSSO before the session: who signs on, and with which transaction
  unfoldable pub identify : String → String → String → String → Exec (User × SsoState)
  identify provider_id query_state code transaction = do
    cfg ← some_or (app bad_request sso_provider_not_found) (enabled_provider provider_id)
    cached ← find_state provider_id query_state transaction
    provider ← some_or (internal_because login_sso_callback failure) (new_goth_provider cfg)
    goth_user ← ask_provider provider cached query_state code
    user ← sso_user provider_id goth_user
    pure (user, cached)

  -- completeSSO: the path to return to and the session token
  unfoldable pub complete_sso :
      String → String → String → String → String → String → Exec (String × String)
  complete_sso provider_id query_state code transaction ip user_agent = do
    (user, cached) ← identify provider_id query_state code transaction
    finish_sso user cached transaction ip user_agent
