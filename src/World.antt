-- ===== src/World.antt =====
-- What a request handler works on: the stored state, the choices of its environment, and the
-- effects of a service (features.Service): statements, the clock, identifiers, random tokens,
-- the Redis cache, mail and events.
--
-- `Env` is fixed during a run. Its functions of a number are the environment's choices at each
-- effect: whether the call fails before it changes anything, how much time has passed, which
-- identifier or token is drawn. They are arbitrary, so a theorem holds for every one of them.
pub mod Exec
pub mod Inversion
pub mod Effects
pub mod Transaction
use dinchy.Prelude.{ℕ, String, Bool, true, ◌≡◌, Option, List}
use dinchy.Errors.Codes.{Code}
use dinchy.Db.{Db, SessionRow}

-- internal/config/session.go and cache.go; durations are nanoseconds
pub record SessionConfig : Type 0 where
  pub session_idle_timeout : ℕ
  pub session_max_lifetime : ℕ

pub record CacheConfig : Type 0 where
  pub enabled : Bool
  pub session_ttl_cap : ℕ

-- internal/config/auth.go, the fields that the services read
pub record AuthConfig : Type 0 where
  pub password_reset_lifetime : ℕ
  pub invite_lifetime : ℕ
  pub totp_issuer : String
  pub default_organization_name : String
  pub default_organization_slug : String

-- internal/config/links.go
pub record Links : Type 0 where
  pub base_url : String
  pub accept_invitation_path : String
  pub reset_password_path : String

-- internal/foundation/requestmeta: the request's values in the context
pub record RequestMeta : Type 0 where
  pub request_id : String
  pub trace_id : String
  pub span_id : String
  pub remote_ip : String
  pub user_agent : String

-- What the services use of internal/foundation/security/password.go. `hash` takes the salt.
pub record PasswordHasher : Type 0 where
  pub hash : String → String → String
  pub verify : String → String → Bool
  pub verify-hash : (salt password : String) → verify password (hash salt password) ≡ true

pub record Env : Type 0 where
  pub fault : ℕ → Bool
  pub drift : ℕ → ℕ
  pub new_id : ℕ → String
  pub random : ℕ → String
  -- crypto/sha256, encoding/base64, pquerna/otp at a time, strings.TrimSpace, net/url
  pub sha256 : String → String
  pub base64_url : String → String
  pub totp_secret : ℕ → String
  pub totp_url : String → String → String → String
  pub totp_valid : ℕ → String → String → Bool
  pub trim_space : String → String
  pub url_with_token : String → String → String → String
  -- the catalog's text at the default locale, for the parameters of the message
  pub copy : Code → List (String × String) → String
  -- the database's collation
  pub before : String → String → Bool
  pub passwords : PasswordHasher
  pub request : RequestMeta
  pub session_config : SessionConfig
  pub cache_config : CacheConfig
  pub auth_config : AuthConfig
  pub links : Links
  pub mailer_configured : Bool
  pub has_publisher : Bool
  pub has_database : Bool

-- The projection of a session's principal that the cache holds (session_type.go).
pub record CachedPrincipal : Type 0 where
  pub session_id : String
  pub user_id : String
  pub email : String
  pub display_name : String
  pub organization_id : String
  pub organization_name : String
  pub organization_slug : String
  pub role : String
  pub permissions : List String
  pub idle_expires_at : ℕ
  pub expires_at : ℕ

-- A Redis key of the session namespace, with the time at which Redis drops it.
pub record CacheItem : Type 0 where
  pub key : String
  pub value : CachedPrincipal
  pub gone_at : ℕ

-- ssoCacheState (internal/features/auth/sso_type.go), and its Redis key
pub record SsoState : Type 0 where
  pub provider_id : String
  pub return_to : String
  pub organization_slug : String
  pub state : String
  pub provider_session : String

pub record SsoItem : Type 0 where
  pub key : String
  pub value : SsoState
  pub gone_at : ℕ

-- email.Content
pub record Content : Type 0 where
  pub subject : String
  pub heading : String
  pub body : String
  pub cta_label : String
  pub cta_url : String
  pub footer : String

pub record Mail : Type 0 where
  pub to : String
  pub content : Content

-- internal/platform/events: the envelope of an event
pub record Envelope : Type 0 where
  pub actor_user_id : String
  pub actor_organization_id : String
  pub target_type : String
  pub target_id : String
  pub target_display : String
  pub request_id : String
  pub trace_id : String
  pub span_id : String
  pub ip_address : String
  pub user_agent : String

-- The events of internal/features/auth/events_generated.go that the services publish.
pub data EventType : Type 0 where
  setup_completed logout_succeeded two_factor_enabled two_factor_disabled : EventType

pub record Event : Type 0 where
  pub event_type : EventType
  pub envelope : Envelope
  pub metadata : List (String × String)

-- `step` counts the effects so far.
pub record World : Type 0 where
  pub db : Db
  pub cache : List CacheItem
  pub sso_states : List SsoItem
  pub mails : List Mail
  pub events : List Event
  pub now : ℕ
  pub step : ℕ
