-- ===== src/Transport.antt =====
-- internal/transport: what stands between a request and an operation of the API (server.go, in the
-- order of its middleware): the scheme, the origin, the CSRF token, the session and the permissions
-- (middleware/https.go, cors.go, csrf.go, authorization.go; features/session/session_middleware.go).
-- The middleware that only sets headers, the language, an ID or a deadline is left out.
pub mod Render
pub mod Leaks
pub mod Guards
use Prim.Native.String.{◌++◌}
use dinchy.Prelude.{
  String, Bool, true, false, not, ◌&&◌, ◌||◌, Option, none, some, List, [], ◌∷◌, ◌==◌,
  if◌then◌else◌,
}
use dinchy.Errors.{
  GoError, Result, ok, err, app, bad_request, unauthorized, forbidden, internal_because,
}
use dinchy.Errors.Codes.{csrf_failed, unauthenticated, forbidden_action, server_internal_error}
use dinchy.World.{Env, World}
use dinchy.World.Exec.{Exec, pure, raise, fail_as, attempt, require, ◌>>=◌, ◌>>◌}
use dinchy.World.Effects.{random_token}
use dinchy.Session.{Principal, session, has_permission}
use dinchy.Auth.Api.{HttpRequest, Cookie}
use dinchy.Events.{Record, EventCodec}
use dinchy.Audit.{ListInput, api_list}

pub data Method : Type 0 where
  get head options post put patch delete : Method

-- What the middleware reads of a request. A header that is absent is empty; `is_preflight` is the
-- test of go-chi/cors for a request that it answers itself.
pub record RawRequest : Type 0 where
  pub tls : Bool
  pub forwarded_proto : String
  pub host : String
  pub origin : String
  pub method : Method
  pub is_preflight : Bool
  pub csrf_cookie : String
  pub csrf_header : String
  pub session_cookie : String
  pub sso_cookie : String

-- SecureDetect
unfoldable pub secure_detect : RawRequest → Bool
secure_detect r = r.tls || r.forwarded_proto == "https"

-- isAllowedOrigin, where `dev_origin` is empty outside the development mode
unfoldable pub is_allowed_origin : String → RawRequest → Bool
unfolding secure_detect
is_allowed_origin dev_origin r =
    let scheme = if secure_detect r then "https" else "http" in
    r.origin == (scheme ++ "://" ++ r.host) || (not (dev_origin == "") && r.origin == dev_origin)

unfoldable pub is_mutating : Method → Bool
is_mutating post = true
is_mutating put = true
is_mutating patch = true
is_mutating delete = true
is_mutating _ = false

-- the session's part of a request's context
pub record Identity : Type 0 where
  pub principal : Option Principal
  pub resolution_error : Option GoError

-- Where a request ends: at CORS, or at the operation with its context.
pub data Verdict : Type 0 where
  origin_refused : Verdict
  preflight_answered : Verdict
  reached : HttpRequest → Verdict

module _ (env : Env) where
  -- a token of the cookie, or a new one with its cookie; a failure panics, which Recover renders
  csrf_token : RawRequest → Exec String
  csrf_token r =
      if r.csrf_cookie == ""
      then fail_as (internal_because server_internal_error) (random_token env)
      else pure r.csrf_cookie

  -- CSRF
  unfoldable pub csrf : RawRequest → Exec (Unit {0})
  unfolding csrf_token is_mutating
  csrf r = do
    token ← csrf_token r
    require (not (is_mutating r.method) || token == r.csrf_header) (app bad_request csrf_failed)

  abbrev identity_of : Result (Option Principal) → Identity
  identity_of (ok principal) = record { principal = principal; resolution_error = none }
  identity_of (err e) = record { principal = none; resolution_error = some e }

  -- RequestMiddleware
  unfoldable pub request_identity : RawRequest → Exec Identity
  request_identity r =
      if r.session_cookie == ""
      then pure (record { principal = none; resolution_error = none })
      else do resolved ← attempt (session env r.session_cookie); pure (identity_of resolved)

  -- SessionResolutionGuard
  unfoldable pub session_resolution_guard : Option GoError → Exec (Unit {0})
  session_resolution_guard none = pure tt
  session_resolution_guard (some e) = raise e

  -- the loop of requirePermissions
  unfoldable pub holds_all : List String → List String → Bool
  holds_all permissions [] = true
  holds_all permissions (required ∷ rest) =
      has_permission permissions required && holds_all permissions rest

  -- RequirePermissions; `none` is an operation without it
  unfoldable pub require_permissions : Option (List String) → Option Principal → Exec (Unit {0})
  unfolding holds_all
  require_permissions none principal = pure tt
  require_permissions (some required) none = raise (app unauthorized unauthenticated)
  require_permissions (some required) (some p) =
      require (holds_all p.permissions required) (app forbidden forbidden_action)

  abbrev context_of : RawRequest → Option Principal → HttpRequest
  context_of r principal = record {
    secure = secure_detect r;
    session_cookie = r.session_cookie;
    sso_cookie = r.sso_cookie;
    principal = principal;
  }

  unfoldable pub guarded : Option (List String) → RawRequest → Exec Verdict
  unfolding csrf request_identity session_resolution_guard require_permissions
  guarded permissions r = do
    csrf r
    who ← request_identity r
    session_resolution_guard who.resolution_error
    require_permissions permissions who.principal
    pure (reached (context_of r who.principal))

  -- the middleware of New in front of an operation
  unfoldable pub serve : String → Option (List String) → RawRequest → Exec Verdict
  unfolding is_allowed_origin guarded
  serve dev_origin permissions r =
      if not (r.origin == "") && not (is_allowed_origin dev_origin r)
      then pure origin_refused
      else if r.is_preflight
      then pure preflight_answered
      else guarded permissions r
