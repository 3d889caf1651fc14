-- ===== src/Examples/Transport.antt =====
-- The theorems on the middleware, the renderer and the session cleanup at concrete values.
use dinchy.Prelude.{
  ◌≤◌, ◌≡◌, ◌⊎◌, String, refl, true, false, some, none, Option, List, [], ◌∷◌, find, keep_if, All,
}
use dinchy.Errors.{ok, GoError, failure, internal_because}
use dinchy.Errors.Codes.{invitation_exists}
use dinchy.Db.{SessionRow}
use dinchy.Db.Sessions.{get_session_by_token_hash, has_hash, delete_ended_sessions}
use dinchy.World.{World}
use dinchy.World.Effects.{clock_now, select, statement, hash_token, cache_get, cache_set_with_ttl}
use dinchy.Session.{Principal, session}
use dinchy.Auth.Api.{HttpRequest}
use dinchy.Transport.{
  RawRequest, Method, reached, secure_detect, is_allowed_origin, is_mutating, csrf,
  request_identity, session_resolution_guard, holds_all, require_permissions, guarded, serve,
}
use dinchy.Transport.Render.{Catalog, resolve, response_for}
use dinchy.Transport.Guards.{HasCsrfToken, IsResolved, after_csrf, serve_reached}
use dinchy.Transport.Leaks.{opaque, response-opaque}
use dinchy.Workers.{cleanup_ended_sessions}
use dinchy.Workers.Cleanup.{IsFresh, cleanup_time, cleanup_ended_sessions_ok}
use dinchy.Examples.{env, world, open_session, db}

-- a POST of a browser that is logged in, from the server's own page
abbrev page_request : RawRequest
page_request = record {
  tls = true;
  forwarded_proto = "";
  host = "app.example";
  origin = "https://app.example";
  method = Method.post;
  is_preflight = false;
  csrf_cookie = "csrf";
  csrf_header = "csrf";
  session_cookie = "token";
  sso_cookie = "";
}

abbrev ada : Principal
ada = record {
  session_id = "token";
  user_id = "ada";
  email = "ada@example.com";
  display_name = "Ada";
  organization_id = "org";
  organization_name = "Default";
  organization_slug = "default";
  role = "admin";
  permissions = [];
  idle_expires_at = 150;
  expires_at = 190;
  revoked_at = none;
}

abbrev context : HttpRequest
context = record { secure = true; session_cookie = "token"; sso_cookie = ""; principal = some ada }

arrives : (serve env "" (some []) page_request world).0 ≡ ok (reached context)
unfolding serve is_allowed_origin secure_detect guarded csrf is_mutating request_identity
    session_resolution_guard require_permissions holds_all session get_session_by_token_hash
    cache_get cache_set_with_ttl hash_token clock_now select find keep_if
arrives = refl

serve_reached_example :
    ((◌≡◌ {A = String} "https://app.example" "") ⊎ (is_allowed_origin "" page_request ≡ true))
    × (is_mutating Method.post ≡ true → HasCsrfToken env page_request world)
    × (true ≡ secure_detect page_request)
    × IsResolved env page_request (after_csrf env page_request world) (some ada)
    × ((required : List String)
        → ◌≡◌ {A = Option (List String)} (some []) (some required)
        → (p : Principal) × (◌≡◌ {A = Option Principal} (some ada) (some p))
          × (holds_all env p.permissions required ≡ true))
serve_reached_example = serve_reached env "" (some []) page_request world context arrives

abbrev catalog : Catalog
catalog = record {
  meta = λ e. ("table", "users") ∷ [];
  text = λ e. "connection refused";
  message = λ e. "localized";
  message_of = λ code. "localized";
  validation_details = λ errs. [];
}

abbrev lost : GoError
lost = internal_because invitation_exists failure

response-opaque_example :
    (500 ≤ (resolve catalog false lost).status
      → resolve catalog false lost ≡ opaque catalog (resolve catalog false lost).status)
    × (500 ≤ (response_for catalog false 500 (lost ∷ [])).status
        → response_for catalog false 500 (lost ∷ [])
          ≡ opaque catalog (response_for catalog false 500 (lost ∷ [])).status)
response-opaque_example = response-opaque catalog 500 lost (lost ∷ [])

-- a session that was revoked a moment ago beside an open one
abbrev ended : SessionRow
ended = record open_session { id = "ended"; token_hash = "ended"; revoked_at = some 99 }

abbrev two_sessions : World
two_sessions = record world { db = record db { sessions = ended ∷ open_session ∷ [] } }

cleans : (cleanup_ended_sessions env two_sessions).0 ≡ ok tt
unfolding cleanup_ended_sessions clock_now statement delete_ended_sessions
cleans = refl

cleanup_ended_sessions_ok_example :
    (IsFresh (cleanup_time env two_sessions) open_session
      → find (has_hash "token") two_sessions.db.sessions ≡ some open_session
      → find (has_hash "token") (cleanup_ended_sessions env two_sessions).1.db.sessions
        ≡ some open_session)
    × All
        (λ r.
          IsFresh (cleanup_time env two_sessions) r
          ⊎ (cleanup_time env two_sessions ≤ r.updated_at))
        (cleanup_ended_sessions env two_sessions).1.db.sessions
cleanup_ended_sessions_ok_example =
    cleanup_ended_sessions_ok env "token" open_session two_sessions cleans
