-- ===== src/Auth/Api/Sessions.antt =====
-- The operations of the API that end a session: logout and the choice of an organization.
use dinchy.Prelude.{String, ◌≡◌, ◌≢◌, subst, sym, Option, some, [], ◌∷◌, arith, eq_iff, inl, inr}
use dinchy.Errors.{ok}
use dinchy.World.{Env, World}
use dinchy.World.Inversion.{Result-cases}
use dinchy.World.Effects.{publish_event}
use dinchy.Session.{Principal, logout}
use dinchy.Session.Revoke.{IsRevoked, logout-IsRevoked}
use dinchy.Auth.{new_envelope}
use dinchy.Auth.Sso.{SsoRegistry}
use dinchy.Auth.Api.{
  HttpRequest, ApiConfig, Reply, clear_cookie, guard_https, end_session, post_logout,
}

module _ (env : Env) (sso : SsoRegistry) (api : ApiConfig) (r : HttpRequest) where
  db-end_session :
      (token : String) (w : World) (q : Option Principal)
      → token ≢ ""
      → (logout env token w).0 ≡ ok q
      → (end_session env sso api r token w).1.db ≡ (logout env token w).1.db
  unfolding end_session new_envelope publish_event
  db-end_session token w q given h = ground (arith, eq_iff token "")

  end_session-IsRevoked :
      (token : String) (w : World)
      → token ≢ ""
      → (end_session env sso api r token w).0 ≡ ok tt
      → IsRevoked env token (end_session env sso api r token w).1.db
  unfolding end_session
  end_session-IsRevoked token w given h = elim (Result-cases (logout env token w).0) [
    | inl (q, done) ↦
        subst (IsRevoked env token) (sym (db-end_session token w q given done))
          (logout-IsRevoked env token w q given done)
    | inr (e, failed) ↦ absurd (ground (arith, eq_iff token ""))
  ]

  -- A logout that replies has cleared the session cookie, and if the request had one, no stored
  -- session under the hash of its token is left unrevoked.
  post_logout_ok :
      (w : World) (reply : Reply (Unit {0}))
      → (post_logout env sso api r w).0 ≡ ok (some reply)
      → (reply.cookies ≡ clear_cookie api.session_cookie_name r.secure ∷ [])
        × (r.session_cookie ≢ ""
            → IsRevoked env r.session_cookie (post_logout env sso api r w).1.db)
  unfolding post_logout guard_https
  post_logout_ok w reply h = elim (Result-cases (end_session env sso api r r.session_cookie w).0) [
    | inl (_, ended) ↦ (
      ground arith,
      λ given.
          subst (IsRevoked env r.session_cookie) (ground arith)
            (end_session-IsRevoked r.session_cookie w given ended),
    )
    | inr (e, failed) ↦ absurd (ground arith)
  ]
