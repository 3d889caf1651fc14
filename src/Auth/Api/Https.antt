-- ===== src/Auth/Api/Https.antt =====
-- Which operations of the API (handler.go) refuse a request that did not arrive over HTTPS.
use dinchy.Prelude.{String, ◌≡◌, true, false, arith}
use dinchy.Errors.{err}
use dinchy.World.{Env, World}
use dinchy.Auth.Sso.{SsoRegistry}
use dinchy.Auth.Api.{
  HttpRequest, ApiConfig, https_error, guard_https, get_bootstrap, post_login, post_logout,
  sso_start, sso_callback, post_invitation, post_accept_invitation, post_setup,
}

module _ (env : Env) (sso : SsoRegistry) (api : ApiConfig) (r : HttpRequest) where
  -- Where HTTPS is required and the request is not secure, each operation that issues, ends or
  -- reports a session or invites a user, but for the choice of an organization, the password reset
  -- and the two-factor operations, answers the error for it and has no effect at all.
  pub guard_https_refuses :
      (a b c d : String) (w : World)
      → api.require_https ≡ true
      → r.secure ≡ false
      → (get_bootstrap env sso api r w ≡ (err https_error, w))
        × (post_login env sso api r a b c d w ≡ (err https_error, w))
        × (post_logout env sso api r w ≡ (err https_error, w))
        × (sso_start env sso api r a b c w ≡ (err https_error, w))
        × (sso_callback env sso api r a b c d w ≡ (err https_error, w))
        × (post_invitation env sso api r a b w ≡ (err https_error, w))
        × (post_accept_invitation env sso api r a b c w ≡ (err https_error, w))
        × (post_setup env sso api r a b c w ≡ (err https_error, w))
  unfolding guard_https get_bootstrap post_login post_logout sso_start sso_callback post_invitation
      post_accept_invitation post_setup
  guard_https_refuses a b c d w required insecure = (
    ground arith,
    ground arith,
    ground arith,
    ground arith,
    ground arith,
    ground arith,
    ground arith,
    ground arith,
  )
