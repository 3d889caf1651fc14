-- ===== src/Auth/Api.antt =====
-- internal/features/auth/handler.go: what an operation of the API answers. An operation ends with
-- an error, with a reply, or with neither (`return nil, nil`), which is `none`. The middleware's
-- findings about a request (its scheme, its cookies, its principal) are the record `HttpRequest`.
pub mod Https
pub mod Sessions
use dinchy.Prelude.{
  ℕ, String, Bool, true, false, ◌&&◌, not, Option, none, some, List, [], ◌∷◌, map, ◌==◌,
  if◌then◌else◌,
}
use dinchy.Errors.{
  GoError, failure, Result, ok, err, app, caused, bad_request, forbidden, unauthorized,
}
use dinchy.Errors.Codes.{https_required, unauthenticated, forbidden_action, sso_login_failed}
use dinchy.Permission.{auth_invitations_create}
use dinchy.Db.Organizations.{MembershipRow}
use dinchy.World.{Env, logout_succeeded}
use dinchy.World.Exec.{Exec, pure, raise, attempt, require, ◌>>=◌, ◌>>◌}
use dinchy.World.Effects.{publish_event}
use dinchy.Session.{Principal, session, logout, has_permission}
use dinchy.Auth.{new_target, new_envelope}
use dinchy.Auth.Login.{
  BootstrapState, bootstrap, login, select_organization, organizations_for_user,
}
use dinchy.Auth.Password.{forgot_password, reset_password}
use dinchy.Auth.Setup.{setup_first_user}
use dinchy.Auth.Invitation.{Invitation, create_invitation, accept_invitation}
use dinchy.Auth.Totp.{start_totp_enrollment, confirm_totp, disable_totp}
use dinchy.Auth.Sso.{SsoRegistry, start_sso, complete_sso}

pub record HttpRequest : Type 0 where
  pub secure : Bool
  pub session_cookie : String
  pub sso_cookie : String
  pub principal : Option Principal

-- the fields of the API and of the configuration that the operations read
pub record ApiConfig : Type 0 where
  pub require_https : Bool
  pub session_cookie_name : String
  pub sso_cookie_name : String

-- support.ValueCookie and support.ClearCookie; the path, SameSite and HttpOnly are constants
pub record Cookie : Type 0 where
  pub name : String
  pub value : String
  pub secure : Bool
  pub deletes : Bool

abbrev pub value_cookie : String → String → Bool → Cookie
value_cookie name value secure = record {
  name = name;
  value = value;
  secure = secure;
  deletes = false;
}

abbrev pub clear_cookie : String → Bool → Cookie
clear_cookie name secure = record { name = name; value = ""; secure = secure; deletes = true }

pub record ViewerOut : Type 0 where
  pub email : String
  pub display_name : String
  pub role : String

pub record OrganizationOut : Type 0 where
  pub id : String
  pub name : String
  pub slug : String
  pub role : String

pub record BootstrapBody : Type 0 where
  pub setup_required : Bool
  pub authenticated : Bool
  pub instance_name : String
  pub viewer : Option ViewerOut
  pub active_organization : Option OrganizationOut
  pub organizations : List OrganizationOut

-- a body with the cookies that the reply sets
pub record Reply (A : Type 0) : Type 0 where
  pub cookies : List Cookie
  pub body : A

abbrev pub organization_out : MembershipRow → OrganizationOut
organization_out o = record { id = o.id; name = o.name; slug = o.slug; role = o.role }

abbrev pub authenticated_body : Principal → String → List MembershipRow → BootstrapBody
authenticated_body p instance_name rows = record {
  setup_required = false;
  authenticated = true;
  instance_name = instance_name;
  viewer = some (record { email = p.email; display_name = p.display_name; role = p.role });
  active_organization = some (record {
    id = p.organization_id;
    name = p.organization_name;
    slug = p.organization_slug;
    role = p.role;
  });
  organizations = map organization_out rows;
}

abbrev pub anonymous_body : BootstrapState → BootstrapBody
anonymous_body state = record {
  setup_required = state.setup_required;
  authenticated = false;
  instance_name = state.instance_name;
  viewer = none;
  active_organization = none;
  organizations = [];
}

abbrev pub https_error : GoError
https_error = app forbidden https_required

abbrev pub not_authenticated : GoError
not_authenticated = app unauthorized unauthenticated

module _ (env : Env) (sso : SsoRegistry) (api : ApiConfig) (r : HttpRequest) where
  unfoldable pub guard_https : Exec (Unit {0})
  guard_https = require (not (api.require_https && not r.secure)) https_error

  unfoldable pub populate_authenticated_body : Principal → String → Exec BootstrapBody
  populate_authenticated_body p instance_name = do
    rows ← organizations_for_user env p.user_id
    pure (authenticated_body p instance_name rows)

  attach : BootstrapState → Option Principal → Exec BootstrapBody
  attach state none = pure (anonymous_body state)
  attach state (some p) = populate_authenticated_body p state.instance_name

  abbrev session_cookie_for : String → Cookie
  session_cookie_for token = value_cookie api.session_cookie_name token r.secure

  with_cookie : String → String → Option Principal → Exec (Option (Reply BootstrapBody))
  with_cookie token instance_name none = pure none
  with_cookie token instance_name (some p) = do
    body ← populate_authenticated_body p instance_name
    pure (some (record { cookies = session_cookie_for token ∷ []; body = body }))

  -- the common end of login, acceptInvitation and setup: the new token's session
  unfoldable pub reply_with_session : String → Exec (Option (Reply BootstrapBody))
  unfolding with_cookie
  reply_with_session token = do
    state ← bootstrap env
    principal ← session env token
    with_cookie token state.instance_name principal

  -- bootstrap and session, which are the same
  unfoldable pub get_bootstrap : Exec (Option (Reply BootstrapBody))
  unfolding attach
  get_bootstrap = do
    guard_https
    state ← bootstrap env
    body ← attach state r.principal
    pure (some (record { cookies = []; body = body }))

  unfoldable pub post_login :
      String → String → String → String → Exec (Option (Reply BootstrapBody))
  post_login email password slug totp_code = do
    guard_https
    token ← login env email password slug totp_code env.request.remote_ip env.request.user_agent
    reply_with_session token

  announce : Option Principal → Exec (Unit {0})
  announce none = pure tt
  announce (some p) = do
    envelope ←
        new_envelope env p.user_id p.organization_id
          (new_target env "session" p.session_id p.display_name)
    attempt (
        publish_event env (record {
          event_type = logout_succeeded;
          envelope = envelope;
          metadata = ("email", p.email) ∷ [];
        }))
    pure tt

  unfoldable pub end_session : String → Exec (Unit {0})
  unfolding announce
  end_session token =
      if token == "" then pure tt else do principal ← logout env token; announce principal

  unfoldable pub post_logout : Exec (Option (Reply (Unit {0})))
  post_logout = do
    guard_https
    end_session r.session_cookie
    pure (some (record { cookies = clear_cookie api.session_cookie_name r.secure ∷ []; body = tt }))

  -- ssoStart redirects to the body, with the transaction as its cookie
  unfoldable pub sso_start : String → String → String → Exec (Option (Reply String))
  sso_start provider_id return_to slug = do
    guard_https
    (auth_url, transaction) ← start_sso env sso provider_id return_to slug
    pure (
        some (record {
          cookies = value_cookie api.sso_cookie_name transaction r.secure ∷ [];
          body = auth_url;
        }))

  -- ssoCallback redirects to the body
  unfoldable pub sso_callback : String → String → String → String → Exec (Option (Reply String))
  sso_callback provider_id state code error = do
    guard_https
    require (error == "") (caused bad_request sso_login_failed failure)
    (return_to, token) ←
        complete_sso env sso provider_id state code r.sso_cookie env.request.remote_ip
          env.request.user_agent
    pure (
        some (record {
          cookies = session_cookie_for token ∷ clear_cookie api.sso_cookie_name r.secure ∷ [];
          body = return_to;
        }))

  select_reply : String → Option Principal → Exec (Option (Reply BootstrapBody))
  unfolding with_cookie
  select_reply token none = pure none
  select_reply token (some p) = do
    state ← bootstrap env
    with_cookie token state.instance_name (some p)

  unfoldable pub post_select_organization : String → Exec (Option (Reply BootstrapBody))
  unfolding select_reply
  post_select_organization slug = do
    token ←
        select_organization env r.session_cookie slug env.request.remote_ip env.request.user_agent
    principal ← session env token
    select_reply token principal

  create_as : Option Principal → String → String → Exec (Option (Reply Bool))
  create_as none email role = raise not_authenticated
  create_as (some p) email role = do
    require (has_permission p.permissions auth_invitations_create) (app forbidden forbidden_action)
    invitation ← create_invitation env (some p) email role
    pure (some (record { cookies = []; body = not (invitation.id == "") }))

  unfoldable pub post_invitation : String → String → Exec (Option (Reply Bool))
  unfolding create_as
  post_invitation email role = do guard_https; create_as r.principal email role

  unfoldable pub post_accept_invitation :
      String → String → String → Exec (Option (Reply BootstrapBody))
  post_accept_invitation token display_name password = do
    guard_https
    session_token ←
        accept_invitation env token display_name password env.request.remote_ip
          env.request.user_agent
    reply_with_session session_token

  unfoldable pub post_forgot_password : String → Exec (Option (Reply Bool))
  post_forgot_password email = do
    forgot_password env email
    pure (some (record { cookies = []; body = true }))

  unfoldable pub post_reset_password : String → String → Exec (Option (Reply Bool))
  post_reset_password token password = do
    reset_password env token password
    pure (some (record { cookies = []; body = true }))

  enroll_as : Option Principal → Exec (Option (Reply (String × String)))
  enroll_as none = raise not_authenticated
  enroll_as (some p) = do
    key ← start_totp_enrollment env p.user_id p.email
    pure (some (record { cookies = []; body = key }))

  unfoldable pub post_totp_enroll : Exec (Option (Reply (String × String)))
  unfolding enroll_as
  post_totp_enroll = enroll_as r.principal

  confirm_as : Option Principal → String → Exec (Option (Reply Bool))
  confirm_as none code = raise not_authenticated
  confirm_as (some p) code = do
    confirm_totp env p.user_id p.display_name code
    pure (some (record { cookies = []; body = true }))

  unfoldable pub post_totp_confirm : String → Exec (Option (Reply Bool))
  unfolding confirm_as
  post_totp_confirm code = confirm_as r.principal code

  disable_as : Option Principal → Exec (Option (Reply Bool))
  disable_as none = raise not_authenticated
  disable_as (some p) = do
    disable_totp env p.user_id p.display_name
    pure (some (record { cookies = []; body = false }))

  unfoldable pub post_totp_disable : Exec (Option (Reply Bool))
  unfolding disable_as
  post_totp_disable = disable_as r.principal

  unfoldable pub post_setup : String → String → String → Exec (Option (Reply BootstrapBody))
  post_setup email display_name password = do
    guard_https
    token ←
        setup_first_user env email display_name password env.request.remote_ip
          env.request.user_agent
    reply_with_session token
