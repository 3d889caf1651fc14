-- ===== src/Auth/Login.antt =====
-- internal/features/auth: Login and SelectOrganization of auth_service.go, and the lookups that
-- they share with the single sign-on (auth_helpers.go).
pub mod Credentials
pub mod Outcome
pub mod Selection
use dinchy.Prelude.{
  ℕ, zero, suc, String, Bool, true, false, not, Option, none, some, List, [], ◌∷◌, length, ◌==◌,
  if◌then◌else◌,
}
use dinchy.Errors.{
  GoError, Result, ok, err, app, bad_request, unauthorized, forbidden, internal_because, missing_or,
}
use dinchy.Errors.Codes.{
  invalid_credentials, organization_not_found, unauthenticated, login_find_user, login_find_account,
  login_find_organization, login_list_organizations, logout_publish_event,
  session_find_organization,
}
use dinchy.Db.{AccountRow}
use dinchy.Db.Users.{find_user_by_email, find_password_account, count_users, get_instance_name}
use dinchy.Db.Organizations.{MembershipRow, find_organization_by_slug, list_organizations}
use dinchy.World.{Env, logout_succeeded}
use dinchy.World.Exec.{Exec, pure, raise, some_or, fail_as, attempt, require, ◌>>=◌, ◌>>◌}
use dinchy.World.Effects.{select, publish_event}
use dinchy.Session.{Principal, session, create, logout}
use dinchy.Auth.{User, user_from_row, organization_from_row, new_target, new_envelope}
use dinchy.Auth.Totp.{verify_totp_for_login}

pub record BootstrapState : Type 0 where
  pub setup_required : Bool
  pub instance_name : String

abbrev pub bad_credentials : GoError
bad_credentials = app unauthorized invalid_credentials

abbrev pub stored_hash : AccountRow → String
stored_hash a = elim a.password_hash [ none ↦ "" | some h ↦ h ]

abbrev pub is_zero : ℕ → Bool
is_zero n = elim n [ zero ↦ true | suc m ↦ false ]

module _ (env : Env) where
  -- Service.Bootstrap
  unfoldable pub bootstrap : Exec BootstrapState
  bootstrap = do
    count ← select env count_users
    name ← select env get_instance_name
    pure (record { setup_required = is_zero count; instance_name = name })

  -- Service.OrganizationsForUser
  unfoldable pub organizations_for_user : String → Exec (List MembershipRow)
  organizations_for_user user_id = select env (list_organizations env.before user_id)

  unfoldable pub find_user_with_password : String → String → Exec User
  find_user_with_password email password = do
    row ←
        fail_as (missing_or bad_credentials login_find_user) (select env (find_user_by_email email))
    user ← some_or bad_credentials (user_from_row row)
    account ←
        fail_as (missing_or bad_credentials login_find_account)
          (select env (find_password_account user.id))
    require (env.passwords.verify password (stored_hash account)) bad_credentials
    pure user

  abbrev first_of_list : List MembershipRow → Exec MembershipRow
  first_of_list [] = raise (app forbidden organization_not_found)
  first_of_list (row ∷ rows) = pure row

  unfoldable pub resolve_login_organization : String → String → Exec MembershipRow
  resolve_login_organization user_id slug =
      if not (slug == "")
      then (do
        row ←
            fail_as (missing_or (app bad_request organization_not_found) login_find_organization)
              (select env (find_organization_by_slug user_id slug))
        some_or (app bad_request organization_not_found) (organization_from_row row))
      else do
        rows ←
            fail_as (internal_because login_list_organizations)
              (select env (list_organizations env.before user_id))
        first_of_list rows

  -- the part of Login before Create: who logs in, and to which organization
  unfoldable pub authenticate : String → String → String → String → Exec (User × MembershipRow)
  authenticate email password slug totp_code = do
    user ← find_user_with_password email password
    verify_totp_for_login env user.id totp_code
    organization ← resolve_login_organization user.id slug
    pure (user, organization)

  -- Service.Login
  unfoldable pub login : String → String → String → String → String → String → Exec String
  login email password slug totp_code ip user_agent = do
    (user, organization) ← authenticate email password slug totp_code
    create env user.id organization.id ip user_agent

  -- the event of a logout: a publication that fails is passed over
  unfoldable pub announce_logout : Option Principal → Exec (Unit {0})
  announce_logout none = pure tt
  announce_logout (some p) = do
    envelope ← fail_as (internal_because logout_publish_event) (
        new_envelope env p.user_id p.organization_id
          (new_target env "session" p.session_id p.display_name))
    attempt (
        publish_event env (record {
          event_type = logout_succeeded;
          envelope = envelope;
          metadata = ("email", p.email) ∷ [];
        }))
    pure tt

  -- the part of SelectOrganization before Create: the organization is found among those of the
  -- principal, and the old session ends
  unfoldable pub leave_session : String → String → Exec (Principal × MembershipRow)
  unfolding announce_logout
  leave_session raw_token slug = do
    found ← session env raw_token
    principal ← some_or (app unauthorized unauthenticated) found
    row ←
        fail_as (missing_or (app bad_request organization_not_found) session_find_organization)
          (select env (find_organization_by_slug principal.user_id slug))
    organization ← some_or (app bad_request organization_not_found) (organization_from_row row)
    logged_out ← logout env raw_token
    announce_logout logged_out
    pure (principal, organization)

  -- Service.SelectOrganization
  unfoldable pub select_organization : String → String → String → String → Exec String
  select_organization raw_token slug ip user_agent = do
    (principal, organization) ← leave_session raw_token slug
    create env principal.user_id organization.id ip user_agent
