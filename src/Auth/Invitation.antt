-- ===== src/Auth/Invitation.antt =====
-- internal/features/auth/invite_service.go
pub mod Outcome
pub mod Creation
use dinchy.Prelude.{
  ℕ, ◌+◌, String, Bool, true, false, ◌&&◌, ◌||◌, not, Option, none, some, List, [], ◌∷◌, is_some,
  ltb, ◌==◌, if◌then◌else◌,
}
use dinchy.Errors.{
  GoError, failure, Result, ok, err, app, bad_request, conflict, forbidden, unauthorized,
  internal_because, missing_or, is_no_rows,
}
use dinchy.Errors.Codes.{
  email_not_configured, unauthenticated, forbidden_action, server_internal_error, invitation_exists,
  invitation_invalid, invitation_find_organization, invitation_find_user,
  invitation_find_invitation, invitation_generate_token, invitation_create_invitation,
  invitation_send_email, invitation_begin_tx, invitation_rollback, invitation_password_hash,
  invitation_update_email_verified, invitation_accept, invitation_find_account,
  invitation_consume_invitation, invitation_commit, email_invitation_subject,
  email_invitation_heading, email_invitation_body, email_invitation_cta,
}
use dinchy.Permission.{auth_invitations_create}
use dinchy.Db.{Db, UserRow, AccountRow, InvitationRow}
use dinchy.Db.Users.{
  find_user_by_email, insert_user, update_user_email_verified_at, find_password_account,
  update_user_password_hash, insert_account, text_value, password_provider,
}
use dinchy.Db.Organizations.{
  MembershipRow, find_organization_by_id, find_pending_invitation, insert_invitation,
  find_invitation_by_token, insert_member, consume_invitation,
}
use dinchy.World.{Env, Content}
use dinchy.World.Exec.{Exec, pure, raise, some_or, fail_as, attempt, require, ◌>>=◌, ◌>>◌}
use dinchy.World.Effects.{
  clock_now, generate_id, random_token, hash_token, hash_password, select, statement, send_mail,
  begin_tx, commit,
}
use dinchy.World.Transaction.{settle}
use dinchy.Session.{Principal, has_permission, create}
use dinchy.Auth.{User, user_from_row, nil_uuid, action_url, footer}

pub record Invitation : Type 0 where
  pub id : String
  pub organization_id : String
  pub email : String
  pub role : String
  pub status : String
  pub expires_at : ℕ
  pub invited_by_user_id : String
  pub accepted_at : Option ℕ

abbrev pub invitation_from_row : InvitationRow → Option Invitation
invitation_from_row row =
    if row.id == nil_uuid
    then none
    else some (record {
      id = row.id;
      organization_id = row.organization_id;
      email = row.email;
      role = row.role;
      status = row.status;
      expires_at = row.expires_at;
      invited_by_user_id = row.invited_by_user_id;
      accepted_at = row.accepted_at;
    })

abbrev pub status_pending : String
status_pending = "pending"

abbrev pub bad_invitation : GoError
bad_invitation = app bad_request invitation_invalid

-- the invitation that may be accepted at `now`
abbrev pub acceptable : Option Invitation → ℕ → Option Invitation
acceptable none now = none
acceptable (some i) now =
    if not (i.status == status_pending) || (is_some i.accepted_at || ltb i.expires_at now)
    then none
    else some i

module _ (env : Env) where
  abbrev pub invitation_content : String → String → String → Content
  invitation_content organization role token = record {
    subject = env.copy email_invitation_subject (("organization", organization) ∷ []);
    heading = env.copy email_invitation_heading (("organization", organization) ∷ []);
    body = env.copy email_invitation_body (("organization", organization) ∷ ("role", role) ∷ []);
    cta_label = env.copy email_invitation_cta [];
    cta_url = action_url env env.links.accept_invitation_path token;
    footer = footer env;
  }

  refuse_member : Result MembershipRow → Exec (Unit {0})
  refuse_member (ok row) = raise (app conflict invitation_exists)
  refuse_member (err e) =
      if is_no_rows e then pure tt else raise (internal_because invitation_find_organization e)

  refuse_user : String → Option User → Exec (Unit {0})
  refuse_user organization_id none = pure tt
  refuse_user organization_id (some user) = do
    membership ← attempt (select env (find_organization_by_id user.id organization_id))
    refuse_member membership

  refuse_existing : String → Result UserRow → Exec (Unit {0})
  refuse_existing organization_id (ok row) = refuse_user organization_id (user_from_row row)
  refuse_existing organization_id (err e) =
      if is_no_rows e then pure tt else raise (internal_because invitation_find_user e)

  refuse_pending : Result InvitationRow → Exec (Unit {0})
  refuse_pending (ok row) =
      if is_some (invitation_from_row row) then raise (app conflict invitation_exists) else pure tt
  refuse_pending (err e) =
      if is_no_rows e then pure tt else raise (internal_because invitation_find_invitation e)

  -- neither a member with the email nor a pending invitation for it
  unfoldable pub require_free : String → String → Exec (Unit {0})
  unfolding refuse_member refuse_user refuse_existing refuse_pending
  require_free organization_id email = do
    existing ← attempt (select env (find_user_by_email email))
    refuse_existing organization_id existing
    pending ← attempt (select env (find_pending_invitation organization_id email))
    refuse_pending pending

  unfoldable pub issue_invitation : Principal → String → String → ℕ → Exec Invitation
  issue_invitation inviter email role now = do
    raw_token ← fail_as (internal_because invitation_generate_token) (random_token env)
    id ← generate_id env
    fail_as (internal_because invitation_create_invitation) (
        statement env (
          insert_invitation (record {
            id = id;
            organization_id = inviter.organization_id;
            email = email;
            role = role;
            status = status_pending;
            token_hash = hash_token env raw_token;
            expires_at = now + env.auth_config.invite_lifetime;
            invited_by_user_id = inviter.user_id;
            accepted_at = none;
            created_at = now;
            updated_at = now;
          })))
    fail_as (internal_because invitation_send_email)
        (send_mail env email (invitation_content inviter.organization_name role raw_token))
    pure (record {
      id = id;
      organization_id = inviter.organization_id;
      email = email;
      role = role;
      status = status_pending;
      expires_at = now + env.auth_config.invite_lifetime;
      invited_by_user_id = inviter.user_id;
      accepted_at = none;
    })

  -- Service.CreateInvitation
  unfoldable pub create_invitation : Option Principal → String → String → Exec Invitation
  create_invitation inviter email role = do
    require env.mailer_configured (internal_because email_not_configured failure)
    principal ← some_or (app unauthorized unauthenticated) inviter
    require (has_permission principal.permissions auth_invitations_create)
        (app forbidden forbidden_action)
    now ← clock_now env
    require_free principal.organization_id email
    issue_invitation principal email role now

  -- the user of the invitation's email: an existing one, whose email becomes verified, or a new one
  verify_email : User → ℕ → Exec User
  verify_email user now = if user.email_verified then pure user else do
    fail_as (internal_because invitation_update_email_verified)
        (statement env (update_user_email_verified_at now user.id))
    pure user

  unfoldable pub provision_user : String → String → ℕ → Result UserRow → Exec User
  unfolding verify_email
  provision_user email display_name now (ok row) = do
    user ← some_or bad_invitation (user_from_row row)
    verify_email user now
  provision_user email display_name now (err e) =
      if not (is_no_rows e) then raise (internal_because invitation_find_user e) else do
        id ← generate_id env
        fail_as (internal_because invitation_accept) (
            statement env (
              insert_user (record {
                id = id;
                email = email;
                display_name = display_name;
                email_verified_at = some now;
                disabled_at = none;
                created_at = now;
                updated_at = now;
              })))
        pure (record { id = id; email = email; display_name = display_name; email_verified = true })

  unfoldable pub provision_account :
      User → String → String → ℕ → Result AccountRow → Exec (Unit {0})
  provision_account user email hash now (ok row) =
      fail_as (internal_because invitation_password_hash)
        (statement env (update_user_password_hash user.id hash now))
  provision_account user email hash now (err e) =
      if not (is_no_rows e) then raise (internal_because invitation_find_account e) else do
        id ← generate_id env
        fail_as (internal_because invitation_accept) (
            statement env (
              insert_account (record {
                id = id;
                user_id = user.id;
                provider = password_provider;
                provider_account_id = email;
                password_hash = text_value hash;
                created_at = now;
                updated_at = now;
              })))

  unfoldable pub provision_member : User → Invitation → ℕ → Result MembershipRow → Exec (Unit {0})
  provision_member user i now (ok row) = pure tt
  provision_member user i now (err e) =
      if not (is_no_rows e) then raise (internal_because invitation_find_organization e) else do
        id ← generate_id env
        fail_as (internal_because invitation_create_invitation) (
            statement env (
              insert_member (record {
                id = id;
                organization_id = i.organization_id;
                user_id = user.id;
                role = i.role;
                created_at = now;
                updated_at = now;
              })))

  -- the statements of AcceptInvitation between the invitation's guards and the commit: the user with
  -- the new password, and the user's membership, with which the invitation is used up
  unfoldable pub enroll_user : Invitation → ℕ → String → String → Exec User
  enroll_user i now display_name password = do
    hash ← fail_as (internal_because invitation_password_hash) (hash_password env password)
    row ← attempt (select env (find_user_by_email i.email))
    user ← provision_user i.email (if display_name == "" then i.email else display_name) now row
    account ← attempt (select env (find_password_account user.id))
    provision_account user i.email hash now account
    pure user

  unfoldable pub join : Invitation → ℕ → User → Exec (User × String)
  join i now user = do
    membership ← attempt (select env (find_organization_by_id user.id i.organization_id))
    provision_member user i now membership
    fail_as (internal_because invitation_consume_invitation)
        (statement env (consume_invitation now i.id))
    pure (user, i.organization_id)

  unfoldable pub enroll : Invitation → ℕ → String → String → Exec (User × String)
  enroll i now display_name password = do
    user ← enroll_user i now display_name password
    join i now user

  unfoldable pub accept : Option Invitation → ℕ → String → String → Exec (User × String)
  accept found now display_name password = do
    i ← some_or bad_invitation (acceptable found now)
    enroll i now display_name password

  unfoldable pub accept_transaction : String → String → String → Exec (User × String)
  accept_transaction token display_name password = do
    before ← fail_as (internal_because invitation_begin_tx) (begin_tx env)
    now ← clock_now env
    found ← attempt (select env (find_invitation_by_token (hash_token env token)))
    row ←
        settle env invitation_rollback (internal_because invitation_find_invitation)
          (missing_or bad_invitation invitation_find_invitation) before found
    accepted ← attempt (accept (invitation_from_row row) now display_name password)
    joined_to ← settle env invitation_rollback (λ e. e) (λ e. e) before accepted
    fail_as (internal_because invitation_commit) (commit env before)
    pure joined_to

  -- Service.AcceptInvitation
  unfoldable pub accept_invitation : String → String → String → String → String → Exec String
  accept_invitation token display_name password ip user_agent = do
    require env.has_database (internal_because server_internal_error failure)
    (user, organization_id) ← accept_transaction token display_name password
    create env user.id organization_id ip user_agent
