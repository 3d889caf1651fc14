-- ===== src/Examples/Accounts.antt =====
-- The theorems on the setup, on passwords and on invitations at concrete states.
use dinchy.Prelude.{
  ◌+◌, ◌≤◌, ◌≡◌, ◌≢◌, ◌⊎◌, ◌++◌, String, refl, true, false, some, none, is_some, [], ◌∷◌, find, any,
  update_where, keep_if, length, arith, eq_iff, ◌==◌, ◌&&◌,
}
use dinchy.Errors.{GoError, ok, err, failure, app, forbidden, internal_because}
use dinchy.Errors.Codes.{
  forbidden_action, invitation_send_email, password_reset_find_user, setup_commit,
}
use dinchy.Permission.{auth_invitations_create}
use dinchy.Db.{AccountRow, InvitationRow, VerificationTokenRow}
use dinchy.Db.Users.{
  find_user_by_email, find_password_account, text_value, count_users, insert_user, insert_account,
  update_user_password_hash, rejects_user, rejects_account,
}
use dinchy.Db.Organizations.{
  find_invitation_by_token, is_open, mark_accepted, find_pending_invitation, insert_invitation,
  insert_organization, insert_organization_role, insert_role_permission, insert_member,
  find_organization_by_id, consume_invitation, rejects_organization, rejects_member,
}
use dinchy.Db.Sessions.{active_for_user, active_hashes_for_user, revoke_sessions_for_user}
use dinchy.Db.Tokens.{
  insert_verification_token, find_verification_token, consume_verification_token,
}
use dinchy.World.{World}
use dinchy.World.Effects.{
  clock_now, generate_id, random_token, hash_token, hash_password, select, statement, begin_tx,
  rollback, commit, send_mail, cache_delete,
}
use dinchy.Session.{Principal, has_permission, revoke_for_user}
use dinchy.Auth.{User, nil_uuid}
use dinchy.Auth.Password.{
  reset_password, forgot_password, password_reset_purpose, usable_by, password_reset_content,
}
use dinchy.Auth.Password.Reset.{reset_password_ok, reset_password_once, reset_time, new_hash}
use dinchy.Auth.Password.Forgot.{forgot_password_known, drawn}
use dinchy.Auth.Setup.{
  CreateUserInput, create_first_user, write_first_user, insert_roles, insert_permissions,
  setup_transaction, new_user,
}
use dinchy.Auth.Setup.Provision.{create_first_user_ok, provisioned}
use dinchy.Auth.Setup.Atomic.{setup_transaction_atomic}
use dinchy.Auth.Invitation.{
  accept_transaction, accept, enroll, enroll_user, join, provision_user, provision_account,
  provision_member, create_invitation, require_free, issue_invitation, invitation_content,
  Invitation, status_pending, bad_invitation,
}
use dinchy.Auth.Invitation.Outcome.{accept_transaction_ok, accept_time, Joins}
use dinchy.Auth.Invitation.Creation.{create_invitation_ok}
use dinchy.Examples.{env, world, empty_world, ada}

-- the setup
abbrev input : CreateUserInput
input = record {
  id = "ada";
  account_id = "account";
  organization_id = "org";
  organization_member_id = "membership";
  admin_role_id = "admin-role";
  member_role_id = "member-role";
  email = "ada@example.com";
  password_hash = "old password";
  display_name = "Ada";
  organization_name = "Default";
  organization_slug = "default";
  now = 100;
}

creates : (create_first_user env input empty_world).0 ≡ ok (new_user input)
unfolding create_first_user write_first_user insert_roles insert_permissions select statement
    count_users insert_user insert_account insert_organization insert_organization_role
    insert_role_permission insert_member any rejects_user rejects_account rejects_organization
    rejects_member
creates = refl

create_first_user_ok_example :
    (length empty_world.db.users ≡ 0)
    × (new_user input ≡ new_user input)
    × ((create_first_user env input empty_world).1.db ≡ provisioned env input empty_world.db)
create_first_user_ok_example = create_first_user_ok env input empty_world (new_user input) creates

-- a second setup
already_set_up : world.db.users ≢ []
already_set_up = λ e. cc

second_setup :
    (setup_transaction env "eve@example.com" "Eve" "hash" "org" 100 world).0
    ≡ err (app dinchy.Errors.conflict dinchy.Errors.Codes.setup_completed)
unfolding setup_transaction create_first_user begin_tx generate_id rollback select count_users
second_setup = refl

setup_transaction_atomic_example :
    ((u : User) × ((setup_transaction env "eve@example.com" "Eve" "hash" "org" 100 world).0 ≡ ok u)
      × (world.db.users ≡ []))
    ⊎ ((e : GoError) × ((setup_transaction env "eve@example.com" "Eve" "hash" "org" 100 world).0
          ≡ err e)
        × ((setup_transaction env "eve@example.com" "Eve" "hash" "org" 100 world).1.db ≡ world.db))
setup_transaction_atomic_example =
    setup_transaction_atomic env "eve@example.com" "Eve" "hash" "org" 100 world

-- passwords
resets : (reset_password env "reset token" "new password" world).0 ≡ ok tt
unfolding reset_password find_verification_token consume_verification_token
    update_user_password_hash clock_now hash_password hash_token select statement revoke_for_user
    active_hashes_for_user revoke_sessions_for_user cache_delete find update_where keep_if
resets = refl

reset_password_ok_example :
    (t : VerificationTokenRow) × (user_id : String) × (find_verification_token
        (hash_token env "reset token")
        password_reset_purpose
        world.db
      ≡ some t)
    × (usable_by t (reset_time env world) ≡ some user_id)
    × ((a : AccountRow)
        → find_password_account user_id (reset_password env "reset token" "new password" world).1.db
          ≡ some a
        → a.password_hash ≡ text_value (new_hash env "new password" world))
    × ((t' : VerificationTokenRow) × (find_verification_token
            (hash_token env "reset token")
            password_reset_purpose
            (reset_password env "reset token" "new password" world).1.db
          ≡ some t')
        × (is_some t'.consumed_at ≡ true))
    × (any
          (active_for_user user_id)
          (reset_password env "reset token" "new password" world).1.db.sessions
        ≡ false)
reset_password_ok_example = reset_password_ok env "reset token" "new password" world resets

abbrev after_reset : World
after_reset = (reset_password env "reset token" "new password" world).1

reset_password_once_example : (reset_password env "reset token" "again" after_reset).0 ≢ ok tt
reset_password_once_example =
    reset_password_once env "reset token" "new password" "again" world after_reset resets refl

known : find_user_by_email "ada@example.com" world.db ≡ some ada
unfolding find_user_by_email find
known = refl

forgets : (forgot_password env "ada@example.com" world).0 ≡ ok tt
unfolding forgot_password clock_now select find_user_by_email find random_token generate_id
    statement insert_verification_token hash_token send_mail any
forgets = refl

forgot_password_known_example :
    (t : VerificationTokenRow) × ((forgot_password env "ada@example.com"
        world).1.db.verification_tokens
      ≡ world.db.verification_tokens ++ t ∷ [])
    × (t.token_hash ≡ hash_token env (drawn env world))
    × (t.user_id ≡ some ada.id)
    × (t.consumed_at ≡ none)
    × (t.expires_at
        ≡ (forgot_password env "ada@example.com" world).1.now
          + env.auth_config.password_reset_lifetime)
    × ((forgot_password env "ada@example.com" world).1.mails
        ≡ world.mails
          ++ record {
            to = "ada@example.com";
            content = password_reset_content env (drawn env world);
          }
            ∷ [])
forgot_password_known_example =
    forgot_password_known env "ada@example.com" world ada known
      (λ e. ground (arith, eq_iff "ada" nil_uuid)) forgets

unknown : find_user_by_email "eve@example.com" world.db ≡ none
unfolding find_user_by_email find
unknown = refl

-- invitations
abbrev bob : User
bob = record { id = "id-5"; email = "bob@example.com"; display_name = "Bob"; email_verified = true }

accepts : (accept_transaction env "invitation token" "Bob" "password" world).0 ≡ ok (bob, "org")
unfolding accept_transaction accept enroll enroll_user join provision_user provision_account
    provision_member begin_tx commit clock_now select find_invitation_by_token find hash_token
    hash_password find_user_by_email find_password_account find_organization_by_id generate_id
    statement insert_user insert_account insert_member consume_invitation any update_where
    rejects_user rejects_account rejects_member
accepts = refl

accept_transaction_ok_example :
    (row : InvitationRow) × (find_invitation_by_token (hash_token env "invitation token") world.db
      ≡ some row)
    × (row.status ≡ status_pending)
    × (row.accepted_at ≡ none)
    × (accept_time env world ≤ row.expires_at)
    × ("org" ≡ row.organization_id)
    × Joins env "id-5" row.organization_id row.role world.db
        (accept_transaction env "invitation token" "Bob" "password" world).1.db
    × ((accept_transaction env "invitation token" "Bob" "password" world).1.db.invitations
        ≡ update_where
            (λ i. i.id == row.id && is_open i)
            (mark_accepted (accept_time env world))
            world.db.invitations)
accept_transaction_ok_example =
    accept_transaction_ok env "invitation token" "Bob" "password" world (bob, "org") accepts

abbrev after_acceptance : World
after_acceptance = (accept_transaction env "invitation token" "Bob" "password" world).1

no_invitation : (accept_transaction env "guess" "Eve" "guess" world).0 ≡ err bad_invitation
unfolding accept_transaction begin_tx clock_now select find_invitation_by_token find hash_token
    rollback
no_invitation = refl

abbrev inviter : Principal
inviter = record {
  session_id = "token";
  user_id = "ada";
  email = "ada@example.com";
  display_name = "Ada";
  organization_id = "org";
  organization_name = "Default";
  organization_slug = "default";
  role = "admin";
  permissions = auth_invitations_create ∷ [];
  idle_expires_at = 150;
  expires_at = 190;
  revoked_at = none;
}

abbrev invited : Invitation
invited = record {
  id = "id-4";
  organization_id = "org";
  email = "eve@example.com";
  role = "member";
  status = status_pending;
  expires_at = 140;
  invited_by_user_id = "ada";
  accepted_at = none;
}

invites : (create_invitation env (some inviter) "eve@example.com" "member" world).0 ≡ ok invited
unfolding create_invitation require_free issue_invitation has_permission clock_now select
    random_token generate_id statement insert_invitation send_mail hash_token find_user_by_email
    find_pending_invitation find any
invites = refl

create_invitation_ok_example :
    (p : Principal) × (row : InvitationRow) × (raw_token : String) × (some inviter ≡ some p)
    × (has_permission p.permissions auth_invitations_create ≡ true)
    × ((found : InvitationRow)
        → find_pending_invitation p.organization_id "eve@example.com" world.db ≡ some found
        → found.id ≡ nil_uuid)
    × ((create_invitation env (some inviter) "eve@example.com" "member" world).1.db.invitations
        ≡ world.db.invitations ++ row ∷ [])
    × ((create_invitation env (some inviter) "eve@example.com" "member" world).1.mails
        ≡ world.mails
          ++ record {
            to = "eve@example.com";
            content = invitation_content env p.organization_name "member" raw_token;
          }
            ∷ [])
    × (row.token_hash ≡ hash_token env raw_token)
    × (row.organization_id ≡ p.organization_id)
    × (row.status ≡ status_pending)
    × (row.expires_at ≡ world.now + env.drift world.step + env.auth_config.invite_lifetime)
create_invitation_ok_example =
    create_invitation_ok env (some inviter) "eve@example.com" "member" world invited invites

not_allowed :
    (create_invitation env
      (some (record inviter { permissions = [] }))
      "eve@example.com"
      "member"
      world).0
    ≡ err (app forbidden forbidden_action)
unfolding create_invitation has_permission
not_allowed = refl
