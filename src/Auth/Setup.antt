-- ===== src/Auth/Setup.antt =====
-- internal/features/auth/setup_service.go
pub mod Atomic
pub mod Provision
use dinchy.Prelude.{ℕ, zero, suc, String, Bool, Option, none, some, List, [], ◌∷◌, if◌then◌else◌}
use dinchy.Errors.{GoError, failure, joined, Result, ok, err, app, conflict, internal_because}
use dinchy.Errors.Codes.{
  Code, setup_completed, server_internal_error, setup_begin_tx, setup_create_first_user,
  setup_rollback, setup_commit, setup_count_users, setup_insert_user, setup_insert_account,
  setup_insert_organization, setup_insert_organization_member,
}
use dinchy.Permission.{Role, admin, member, role_key, built_in_roles, default_role_permissions}
use dinchy.Db.{Db}
use dinchy.Db.Users.{count_users, insert_user, insert_account, text_value, password_provider}
use dinchy.Db.Organizations.{
  insert_organization, insert_organization_role, insert_role_permission, insert_member,
}
use dinchy.World.{Env, EventType}
use dinchy.World.Exec.{Exec, pure, raise, fail_as, attempt, require, ◌>>=◌, ◌>>◌}
use dinchy.World.Transaction.{settle}
use dinchy.World.Effects.{
  clock_now, generate_id, hash_password, select, statement, begin_tx, commit, publish_event,
}
use dinchy.Session.{create}
use dinchy.Auth.{User, new_target, new_envelope}

pub record CreateUserInput : Type 0 where
  pub id : String
  pub account_id : String
  pub organization_id : String
  pub organization_member_id : String
  pub admin_role_id : String
  pub member_role_id : String
  pub email : String
  pub password_hash : String
  pub display_name : String
  pub organization_name : String
  pub organization_slug : String
  pub now : ℕ

abbrev pub role_id : CreateUserInput → Role → String
role_id input admin = input.admin_role_id
role_id input member = input.member_role_id

abbrev pub new_user : CreateUserInput → User
new_user input = record {
  id = input.id;
  email = input.email;
  display_name = input.display_name;
  email_verified = Bool.true;
}

module _ (env : Env) where
  abbrev none_yet : ℕ → Exec (Unit {0})
  none_yet zero = pure tt
  none_yet (suc n) = raise (app conflict setup_completed)

  unfoldable pub insert_permissions : String → List String → Exec (Unit {0})
  insert_permissions id [] = pure tt
  insert_permissions id (granted ∷ rest) = do
    fail_as (internal_because setup_create_first_user)
        (statement env (insert_role_permission (record { role_id = id; permission = granted })))
    insert_permissions id rest

  unfoldable pub insert_roles : CreateUserInput → List Role → Exec (Unit {0})
  insert_roles input [] = pure tt
  insert_roles input (role ∷ rest) = do
    fail_as (internal_because setup_create_first_user) (
        statement env (
          insert_organization_role (record {
            id = role_id input role;
            organization_id = input.organization_id;
            role_key = role_key role;
            created_at = input.now;
            updated_at = input.now;
          })))
    insert_permissions (role_id input role) (default_role_permissions role)
    insert_roles input rest

  -- the statements of createFirstUser after its count of the users
  unfoldable pub write_first_user : CreateUserInput → Exec User
  write_first_user input = do
    fail_as (internal_because setup_insert_user) (
        statement env (
          insert_user (record {
            id = input.id;
            email = input.email;
            display_name = input.display_name;
            email_verified_at = some input.now;
            disabled_at = none;
            created_at = input.now;
            updated_at = input.now;
          })))
    fail_as (internal_because setup_insert_account) (
        statement env (
          insert_account (record {
            id = input.account_id;
            user_id = input.id;
            provider = password_provider;
            provider_account_id = input.email;
            password_hash = text_value input.password_hash;
            created_at = input.now;
            updated_at = input.now;
          })))
    fail_as (internal_because setup_insert_organization) (
        statement env (
          insert_organization (record {
            id = input.organization_id;
            name = input.organization_name;
            slug = input.organization_slug;
            logo = text_value "";
            created_at = input.now;
            updated_at = input.now;
          })))
    insert_roles input built_in_roles
    fail_as (internal_because setup_insert_organization_member) (
        statement env (
          insert_member (record {
            id = input.organization_member_id;
            organization_id = input.organization_id;
            user_id = input.id;
            role = role_key admin;
            created_at = input.now;
            updated_at = input.now;
          })))
    pure (new_user input)

  unfoldable pub create_first_user : CreateUserInput → Exec User
  create_first_user input = do
    count ← fail_as (internal_because setup_count_users) (select env count_users)
    none_yet count
    write_first_user input

  -- the part of SetupFirstUser up to the commit
  unfoldable pub setup_transaction : String → String → String → String → ℕ → Exec User
  setup_transaction email display_name hash organization_id now = do
    before ← fail_as (internal_because setup_begin_tx) (begin_tx env)
    id ← generate_id env
    account_id ← generate_id env
    member_id ← generate_id env
    admin_role_id ← generate_id env
    member_role_id ← generate_id env
    created ← attempt (
        create_first_user (record {
          id = id;
          account_id = account_id;
          organization_id = organization_id;
          organization_member_id = member_id;
          admin_role_id = admin_role_id;
          member_role_id = member_role_id;
          email = email;
          password_hash = hash;
          display_name = display_name;
          organization_name = env.auth_config.default_organization_name;
          organization_slug = env.auth_config.default_organization_slug;
          now = now;
        }))
    user ←
        settle env setup_rollback (internal_because setup_create_first_user) (λ e. e) before created
    fail_as (internal_because setup_commit) (commit env before)
    pure user

  -- Service.SetupFirstUser
  unfoldable pub setup_first_user : String → String → String → String → String → Exec String
  setup_first_user email display_name password ip user_agent = do
    hash ← fail_as (internal_because setup_create_first_user) (hash_password env password)
    now ← clock_now env
    organization_id ← generate_id env
    require env.has_database (internal_because server_internal_error failure)
    user ← setup_transaction email display_name hash organization_id now
    envelope ←
        fail_as (internal_because setup_create_first_user) (
          new_envelope env user.id organization_id
            (new_target env "user" user.id user.display_name))
    fail_as (internal_because setup_create_first_user) (
        publish_event env (record {
          event_type = EventType.setup_completed;
          envelope = envelope;
          metadata = ("email", user.email) ∷ ("display_name", user.display_name) ∷ [];
        }))
    create env user.id organization_id ip user_agent
