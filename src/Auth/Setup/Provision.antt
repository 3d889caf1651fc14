-- ===== src/Auth/Setup/Provision.antt =====
-- What createFirstUser (setup_service.go) has written when it succeeds.
use mathlib.Core.List.{append-nil, append_assoc}
use dinchy.Prelude.{map, ◌+◌, String, ◌≡◌, none, some, List, [], ◌∷◌, ◌++◌, arith, length}
use dinchy.Errors.{ok}
use dinchy.Permission.{Role, role_key, built_in_roles, default_role_permissions}
use dinchy.Db.{
  Db, UserRow, AccountRow, OrganizationRow, OrganizationRoleRow, RolePermissionRow, MemberRow,
}
use dinchy.Db.Users.{count_users, insert_user, insert_account, text_value, password_provider}
use dinchy.Db.Organizations.{
  insert_organization, insert_organization_role, insert_role_permission, insert_member,
}
use dinchy.World.{Env, World}
use dinchy.World.Effects.{statement, select}
use dinchy.Auth.{User}
use dinchy.Auth.Setup.{
  CreateUserInput, create_first_user, write_first_user, insert_roles, insert_permissions, new_user,
  role_id,
}

module _ (env : Env) where
  abbrev pub role_row : CreateUserInput → Role → OrganizationRoleRow
  role_row input role = record {
    id = role_id input role;
    organization_id = input.organization_id;
    role_key = role_key role;
    created_at = input.now;
    updated_at = input.now;
  }

  abbrev pub granted : String → List String → List RolePermissionRow
  granted id permissions = map (λ p. record { role_id = id; permission = p }) permissions

  abbrev pub grants : CreateUserInput → List Role → List RolePermissionRow
  grants input [] = []
  grants input (role ∷ rest) =
      granted (role_id input role) (default_role_permissions role) ++ grants input rest

  insert_permissions_ok :
      (id : String) (permissions : List String) (w : World)
      → (insert_permissions env id permissions w).0 ≡ ok tt
      → (insert_permissions env id permissions w).1.db
        ≡ record w.db { role_permissions = w.db.role_permissions ++ granted id permissions }
  unfolding insert_permissions statement insert_role_permission
  insert_permissions_ok id [] w h = rw append-nil
  insert_permissions_ok id (p ∷ ps) w h =
      let row : RolePermissionRow = record { role_id = id; permission = p } in
      let w' = record w {
        db = record w.db { role_permissions = w.db.role_permissions ++ row ∷ [] };
        step = w.step + 1;
      } in
      ground (
        arith,
        insert_permissions_ok id ps w',
        append_assoc w.db.role_permissions (row ∷ []) (granted id ps),
      )

  insert_roles_ok :
      (input : CreateUserInput) (roles : List Role) (w : World)
      → (insert_roles env input roles w).0 ≡ ok tt
      → (insert_roles env input roles w).1.db ≡ record w.db {
        organization_roles = w.db.organization_roles ++ map (role_row input) roles;
        role_permissions = w.db.role_permissions ++ grants input roles;
      }
  unfolding insert_roles statement insert_organization_role
  insert_roles_ok input [] w h = simp append-nil
  insert_roles_ok input (r ∷ rs) w h =
      let w' = record w {
        db = record w.db { organization_roles = w.db.organization_roles ++ role_row input r ∷ [] };
        step = w.step + 1;
      } in
      let granted_r = granted (role_id input r) (default_role_permissions r) in
      let w'' = (insert_permissions env (role_id input r) (default_role_permissions r) w').1 in
      ground (
        arith,
        insert_permissions_ok (role_id input r) (default_role_permissions r) w',
        insert_roles_ok input rs w'',
        append_assoc w.db.organization_roles (role_row input r ∷ []) (map (role_row input) rs),
        append_assoc w.db.role_permissions granted_r (grants input rs),
      )

  abbrev pub provisioned : CreateUserInput → Db → Db
  provisioned input db = record db {
    users =
        db.users
        ++ record {
          id = input.id;
          email = input.email;
          display_name = input.display_name;
          email_verified_at = some input.now;
          disabled_at = none;
          created_at = input.now;
          updated_at = input.now;
        }
          ∷ [];
    accounts =
        db.accounts
        ++ record {
          id = input.account_id;
          user_id = input.id;
          provider = password_provider;
          provider_account_id = input.email;
          password_hash = text_value input.password_hash;
          created_at = input.now;
          updated_at = input.now;
        }
          ∷ [];
    organizations =
        db.organizations
        ++ record {
          id = input.organization_id;
          name = input.organization_name;
          slug = input.organization_slug;
          logo = none;
          created_at = input.now;
          updated_at = input.now;
        }
          ∷ [];
    organization_roles = db.organization_roles ++ map (role_row input) built_in_roles;
    role_permissions = db.role_permissions ++ grants input built_in_roles;
    members =
        db.members
        ++ record {
          id = input.organization_member_id;
          organization_id = input.organization_id;
          user_id = input.id;
          role = "admin";
          created_at = input.now;
          updated_at = input.now;
        }
          ∷ [];
  }

  user_written :
      (row : UserRow) (db db' : Db)
      → insert_user row db ≡ some db'
      → db' ≡ record db { users = db.users ++ row ∷ [] }
  unfolding insert_user
  user_written row db db' h = ground arith

  account_written :
      (row : AccountRow) (db db' : Db)
      → insert_account row db ≡ some db'
      → db' ≡ record db { accounts = db.accounts ++ row ∷ [] }
  unfolding insert_account
  account_written row db db' h = ground arith

  organization_written :
      (row : OrganizationRow) (db db' : Db)
      → insert_organization row db ≡ some db'
      → db' ≡ record db { organizations = db.organizations ++ row ∷ [] }
  unfolding insert_organization
  organization_written row db db' h = ground arith

  member_written :
      (row : MemberRow) (db db' : Db)
      → insert_member row db ≡ some db'
      → db' ≡ record db { members = db.members ++ row ∷ [] }
  unfolding insert_member
  member_written row db db' h = ground arith

  write_first_user_ok :
      (input : CreateUserInput) (w : World) (u : User)
      → (write_first_user env input w).0 ≡ ok u
      → (u ≡ new_user input) × ((write_first_user env input w).1.db ≡ provisioned input w.db)
  unfolding write_first_user statement insert_user insert_account insert_organization insert_member
  write_first_user_ok input w u h =
      let w' = record w {
        db = record (provisioned input w.db) {
          organization_roles = w.db.organization_roles;
          role_permissions = w.db.role_permissions;
          members = w.db.members;
        };
        step = w.step + 1 + 1 + 1;
      } in
      ground (arith, insert_roles_ok input built_in_roles w')

  -- The first user's creation succeeds only in a database without users, and then has written that
  -- user, the password account, the organization, its two roles with their default permissions, and
  -- the administrator's membership, and nothing else.
  pub create_first_user_ok :
      (input : CreateUserInput) (w : World) (u : User)
      → (create_first_user env input w).0 ≡ ok u
      → (length w.db.users ≡ 0)
        × (u ≡ new_user input)
        × ((create_first_user env input w).1.db ≡ provisioned input w.db)
  unfolding create_first_user select count_users
  create_first_user_ok input w u h =
      let w' = record w { step = w.step + 1 } in
      (
        ground arith,
        ground (arith, write_first_user_ok input w' u),
        ground (arith, write_first_user_ok input w' u),
      )
