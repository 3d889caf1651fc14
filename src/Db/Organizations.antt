-- ===== src/Db/Organizations.antt =====
-- internal/platform/store/sqlcgen/users.sql.go: the statements on organizations, roles, members
-- and invitations.
use dinchy.Prelude.{
  ℕ, String, Bool, ◌&&◌, ◌||◌, not, Option, none, some, List, [], ◌∷◌, ◌++◌, find, any,
  update_where, is_some, ltb, ◌==◌, if◌then◌else◌,
}
use dinchy.Db.{
  Db, OrganizationRow, OrganizationRoleRow, RolePermissionRow, MemberRow, InvitationRow,
}
use dinchy.Db.Users.{has_user}

abbrev pub has_organization : String → Db → Bool
has_organization organization_id db = any (λ o. o.id == organization_id) db.organizations

-- unique: id, slug
unfoldable pub rejects_organization : OrganizationRow → Db → Bool
rejects_organization row db = any (λ o. o.id == row.id || o.slug == row.slug) db.organizations

unfoldable pub insert_organization : OrganizationRow → Db → Option Db
insert_organization row db =
    if rejects_organization row db
    then none
    else some (record db { organizations = db.organizations ++ row ∷ [] })

-- unique: id, (organization_id, role_key)
unfoldable pub insert_organization_role : OrganizationRoleRow → Db → Option Db
insert_organization_role row db =
    if any
        (λ r.
          r.id == row.id
          || (r.organization_id == row.organization_id && r.role_key == row.role_key))
        db.organization_roles
      || not (has_organization row.organization_id db)
    then none
    else some (record db { organization_roles = db.organization_roles ++ row ∷ [] })

-- primary key (role_id, permission)
unfoldable pub insert_role_permission : RolePermissionRow → Db → Option Db
insert_role_permission row db =
    if any (λ p. p.role_id == row.role_id && p.permission == row.permission) db.role_permissions
      || not (any (λ r. r.id == row.role_id) db.organization_roles)
    then none
    else some (record db { role_permissions = db.role_permissions ++ row ∷ [] })

-- unique: id, (organization_id, user_id)
unfoldable pub rejects_member : MemberRow → Db → Bool
rejects_member row db =
    any
      (λ m.
        m.id == row.id || (m.organization_id == row.organization_id && m.user_id == row.user_id))
      db.members
    || not (has_organization row.organization_id db && has_user row.user_id db)

unfoldable pub insert_member : MemberRow → Db → Option Db
insert_member row db =
    if rejects_member row db then none else some (record db { members = db.members ++ row ∷ [] })

-- A row of the joins of members and organizations.
pub record MembershipRow : Type 0 where
  pub id : String
  pub name : String
  pub slug : String
  pub role : String

joined : OrganizationRow → MemberRow → MembershipRow
joined o m = record { id = o.id; name = o.name; slug = o.slug; role = m.role }

-- one member row with the organization that it references
join_organization : List OrganizationRow → MemberRow → List MembershipRow
unfolding joined
join_organization organizations m = elim (find (λ o. o.id == m.organization_id) organizations) [
  | none ↦ []
  | some o ↦ joined o m ∷ []
]

memberships : List OrganizationRow → String → List MemberRow → List MembershipRow
unfolding join_organization
memberships organizations user_id [] = []
memberships organizations user_id (m ∷ ms) =
    (if m.user_id == user_id then join_organization organizations m else [])
    ++ memberships organizations user_id ms

unfoldable pub find_organization_by_slug : String → String → Db → Option MembershipRow
unfolding memberships
find_organization_by_slug user_id slug db =
    find (λ o. o.slug == slug) (memberships db.organizations user_id db.members)

unfoldable pub find_organization_by_id : String → String → Db → Option MembershipRow
unfolding memberships
find_organization_by_id user_id organization_id db =
    find (λ o. o.id == organization_id) (memberships db.organizations user_id db.members)

-- ORDER BY o.name, under the collation of the database
module _ (before : String → String → Bool) where
  insert_by_name : MembershipRow → List MembershipRow → List MembershipRow
  insert_by_name row [] = row ∷ []
  insert_by_name row (r ∷ rs) =
      if before r.name row.name then r ∷ insert_by_name row rs else row ∷ r ∷ rs

  order_by_name : List MembershipRow → List MembershipRow
  unfolding insert_by_name
  order_by_name [] = []
  order_by_name (r ∷ rs) = insert_by_name r (order_by_name rs)

  unfoldable pub list_organizations : String → Db → Option (List MembershipRow)
  unfolding memberships order_by_name
  list_organizations user_id db =
      some (order_by_name (memberships db.organizations user_id db.members))

-- unique: id, token_hash
unfoldable pub insert_invitation : InvitationRow → Db → Option Db
insert_invitation row db =
    if any (λ i. i.id == row.id || i.token_hash == row.token_hash) db.invitations
      || not (has_organization row.organization_id db && has_user row.invited_by_user_id db)
    then none
    else some (record db { invitations = db.invitations ++ row ∷ [] })

unfoldable pub find_invitation_by_token : String → Db → Option InvitationRow
find_invitation_by_token hash db = find (λ i. i.token_hash == hash) db.invitations

abbrev pub is_open : InvitationRow → Bool
is_open i = i.status == "pending" && not (is_some i.accepted_at)

-- the newer of two rows, the first on a tie
newest : Option InvitationRow → List InvitationRow → Option InvitationRow
newest best [] = best
newest none (i ∷ is) = newest (some i) is
newest (some b) (i ∷ is) = newest (some (if ltb b.created_at i.created_at then i else b)) is

open_invitations : String → String → List InvitationRow → List InvitationRow
open_invitations organization_id email [] = []
open_invitations organization_id email (i ∷ is) =
    let rest = open_invitations organization_id email is in
    if i.organization_id == organization_id && i.email == email && is_open i then i ∷ rest else rest

-- ORDER BY created_at DESC LIMIT 1
unfoldable pub find_pending_invitation : String → String → Db → Option InvitationRow
unfolding newest open_invitations
find_pending_invitation organization_id email db =
    newest none (open_invitations organization_id email db.invitations)

abbrev pub mark_accepted : ℕ → InvitationRow → InvitationRow
mark_accepted at i = record i { status = "accepted"; accepted_at = some at; updated_at = at }

unfoldable pub consume_invitation : ℕ → String → Db → Option Db
consume_invitation at id db = some (record db {
  invitations = update_where (λ i. i.id == id && is_open i) (mark_accepted at) db.invitations;
})
