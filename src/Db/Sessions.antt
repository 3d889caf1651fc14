-- ===== src/Db/Sessions.antt =====
-- internal/platform/store/sqlcgen/sessions.sql.go, and RevokeSessionsForUser of users.sql.go.
use dinchy.Prelude.{
  ℕ, String, Bool, ◌&&◌, ◌||◌, not, Option, none, some, List, [], ◌∷◌, ◌++◌, map, find, any,
  update_where, keep_if, is_some, ltb, ◌==◌, if◌then◌else◌,
}
use dinchy.Db.{Db, SessionRow}
use dinchy.Db.Users.{has_user}
use dinchy.Db.Organizations.{has_organization}

-- What GetSessionByTokenHash selects.
pub record ResolvedRow : Type 0 where
  pub id : String
  pub user_id : String
  pub email : String
  pub display_name : String
  pub active_organization_id : String
  pub organization_name : String
  pub organization_slug : String
  pub role : String
  pub permissions : List String
  pub idle_expires_at : ℕ
  pub expires_at : ℕ
  pub revoked_at : Option ℕ

-- unique: id, token_hash; user_id and active_organization_id reference their tables; last_seen_at is
-- NOT NULL
unfoldable pub insert_session : SessionRow → Db → Option Db
insert_session row db =
    if not (is_some row.last_seen_at)
      || (any (λ s. s.id == row.id || s.token_hash == row.token_hash) db.sessions
          || not (has_user row.user_id db && has_organization row.active_organization_id db))
    then none
    else some (record db { sessions = db.sessions ++ row ∷ [] })

-- the left joins: the permissions of the member's role in the organization, none for no such role
permissions_of : String → String → Db → List String
permissions_of organization_id role db =
    elim (find (λ r. r.organization_id == organization_id && r.role_key == role)
      db.organization_roles) [
        | none ↦ []
        | some r ↦ map (λ p. p.permission) (keep_if (λ p. p.role_id == r.id) db.role_permissions)
      ]

infixl 5 ◌>>=◌
abbrev ◌>>=◌ {ℓ κ} : {A : Type ℓ} {B : Type κ} → Option A → (A → Option B) → Option B
none >>= f = none
some a >>= f = f a

resolve_row : Db → SessionRow → Option ResolvedRow
unfolding permissions_of
resolve_row db s = do
  u ← find (λ u. u.id == s.user_id) db.users
  o ← find (λ o. o.id == s.active_organization_id) db.organizations
  m ← find (λ m. m.user_id == u.id && m.organization_id == o.id) db.members
  some (record {
    id = s.id;
    user_id = s.user_id;
    email = u.email;
    display_name = u.display_name;
    active_organization_id = s.active_organization_id;
    organization_name = o.name;
    organization_slug = o.slug;
    role = m.role;
    permissions = permissions_of o.id m.role db;
    idle_expires_at = s.idle_expires_at;
    expires_at = s.expires_at;
    revoked_at = s.revoked_at;
  })

abbrev pub has_hash : String → SessionRow → Bool
has_hash hash s = s.token_hash == hash

unfoldable pub get_session_by_token_hash : String → Db → Option ResolvedRow
unfolding resolve_row
get_session_by_token_hash hash db = do s ← find (has_hash hash) db.sessions; resolve_row db s

abbrev pub is_active : SessionRow → Bool
is_active s = not (is_some s.revoked_at)

abbrev pub active_for_user : String → SessionRow → Bool
active_for_user user_id s = s.user_id == user_id && is_active s

unfoldable pub active_hashes_for_user : String → Db → Option (List String)
active_hashes_for_user user_id db =
    some (map (λ s. s.token_hash) (keep_if (active_for_user user_id) db.sessions))

unfoldable pub active_hashes_for_organization : String → Db → Option (List String)
active_hashes_for_organization organization_id db = some (
    map (λ s. s.token_hash)
      (keep_if (λ s. s.active_organization_id == organization_id && is_active s) db.sessions))

abbrev pub revoke : ℕ → SessionRow → SessionRow
revoke at s = record s { revoked_at = some at; updated_at = at }

unfoldable pub revoke_session_by_token_hash : ℕ → String → Db → Option Db
revoke_session_by_token_hash at hash db = some (record db {
  sessions = update_where (λ s. has_hash hash s && is_active s) (revoke at) db.sessions;
})

unfoldable pub revoke_sessions_for_user : ℕ → String → Db → Option Db
revoke_sessions_for_user at user_id db =
    some (record db { sessions = update_where (active_for_user user_id) (revoke at) db.sessions })

abbrev pub is_stale : ℕ → ℕ → SessionRow → Bool
is_stale ended updated s =
    (is_some s.revoked_at || ltb s.expires_at ended) && ltb s.updated_at updated

unfoldable pub delete_ended_sessions : ℕ → ℕ → Db → Option Db
delete_ended_sessions ended updated db =
    some (record db { sessions = keep_if (λ s. not (is_stale ended updated s)) db.sessions })
