-- ===== src/Session.antt =====
-- internal/features/session: the principal of a request, and the life of a session token.
-- IDs are kept as their canonical strings, so uuid parsing and printing are the identity.
pub mod Resolve
pub mod Revoke
pub mod Caching
pub mod Creation
use dinchy.Prelude.{
  ℕ, ◌+◌, ◌-◌, min, String, Bool, true, false, ◌&&◌, ◌||◌, not, Option, none, some, List, [], ◌∷◌,
  is_some, ltb, ◌==◌, if◌then◌else◌,
}
use dinchy.Errors.{GoError, Result, ok, err, internal_because, is_no_rows}
use dinchy.Errors.Codes.{
  session_get_session, session_create_session, session_revoke_session,
  session_revoke_sessions_for_user,
}
use dinchy.Db.{Db, SessionRow}
use dinchy.Db.Sessions.{
  ResolvedRow, insert_session, get_session_by_token_hash, active_hashes_for_user,
  active_hashes_for_organization, revoke_session_by_token_hash, revoke_sessions_for_user,
}
use dinchy.World.{Env, World, CachedPrincipal}
use dinchy.World.Exec.{Exec, pure, raise, fail_as, attempt, ◌>>=◌, ◌>>◌}
use dinchy.World.Effects.{
  clock_now, generate_id, hash_token, select, statement, cache_get, cache_set_with_ttl,
  cache_delete,
}

pub record Principal : Type 0 where
  pub session_id : String
  pub user_id : String
  pub email : String
  pub display_name : String
  pub organization_id : String
  pub organization_name : String
  pub organization_slug : String
  pub role : String
  pub permissions : List String
  pub idle_expires_at : ℕ
  pub expires_at : ℕ
  pub revoked_at : Option ℕ

abbrev pub from_get_session_row : ResolvedRow → Principal
from_get_session_row row = record {
  session_id = row.id;
  user_id = row.user_id;
  email = row.email;
  display_name = row.display_name;
  organization_id = row.active_organization_id;
  organization_name = row.organization_name;
  organization_slug = row.organization_slug;
  role = row.role;
  permissions = row.permissions;
  idle_expires_at = row.idle_expires_at;
  expires_at = row.expires_at;
  revoked_at = row.revoked_at;
}

abbrev pub to_cache : Principal → CachedPrincipal
to_cache p = record {
  session_id = p.session_id;
  user_id = p.user_id;
  email = p.email;
  display_name = p.display_name;
  organization_id = p.organization_id;
  organization_name = p.organization_name;
  organization_slug = p.organization_slug;
  role = p.role;
  permissions = p.permissions;
  idle_expires_at = p.idle_expires_at;
  expires_at = p.expires_at;
}

abbrev pub to_principal : CachedPrincipal → Principal
to_principal c = record {
  session_id = c.session_id;
  user_id = c.user_id;
  email = c.email;
  display_name = c.display_name;
  organization_id = c.organization_id;
  organization_name = c.organization_name;
  organization_slug = c.organization_slug;
  role = c.role;
  permissions = c.permissions;
  idle_expires_at = c.idle_expires_at;
  expires_at = c.expires_at;
  revoked_at = none;
}

unfoldable pub has_permission : List String → String → Bool
has_permission [] value = false
has_permission (granted ∷ rest) value = granted == value || has_permission rest value

abbrev pub expired : Principal → ℕ → Bool
expired p now = ltb p.idle_expires_at now || ltb p.expires_at now

module _ (env : Env) where
  -- A difference of times below zero is 0 here; the only use is the test `ttl > 0`.
  abbrev pub cache_ttl : Principal → ℕ → ℕ
  cache_ttl p now = min (p.idle_expires_at - now) env.cache_config.session_ttl_cap

  -- a failed read or write of the cache is logged and passed over
  abbrev pub hit_of : Result (Option CachedPrincipal) → Option CachedPrincipal
  hit_of (ok hit) = hit
  hit_of (err e) = none

  remember : String → Principal → ℕ → Exec (Option Principal)
  remember hash p now =
      if ltb 0 (cache_ttl p now)
      then attempt (cache_set_with_ttl env hash (to_cache p) (cache_ttl p now)) >> pure (some p)
      else pure (some p)

  use_row : String → ℕ → Result ResolvedRow → Exec (Option Principal)
  use_row hash now (err e) =
      if is_no_rows e then pure none else raise (internal_because session_get_session e)
  use_row hash now (ok row) =
      let p = from_get_session_row row in
      if is_some p.revoked_at || expired p now then pure none else remember hash p now

  use_hit : String → ℕ → Option CachedPrincipal → Exec (Option Principal)
  use_hit hash now (some cached) =
      let p = to_principal cached in pure (if expired p now then none else some p)
  use_hit hash now none = do
    row ← attempt (select env (get_session_by_token_hash hash))
    use_row hash now row

  -- Service.Session
  unfoldable pub session : String → Exec (Option Principal)
  unfolding remember use_row use_hit
  session raw_token = if raw_token == "" then pure none else do
    now ← clock_now env
    read ← attempt (cache_get env (hash_token env raw_token))
    use_hit (hash_token env raw_token) now (hit_of read)

  -- the arguments of InsertSession: `Create` does not set LastSeenAt, which is NULL
  unfoldable pub new_session : String → ℕ → String → String → String → String → SessionRow
  new_session token now user_id organization_id ip user_agent = record {
    id = token;
    user_id = user_id;
    active_organization_id = organization_id;
    token_hash = hash_token env token;
    ip_address = ip;
    user_agent = user_agent;
    last_seen_at = none;
    idle_expires_at = now + env.session_config.session_idle_timeout;
    expires_at = now + env.session_config.session_max_lifetime;
    revoked_at = none;
    created_at = now;
    updated_at = now;
  }

  -- Service.Create
  unfoldable pub create : String → String → String → String → Exec String
  unfolding new_session
  create user_id organization_id ip user_agent = do
    token ← generate_id env
    now ← clock_now env
    fail_as (internal_because session_create_session) (
        statement env
          (insert_session (new_session token now user_id organization_id ip user_agent)))
    pure token

  -- Service.Logout
  unfoldable pub logout : String → Exec (Option Principal)
  logout raw_token = if raw_token == "" then pure none else do
    principal ← session raw_token
    now ← clock_now env
    fail_as (internal_because session_revoke_session)
        (statement env (revoke_session_by_token_hash now (hash_token env raw_token)))
    attempt (cache_delete env (hash_token env raw_token ∷ []))
    pure principal

  abbrev hashes_or_none : Result (List String) → List String
  hashes_or_none (ok hashes) = hashes
  hashes_or_none (err e) = []

  active_hashes_for_invalidation : (Db → Option (List String)) → Exec (List String)
  active_hashes_for_invalidation load =
      if not env.cache_config.enabled
      then pure []
      else do hashes ← attempt (select env load); pure (hashes_or_none hashes)

  -- Service.RevokeForUser
  unfoldable pub revoke_for_user : String → Exec (Unit {0})
  unfolding active_hashes_for_invalidation
  revoke_for_user user_id = do
    hashes ← active_hashes_for_invalidation (active_hashes_for_user user_id)
    now ← clock_now env
    fail_as (internal_because session_revoke_sessions_for_user)
        (statement env (revoke_sessions_for_user now user_id))
    attempt (cache_delete env hashes)
    pure tt

  invalidate : (Db → Option (List String)) → Exec (Unit {0})
  invalidate load = if not env.cache_config.enabled then pure tt else do
    hashes ← fail_as (internal_because session_get_session) (select env load)
    cache_delete env hashes

  -- Service.InvalidateForUser and Service.InvalidateForOrganization
  unfoldable pub invalidate_for_user : String → Exec (Unit {0})
  unfolding invalidate
  invalidate_for_user user_id = invalidate (active_hashes_for_user user_id)

  unfoldable pub invalidate_for_organization : String → Exec (Unit {0})
  unfolding invalidate
  invalidate_for_organization organization_id =
      invalidate (active_hashes_for_organization organization_id)
