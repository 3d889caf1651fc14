-- ===== src/Examples/Sessions.antt =====
-- The theorems on sessions at concrete states.
use dinchy.Prelude.{
  ℕ, ◌+◌, ◌<◌, String, ◌≤◌, ◌≡◌, ◌≢◌, ◌⊎◌, refl, false, not, some, none, [], ◌∷◌, any, find,
  keep_if, all, ◌==◌, arith, eq_iff,
}
use dinchy.Errors.{ok, err, failure, internal_because}
use dinchy.Errors.Codes.{session_create_session}
use dinchy.Db.Sessions.{
  ResolvedRow, get_session_by_token_hash, active_for_user, revoke_session_by_token_hash,
  revoke_sessions_for_user, active_hashes_for_user,
}
use dinchy.World.{World, CacheItem}
use dinchy.World.Effects.{
  clock_now, hash_token, select, statement, cache_get, cache_set_with_ttl, cache_delete, is_live,
}
use dinchy.Session.{
  Principal, session, logout, create, revoke_for_user, from_get_session_row, to_principal,
}
use dinchy.Session.Resolve.{session_ok, session_time}
use dinchy.Session.Revoke.{revoke_for_user_all, session-logout, is_cached}
use dinchy.Session.Caching.{IsBounded, IsBounded-preserved}
use dinchy.Session.Creation.{create_fails}
use dinchy.Examples.{env, world}

abbrev principal : Principal
principal = record {
  session_id = "token";
  user_id = "ada";
  email = "ada@example.com";
  display_name = "Ada";
  organization_id = "org";
  organization_name = "Default";
  organization_slug = "default";
  role = "admin";
  permissions = [];
  idle_expires_at = 150;
  expires_at = 190;
  revoked_at = none;
}

resolves : (session env "token" world).0 ≡ ok (some principal)
unfolding session clock_now cache_get cache_set_with_ttl select get_session_by_token_hash find
    hash_token keep_if
resolves = refl

session_ok_example :
    (((row : ResolvedRow) × (get_session_by_token_hash (hash_token env "token") world.db ≡ some row)
        × (row.revoked_at ≡ none)
        × (principal ≡ from_get_session_row row))
      ⊎ ((item : CacheItem) × (find
              (is_live env (session_time env world) (hash_token env "token"))
              world.cache
            ≡ some item)
          × (principal ≡ to_principal item.value)))
    × (session_time env world ≤ 150)
    × (session_time env world ≤ 190)
session_ok_example = session_ok env "token" world principal resolves

logs_out : (logout env "token" world).0 ≡ ok (some principal)
unfolding logout session clock_now cache_get cache_set_with_ttl select get_session_by_token_hash
    find hash_token keep_if statement revoke_session_by_token_hash cache_delete
logs_out = refl

abbrev later : World
later = record (logout env "token" world).1 { cache = [] }

uncached : is_cached (hash_token env "token") later ≡ false
unfolding any
uncached = refl

session-logout_example : (session env "token" later).0 ≢ ok (some principal)
session-logout_example =
    session-logout env "token" world later (some principal) principal
      (λ e. ground (arith, eq_iff "token" "")) logs_out refl uncached

revokes : (revoke_for_user env "ada" world).0 ≡ ok tt
unfolding revoke_for_user clock_now select statement cache_delete active_hashes_for_user
    revoke_sessions_for_user keep_if
revokes = refl

revoke_for_user_all_example :
    (any (active_for_user "ada") (revoke_for_user env "ada" world).1.db.sessions ≡ false)
    × (keep_if (λ s. not (s.user_id == "ada")) (revoke_for_user env "ada" world).1.db.sessions
        ≡ keep_if (λ s. not (s.user_id == "ada")) world.db.sessions)
revoke_for_user_all_example = revoke_for_user_all env "ada" world revokes

world-IsBounded : IsBounded env 0 world
unfolding all
world-IsBounded = refl

-- the state after the token was resolved, with its principal in the cache
abbrev cached_world : World
cached_world = record world {
  cache =
      record {
        key = "token";
        value = record {
          session_id = "token";
          user_id = "ada";
          email = "ada@example.com";
          display_name = "Ada";
          organization_id = "org";
          organization_name = "Default";
          organization_slug = "default";
          role = "admin";
          permissions = [];
          idle_expires_at = 150;
          expires_at = 190;
        };
        gone_at = 110;
      }
      ∷ [];
}

cached-IsBounded : IsBounded env 0 cached_world
unfolding all
cached-IsBounded = refl

IsBounded-preserved_example :
    ((key : String) (now : ℕ) (i : CacheItem)
      → find (is_live env now key) cached_world.cache ≡ some i
      → (now < i.value.idle_expires_at + 0)
        × (now < cached_world.now + env.cache_config.session_ttl_cap))
    × IsBounded env 0 (session env "token" cached_world).1
    × IsBounded env 0 (logout env "token" cached_world).1
    × IsBounded env 0 (revoke_for_user env "ada" cached_world).1
IsBounded-preserved_example =
    IsBounded-preserved env 0 "token" "ada" cached_world (λ n. omega arith) cached-IsBounded

create_fails_example :
    ((create env "ada" "org" "ip" "agent" world).0
      ≡ err (internal_because session_create_session failure))
    × ((create env "ada" "org" "ip" "agent" world).1.db ≡ world.db)
create_fails_example = create_fails env "ada" "org" "ip" "agent" world
