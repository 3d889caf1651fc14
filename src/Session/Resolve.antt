-- ===== src/Session/Resolve.antt =====
-- Session (session_service.go): what a resolved token says, and what resolving leaves alone.
use dinchy.Prelude.{◌+◌, Option-cases, ℕ, ◌≤◌, String, ◌≡◌, ◌⊎◌, inl, inr, none, some, find, arith}
use dinchy.Errors.{ok}
use dinchy.Db.Sessions.{ResolvedRow, get_session_by_token_hash}
use dinchy.World.{Env, World, CacheItem}
use dinchy.World.Effects.{clock_now, cache_get, cache_set_with_ttl, select, hash_token, is_live}
use dinchy.Session.{Principal, from_get_session_row, to_principal, session}

module _ (env : Env) where
  -- the time at which Session reads the clock
  abbrev pub session_time : World → ℕ
  session_time w = w.now + env.drift w.step

  session_time-le :
      (raw_token : String) (w : World) (p : Principal)
      → (session env raw_token w).0 ≡ ok (some p)
      → (session_time w ≤ p.idle_expires_at) × (session_time w ≤ p.expires_at)
  unfolding session clock_now cache_get cache_set_with_ttl select
  session_time-le raw_token w p h = ground arith

  -- where the principal comes from
  session-source :
      (raw_token : String) (w : World) (p : Principal)
      → (session env raw_token w).0 ≡ ok (some p)
      → ((row : ResolvedRow) × (get_session_by_token_hash (hash_token env raw_token) w.db
            ≡ some row)
          × (row.revoked_at ≡ none)
          × (p ≡ from_get_session_row row))
        ⊎ ((item : CacheItem) × (find
                (is_live env (session_time w) (hash_token env raw_token))
                w.cache
              ≡ some item)
            × (p ≡ to_principal item.value))
  unfolding session clock_now cache_get cache_set_with_ttl select
  session-source raw_token w p h =
      elim (Option-cases (find (is_live env (session_time w) (hash_token env raw_token)) w.cache)) [
        | inl absent ↦
            elim (Option-cases (get_session_by_token_hash (hash_token env raw_token) w.db)) [
              | inl missing ↦ absurd (ground arith)
              | inr (row, found) ↦ inl (row, found, ground arith, ground arith)
            ]
        | inr (item, hit) ↦
            elim (Option-cases (get_session_by_token_hash (hash_token env raw_token) w.db)) [
              | inl missing ↦ inr (item, hit, ground arith)
              | inr (row, found) ↦ ground (arith, hit, found)
            ]
      ]

  -- A principal that is returned is the one of a stored, unrevoked session row with the token's hash,
  -- or the one that the cache holds under that hash and has not dropped; and from either source only
  -- if its session has not expired, by either limit, at the time at which Session reads the clock.
  pub session_ok :
      (raw_token : String) (w : World) (p : Principal)
      → (session env raw_token w).0 ≡ ok (some p)
      → (((row : ResolvedRow) × (get_session_by_token_hash (hash_token env raw_token) w.db
              ≡ some row)
            × (row.revoked_at ≡ none)
            × (p ≡ from_get_session_row row))
          ⊎ ((item : CacheItem) × (find
                  (is_live env (session_time w) (hash_token env raw_token))
                  w.cache
                ≡ some item)
              × (p ≡ to_principal item.value)))
        × (session_time w ≤ p.idle_expires_at)
        × (session_time w ≤ p.expires_at)
  session_ok raw_token w p h =
      let (idle, absolute) = session_time-le raw_token w p h in
      (session-source raw_token w p h, idle, absolute)

  pub db-session : (raw_token : String) (w : World) → (session env raw_token w).1.db ≡ w.db
  unfolding session clock_now cache_get cache_set_with_ttl select
  db-session raw_token w = ground arith

  -- The empty token resolves to nothing, and nothing is read.
  pub session_empty : (w : World) → session env "" w ≡ (ok none, w)
  unfolding session
  session_empty w = ground arith
