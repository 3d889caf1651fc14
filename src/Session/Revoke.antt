-- ===== src/Session/Revoke.antt =====
-- Logout and RevokeForUser: what is revoked, and that a revoked token stays refused.
use dinchy.Prelude.{
  ℕ, ◌+◌, String, ◌≡◌, ◌≢◌, refl, Bool, true, false, ◌&&◌, not, Option, none, some, List, [], ◌∷◌,
  find, any, keep_if, update_where, is_some, arith, ◌==◌, inl, inr, eq_iff, Option-cases,
}
use dinchy.Errors.{ok}
use dinchy.Db.{Db, SessionRow}
use dinchy.Db.Sessions.{
  ResolvedRow, get_session_by_token_hash, revoke_session_by_token_hash, revoke_sessions_for_user,
  revoke, is_active, has_hash, active_for_user,
}
use dinchy.World.{Env, World, CacheItem}
use dinchy.World.Effects.{
  clock_now, cache_get, cache_set_with_ttl, cache_delete, select, statement, hash_token, is_live,
}
use dinchy.Session.{Principal, session, logout, revoke_for_user}
use dinchy.Session.Resolve.{db-session}

-- After the statement no row with the hash is unrevoked.
revoked_row :
    (at : ℕ) (hash : String) (xs : List SessionRow) (s : SessionRow)
    → find (has_hash hash) (update_where (λ s. has_hash hash s && is_active s) (revoke at) xs)
      ≡ some s
    → is_some s.revoked_at ≡ true
unfolding find update_where
revoked_row at hash [] s h = cc
revoked_row at hash (x ∷ xs) s h = ground (arith, revoked_row at hash xs s)

any_revoked :
    (at : ℕ) (user_id : String) (xs : List SessionRow)
    → any (active_for_user user_id) (update_where (active_for_user user_id) (revoke at) xs) ≡ false
unfolding any update_where
any_revoked at user_id [] = refl
any_revoked at user_id (x ∷ xs) = ground (arith, any_revoked at user_id xs)

others_kept :
    (at : ℕ) (user_id : String) (xs : List SessionRow)
    → keep_if
        (λ s. not (s.user_id == user_id))
        (update_where (active_for_user user_id) (revoke at) xs)
      ≡ keep_if (λ s. not (s.user_id == user_id)) xs
unfolding keep_if update_where
others_kept at user_id [] = refl
others_kept at user_id (x ∷ xs) = ground (arith, others_kept at user_id xs)

module _ (env : Env) where
  -- If RevokeForUser succeeds, no session of the user is left unrevoked, and the sessions of every
  -- other user are as before.
  pub revoke_for_user_all :
      (user_id : String) (w : World)
      → (revoke_for_user env user_id w).0 ≡ ok tt
      → (any (active_for_user user_id) (revoke_for_user env user_id w).1.db.sessions ≡ false)
        × (keep_if (λ s. not (s.user_id == user_id)) (revoke_for_user env user_id w).1.db.sessions
            ≡ keep_if (λ s. not (s.user_id == user_id)) w.db.sessions)
  unfolding revoke_for_user clock_now select statement cache_delete revoke_sessions_for_user
  revoke_for_user_all user_id w h = grind (arith, any_revoked, others_kept)

-- A row that the token's hash resolves to carries the revocation of the session row.
resolved-revoked_at :
    (hash : String) (db : Db) (row : ResolvedRow)
    → get_session_by_token_hash hash db ≡ some row
    → (s : SessionRow) × (find (has_hash hash) db.sessions ≡ some s)
      × (row.revoked_at ≡ s.revoked_at)
unfolding get_session_by_token_hash
resolved-revoked_at hash db row h = elim (Option-cases (find (has_hash hash) db.sessions)) [
  | inl missing ↦ absurd (ground arith)
  | inr (s, found) ↦ (s, found, ground arith)
]

resolved_is_revoked :
    (hash : String) (at : ℕ) (db : Db) (row : ResolvedRow)
    → get_session_by_token_hash hash (record db {
      sessions = update_where (λ s. has_hash hash s && is_active s) (revoke at) db.sessions;
    })
      ≡ some row
    → is_some row.revoked_at ≡ true
resolved_is_revoked hash at db row h =
    let (s, found, same) = resolved-revoked_at hash _ row h in
    rw same (revoked_row at hash db.sessions s found)

abbrev pub is_cached : String → World → Bool
is_cached key w = any (λ i. i.key == key) w.cache

not_live :
    (env : Env) (now : ℕ) (key : String) (items : List CacheItem)
    → any (λ i. i.key == key) items ≡ false
    → find (is_live env now key) items ≡ none
unfolding any find
not_live env now key [] h = refl
not_live env now key (i ∷ is) h = ground (arith, not_live env now key is)

module _ (env : Env) where
  abbrev pub IsRevoked : String → Db → Type 0
  IsRevoked raw_token db =
      (row : ResolvedRow)
      → get_session_by_token_hash (hash_token env raw_token) db ≡ some row
      → is_some row.revoked_at ≡ true

  abbrev pub revoked_at : ℕ → String → Db → Db
  revoked_at at raw_token db = record db {
    sessions =
        update_where (λ s. has_hash (hash_token env raw_token) s && is_active s) (revoke at)
          db.sessions;
  }

  abbrev pub logout_time : String → World → ℕ
  logout_time raw_token w =
      (session env raw_token w).1.now + env.drift (session env raw_token w).1.step

  pub db-logout :
      (raw_token : String) (w : World) (q : Option Principal)
      → raw_token ≢ ""
      → (logout env raw_token w).0 ≡ ok q
      → (logout env raw_token w).1.db ≡ revoked_at (logout_time raw_token w) raw_token w.db
  unfolding logout clock_now statement cache_delete revoke_session_by_token_hash
  db-logout raw_token w q given h = ground (arith, eq_iff raw_token "", db-session env raw_token w)

  -- After a logout that succeeds, no stored session with the token's hash is unrevoked.
  pub logout-IsRevoked :
      (raw_token : String) (w : World) (q : Option Principal)
      → raw_token ≢ ""
      → (logout env raw_token w).0 ≡ ok q
      → IsRevoked raw_token (logout env raw_token w).1.db
  logout-IsRevoked raw_token w q given h =
      rw (db-logout raw_token w q given h)
        (resolved_is_revoked (hash_token env raw_token) (logout_time raw_token w) w.db)

  session-ne-some :
      (raw_token : String) (w : World) (p : Principal)
      → IsRevoked raw_token w.db
      → is_cached (hash_token env raw_token) w ≡ false
      → (session env raw_token w).0 ≢ ok (some p)
  unfolding session clock_now cache_get cache_set_with_ttl select
  session-ne-some raw_token w p revoked uncached h =
      elim (Option-cases (get_session_by_token_hash (hash_token env raw_token) w.db)) [
        | inl missing ↦
            ground
              (arith, not_live env (w.now + env.drift w.step) (hash_token env raw_token) w.cache)
        | inr (row, found) ↦ ground (
          arith,
          revoked row found,
          not_live env (w.now + env.drift w.step) (hash_token env raw_token) w.cache,
        )
      ]

  -- A token that was logged out resolves to no principal in any later state that has the same
  -- database and no cached copy under the token's hash, whatever calls fail.
  pub session-logout :
      (raw_token : String) (w later : World) (q : Option Principal) (p : Principal)
      → raw_token ≢ ""
      → (logout env raw_token w).0 ≡ ok q
      → later.db ≡ (logout env raw_token w).1.db
      → is_cached (hash_token env raw_token) later ≡ false
      → (session env raw_token later).0 ≢ ok (some p)
  session-logout raw_token w later q p given h same uncached =
      session-ne-some raw_token later p (rw same (logout-IsRevoked raw_token w q given h)) uncached
