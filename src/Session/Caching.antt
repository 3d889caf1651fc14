-- ===== src/Session/Caching.antt =====
-- How long the cache can answer for a session: entry.go, and cacheTTL of session_service.go.
use dinchy.Prelude.{
  ℕ, ◌+◌, ◌≤◌, ◌<◌, String, ◌≡◌, Bool, true, ◌&&◌, some, List, [], ◌∷◌, find, arith, leb, all,
  all-keep_if, all_mono, not, ◌==◌,
}
use dinchy.World.{Env, World, CacheItem}
use dinchy.World.Effects.{
  clock_now, cache_get, cache_set_with_ttl, cache_delete, select, statement, hash_token, is_live,
  is_one_of,
}
use dinchy.Session.{session, logout, revoke_for_user}

-- `slack` is a bound on the time that one call takes
module _ (env : Env) (slack : ℕ) where
  abbrev pub until : ℕ → CacheItem → Bool
  until now i =
      leb i.gone_at (i.value.idle_expires_at + slack)
      && leb i.gone_at (now + env.cache_config.session_ttl_cap)

  -- Redis drops every cached principal within the slack from the end of its idle window, and within
  -- the cap from now.
  abbrev pub IsBounded : World → Type 0
  IsBounded w = all (until w.now) w.cache ≡ true

  IsBounded_later :
      (now d : ℕ) (items : List CacheItem)
      → all (until now) items ≡ true
      → all (until (now + d)) items ≡ true
  IsBounded_later now d items h =
      all_mono (until now) (until (now + d)) items (λ i u. ground arith) h

  session-IsBounded :
      (raw_token : String) (w : World)
      → ((n : ℕ) → env.drift n ≤ slack)
      → IsBounded w
      → IsBounded (session env raw_token w).1
  unfolding session clock_now cache_get cache_set_with_ttl select all
  session-IsBounded raw_token w quick h =
      let read_at = w.now + env.drift w.step in
      let delay = env.drift (w.step + 1 + 1 + 1) in
      let before = IsBounded_later w.now (env.drift w.step) w.cache h in
      ground (
        arith,
        before,
        quick (w.step + 1 + 1 + 1),
        IsBounded_later read_at delay w.cache before,
        all-keep_if (until (read_at + delay)) (λ i. not (i.key == hash_token env raw_token))
            w.cache,
      )

  logout-IsBounded :
      (raw_token : String) (w : World)
      → ((n : ℕ) → env.drift n ≤ slack)
      → IsBounded w
      → IsBounded (logout env raw_token w).1
  unfolding logout clock_now cache_delete statement
  logout-IsBounded raw_token w quick h = ground (
    arith,
    session-IsBounded raw_token w quick h,
    IsBounded_later (session env raw_token w).1.now (env.drift (session env raw_token w).1.step)
        (session env raw_token w).1.cache,
    all-keep_if
        (until ((session env raw_token w).1.now + env.drift (session env raw_token w).1.step))
        (λ i. not (is_one_of env (hash_token env raw_token ∷ []) i.key))
        (session env raw_token w).1.cache,
  )

  revoke_for_user-IsBounded :
      (user_id : String) (w : World) → IsBounded w → IsBounded (revoke_for_user env user_id w).1
  unfolding revoke_for_user clock_now cache_delete statement select
  revoke_for_user-IsBounded user_id w h = grind (arith, IsBounded_later, all-keep_if)

  find_live :
      (now then_ : ℕ) (key : String) (i : CacheItem) (items : List CacheItem)
      → all (until then_) items ≡ true
      → find (is_live env now key) items ≡ some i
      → (now < i.value.idle_expires_at + slack) × (now < then_ + env.cache_config.session_ttl_cap)
  unfolding all find
  find_live now then_ key i [] h found = absurd (ground arith)
  find_live now then_ key i (j ∷ js) h found = ground (arith, find_live now then_ key i js)

  -- In a state in which Redis drops each cached principal within the slack from the end of its idle
  -- window, and within the cap from now, one that answers a lookup does so before these times.
  -- Resolving a token, a logout and the revocation of a user's sessions all lead to such a state
  -- again, whatever fails, if no call takes longer than the slack.
  pub IsBounded-preserved :
      (raw_token user_id : String) (w : World)
      → ((n : ℕ) → env.drift n ≤ slack)
      → IsBounded w
      → ((key : String) (now : ℕ) (i : CacheItem)
          → find (is_live env now key) w.cache ≡ some i
          → (now < i.value.idle_expires_at + slack)
            × (now < w.now + env.cache_config.session_ttl_cap))
        × IsBounded (session env raw_token w).1
        × IsBounded (logout env raw_token w).1
        × IsBounded (revoke_for_user env user_id w).1
  IsBounded-preserved raw_token user_id w quick h = (
    λ key now i found. find_live now w.now key i w.cache h found,
    session-IsBounded raw_token w quick h,
    logout-IsBounded raw_token w quick h,
    revoke_for_user-IsBounded user_id w h,
  )
