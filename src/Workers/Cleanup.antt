-- ===== src/Workers/Cleanup.antt =====
-- cleanupEndedSessions (session_cleanup_background_job.go): which sessions it leaves.
use dinchy.Prelude.{
  ℕ, ◌+◌, ◌-◌, ◌≤◌, String, Bool, ◌≡◌, true, not, none, some, List, [], ◌∷◌, find, keep_if,
  Bool-cases, inl, inr, arith, ap, All, All-map, ◌⊎◌,
}
use dinchy.Errors.{ok}
use dinchy.Db.{SessionRow}
use dinchy.Db.Sessions.{has_hash, is_stale, delete_ended_sessions}
use dinchy.World.{Env, World}
use dinchy.World.Effects.{clock_now, statement}
use dinchy.Workers.{cleanup_ended_sessions, session_cleanup_retention}

find-keep_if :
    (p q : SessionRow → Bool) (rows : List SessionRow) (s : SessionRow)
    → find p rows ≡ some s
    → q s ≡ true
    → find p (keep_if q rows) ≡ some s
unfolding find keep_if
find-keep_if p q [] s found kept = found
find-keep_if p q (r ∷ rows) s found kept = elim (Bool-cases (p r)) [
  | inl here ↦
      let same : r ≡ s = ground arith in
      let kept' : q r ≡ true = rw same kept in rw (kept', here) (ap some same)
  | inr there ↦
      let later = find-keep_if p q rows s (ground arith) kept in
      elim (Bool-cases (q r)) [ inl stays ↦ rw (stays, there) later | inr goes ↦ rw goes later ]
]

keep_if-passes :
    (q : SessionRow → Bool) (rows : List SessionRow) → All (λ s. q s ≡ true) (keep_if q rows)
unfolding keep_if
keep_if-passes q [] = tt
keep_if-passes q (r ∷ rows) = elim (Bool-cases (q r)) [
  | inl stays ↦ rw stays (stays, keep_if-passes q rows)
  | inr goes ↦ rw goes (keep_if-passes q rows)
]

-- neither revoked nor past its lifetime by the retention
abbrev pub IsFresh : ℕ → SessionRow → Type 0
IsFresh now s = (s.revoked_at ≡ none) × (now - session_cleanup_retention ≤ s.expires_at)

IsFresh-stays :
    (now : ℕ) (s : SessionRow)
    → IsFresh now s
    → not (is_stale (now - session_cleanup_retention) now s) ≡ true
IsFresh-stays now s (unrevoked, within) = ground arith

stays-IsFresh :
    (now : ℕ) (s : SessionRow)
    → not (is_stale (now - session_cleanup_retention) now s) ≡ true
    → IsFresh now s ⊎ (now ≤ s.updated_at)
stays-IsFresh now s h = ground arith

module _ (env : Env) where
  abbrev pub cleanup_time : World → ℕ
  cleanup_time w = w.now + env.drift w.step

  db-cleanup :
      (w : World)
      → (cleanup_ended_sessions env w).0 ≡ ok tt
      → (cleanup_ended_sessions env w).1.db.sessions
        ≡ keep_if
            (λ s. not (is_stale (cleanup_time w - session_cleanup_retention) (cleanup_time w) s))
            w.db.sessions
  unfolding cleanup_ended_sessions clock_now statement delete_ended_sessions
  db-cleanup w h = ground arith

  -- A cleanup that succeeds keeps every session that is neither revoked nor past its lifetime by
  -- 24 hours: what is found under a token's hash is found again. Each session that it leaves is such
  -- a one, or was written at the time of the cleanup or later.
  pub cleanup_ended_sessions_ok :
      (hash : String) (s : SessionRow) (w : World)
      → (cleanup_ended_sessions env w).0 ≡ ok tt
      → (IsFresh (cleanup_time w) s
          → find (has_hash hash) w.db.sessions ≡ some s
          → find (has_hash hash) (cleanup_ended_sessions env w).1.db.sessions ≡ some s)
        × All
            (λ r. IsFresh (cleanup_time w) r ⊎ (cleanup_time w ≤ r.updated_at))
            (cleanup_ended_sessions env w).1.db.sessions
  cleanup_ended_sessions_ok hash s w h =
      let now = cleanup_time w in
      let stays = λ (r : SessionRow). not (is_stale (now - session_cleanup_retention) now r) in
      rw (db-cleanup w h) (
        λ fresh found.
            find-keep_if (has_hash hash) stays w.db.sessions s found (IsFresh-stays now s fresh),
        All-map (keep_if stays w.db.sessions) (stays-IsFresh now)
            (keep_if-passes stays w.db.sessions),
      )
