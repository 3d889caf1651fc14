-- ===== src/Auth/Totp/Policy.antt =====
-- The lockout policy of totp_service.go as a state machine on a user's two-factor row, apart from
-- the database and the clock: what one attempt at a time is answered, and the row that it leaves.
use dinchy.Prelude.{
  ℕ, ◌+◌, ◌*◌, ◌-◌, ◌≤◌, ◌<◌, ◌≡◌, ◌≢◌, ◌⊎◌, inl, refl, Bool, true, not, none, some, List, [], ◌∷◌,
  arith, if◌then◌else◌,
}
use dinchy.Db.{TwoFactorRow}
use dinchy.Db.TwoFactors.{accept_step, register_failure}
use dinchy.Auth.Totp.{
  is_locked, used_step, totp_step, lock_after, totp_failure_limit, totp_lock_duration,
}

pub data Verdict : Type 0 where
  locked refused replayed accepted : Verdict

-- one attempt: its time, and whether the authenticator's code is the right one
pub record Attempt : Type 0 where
  pub at : ℕ
  pub code_ok : Bool

unfoldable pub verdict : TwoFactorRow → Attempt → Verdict
verdict t a =
    if is_locked t a.at
    then locked
    else if not a.code_ok
    then refused
    else if used_step t (totp_step a.at)
    then replayed
    else accepted

unfoldable pub after : TwoFactorRow → Attempt → Verdict → TwoFactorRow
after t a refused =
    register_failure (t.failed_verification_count + 1)
      (lock_after (t.failed_verification_count + 1) a.at) a.at t
after t a accepted = accept_step (totp_step a.at) a.at t
after t a _ = t

unfoldable pub step : TwoFactorRow → Attempt → TwoFactorRow
unfolding verdict after
step t a = after t a (verdict t a)

-- A run of attempts that all fail, one by one: the number of codes that were really tried.
unfoldable pub tries : TwoFactorRow → List Attempt → ℕ
unfolding step verdict
tries t [] = 0
tries t (a ∷ rest) = (elim (verdict t a) [ refused ↦ 1 | _ ↦ 0 ]) + tries (step t a) rest

-- the attempts follow each other in time, end by `last`, and none of them is accepted
abbrev pub IsFailingRun : TwoFactorRow → ℕ → ℕ → List Attempt → Type 0
IsFailingRun t first last [] = first ≤ last
IsFailingRun t first last (a ∷ rest) =
    (first ≤ a.at) × (verdict t a ≢ accepted) × IsFailingRun (step t a) a.at last rest

abbrev lock_end : TwoFactorRow → ℕ
lock_end t = elim t.locked_until [ none ↦ 0 | some until ↦ until ]

first-le-last :
    (t : TwoFactorRow) (first last : ℕ) (run : List Attempt)
    → IsFailingRun t first last run
    → first ≤ last
first-le-last t first last [] h = h
first-le-last t first last (a ∷ rest) (early, _, h) =
    omega (arith, first-le-last (step t a) a.at last rest h)

-- With the limit reached, each try lies a lock's duration behind the one before it.
tries_at_limit :
    (t : TwoFactorRow) (first last : ℕ) (run : List Attempt)
    → totp_failure_limit ≤ t.failed_verification_count
    → IsFailingRun t first last run
    → (tries t run ≡ 0)
      ⊎ ((first + (tries t run - 1) * totp_lock_duration ≤ last)
          × (lock_end t + (tries t run - 1) * totp_lock_duration ≤ last))
unfolding tries step verdict after
tries_at_limit t first last [] full h = inl refl
tries_at_limit t first last (a ∷ rest) full (early, failing, h) =
    ground
      (arith, tries_at_limit (step t a) a.at last rest, first-le-last (step t a) a.at last rest h)

-- The lockout bounds guessing: in a run of attempts between two times of which none is accepted,
-- from a row with fewer failures than the limit, the codes that are really tried are at most those
-- left up to the limit and one for each duration of a lock that fits between the two times.
pub tries_below_limit :
    (t : TwoFactorRow) (first last : ℕ) (run : List Attempt)
    → t.failed_verification_count < totp_failure_limit
    → IsFailingRun t first last run
    → first + tries t run * totp_lock_duration
      ≤ last + (totp_failure_limit - t.failed_verification_count) * totp_lock_duration
unfolding tries step verdict after
tries_below_limit t first last [] few h = omega arith
tries_below_limit t first last (a ∷ rest) few (early, failing, h) = ground (
  arith,
  tries_below_limit (step t a) a.at last rest,
  tries_at_limit (step t a) a.at last rest,
  first-le-last (step t a) a.at last rest h,
)

-- A code accepted in a time step is not accepted again in that step.
pub same_step_ne_accepted :
    (t : TwoFactorRow) (a b : Attempt)
    → verdict t a ≡ accepted
    → totp_step b.at ≡ totp_step a.at
    → verdict (step t a) b ≢ accepted
unfolding step verdict after
same_step_ne_accepted t a b h same = ground arith

pub step-verified :
    (t : TwoFactorRow) (a : Attempt) → t.verified ≡ true → (step t a).verified ≡ true
unfolding step verdict after
step-verified t a h = ground arith
