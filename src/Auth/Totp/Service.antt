-- ===== src/Auth/Totp/Service.antt =====
-- The handlers of totp_service.go implement the policy on the user's row in the database.
use dinchy.Prelude.{
  ℕ, ◌+◌, String, ◌≡◌, ◌≢◌, ◌∙◌, sym, refl, true, false, ◌&&◌, not, none, some, List, [], ◌∷◌, find,
  update_where, is_some, arith, ◌==◌, eq_iff, eq_refl, Option-cases, inl, inr, if◌then◌else◌,
}
use dinchy.Errors.{Result, ok, err, app, unauthorized, too_many_requests}
use dinchy.Errors.Codes.{totp_locked, totp_required, invalid_totp}
use dinchy.Db.{TwoFactorRow}
use dinchy.Db.TwoFactors.{
  find_two_factor, mark_two_factor_used, register_two_factor_failure, owned_by, accept_step,
  register_failure,
}
use dinchy.World.{Env, World}
use dinchy.World.Effects.{clock_now, select, statement}
use dinchy.Auth.Totp.{check_code, record_totp_failure, verify_totp_for_login, totp_step, lock_after}
use dinchy.Auth.Totp.Policy.{
  Verdict, locked, refused, replayed, accepted, Attempt, verdict, step, after, step-verified,
  same_step_ne_accepted,
}

-- An update of a user's row, as both this user's and another user's lookup see it.
find_updated :
    (user_id other : String) (f : TwoFactorRow → TwoFactorRow) (rows : List TwoFactorRow)
    → ((t : TwoFactorRow) → (f t).user_id ≡ t.user_id)
    → find (owned_by other) (update_where (owned_by user_id) f rows)
      ≡ (elim (find (owned_by other) rows) [
        | none ↦ none
        | some t ↦ some (if user_id == other then f t else t)
      ])
unfolding find update_where
find_updated user_id other f [] keeps = refl
find_updated user_id other f (t ∷ ts) keeps = ground (
  arith,
  keeps t,
  find_updated user_id other f ts keeps,
  eq_iff t.user_id other,
  eq_iff t.user_id user_id,
  eq_iff (f t).user_id other,
  eq_iff user_id other,
)

module _ (env : Env) where
  abbrev pub attempt_of : String → TwoFactorRow → ℕ → Attempt
  attempt_of code t now = record {
    at = now;
    code_ok = not (code == "") && env.totp_valid now code t.secret;
  }

  abbrev pub answer : String → TwoFactorRow → ℕ → Verdict → Result (Unit {0})
  answer code t now locked = err (app too_many_requests totp_locked)
  answer code t now refused = err (
      if is_some (lock_after (t.failed_verification_count + 1) now)
      then app too_many_requests totp_locked
      else app unauthorized (if code == "" then totp_required else invalid_totp))
  answer code t now replayed = err (app unauthorized invalid_totp)
  answer code t now accepted = ok tt

  -- Where its statement does not fail, the login's check of a code answers by the verdict of the
  -- policy, leaves the row that the policy names, and leaves every other user's row.
  pub check_code-refines :
      (user_id code : String) (t : TwoFactorRow) (now : ℕ) (w : World)
      → find_two_factor user_id w.db ≡ some t
      → env.fault w.step ≡ false
      → ((check_code env user_id code t now w).0
          ≡ answer code t now (verdict t (attempt_of code t now)))
        × (find_two_factor user_id (check_code env user_id code t now w).1.db
            ≡ some (step t (attempt_of code t now)))
        × ((other : String)
            → user_id ≢ other
            → find_two_factor other (check_code env user_id code t now w).1.db
              ≡ find_two_factor other w.db)
  unfolding check_code record_totp_failure statement find_two_factor mark_two_factor_used
      register_two_factor_failure step verdict after
  check_code-refines user_id code t now w found quiet =
      let failed =
        register_failure (t.failed_verification_count + 1)
          (lock_after (t.failed_verification_count + 1) now) now in
      let used = accept_step (totp_step now) now in
      (
        ground arith,
        ground (
          arith,
          find_updated user_id user_id failed w.db.two_factors (λ r. refl),
          find_updated user_id user_id used w.db.two_factors (λ r. refl),
          eq_refl user_id,
        ),
        λ other apart. ground (
          arith,
          find_updated user_id other failed w.db.two_factors (λ r. refl),
          find_updated user_id other used w.db.two_factors (λ r. refl),
          eq_iff user_id other,
        ),
      )

  check_code-fault :
      (user_id code : String) (t : TwoFactorRow) (now : ℕ) (w : World)
      → (check_code env user_id code t now w).0 ≡ ok tt
      → env.fault w.step ≡ false
  unfolding check_code record_totp_failure statement
  check_code-fault user_id code t now w h = ground arith

  answer-ok :
      (code : String) (t : TwoFactorRow) (now : ℕ) (v : Verdict)
      → answer code t now v ≡ ok tt
      → v ≡ accepted
  answer-ok code t now locked h = cc
  answer-ok code t now refused h = cc
  answer-ok code t now replayed h = cc
  answer-ok code t now accepted h = refl

  check_code_ok :
      (user_id code : String) (t : TwoFactorRow) (now : ℕ) (w : World)
      → find_two_factor user_id w.db ≡ some t
      → (check_code env user_id code t now w).0 ≡ ok tt
      → (verdict t (attempt_of code t now) ≡ accepted)
        × (find_two_factor user_id (check_code env user_id code t now w).1.db
            ≡ some (step t (attempt_of code t now)))
  check_code_ok user_id code t now w found h =
      let (answered, row, _) =
        check_code-refines user_id code t now w found (check_code-fault user_id code t now w h) in
      (answer-ok code t now _ (sym answered ∙ h), row)

  -- the time at which the login's check reads the clock, after one lookup
  abbrev pub login_time : World → ℕ
  login_time w = w.now + env.drift (w.step + 1)

  abbrev at_check : World → World
  at_check w = record w { now = login_time w; step = w.step + 1 + 1 }

  verify_totp_for_login_lem :
      (user_id code : String) (t : TwoFactorRow) (w : World)
      → find_two_factor user_id w.db ≡ some t
      → t.verified ≡ true
      → (verify_totp_for_login env user_id code w).0 ≡ ok tt
      → ((check_code env user_id code t (login_time w) (at_check w)).0 ≡ ok tt)
        × ((verify_totp_for_login env user_id code w).1
            ≡ (check_code env user_id code t (login_time w) (at_check w)).1)
  unfolding verify_totp_for_login clock_now select
  verify_totp_for_login_lem user_id code t w found enrolled h = ground arith

  -- The login's second factor passes only with a row of the user. If that row is verified, the
  -- policy accepts the code at the time that is read, and the row then is the policy's.
  pub verify_totp_for_login_ok :
      (user_id code : String) (w : World)
      → (verify_totp_for_login env user_id code w).0 ≡ ok tt
      → (t : TwoFactorRow) × (find_two_factor user_id w.db ≡ some t)
        × (t.verified ≡ true
            → (verdict t (attempt_of code t (login_time w)) ≡ accepted)
              × (find_two_factor user_id (verify_totp_for_login env user_id code w).1.db
                  ≡ some (step t (attempt_of code t (login_time w)))))
  unfolding select verify_totp_for_login
  verify_totp_for_login_ok user_id code w h = elim (Option-cases (find_two_factor user_id w.db)) [
    | inl missing ↦ absurd (ground arith)
    | inr (t, found) ↦ (
      t,
      found,
      λ enrolled.
          let (passed, same) = verify_totp_for_login_lem user_id code t w found enrolled h in
          let (accepts, row) =
            check_code_ok user_id code t (login_time w) (at_check w) found passed in
          (accepts, rw same row),
    )
  ]

  -- A login's code works once in its time step: after a verified row's second factor has passed, a
  -- later check in the same step against the same row fails, with whatever code.
  pub verify_totp_for_login_once :
      (user_id code code' : String) (t : TwoFactorRow) (w later : World)
      → find_two_factor user_id w.db ≡ some t
      → t.verified ≡ true
      → (verify_totp_for_login env user_id code w).0 ≡ ok tt
      → find_two_factor user_id later.db
        ≡ find_two_factor user_id (verify_totp_for_login env user_id code w).1.db
      → totp_step (login_time later) ≡ totp_step (login_time w)
      → (verify_totp_for_login env user_id code' later).0 ≢ ok tt
  verify_totp_for_login_once user_id code code' t w later found enrolled h same now_same h' =
      let (passed, left) = verify_totp_for_login_lem user_id code t w found enrolled h in
      let (accepts, row) = check_code_ok user_id code t (login_time w) (at_check w) found passed in
      let used = step t (attempt_of code t (login_time w)) in
      let row' : find_two_factor user_id later.db ≡ some used = same ∙ rw left row in
      let (passed', _) =
        verify_totp_for_login_lem user_id code' used later row' (step-verified t _ enrolled) h' in
      let (accepts', _) =
        check_code_ok user_id code' used (login_time later) (at_check later) row' passed' in
      same_step_ne_accepted t (attempt_of code t (login_time w))
        (attempt_of code' used (login_time later)) accepts now_same accepts'
