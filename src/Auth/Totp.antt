-- ===== src/Auth/Totp.antt =====
-- internal/features/auth/totp_service.go
pub mod Policy
pub mod Service
use dinchy.Prelude.{
  ℕ, ◌+◌, ◌/◌, ◌*◌, String, Bool, true, false, ◌&&◌, ◌||◌, not, Option, none, some, List, [], ◌∷◌,
  is_some, ltb, leb, ◌==◌, if◌then◌else◌,
}
use dinchy.Errors.{
  GoError, Result, ok, err, app, unauthorized, too_many_requests, internal_because, missing_or,
}
use dinchy.Errors.Codes.{
  Code, invalid_totp, totp_required, totp_locked, totp_enroll, totp_confirm, totp_disable,
}
use dinchy.Db.{Db, TwoFactorRow}
use dinchy.Db.TwoFactors.{
  find_two_factor, insert_or_replace_two_factor, confirm_two_factor, mark_two_factor_used,
  register_two_factor_failure, disable_two_factor,
}
use dinchy.World.{Env, EventType, two_factor_enabled, two_factor_disabled}
use dinchy.World.Exec.{Exec, pure, raise, fail_as, attempt, ◌>>=◌, ◌>>◌}
use dinchy.World.Effects.{clock_now, generate_id, generate_secret, select, statement, publish_event}
use dinchy.Auth.{new_target, new_envelope}

abbrev pub second : ℕ
second = 1_000_000_000

-- internal/config/auth.go: TOTPFailureLimit and TOTPLockDuration
abbrev pub totp_failure_limit : ℕ
totp_failure_limit = 5

abbrev pub totp_lock_duration : ℕ
totp_lock_duration = 900 * second

abbrev pub totp_step : ℕ → ℕ
totp_step t = t / second / 30

abbrev pub is_locked : TwoFactorRow → ℕ → Bool
is_locked t now = elim t.locked_until [ none ↦ false | some until ↦ ltb now until ]

abbrev pub used_step : TwoFactorRow → ℕ → Bool
used_step t step = elim t.last_used_step [
  | none ↦ false
  | some last ↦ leb last step && leb step last
]

-- the lock that a failure sets, by the count that it reaches
abbrev pub lock_after : ℕ → ℕ → Option ℕ
lock_after next_count now =
    if leb totp_failure_limit next_count then some (now + totp_lock_duration) else none

module _ (env : Env) where
  unfoldable pub record_totp_failure : String → ℕ → ℕ → Code → Exec (Unit {0})
  record_totp_failure user_id current_count now message = do
    let next_count = current_count + 1
    let locked_until = lock_after next_count now
    fail_as (internal_because totp_confirm)
        (statement env (register_two_factor_failure user_id next_count locked_until now))
    raise (
        if is_some locked_until
        then app too_many_requests totp_locked
        else app unauthorized message)

  -- StartTOTPEnrollment returns the secret and its URL.
  unfoldable pub start_totp_enrollment : String → String → Exec (String × String)
  start_totp_enrollment user_id email = do
    secret ← fail_as (internal_because totp_enroll) (generate_secret env)
    id ← generate_id env
    created ← clock_now env
    updated ← clock_now env
    fail_as (internal_because totp_enroll) (
        statement env (
          insert_or_replace_two_factor (record {
            id = id;
            user_id = user_id;
            secret = secret;
            verified = false;
            last_used_step = none;
            failed_verification_count = 0;
            locked_until = none;
            created_at = created;
            updated_at = updated;
          })))
    pure (secret, env.totp_url env.auth_config.totp_issuer email secret)

  two_factor_event : EventType → Code → String → String → Exec (Unit {0})
  two_factor_event type code user_id display_name = do
    envelope ←
        fail_as (internal_because code)
          (new_envelope env user_id "" (new_target env "user" user_id display_name))
    publish_event env (record { event_type = type; envelope = envelope; metadata = [] })

  confirm_row : String → String → String → TwoFactorRow → ℕ → Exec (Unit {0})
  unfolding two_factor_event
  confirm_row user_id display_name code t now =
      if is_locked t now
      then raise (app too_many_requests totp_locked)
      else if not (env.totp_valid now code t.secret)
      then record_totp_failure user_id t.failed_verification_count now invalid_totp
      else do
        fail_as (internal_because totp_confirm)
            (statement env (confirm_two_factor user_id (totp_step now) now))
        two_factor_event two_factor_enabled totp_confirm user_id display_name

  unfoldable pub confirm_totp : String → String → String → Exec (Unit {0})
  unfolding confirm_row
  confirm_totp user_id display_name code = do
    t ←
        fail_as (missing_or (app unauthorized invalid_totp) totp_confirm)
          (select env (find_two_factor user_id))
    now ← clock_now env
    confirm_row user_id display_name code t now

  unfoldable pub disable_totp : String → String → Exec (Unit {0})
  unfolding two_factor_event
  disable_totp user_id display_name = do
    statement env (disable_two_factor user_id)
    two_factor_event two_factor_disabled totp_disable user_id display_name

  -- the part of verifyTOTPForLogin after the enrollment is known to be verified
  unfoldable pub check_code : String → String → TwoFactorRow → ℕ → Exec (Unit {0})
  check_code user_id code t now =
      if is_locked t now
      then raise (app too_many_requests totp_locked)
      else if code == "" || not (env.totp_valid now code t.secret)
      then record_totp_failure user_id t.failed_verification_count now
          (if code == "" then totp_required else invalid_totp)
      else if used_step t (totp_step now)
      then raise (app unauthorized invalid_totp)
      else statement env (mark_two_factor_used user_id (totp_step now) now)

  -- verifyTOTPForLogin returns the error of the lookup as it is, pgx.ErrNoRows too.
  unfoldable pub verify_totp_for_login : String → String → Exec (Unit {0})
  verify_totp_for_login user_id code = do
    t ← select env (find_two_factor user_id)
    if not t.verified then pure tt else do now ← clock_now env; check_code user_id code t now
