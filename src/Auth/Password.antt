-- ===== src/Auth/Password.antt =====
-- internal/features/auth/password_service.go. The minimum duration of ForgotPassword is a wait
-- after its work and is left out.
pub mod Reset
pub mod Forgot
use dinchy.Prelude.{
  ℕ, ◌+◌, String, Bool, true, false, ◌||◌, not, Option, none, some, List, [], ◌∷◌, is_some, ltb,
  ◌==◌, if◌then◌else◌,
}
use dinchy.Errors.{
  GoError, failure, Result, ok, err, app, bad_request, internal_because, missing_or, is_no_rows,
}
use dinchy.Errors.Codes.{
  invalid_reset_token, email_not_configured, password_reset_find_user,
  password_reset_generate_token, password_reset_create_verification_token,
  password_reset_send_email, password_reset_find_verification_token, password_reset_password_hash,
  password_reset_consume_verification_token, email_password_reset_subject,
  email_password_reset_heading, email_password_reset_body, email_password_reset_cta,
}
use dinchy.Db.{UserRow, VerificationTokenRow}
use dinchy.Db.Users.{find_user_by_email, update_user_password_hash}
use dinchy.Db.Tokens.{
  insert_verification_token, find_verification_token, consume_verification_token,
}
use dinchy.World.{Env, Content}
use dinchy.World.Exec.{Exec, pure, raise, some_or, fail_as, attempt, require, ◌>>=◌, ◌>>◌}
use dinchy.World.Effects.{
  clock_now, generate_id, random_token, hash_token, hash_password, select, statement, send_mail,
}
use dinchy.Session.{revoke_for_user}
use dinchy.Auth.{User, user_from_row, action_url, footer}

abbrev pub password_reset_purpose : String
password_reset_purpose = "password_reset"

abbrev pub bad_reset_token : GoError
bad_reset_token = app bad_request invalid_reset_token

-- a token that names a user, was not consumed and has not expired
abbrev pub usable_by : VerificationTokenRow → ℕ → Option String
usable_by t now = if is_some t.consumed_at || ltb t.expires_at now then none else t.user_id

module _ (env : Env) where
  abbrev pub password_reset_content : String → Content
  password_reset_content token = record {
    subject = env.copy email_password_reset_subject [];
    heading = env.copy email_password_reset_heading [];
    body = env.copy email_password_reset_body [];
    cta_label = env.copy email_password_reset_cta [];
    cta_url = action_url env env.links.reset_password_path token;
    footer = footer env;
  }

  issue_reset : String → Option User → Exec (Unit {0})
  issue_reset email none = pure tt
  issue_reset email (some user) = do
    raw_token ← fail_as (internal_because password_reset_generate_token) (random_token env)
    now ← clock_now env
    id ← generate_id env
    fail_as (internal_because password_reset_create_verification_token) (
        statement env (
          insert_verification_token (record {
            id = id;
            user_id = some user.id;
            email = email;
            purpose = password_reset_purpose;
            token_hash = hash_token env raw_token;
            expires_at = now + env.auth_config.password_reset_lifetime;
            consumed_at = none;
            created_at = now;
            updated_at = now;
          })))
    fail_as (internal_because password_reset_send_email)
        (send_mail env email (password_reset_content raw_token))

  for_user : String → Result UserRow → Exec (Unit {0})
  unfolding issue_reset
  for_user email (ok row) = issue_reset email (user_from_row row)
  for_user email (err e) =
      if is_no_rows e then pure tt else raise (internal_because password_reset_find_user e)

  -- Service.ForgotPassword
  unfoldable pub forgot_password : String → Exec (Unit {0})
  unfolding for_user
  forgot_password email =
      if not env.mailer_configured
      then raise (internal_because email_not_configured failure)
      else do
        clock_now env
        row ← attempt (select env (find_user_by_email email))
        for_user email row

  -- Service.ResetPassword
  unfoldable pub reset_password : String → String → Exec (Unit {0})
  reset_password raw_token password = do
    t ←
        fail_as (missing_or bad_reset_token password_reset_find_verification_token)
          (select env (find_verification_token (hash_token env raw_token) password_reset_purpose))
    now ← clock_now env
    user_id ← some_or bad_reset_token (usable_by t now)
    hash ← fail_as (internal_because password_reset_password_hash) (hash_password env password)
    fail_as (internal_because password_reset_password_hash)
        (statement env (update_user_password_hash user_id hash now))
    fail_as (internal_because password_reset_consume_verification_token)
        (statement env (consume_verification_token now t.id))
    revoke_for_user env user_id
