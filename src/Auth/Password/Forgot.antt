-- ===== src/Auth/Password/Forgot.antt =====
-- ForgotPassword (password_service.go): its answer does not tell whether the address is known.
use dinchy.Prelude.{
  ◌+◌, String, ◌≡◌, ◌≢◌, refl, true, none, some, [], ◌∷◌, ◌++◌, arith, if◌then◌else◌, eq_iff,
}
use dinchy.Errors.{failure, ok, err, internal_because}
use dinchy.Errors.Codes.{password_reset_find_user}
use dinchy.Db.{UserRow, VerificationTokenRow}
use dinchy.Db.Users.{find_user_by_email}
use dinchy.Db.Tokens.{insert_verification_token}
use dinchy.World.{Env, World}
use dinchy.World.Effects.{
  clock_now, generate_id, select, statement, random_token, send_mail, hash_token,
}
use dinchy.Auth.{nil_uuid}
use dinchy.Auth.Password.{forgot_password, password_reset_content, password_reset_purpose}

module _ (env : Env) where
  -- For an unknown or disabled address the answer is success, or the lookup's failure; no token is
  -- stored and no mail is sent.
  pub forgot_password_unknown :
      (email : String) (w : World)
      → env.mailer_configured ≡ true
      → find_user_by_email email w.db ≡ none
      → ((forgot_password env email w).0 ≡ (
          if env.fault (w.step + 1)
          then err (internal_because password_reset_find_user failure)
          else ok tt))
        × ((forgot_password env email w).1.db ≡ w.db)
        × ((forgot_password env email w).1.mails ≡ w.mails)
  unfolding forgot_password clock_now select
  forgot_password_unknown email w configured unknown = ground arith

  -- the token that a request draws
  abbrev pub drawn : World → String
  drawn w = env.random (w.step + 1 + 1)

  -- If the answer to a known address is success, one token row was added, that holds the hash of
  -- the token in the one mail that was sent to the address, for the configured lifetime.
  pub forgot_password_known :
      (email : String) (w : World) (u : UserRow)
      → find_user_by_email email w.db ≡ some u
      → u.id ≢ nil_uuid
      → (forgot_password env email w).0 ≡ ok tt
      → (t : VerificationTokenRow) × ((forgot_password env email w).1.db.verification_tokens
          ≡ w.db.verification_tokens ++ t ∷ [])
        × (t.token_hash ≡ hash_token env (drawn w))
        × (t.user_id ≡ some u.id)
        × (t.consumed_at ≡ none)
        × (t.expires_at
            ≡ (forgot_password env email w).1.now + env.auth_config.password_reset_lifetime)
        × ((forgot_password env email w).1.mails
            ≡ w.mails ++ record { to = email; content = password_reset_content env (drawn w) } ∷ [])
  unfolding forgot_password clock_now select random_token generate_id statement
      insert_verification_token send_mail
  forgot_password_known email w u known real h =
      let now = w.now + env.drift w.step + env.drift (w.step + 1 + 1 + 1) in
      let t : VerificationTokenRow = record {
        id = env.new_id (w.step + 1 + 1 + 1 + 1);
        user_id = some u.id;
        email = email;
        purpose = password_reset_purpose;
        token_hash = hash_token env (drawn w);
        expires_at = now + env.auth_config.password_reset_lifetime;
        consumed_at = none;
        created_at = now;
        updated_at = now;
      } in
      (
        t,
        ground (arith, eq_iff u.id nil_uuid),
        refl,
        refl,
        refl,
        ground (arith, eq_iff u.id nil_uuid),
        ground (arith, eq_iff u.id nil_uuid),
      )
