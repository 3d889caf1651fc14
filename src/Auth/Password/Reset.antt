-- ===== src/Auth/Password/Reset.antt =====
-- ResetPassword (password_service.go): what a reset does, and that its token works once.
use dinchy.Prelude.{
  none, ℕ, ◌+◌, String, ◌≡◌, ◌≢◌, ◌∙◌, sym, ap, inl, inr, Bool, true, false, ◌&&◌, some, List, [],
  ◌∷◌, find, any, update_where, is_some, arith, ◌==◌, eq_refl, if◌then◌else◌, Option-cases,
  Bool-cases,
}
use dinchy.Errors.{ok}
use dinchy.Db.{VerificationTokenRow, AccountRow}
use dinchy.Db.Users.{
  find_password_account, update_user_password_hash, text_value, is_password_account,
}
use dinchy.Db.Tokens.{
  find_verification_token, consume_verification_token, is_unconsumed, consume_token,
}
use dinchy.Db.Sessions.{active_for_user, revoke_sessions_for_user}
use dinchy.World.{Env, World}
use dinchy.World.Effects.{clock_now, select, statement, hash_password, hash_token, cache_delete}
use dinchy.Session.{revoke_for_user}
use dinchy.Session.Revoke.{revoke_for_user_all}
use dinchy.Auth.Password.{reset_password, usable_by, password_reset_purpose}

abbrev has_token : String → VerificationTokenRow → Bool
has_token hash t = t.token_hash == hash && t.purpose == password_reset_purpose

-- Consuming a token by its id leaves the lookup's row consumed.
consumed_row :
    (at : ℕ) (hash : String) (rows : List VerificationTokenRow) (t : VerificationTokenRow)
    → find (has_token hash) rows ≡ some t
    → (t' : VerificationTokenRow) × (find
          (has_token hash)
          (update_where (is_unconsumed t.id) (consume_token at) rows)
        ≡ some t')
      × (is_some t'.consumed_at ≡ true)
unfolding find update_where
consumed_row at hash [] t h = absurd (ground arith)
consumed_row at hash (r ∷ rs) t h = elim (Bool-cases (has_token hash r)) [
  | inl here ↦ (
    if is_unconsumed t.id r then consume_token at r else r,
    ground (arith, eq_refl t.id),
    ground (arith, eq_refl t.id),
  )
  | inr there ↦
      let (t', found, used) = consumed_row at hash rs t (rw there at h) in (t', ground arith, used)
]

module _ (env : Env) where
  db-revoke_for_user :
      (user_id : String) (w : World)
      → ((revoke_for_user env user_id w).1.db.verification_tokens ≡ w.db.verification_tokens)
        × ((revoke_for_user env user_id w).1.db.accounts ≡ w.db.accounts)
  unfolding revoke_for_user clock_now select statement cache_delete revoke_sessions_for_user
  db-revoke_for_user user_id w = ground arith

  -- the time that a reset reads, after the lookup of its token
  abbrev pub reset_time : World → ℕ
  reset_time w = w.now + env.drift (w.step + 1)

  abbrev pub new_hash : String → World → String
  new_hash password w = env.passwords.hash (env.random (w.step + 1 + 1)) password

  -- the state at which a reset of the token `t` for `user_id` begins to revoke sessions
  abbrev before_revocation : VerificationTokenRow → String → String → World → World
  before_revocation t user_id password w = record w {
    db = record w.db {
      accounts =
          update_where (is_password_account user_id)
            (λ a. record a {
              password_hash = text_value (new_hash password w);
              updated_at = reset_time w;
            })
            w.db.accounts;
      verification_tokens =
          update_where (is_unconsumed t.id) (consume_token (reset_time w)) w.db.verification_tokens;
    };
    now = reset_time w;
    step = w.step + 1 + 1 + 1 + 1 + 1;
  }

  reset_password_missing :
      (raw_token password : String) (w : World)
      → find_verification_token (hash_token env raw_token) password_reset_purpose w.db ≡ none
      → (reset_password env raw_token password w).0 ≢ ok tt
  unfolding reset_password select clock_now hash_password statement update_user_password_hash
      consume_verification_token
  reset_password_missing raw_token password w missing h = ground arith

  reset_password_unusable :
      (raw_token password : String) (w : World) (t : VerificationTokenRow)
      → find_verification_token (hash_token env raw_token) password_reset_purpose w.db ≡ some t
      → usable_by t (reset_time w) ≡ none
      → (reset_password env raw_token password w).0 ≢ ok tt
  unfolding reset_password select clock_now hash_password statement update_user_password_hash
      consume_verification_token
  reset_password_unusable raw_token password w t found unusable h = ground arith

  reset_password_usable :
      (raw_token password : String) (w : World) (t : VerificationTokenRow) (user_id : String)
      → find_verification_token (hash_token env raw_token) password_reset_purpose w.db ≡ some t
      → usable_by t (reset_time w) ≡ some user_id
      → (reset_password env raw_token password w).0 ≡ ok tt
      → ((revoke_for_user env user_id (before_revocation t user_id password w)).0 ≡ ok tt)
        × ((reset_password env raw_token password w).1
            ≡ (revoke_for_user env user_id (before_revocation t user_id password w)).1)
  unfolding reset_password select clock_now hash_password statement update_user_password_hash
      consume_verification_token
  reset_password_usable raw_token password w t user_id found usable h = (ground arith, ground arith)

  reset_password-cases :
      (raw_token password : String) (w : World)
      → (reset_password env raw_token password w).0 ≡ ok tt
      → (t : VerificationTokenRow) × (user_id : String) × (find_verification_token
            (hash_token env raw_token)
            password_reset_purpose
            w.db
          ≡ some t)
        × (usable_by t (reset_time w) ≡ some user_id)
        × ((revoke_for_user env user_id (before_revocation t user_id password w)).0 ≡ ok tt)
        × ((reset_password env raw_token password w).1
            ≡ (revoke_for_user env user_id (before_revocation t user_id password w)).1)
  reset_password-cases raw_token password w h =
      elim (Option-cases
        (find_verification_token (hash_token env raw_token) password_reset_purpose w.db)) [
          | inl missing ↦ absurd (reset_password_missing raw_token password w missing h)
          | inr (t, found) ↦ elim (Option-cases (usable_by t (reset_time w))) [
            | inl unusable ↦
                absurd (reset_password_unusable raw_token password w t found unusable h)
            | inr (user_id, usable) ↦ (
              t,
              user_id,
              found,
              usable,
              (reset_password_usable raw_token password w t user_id found usable h).0,
              (reset_password_usable raw_token password w t user_id found usable h).1,
            )
          ]
        ]

  hash_written :
      (user_id hash : String) (at : ℕ) (rows : List AccountRow) (a : AccountRow)
      → find (is_password_account user_id) (
          update_where
            (is_password_account user_id)
            (λ r. record r { password_hash = text_value hash; updated_at = at })
            rows)
        ≡ some a
      → a.password_hash ≡ text_value hash
  unfolding find update_where
  hash_written user_id hash at [] a h = cc
  hash_written user_id hash at (r ∷ rs) a h = ground (arith, hash_written user_id hash at rs a)

  -- A reset that succeeds was authorised by a stored token that names a user, was not consumed and
  -- had not expired. Afterwards the user's password account, if there is one, has the hash of the
  -- new password, the token is consumed, and no session of the user is left unrevoked.
  pub reset_password_ok :
      (raw_token password : String) (w : World)
      → (reset_password env raw_token password w).0 ≡ ok tt
      → (t : VerificationTokenRow) × (user_id : String) × (find_verification_token
            (hash_token env raw_token)
            password_reset_purpose
            w.db
          ≡ some t)
        × (usable_by t (reset_time w) ≡ some user_id)
        × ((a : AccountRow)
            → find_password_account user_id (reset_password env raw_token password w).1.db ≡ some a
            → a.password_hash ≡ text_value (new_hash password w))
        × ((t' : VerificationTokenRow) × (find_verification_token
                (hash_token env raw_token)
                password_reset_purpose
                (reset_password env raw_token password w).1.db
              ≡ some t')
            × (is_some t'.consumed_at ≡ true))
        × (any (active_for_user user_id) (reset_password env raw_token password w).1.db.sessions
            ≡ false)
  unfolding find_verification_token find_password_account
  reset_password_ok raw_token password w h =
      let (t, user_id, found, usable, revoked, left) =
        reset_password-cases raw_token password w h in
      let w' = before_revocation t user_id password w in
      let (same_tokens, same_accounts) = db-revoke_for_user user_id w' in
      (
        t,
        user_id,
        found,
        usable,
        rw (left, same_accounts)
            (hash_written user_id (new_hash password w) (reset_time w) w.db.accounts),
        rw (left, same_tokens)
            (consumed_row (reset_time w) (hash_token env raw_token) w.db.verification_tokens t
              found),
        rw left (revoke_for_user_all env user_id w' revoked).0,
      )

  used_ne :
      (t t' : VerificationTokenRow) (now : ℕ) (user_id : String)
      → some t ≡ some t'
      → is_some t'.consumed_at ≡ true
      → usable_by t now ≢ some user_id
  used_ne t t' now user_id same used = ground arith

  -- A reset token works once: after a reset that succeeded, a later reset with the same token
  -- against the same tokens does not, whatever calls fail and whatever the password.
  pub reset_password_once :
      (raw_token password password' : String) (w later : World)
      → (reset_password env raw_token password w).0 ≡ ok tt
      → later.db.verification_tokens
        ≡ (reset_password env raw_token password w).1.db.verification_tokens
      → (reset_password env raw_token password' later).0 ≢ ok tt
  unfolding find_verification_token
  reset_password_once raw_token password password' w later h same h' =
      let (_, _, _, _, _, (t', found, used), _) = reset_password_ok raw_token password w h in
      let (t'', user_id, found', usable, _, _) =
        reset_password-cases raw_token password' later h' in
      let same_row : some t'' ≡ some t' =
        sym found' ∙ ap (find (has_token (hash_token env raw_token))) same ∙ found in
      used_ne t'' t' (reset_time later) user_id same_row used usable
