-- ===== src/Auth/Login/Outcome.antt =====
-- What Login (auth_service.go) has checked when it creates a session.
use dinchy.Prelude.{String, true, ◌≡◌, subst, sym, ap, ◌∙◌, some, List, arith}
use dinchy.Errors.{ok, err, failure, internal_because}
use dinchy.Errors.Codes.{session_create_session}
use dinchy.Db.{Db, UserRow, AccountRow, TwoFactorRow}
use dinchy.Db.Users.{find_user_by_email, find_password_account}
use dinchy.Db.Organizations.{MembershipRow, find_organization_by_slug, list_organizations}
use dinchy.Db.TwoFactors.{find_two_factor, mark_two_factor_used, register_two_factor_failure}
use dinchy.World.{Env, World}
use dinchy.World.Inversion.{bind_run, ok-injective}
use dinchy.World.Effects.{select, statement, clock_now}
use dinchy.Session.{create}
use dinchy.Session.Creation.{create_fails}
use dinchy.Auth.{User, user_from_row}
use dinchy.Auth.Totp.{verify_totp_for_login, check_code, record_totp_failure}
use dinchy.Auth.Totp.Policy.{verdict, accepted}
use dinchy.Auth.Totp.Service.{attempt_of, login_time, verify_totp_for_login_ok}
use dinchy.Auth.Login.{
  login, authenticate, find_user_with_password, resolve_login_organization, stored_hash,
}
use dinchy.Auth.Login.Credentials.{
  find_user_with_password_ok, resolve_login_organization_ok, two_later, IsChosen,
}

module _ (env : Env) where
  -- The second factor writes to the two-factor rows only.
  db-verify_totp_for_login :
      (user_id code : String) (w : World)
      → (verify_totp_for_login env user_id code w).1.db
        ≡ record w.db { two_factors = (verify_totp_for_login env user_id code w).1.db.two_factors }
  unfolding verify_totp_for_login check_code record_totp_failure select statement clock_now
      mark_two_factor_used register_two_factor_failure
  db-verify_totp_for_login user_id code w = ground arith

  pub db-resolve_login_organization :
      (user_id slug : String) (w : World)
      → (resolve_login_organization env user_id slug w).1.db ≡ w.db
  unfolding resolve_login_organization select
  db-resolve_login_organization user_id slug w = ground arith

  authenticate-cases :
      (email password slug code : String) (w : World) (r : User × MembershipRow)
      → (authenticate env email password slug code w).0 ≡ ok r
      → (w₁ : World) × (w₂ : World) × (w₃ : World) × (find_user_with_password env email password w
          ≡ (ok r.0, w₁))
        × (verify_totp_for_login env r.0.id code w₁ ≡ (ok tt, w₂))
        × (resolve_login_organization env r.0.id slug w₂ ≡ (ok r.1, w₃))
        × ((authenticate env email password slug code w).1 ≡ w₃)
  unfolding authenticate
  authenticate-cases email password slug code w r h =
      let (user, w₁, known, e₁, h₁) =
        bind_run (find_user_with_password env email password) _ w r h in
      let (_, w₂, passed, e₂, h₂) = bind_run (verify_totp_for_login env user.id code) _ w₁ r h₁ in
      let (o, w₃, entered, e₃, h₃) =
        bind_run (resolve_login_organization env user.id slug) _ w₂ r h₂ in
      let same : (user, o) ≡ r = ok-injective h₃ in
      let same_user : user ≡ r.0 = ap (λ x. x.0) same in
      (
        w₁,
        w₂,
        w₃,
        known ∙ ap (λ u. (ok u, w₁)) same_user,
        subst (λ u. verify_totp_for_login env u.id code w₁ ≡ (ok tt, w₂)) same_user passed,
        subst (λ x. resolve_login_organization env x.0.id slug w₂ ≡ (ok x.1, w₃)) same entered,
        ap (λ x. x.1) (e₁ ∙ e₂ ∙ e₃),
      )

  IsChosen-without_two_factors :
      (user_id slug : String) (db : Db) (rows : List TwoFactorRow) (o : MembershipRow)
      → IsChosen env.before user_id slug (record db { two_factors = rows }) o
      → IsChosen env.before user_id slug db o
  unfolding find_organization_by_slug list_organizations
  IsChosen-without_two_factors user_id slug db rows o chosen = chosen

  -- A login that reaches session creation has found a user with the email whose password account's
  -- hash verifies the password; the user has a two-factor row, and if that is verified, the policy
  -- accepts the code at the time that is read; the user is a member of the organization. Nothing but
  -- the two-factor rows has changed. Create is then called for that user and organization; since it
  -- fails, the login ends with the error of session creation.
  pub authenticate-login :
      (email password slug code ip agent : String) (w : World) (user : User) (o : MembershipRow)
      → (authenticate env email password slug code w).0 ≡ ok (user, o)
      → (u : UserRow) × (a : AccountRow) × (t : TwoFactorRow) × (find_user_by_email email w.db
          ≡ some u)
        × (user_from_row u ≡ some user)
        × (find_password_account user.id w.db ≡ some a)
        × (env.passwords.verify password (stored_hash a) ≡ true)
        × (find_two_factor user.id w.db ≡ some t)
        × (t.verified ≡ true
            → verdict t (attempt_of env code t (login_time env (two_later env w))) ≡ accepted)
        × IsChosen env.before user.id slug w.db o
        × (login env email password slug code ip agent w
            ≡ create env user.id o.id ip agent (authenticate env email password slug code w).1)
        × ((login env email password slug code ip agent w).0
            ≡ err (internal_because session_create_session failure))
        × ((login env email password slug code ip agent w).1.db ≡ record w.db {
          two_factors = (login env email password slug code ip agent w).1.db.two_factors;
        })
  unfolding login
  authenticate-login email password slug code ip agent w user o h =
      let (w₁, w₂, w₃, known, passed, entered, same) =
        authenticate-cases email password slug code w (user, o) h in
      let (u, a, found, same_user, owned, verified, same₁) =
        find_user_with_password_ok env email password w user (ap (λ r. r.0) known) in
      let w₁-two_later : w₁ ≡ two_later env w = sym (ap (λ r. r.1) known) ∙ same₁ in
      let passed' : verify_totp_for_login env user.id code (two_later env w) ≡ (ok tt, w₂) =
        rw w₁-two_later at passed in
      let (t, enrolled, accepts) =
        verify_totp_for_login_ok env user.id code (two_later env w) (ap (λ r. r.0) passed') in
      let db₂ =
        ap (λ r. r.1.db) (sym passed') ∙ db-verify_totp_for_login user.id code (two_later env w) in
      let chosen = resolve_login_organization_ok env user.id slug w₂ o (ap (λ r. r.0) entered) in
      let db₃ : w₃.db ≡ w₂.db =
        ap (λ r. r.1.db) (sym entered) ∙ db-resolve_login_organization user.id slug w₂ in
      let made : login env email password slug code ip agent w
          ≡ create env user.id o.id ip agent (authenticate env email password slug code w).1 =
        ground arith in
      let (failed, kept) =
        create_fails env user.id o.id ip agent (authenticate env email password slug code w).1 in
      let after : (login env email password slug code ip agent w).1.db ≡ record w.db {
        two_factors = (verify_totp_for_login env user.id code (two_later env w)).1.db.two_factors;
      } =
        ap (λ r. r.1.db) made ∙ kept ∙ ap (λ v. v.db) same ∙ db₃ ∙ db₂ in
      (
        u,
        a,
        t,
        found,
        same_user,
        owned,
        verified,
        enrolled,
        λ is_verified. (accepts is_verified).0,
        IsChosen-without_two_factors user.id slug w.db _ o
            (subst (λ db. IsChosen env.before user.id slug db o) db₂ chosen),
        made,
        ap (λ r. r.0) made ∙ failed,
        after ∙ ap (λ fs. record w.db { two_factors = fs }) (ap (λ d. d.two_factors) (sym after)),
      )
