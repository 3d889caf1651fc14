-- ===== src/Examples/SignIn.antt =====
-- The theorems on the login and on its second factor at concrete states.
use dinchy.Prelude.{
  ◌+◌, ◌*◌, ◌≤◌, ◌≡◌, ◌≢◌, String, refl, true, false, some, List, [], ◌∷◌, find, any, update_where,
  arith,
}
use dinchy.Errors.{ok, err, failure, internal_because}
use dinchy.Errors.Codes.{session_create_session}
use dinchy.Db.{UserRow, AccountRow, TwoFactorRow}
use dinchy.Db.Users.{find_user_by_email, find_password_account}
use dinchy.Db.Organizations.{MembershipRow, list_organizations}
use dinchy.Db.TwoFactors.{find_two_factor, mark_two_factor_used}
use dinchy.World.{World}
use dinchy.World.Effects.{clock_now, select, statement}
use dinchy.Session.{create}
use dinchy.Auth.{User, user_from_row}
use dinchy.Auth.Totp.{verify_totp_for_login, check_code, totp_lock_duration}
use dinchy.Auth.Totp.Policy.{verdict, accepted, step, tries, Attempt, tries_below_limit, after}
use dinchy.Auth.Totp.Service.{
  attempt_of, answer, login_time, check_code-refines, verify_totp_for_login_once,
}
use dinchy.Auth.Login.{
  login, authenticate, find_user_with_password, resolve_login_organization, stored_hash,
  bad_credentials,
}
use dinchy.Auth.Login.Credentials.{IsChosen, two_later}
use dinchy.Auth.Login.Outcome.{authenticate-login}
use dinchy.Examples.{env, world, two_factor}

abbrev ada : User
ada = record { id = "ada"; email = "ada@example.com"; display_name = "Ada"; email_verified = true }

abbrev default : MembershipRow
default = record { id = "org"; name = "Default"; slug = "default"; role = "admin" }

logs_in :
    (authenticate env "ada@example.com" "old password" "" "secret" world).0 ≡ ok (ada, default)
unfolding authenticate find_user_with_password verify_totp_for_login check_code
    resolve_login_organization clock_now select statement find_user_by_email find_password_account
    find_two_factor mark_two_factor_used list_organizations find any update_where
logs_in = refl

authenticate-login_example :
    (u : UserRow) × (a : AccountRow) × (t : TwoFactorRow) × (find_user_by_email "ada@example.com"
        world.db
      ≡ some u)
    × (user_from_row u ≡ some ada)
    × (find_password_account "ada" world.db ≡ some a)
    × (env.passwords.verify "old password" (stored_hash a) ≡ true)
    × (find_two_factor "ada" world.db ≡ some t)
    × (t.verified ≡ true
        → verdict t (attempt_of env "secret" t (login_time env (two_later env world))) ≡ accepted)
    × IsChosen env.before "ada" "" world.db default
    × (login env "ada@example.com" "old password" "" "secret" "ip" "agent" world
        ≡ create env "ada" "org" "ip" "agent"
            (authenticate env "ada@example.com" "old password" "" "secret" world).1)
    × ((login env "ada@example.com" "old password" "" "secret" "ip" "agent" world).0
        ≡ err (internal_because session_create_session failure))
    × ((login env "ada@example.com" "old password" "" "secret" "ip" "agent" world).1.db
        ≡ record world.db {
          two_factors =
              (login env "ada@example.com" "old password" "" "secret" "ip" "agent"
                world).1.db.two_factors;
        })
authenticate-login_example =
    authenticate-login env "ada@example.com" "old password" "" "secret" "ip" "agent" world ada
      default logs_in

wrong_password :
    (find_user_with_password env "ada@example.com" "guess" world).0 ≡ err bad_credentials
unfolding find_user_with_password select find_user_by_email find_password_account find
wrong_password = refl

enrolled : find_two_factor "ada" world.db ≡ some two_factor
unfolding find_two_factor find
enrolled = refl

check_code-refines_example :
    ((check_code env "ada" "guess" two_factor 100 world).0
      ≡ answer env "guess" two_factor 100
          (verdict two_factor (attempt_of env "guess" two_factor 100)))
    × (find_two_factor "ada" (check_code env "ada" "guess" two_factor 100 world).1.db
        ≡ some (step two_factor (attempt_of env "guess" two_factor 100)))
    × ((other : String)
        → "ada" ≢ other
        → find_two_factor other (check_code env "ada" "guess" two_factor 100 world).1.db
          ≡ find_two_factor other world.db)
check_code-refines_example = check_code-refines env "ada" "guess" two_factor 100 world enrolled refl

verifies : (verify_totp_for_login env "ada" "secret" world).0 ≡ ok tt
unfolding verify_totp_for_login check_code clock_now select statement find_two_factor
    mark_two_factor_used find update_where
verifies = refl

abbrev later : World
later = record world { db = (verify_totp_for_login env "ada" "secret" world).1.db; now = 200 }

verify_totp_for_login_once_example : (verify_totp_for_login env "ada" "secret" later).0 ≢ ok tt
verify_totp_for_login_once_example =
    verify_totp_for_login_once env "ada" "secret" "secret" two_factor world later enrolled refl
      verifies refl refl

-- two wrong codes, one second apart
abbrev run : List Attempt
run = record { at = 10; code_ok = false } ∷ record { at = 20; code_ok = false } ∷ []

tries_below_limit_example :
    0 + tries two_factor run * totp_lock_duration ≤ 30 + 5 * totp_lock_duration
unfolding verdict step after
tries_below_limit_example =
    tries_below_limit two_factor 0 30 run (omega arith)
      (omega arith, λ e. ground arith, (omega arith, λ e. ground arith, omega arith))
