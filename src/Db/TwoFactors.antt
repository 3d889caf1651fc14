-- ===== src/Db/TwoFactors.antt =====
-- internal/platform/store/sqlcgen/users.sql.go: the statements on two_factors.
use dinchy.Prelude.{
  ℕ, ◌+◌, String, Bool, true, not, Option, none, some, [], ◌∷◌, ◌++◌, find, any, update_where,
  keep_if, leb, ◌==◌, if◌then◌else◌,
}
use dinchy.Db.{Db, TwoFactorRow}
use dinchy.Db.Users.{has_user}

abbrev pub owned_by : String → TwoFactorRow → Bool
owned_by user_id t = t.user_id == user_id

unfoldable pub find_two_factor : String → Db → Option TwoFactorRow
find_two_factor user_id db = find (owned_by user_id) db.two_factors

abbrev pub update_two_factor : String → (TwoFactorRow → TwoFactorRow) → Db → Option Db
update_two_factor user_id f db =
    some (record db { two_factors = update_where (owned_by user_id) f db.two_factors })

-- The row that an enrollment leaves where the user had one already.
abbrev pub replace_secret : String → Bool → ℕ → TwoFactorRow → TwoFactorRow
replace_secret secret verified at t = record t {
  secret = secret;
  verified = verified;
  failed_verification_count = 0;
  locked_until = none;
  updated_at = at;
}

-- ON CONFLICT(user_id) DO UPDATE; a clash of the id alone is a violation
unfoldable pub insert_or_replace_two_factor : TwoFactorRow → Db → Option Db
insert_or_replace_two_factor row db =
    if not (has_user row.user_id db)
    then none
    else if any (owned_by row.user_id) db.two_factors
    then update_two_factor row.user_id (replace_secret row.secret row.verified row.updated_at) db
    else if any (λ t. t.id == row.id) db.two_factors
    then none
    else some (record db { two_factors = db.two_factors ++ row ∷ [] })

abbrev pub accept_step : ℕ → ℕ → TwoFactorRow → TwoFactorRow
accept_step step at t = record t {
  last_used_step = some step;
  failed_verification_count = 0;
  locked_until = none;
  updated_at = at;
}

unfoldable pub confirm_two_factor : String → ℕ → ℕ → Db → Option Db
confirm_two_factor user_id step at =
    update_two_factor user_id (λ t. record (accept_step step at t) { verified = true })

unfoldable pub mark_two_factor_used : String → ℕ → ℕ → Db → Option Db
mark_two_factor_used user_id step at = update_two_factor user_id (accept_step step at)

abbrev pub register_failure : ℕ → Option ℕ → ℕ → TwoFactorRow → TwoFactorRow
register_failure failure_limit locked_until at t = record t {
  failed_verification_count = t.failed_verification_count + 1;
  locked_until =
      if leb failure_limit (t.failed_verification_count + 1) then locked_until else t.locked_until;
  updated_at = at;
}

unfoldable pub register_two_factor_failure : String → ℕ → Option ℕ → ℕ → Db → Option Db
register_two_factor_failure user_id failure_limit locked_until at =
    update_two_factor user_id (register_failure failure_limit locked_until at)

unfoldable pub disable_two_factor : String → Db → Option Db
disable_two_factor user_id db =
    some (record db { two_factors = keep_if (λ t. not (owned_by user_id t)) db.two_factors })
