-- ===== src/Db/Tokens.antt =====
-- internal/platform/store/sqlcgen/users.sql.go: the statements on verification tokens.
use dinchy.Prelude.{
  ℕ, String, Bool, ◌&&◌, ◌||◌, not, Option, none, some, [], ◌∷◌, ◌++◌, find, any, update_where,
  is_some, ◌==◌, if◌then◌else◌,
}
use dinchy.Db.{Db, VerificationTokenRow}
use dinchy.Db.Users.{has_user}

-- unique: id, token_hash; a user_id that is not NULL references users
unfoldable pub insert_verification_token : VerificationTokenRow → Db → Option Db
insert_verification_token row db =
    if any (λ t. t.id == row.id || t.token_hash == row.token_hash) db.verification_tokens
      || (elim row.user_id [ none ↦ Bool.false | some u ↦ not (has_user u db) ])
    then none
    else some (record db { verification_tokens = db.verification_tokens ++ row ∷ [] })

unfoldable pub find_verification_token : String → String → Db → Option VerificationTokenRow
find_verification_token hash purpose db =
    find (λ t. t.token_hash == hash && t.purpose == purpose) db.verification_tokens

abbrev pub is_unconsumed : String → VerificationTokenRow → Bool
is_unconsumed id t = t.id == id && not (is_some t.consumed_at)

abbrev pub consume_token : ℕ → VerificationTokenRow → VerificationTokenRow
consume_token at t = record t { consumed_at = some at; updated_at = at }

unfoldable pub consume_verification_token : ℕ → String → Db → Option Db
consume_verification_token at id db = some (record db {
  verification_tokens = update_where (is_unconsumed id) (consume_token at) db.verification_tokens;
})
