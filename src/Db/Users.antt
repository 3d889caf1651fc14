-- ===== src/Db/Users.antt =====
-- internal/platform/store/sqlcgen/users.sql.go: the statements on users and accounts. A SELECT of
-- one row gives none for no rows; a write gives none where a constraint of the migrations rejects
-- it.
use dinchy.Prelude.{
  ℕ, String, Bool, ◌&&◌, ◌||◌, not, Option, none, some, [], ◌∷◌, ◌++◌, find, any, update_where,
  length, is_some, ◌==◌, if◌then◌else◌,
}
use dinchy.Db.{Db, UserRow, AccountRow}

unfoldable pub count_users : Db → Option ℕ
count_users db = some (length db.users)

abbrev pub has_user : String → Db → Bool
has_user user_id db = any (λ u. u.id == user_id) db.users

-- users.id and users.email are unique
unfoldable pub rejects_user : UserRow → Db → Bool
rejects_user row db = any (λ u. u.id == row.id || u.email == row.email) db.users

unfoldable pub insert_user : UserRow → Db → Option Db
insert_user row db =
    if rejects_user row db then none else some (record db { users = db.users ++ row ∷ [] })

abbrev pub same_account : AccountRow → AccountRow → Bool
same_account row a =
    a.id == row.id
    || (a.provider == row.provider && a.provider_account_id == row.provider_account_id)
    || (a.user_id == row.user_id && a.provider == row.provider)

-- unique: id, (provider, provider_account_id), (user_id, provider); user_id references users
unfoldable pub rejects_account : AccountRow → Db → Bool
rejects_account row db = any (same_account row) db.accounts || not (has_user row.user_id db)

unfoldable pub insert_account : AccountRow → Db → Option Db
insert_account row db =
    if rejects_account row db then none else some (record db { accounts = db.accounts ++ row ∷ [] })

unfoldable pub find_user_by_email : String → Db → Option UserRow
find_user_by_email email db = find (λ u. u.email == email && not (is_some u.disabled_at)) db.users

-- sqltype.Text: the empty string is NULL
abbrev pub text_value : String → Option String
text_value s = if s == "" then none else some s

abbrev pub password_provider : String
password_provider = "password"

abbrev pub is_password_account : String → AccountRow → Bool
is_password_account user_id a = a.user_id == user_id && a.provider == password_provider

unfoldable pub find_password_account : String → Db → Option AccountRow
find_password_account user_id db = find (is_password_account user_id) db.accounts

-- the join of accounts and users
abbrev join_user : Db → AccountRow → Option UserRow
join_user db a = find (λ u. u.id == a.user_id && not (is_some u.disabled_at)) db.users

unfoldable pub find_user_by_provider_account : String → String → Db → Option UserRow
find_user_by_provider_account provider account_id db =
    elim (find (λ a. a.provider == provider && a.provider_account_id == account_id) db.accounts) [
      | none ↦ none
      | some a ↦ join_user db a
    ]

unfoldable pub update_user_email_verified_at : ℕ → String → Db → Option Db
update_user_email_verified_at at user_id db = some (record db {
  users =
      update_where (λ u. u.id == user_id)
        (λ u. record u { email_verified_at = some at; updated_at = at }) db.users;
})

unfoldable pub update_user_password_hash : String → String → ℕ → Db → Option Db
update_user_password_hash user_id hash at db = some (record db {
  accounts =
      update_where (is_password_account user_id)
        (λ a. record a { password_hash = text_value hash; updated_at = at }) db.accounts;
})

unfoldable pub get_instance_name : Db → Option String
get_instance_name db = db.instance_name
