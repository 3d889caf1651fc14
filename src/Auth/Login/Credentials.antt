-- ===== src/Auth/Login/Credentials.antt =====
-- findUserWithPassword and resolveLoginOrganization (auth_service.go): who passes the login's first
-- factor, and which organization the login enters.
use dinchy.Prelude.{
  ◌+◌, String, Bool, true, false, ◌≡◌, ◌≢◌, ◌⊎◌, inl, inr, some, List, [], ◌∷◌, arith, Bool-cases,
  ◌==◌, Option-cases, eq_iff,
}
use dinchy.Errors.{GoError, ok, err}
use dinchy.Db.{Db, UserRow, AccountRow}
use dinchy.Db.Users.{find_user_by_email, find_password_account}
use dinchy.Db.Organizations.{MembershipRow, find_organization_by_slug, list_organizations}
use dinchy.World.{Env, World}
use dinchy.World.Effects.{select}
use dinchy.Auth.{User, user_from_row}
use dinchy.Auth.Login.{
  find_user_with_password, resolve_login_organization, bad_credentials, stored_hash,
}

-- the organization of a login: a membership with the slug, or the first without one
abbrev pub IsChosen : (String → String → Bool) → String → String → Db → MembershipRow → Type 0
IsChosen before user_id slug db o =
    (slug ≢ "" × (find_organization_by_slug user_id slug db ≡ some o))
    ⊎ (slug ≡ ""
        × ((rest : List MembershipRow) × (list_organizations before user_id db ≡ some (o ∷ rest))))

module _ (env : Env) where
  -- Passing the first factor changes nothing but the count of effects.
  abbrev pub two_later : World → World
  two_later w = record w { step = w.step + 1 + 1 }

  -- The lookup by email and password returns a user only for a stored row with that email and a
  -- password account of that row whose stored hash verifies the password.
  pub find_user_with_password_ok :
      (email password : String) (w : World) (user : User)
      → (find_user_with_password env email password w).0 ≡ ok user
      → (u : UserRow) × (a : AccountRow) × (find_user_by_email email w.db ≡ some u)
        × (user_from_row u ≡ some user)
        × (find_password_account user.id w.db ≡ some a)
        × (env.passwords.verify password (stored_hash a) ≡ true)
        × ((find_user_with_password env email password w).1 ≡ two_later w)
  unfolding find_user_with_password select
  find_user_with_password_ok email password w user h =
      elim (Option-cases (find_user_by_email email w.db)) [
        | inl absent ↦ absurd (ground arith)
        | inr (u, found) ↦ elim (Option-cases (find_password_account u.id w.db)) [
          | inl absent ↦ absurd (ground arith)
          | inr (a, owned) ↦ (u, a, found, ground arith, ground arith, ground arith, ground arith)
        ]
      ]

  -- Where no lookup fails, the only error is that of bad credentials: the response does not tell
  -- an unknown or disabled email from a user without a password account or a wrong password.
  pub find_user_with_password_refused :
      (email password : String) (w : World) (e : GoError)
      → env.fault w.step ≡ false
      → env.fault (w.step + 1) ≡ false
      → (find_user_with_password env email password w).0 ≡ err e
      → e ≡ bad_credentials
  unfolding find_user_with_password select
  find_user_with_password_refused email password w e quiet quiet' refused = ground arith

  -- The login enters an organization of the user's memberships: the one with the slug, or the first
  -- of the list if no slug is given.
  pub resolve_login_organization_ok :
      (user_id slug : String) (w : World) (o : MembershipRow)
      → (resolve_login_organization env user_id slug w).0 ≡ ok o
      → IsChosen env.before user_id slug w.db o
  unfolding resolve_login_organization select
  resolve_login_organization_ok user_id slug w o h = elim (Bool-cases (slug == "")) [
    | inl empty ↦ elim (Option-cases (list_organizations env.before user_id w.db)) [
      | inl absent ↦ absurd (ground arith)
      | inr ([], listed) ↦ absurd (ground arith)
      | inr (first ∷ rest, listed) ↦ inr (ground (arith, eq_iff slug ""), (rest, ground arith))
    ]
    | inr given ↦ inl (λ empty. ground (arith, eq_iff slug ""), ground arith)
  ]
