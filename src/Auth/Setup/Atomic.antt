-- ===== src/Auth/Setup/Atomic.antt =====
-- SetupFirstUser (setup_service.go): its transaction is all or nothing, and only for the first user.
use dinchy.Prelude.{ℕ, String, List, ◌≡◌, ◌≢◌, ◌⊎◌, refl, [], ◌∷◌, inl, inr, arith}
use dinchy.Errors.{GoError, ok, err}
use dinchy.Db.Users.{count_users}
use dinchy.World.{Env, World}
use dinchy.World.Inversion.{Result-cases}
use dinchy.World.Effects.{begin_tx, generate_id, rollback, commit, select}
use dinchy.Auth.{User}
use dinchy.Auth.Setup.{CreateUserInput, create_first_user, setup_transaction}

is_empty_or : {A : Type 0} (xs : List A) → (xs ≡ []) ⊎ (xs ≢ [])
is_empty_or [] = inl refl
is_empty_or (x ∷ xs) = inr (λ h. cc)

module _ (env : Env) where
  -- a failed transaction leaves the database as it was
  setup_transaction_err :
      (email display_name hash organization_id : String) (now : ℕ) (w : World) (e : GoError)
      → (setup_transaction env email display_name hash organization_id now w).0 ≡ err e
      → (setup_transaction env email display_name hash organization_id now w).1.db ≡ w.db
  unfolding setup_transaction begin_tx generate_id rollback commit
  setup_transaction_err email display_name hash organization_id now w e h = ground arith

  create_first_user_conflict :
      (input : CreateUserInput) (w : World)
      → w.db.users ≢ []
      → (u : User) → (create_first_user env input w).0 ≢ ok u
  unfolding create_first_user select count_users
  create_first_user_conflict input w some_users u = ground arith

  setup_transaction_once :
      (email display_name hash organization_id : String) (now : ℕ) (w : World)
      → w.db.users ≢ []
      → (u : User) → (setup_transaction env email display_name hash organization_id now w).0 ≢ ok u
  unfolding setup_transaction begin_tx generate_id rollback commit create_first_user select
      count_users
  setup_transaction_once email display_name hash organization_id now w some_users u = ground arith

  -- The setup transaction succeeds only where there is no user yet. Else it ends with an error, of
  -- any of its statements, its commit or the limit to one first user, and the database is as it was.
  pub setup_transaction_atomic :
      (email display_name hash organization_id : String) (now : ℕ) (w : World)
      → ((u : User) × ((setup_transaction env email display_name hash organization_id now w).0
            ≡ ok u)
          × (w.db.users ≡ []))
        ⊎ ((e : GoError) × ((setup_transaction env email display_name hash organization_id now w).0
              ≡ err e)
            × ((setup_transaction env email display_name hash organization_id now w).1.db ≡ w.db))
  setup_transaction_atomic email display_name hash organization_id now w =
      elim (Result-cases (setup_transaction env email display_name hash organization_id now w).0) [
        | inl (u, created) ↦ elim (is_empty_or w.db.users) [
          | inl no_users ↦ inl (u, created, no_users)
          | inr some_users ↦ absurd (
              setup_transaction_once email display_name hash organization_id now w some_users u
                created)
        ]
        | inr (e, failed) ↦ inr (
          e,
          failed,
          setup_transaction_err email display_name hash organization_id now w e failed,
        )
      ]
