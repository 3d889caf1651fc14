-- ===== src/World/Inversion.antt =====
-- A handler that ends with a value has run each of its statements.
use dinchy.Prelude.{◌≡◌, refl, Option, some, arith, Option-cases, ◌⊎◌, inl, inr}
use dinchy.Errors.{GoError, Result, ok, err}
use dinchy.Db.{Db}
use dinchy.World.{Env, World}
use dinchy.World.Exec.{Exec, fail_as, ◌>>=◌}
use dinchy.World.Effects.{statement, tick}

pub Result-cases :
    {A : Type 0} (r : Result A) → ((a : A) × (r ≡ ok a)) ⊎ ((e : GoError) × (r ≡ err e))
Result-cases (ok a) = inl (a, refl)
Result-cases (err e) = inr (e, refl)

pub ok-injective : {A : Type 0} {a b : A} → ok a ≡ ok b → a ≡ b
ok-injective h = cc

module _ {A B : Type 0} where
  pub bind_ok :
      (m : Exec A) (k : A → Exec B) (w : World) (b : B)
      → ((m >>= k) w).0 ≡ ok b
      → (a : A) × ((m w).0 ≡ ok a) × ((m >>= k) w ≡ k a (m w).1)
  bind_ok m k w b h = elim (Result-cases (m w).0) [
    | inl (a, returned) ↦ (a, returned, ground arith)
    | inr (e, failed) ↦ absurd (ground arith)
  ]

  -- the same with the state in between
  pub bind_run :
      (m : Exec A) (k : A → Exec B) (w : World) (b : B)
      → ((m >>= k) w).0 ≡ ok b
      → (a : A) × (w' : World) × (m w ≡ (ok a, w')) × ((m >>= k) w ≡ k a w') × ((k a w').0 ≡ ok b)
  bind_run m k w b h =
      let (a, returned, same) = bind_ok m k w b h in (a, (m w).1, ground arith, same, ground arith)

module _ (env : Env) where
  pub statement-bind_ok :
      {B : Type 0} (e : GoError → GoError) (q : Db → Option Db) (k : Unit {0} → Exec B) (w : World)
      (b : B)
      → ((fail_as e (statement env q) >>= k) w).0 ≡ ok b
      → (db : Db) × (q w.db ≡ some db)
        × ((fail_as e (statement env q) >>= k) w ≡ k tt (record (tick w) { db = db }))
  unfolding statement
  statement-bind_ok e q k w b h = elim (Option-cases (q w.db)) [
    | inl refused ↦ absurd (ground arith)
    | inr (db, written) ↦ (db, written, ground arith)
  ]
