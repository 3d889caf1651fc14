-- ===== src/World/Transaction.antt =====
-- How the handlers of internal/features/auth leave a transaction whose part has failed.
use dinchy.Errors.{GoError, joined, Result, ok, err, internal_because}
use dinchy.Errors.Codes.{Code}
use dinchy.Db.{Db}
use dinchy.World.{Env}
use dinchy.World.Exec.{Exec, pure, raise, attempt, ◌>>=◌}
use dinchy.World.Effects.{rollback}

module _ (env : Env) where
  -- The end of a transaction's failed part: `alone` is returned if the rollback succeeds, else
  -- `in_join` joined with the rollback's own error.
  abbrev rolled_back : {A : Type 0} → Code → GoError → GoError → Result (Unit {0}) → Exec A
  rolled_back code in_join alone (ok _) = raise alone
  rolled_back code in_join alone (err e) = raise (joined in_join (internal_because code e))

  abbrev pub settle :
      {A : Type 0} → Code → (GoError → GoError) → (GoError → GoError) → Db → Result A → Exec A
  settle code in_join alone before (ok a) = pure a
  settle code in_join alone before (err e) = do
    done ← attempt (rollback env before)
    rolled_back code (in_join e) (alone e) done
