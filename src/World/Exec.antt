-- ===== src/World/Exec.antt =====
-- A handler: it reads and changes the world, and ends with a value or with an error. What it wrote
-- before an error stays written.
use dinchy.Prelude.{Bool, true, false, Option, none, some}
use dinchy.Errors.{GoError, Result, ok, err}
use dinchy.World.{World}

abbrev pub Exec : Type 0 → Type 0
Exec A = World → Result A × World

module _ {A : Type 0} where
  abbrev pub pure : A → Exec A
  pure a w = (ok a, w)

  abbrev pub raise : GoError → Exec A
  raise e w = (err e, w)

  -- a pointer that must not be nil
  abbrev pub some_or : GoError → Option A → Exec A
  some_or e none = raise e
  some_or e (some a) = pure a

  abbrev translated : (GoError → GoError) → Result A → Result A
  translated f (ok a) = ok a
  translated f (err e) = err (f e)

  -- an error of `m` is returned as `f` of it
  abbrev pub fail_as : (GoError → GoError) → Exec A → Exec A
  fail_as f m w = let (r, w') = m w in (translated f r, w')

  -- the outcome of `m` as a value, for code that looks at the error itself
  abbrev pub attempt : Exec A → Exec (Result A)
  attempt m w = let (r, w') = m w in (ok r, w')

module _ {A B : Type 0} where
  abbrev pub continue : (A → Exec B) → Result A → Exec B
  continue f (ok a) w = f a w
  continue f (err e) w = (err e, w)

  infixl 5 ◌>>=◌ ◌>>◌
  abbrev pub ◌>>=◌ : Exec A → (A → Exec B) → Exec B
  ◌>>=◌ m f w = let (r, w') = m w in continue f r w'

  abbrev pub ◌>>◌ : Exec A → Exec B → Exec B
  m >> n = m >>= λ _. n

-- `if !test { return err }`
abbrev pub require : Bool → GoError → Exec (Unit {0})
require true e w = (ok tt, w)
require false e w = (err e, w)
