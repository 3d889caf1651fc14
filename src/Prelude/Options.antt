-- ===== src/Prelude/Options.antt =====
-- Chains of fallible steps.
use mathlib.Core.Path.{◌≡◌, refl}
use mathlib.Core.Bool.{Bool, true, false}
use mathlib.Core.Option.{Option, none, some}

infixl 5 ◌>>=◌ ◌>>◌
abbrev pub ◌>>=◌ : {A B : Type 0} → Option A → (A → Option B) → Option B
none >>= f = none
some a >>= f = f a

abbrev pub ◌>>◌ : {A B : Type 0} → Option A → Option B → Option B
m >> n = m >>= λ _. n

abbrev pub guard : Bool → Option (Unit {0})
guard true = some tt
guard false = none

-- a chain that succeeds has done each of its steps
pub bind_some :
    {A B : Type 0} (m : Option A) (f : A → Option B) (b : B)
    → (m >>= f) ≡ some b
    → (a : A) × (m ≡ some a) × (f a ≡ some b)
bind_some none f b h = cc
bind_some (some a) f b h = (a, refl, h)
