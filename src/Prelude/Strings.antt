-- ===== src/Prelude/Strings.antt =====
-- Texts: concatenation and splitting by characters, and the functions of Go's package strings on the
-- case and the margins of a text, with its first byte and the bytes after it.
use Prim.Native.Nat.{ℕ}
use Prim.Native.Char.{Char, code}
use Prim.Native.String.{String}
use mathlib.Core.Path.{◌≡◌, refl, ap}
use mathlib.Core.Bool.{Bool, not, ◌||◌}
use mathlib.Core.List.{List, [], ◌∷◌}
use dinchy.Prelude.Tests.{ltb, if◌then◌else◌}

abbrev pub cat : String → String → String
cat String.[] t = t
cat (String.◌∷◌ c s) t = String.◌∷◌ c (cat s t)

-- strings.Join
abbrev pub join_by : String → List String → String
join_by sep [] = ""
join_by sep (p ∷ []) = p
join_by sep (p ∷ q ∷ ps) = cat p (cat sep (join_by sep (q ∷ ps)))

pub cat_assoc : (s t u : String) → cat (cat s t) u ≡ cat s (cat t u)
cat_assoc String.[] t u = refl
cat_assoc (String.◌∷◌ c s) t u = ap (λ r. String.◌∷◌ c r) (cat_assoc s t u)

pub cat-empty : (s : String) → cat s "" ≡ s
cat-empty String.[] = refl
cat-empty (String.◌∷◌ c s) = ap (λ r. String.◌∷◌ c r) (cat-empty s)

pub record Texts : Type 0 where
  pub trim_space : String → String
  pub to_lower : String → String
  pub to_upper : String → String
  pub first_byte : String → String
  pub after_first_byte : String → String

abbrev pub eq_num : ℕ → ℕ → Bool
eq_num a b = not (ltb a b || ltb b a)

-- strings.Split at one character: never empty
unfoldable pub push : Char → List String → List String
push c [] = String.◌∷◌ c "" ∷ []
push c (p ∷ ps) = String.◌∷◌ c p ∷ ps

unfoldable pub split : ℕ → String → List String
unfolding push
split sep String.[] = "" ∷ []
split sep (String.◌∷◌ c s) =
    let rest = split sep s in if eq_num (code c) sep then "" ∷ rest else push c rest
