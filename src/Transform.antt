-- ===== src/Transform.antt =====
-- internal/foundation/transform: modifiers of a text by their names. The functions of the package
-- strings are the record `Texts`.
use dinchy.Prelude.{
  Texts, String, ◌≡◌, ◌≢◌, refl, ◌⊎◌, Option, none, some, List, [], ◌∷◌, split, ◌==◌, if◌then◌else◌,
  Bool-cases, inl, inr,
}

abbrev pub spec_email : String
spec_email = "trim,lower"

abbrev pub spec_trim : String
spec_trim = "trim"

module _ (texts : Texts) where
  -- stringMods
  abbrev pub mod_named : String → Option (String → String)
  mod_named name =
      if name == "trim"
      then some texts.trim_space
      else if name == "lower"
      then some texts.to_lower
      else if name == "upper"
      then some texts.to_upper
      else none

  -- One round of the loop: what becomes of the value, none for a name that is not registered.
  abbrev modified : Option (String → String) → String → Option String
  modified none value = none
  modified (some f) value = some (f value)

  unfoldable pub apply_named : String → String → Option String
  apply_named name value = if name == "" then some value else modified (mod_named name) value

  abbrev and_rest : (String → Option String) → Option String → Option String
  and_rest rest none = none
  and_rest rest (some value) = rest value

  unfoldable pub apply_names : List String → String → Option String
  unfolding apply_named
  apply_names [] value = some value
  apply_names (name ∷ names) value =
      and_rest (apply_names names) (apply_named (texts.trim_space name) value)

  -- Apply, with none for ok=false
  unfoldable pub apply : String → String → Option String
  unfolding apply_names split
  apply spec value = apply_names (split b',' spec) value

  -- ApplyTo, with none for its panic
  unfoldable pub apply_to : String → String → Option String
  unfolding apply
  apply_to spec value = apply spec value

  -- a step that fails on every value, or on none
  abbrev IsUniform : (String → Option String) → Type 0
  IsUniform step =
      ((v : String) → step v ≡ none)
      ⊎ ((f : String → String) × ((v : String) → step v ≡ some (f v)))

  modified-IsUniform : (mod_found : Option (String → String)) → IsUniform (modified mod_found)
  modified-IsUniform none = inl (λ v. refl)
  modified-IsUniform (some f) = inr (f, λ v. refl)

  apply_named-IsUniform : (name : String) → IsUniform (apply_named name)
  unfolding apply_named
  apply_named-IsUniform name = elim (Bool-cases (name == "")) [
    | inl empty ↦ inr (λ v. v, λ v. rw empty refl)
    | inr other ↦ elim (modified-IsUniform (mod_named name)) [
      | inl unknown ↦ inl (λ v. rw other (unknown v))
      | inr (f, known) ↦ inr (f, λ v. rw other (known v))
    ]
  ]

  apply_names-IsUniform : (names : List String) → IsUniform (apply_names names)
  unfolding apply_names
  apply_names-IsUniform [] = inr (λ v. v, λ v. refl)
  apply_names-IsUniform (name ∷ names) = elim (apply_named-IsUniform (texts.trim_space name)) [
    | inl unknown ↦ inl (λ v. rw (unknown v) refl)
    | inr (f, known) ↦ elim (apply_names-IsUniform names) [
      | inl fails ↦ inl (λ v. rw (known v) (fails (f v)))
      | inr (g, applies) ↦ inr (λ v. g (f v), λ v. rw (known v) (applies (f v)))
    ]
  ]

  -- ApplyTo panics for no value if Apply accepts its modifiers for one: the test of the package's
  -- initialisation, which applies each of the constants to the empty text, is enough.
  pub apply_to-total :
      (spec v : String) → apply spec "" ≢ none → (w : String) × (apply_to spec v ≡ some w)
  unfolding apply_to apply
  apply_to-total spec v accepted = elim (apply_names-IsUniform (split b',' spec)) [
    | inl fails ↦ absurd (accepted (fails ""))
    | inr (f, applies) ↦ (f v, applies v)
  ]
