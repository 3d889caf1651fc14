-- ===== src/Manifest/Naming.antt =====
-- internal/manifest/naming.go: the names that the generators give to an event or a message.
use Prim.Native.Char.{Char, code}
use dinchy.Prelude.{
  Texts, cat, join_by, ℕ, String, Bool, true, false, not, ◌||◌, List, [], ◌∷◌, ◌++◌, ltb, ◌==◌,
  if◌then◌else◌,
}

-- the separators of GoName
abbrev pub is_separator : ℕ → Bool
is_separator c =
    let is = λ (d : ℕ). not (ltb c d || ltb d c) in is b'-' || is b'_' || is b'.' || is b'/'

-- strings.FieldsFunc: the runs between separators, of which none is empty
abbrev pub grown : Char → Bool → List String → List String
grown c true (f ∷ fs) = String.◌∷◌ c f ∷ fs
grown c _ fs = String.◌∷◌ c "" ∷ fs

-- whether a text begins inside a run
abbrev pub begins_run : String → Bool
begins_run String.[] = false
begins_run (String.◌∷◌ c s) = not (is_separator (code c))

unfoldable pub fields : String → List String
fields String.[] = []
fields (String.◌∷◌ c s) =
    let rest = fields s in if is_separator (code c) then rest else grown c (begins_run s) rest

-- goAcronyms, as a test and its value
abbrev acronyms : List (String × String)
acronyms =
    ("csrf", "CSRF")
    ∷ ("http", "HTTP")
    ∷ ("https", "HTTPS")
    ∷ ("id", "ID")
    ∷ ("oidc", "OIDC")
    ∷ ("sql", "SQL")
    ∷ ("sso", "SSO")
    ∷ ("totp", "TOTP")
    ∷ ("url", "URL")
    ∷ ("xdg", "XDG")
    ∷ []

abbrev acronym_or : String → List (String × String) → String → String
acronym_or key [] other = other
acronym_or key ((k, v) ∷ rest) other = if k == key then v else acronym_or key rest other

module _ (texts : Texts) where
  -- DisplayPath
  unfoldable pub cleaned : List String → List String
  cleaned [] = []
  cleaned (p ∷ ps) =
      let part = texts.trim_space p in
      let rest = cleaned ps in if part == "" then rest else part ∷ rest

  abbrev or_root : List String → String
  or_root [] = "<root>"
  or_root (p ∷ ps) = join_by "." (p ∷ ps)

  unfoldable pub display_path : List String → String
  unfolding cleaned
  display_path parts = or_root (cleaned parts)

  -- the parts of a segment are those of its bytes, segment[:1] and segment[1:]
  abbrev capitalized : String → String
  capitalized segment =
      cat (texts.to_upper (texts.first_byte segment))
        (texts.to_lower (texts.after_first_byte segment))

  -- a segment of GoName
  unfoldable pub go_segment : String → String
  go_segment segment =
      acronym_or (texts.to_lower segment) acronyms
        (if segment == texts.to_upper segment then segment else capitalized segment)

  unfoldable pub concat_segments : List String → String
  unfolding go_segment
  concat_segments [] = ""
  concat_segments (s ∷ ss) = cat (go_segment s) (concat_segments ss)

  unfoldable pub go_name : String → String
  unfolding fields concat_segments
  go_name value = concat_segments (fields value)

  -- EventTypeFor and EventConstantName
  unfoldable pub event_type_for : List String → String → String
  unfolding display_path
  event_type_for path id = display_path (path ++ id ∷ [])

  abbrev pub concat_names : List String → String
  concat_names [] = ""
  concat_names (p ∷ ps) = cat (go_name p) (concat_names ps)

  unfoldable pub event_constant_name : List String → String → String
  unfolding go_name
  event_constant_name path id = concat_names (path ++ id ∷ [])

  -- GoNameFromPath
  unfoldable pub go_name_from_path : List String → String
  unfolding go_name
  go_name_from_path segments = go_name (join_by "_" segments)

  -- I18nConstantName
  unfoldable pub i18n_constant_name : List String → String → String
  unfolding go_name_from_path
  i18n_constant_name path name = go_name_from_path (path ++ name ∷ [])

-- I18nCodeFor
unfoldable pub i18n_code_for : List String → String → String
i18n_code_for path name = join_by "." (path ++ name ∷ [])
