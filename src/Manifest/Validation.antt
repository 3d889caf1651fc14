-- ===== src/Manifest/Validation.antt =====
-- ValidateEventCatalog and ValidateI18nCatalog (internal/manifest/event.go and i18n.go).
use dinchy.Prelude.{
  Texts, String, Bool, true, false, not, ◌&&◌, Option, some, List, [], ◌∷◌, ◌>>=◌, ◌>>◌, guard,
  ◌==◌,
}
use dinchy.Manifest.{Field, EventDefinition, EventModules, I18nParam, I18nMessage, I18nModules}
use dinchy.Manifest.Tree.{is_in, is_empty, walk_modules}
use dinchy.Manifest.Naming.{event_type_for, event_constant_name, i18n_code_for, i18n_constant_name}

-- seenTypes and seenNames
pub record Seen : Type 0 where
  pub types : List String
  pub names : List String

abbrev is_supported : String → Bool
is_supported t = is_in t ("string" ∷ "bool" ∷ "int" ∷ "int64" ∷ "float64" ∷ "time.Time" ∷ [])

-- validateTypedFields
unfoldable pub validate_typed_fields : List Field → List String → Bool
validate_typed_fields [] seen = true
validate_typed_fields (f ∷ fs) seen =
    not (f.name == "")
    && not (f.field_type == "")
    && not (is_in f.name seen)
    && is_supported f.field_type
    && validate_typed_fields fs (f.name ∷ seen)

module _ (texts : Texts) where
  -- one round of the loop over a module's events
  unfoldable pub validate_event : List String → List String → EventDefinition → Seen → Option Seen
  unfolding validate_typed_fields
  validate_event path ids e seen = do
    guard (not (e.id == "") && not (is_in e.id ids))
    guard (not (e.action == "") && not (e.outcome == ""))
    guard (not (is_in (event_type_for texts path e.id) seen.types))
    guard (not (is_in (event_constant_name texts path e.id) seen.names))
    guard (validate_typed_fields e.metadata_keys [] && validate_typed_fields e.change_keys [])
    some (record {
      types = event_type_for texts path e.id ∷ seen.types;
      names = event_constant_name texts path e.id ∷ seen.names;
    })

  -- validateEventModules
  unfoldable pub validate_event_modules :
      EventModules → List String → List String → Seen → Option Seen
  unfolding validate_event walk_modules
  validate_event_modules modules path ids seen =
      walk_modules (λ e. e.id) (λ _ _. true) validate_event modules path ids seen

  unfoldable pub validate_event_catalog : EventModules → Option Seen
  unfolding validate_event_modules
  validate_event_catalog modules = do
    guard (not (is_empty modules))
    validate_event_modules modules [] [] (record { types = []; names = [] })

-- seenCodes, seenNames and langs
pub record SeenMessages : Type 0 where
  pub codes : List String
  pub names : List String
  pub langs : List String

-- The loop over a message's translations, as a test; the languages are `langs_of`.
unfoldable pub translations_ok : List (String × String) → Bool
translations_ok [] = true
translations_ok ((lang, text) ∷ ts) = not (lang == "") && not (text == "") && translations_ok ts

abbrev pub langs_of : List (String × String) → List String → List String
langs_of [] langs = langs
langs_of ((lang, text) ∷ ts) langs = langs_of ts (lang ∷ langs)

abbrev pub has_translation : List (String × String) → Bool
has_translation [] = false
has_translation (t ∷ ts) = true

-- the loop over a message's params
unfoldable pub params_ok : List I18nParam → List String → Bool
params_ok [] names = true
params_ok (p ∷ ps) names =
    not (p.name == "")
    && not (p.param_type == "")
    && not (is_in p.name names)
    && params_ok ps (p.name ∷ names)

-- the test that a module has a child
abbrev pub is_filled : I18nModules → List I18nMessage → Bool
is_filled children (m ∷ messages) = true
is_filled children [] = not (is_empty children)

module _ (texts : Texts) where
  -- one round of the loop over a module's messages
  unfoldable pub validate_message :
      List String → List String → I18nMessage → SeenMessages → Option SeenMessages
  unfolding translations_ok params_ok
  validate_message path ids m seen = do
    guard (not (m.name == "") && not (is_in m.name ids))
    guard (not (is_in (i18n_code_for path m.name) seen.codes))
    guard (not (is_in (i18n_constant_name texts path m.name) seen.names))
    guard (has_translation m.translations && translations_ok m.translations)
    guard (params_ok m.params [])
    some (record {
      codes = i18n_code_for path m.name ∷ seen.codes;
      names = i18n_constant_name texts path m.name ∷ seen.names;
      langs = langs_of m.translations seen.langs;
    })

  -- the loop of validateI18nModules
  unfoldable pub validate_i18n_modules :
      I18nModules → List String → List String → SeenMessages → Option SeenMessages
  unfolding validate_message walk_modules
  validate_i18n_modules modules path ids seen =
      walk_modules (λ m. m.name) is_filled validate_message modules path ids seen

  -- The test for an en translation follows the loop over the modules of the root.
  unfoldable pub validate_i18n_catalog : I18nModules → Option SeenMessages
  unfolding validate_i18n_modules
  validate_i18n_catalog modules = do
    guard (not (is_empty modules))
    seen ← validate_i18n_modules modules [] [] (record { codes = []; names = []; langs = [] })
    guard (is_in "en" seen.langs)
    some seen
