-- ===== src/I18n.antt =====
-- internal/foundation/i18n/runtime.go: the catalog of messages. A language tag is its text; the
-- library golang.org/x/text/language and text/template are the record `Library`.
pub mod Order
pub mod Matching
use Prim.Native.Char.{code}
use dinchy.Prelude.{
  ℕ, String, Bool, true, false, not, ◌&&◌, ◌||◌, Option, none, some, List, [], ◌∷◌, ltb, find, ◌==◌,
  eq_num, if◌then◌else◌,
}

-- Message: its code and its metadata, whose values have any type
pub record Message (A : Type 0) : Type 0 where
  pub code : String
  pub meta : List (String × A)

-- `match_tags` is what the matcher for the supported tags answers to the accepted ones.
pub record Library (A : Type 0) : Type 0 where
  pub parse_accept_language : String → Option (List String)
  pub match_tags : List String → List String → String
  pub execute : String → List (String × A) → Option String

-- the order of Go's texts, which that of their bytes and that of their characters are
unfoldable pub comes_before : String → String → Bool
comes_before s String.[] = false
comes_before String.[] (String.◌∷◌ d t) = true
comes_before (String.◌∷◌ c s) (String.◌∷◌ d t) =
    ltb (code c) (code d) || eq_num (code c) (code d) && comes_before s t

-- sort.Slice, on tags that are all different
unfoldable pub insert_tag : String → List String → List String
unfolding comes_before
insert_tag t [] = t ∷ []
insert_tag t (u ∷ us) =
    let rest = insert_tag t us in if comes_before u t then u ∷ rest else t ∷ u ∷ us

unfoldable pub sort_tags : List String → List String
unfolding insert_tag
sort_tags [] = []
sort_tags (t ∷ ts) = insert_tag t (sort_tags ts)

abbrev pub keys : {A : Type 0} → List (String × A) → List String
keys [] = []
keys ((k, a) ∷ entries) = k ∷ keys entries

-- Catalog: the locales, in any order, and the tags, from which the matcher is made
pub record Catalog : Type 0 where
  pub locales : List (String × List (String × String))
  pub tags : List String

-- New
unfoldable pub new_catalog : List (String × List (String × String)) → Catalog
unfolding sort_tags
new_catalog locales = record { locales = locales; tags = sort_tags (keys locales) }

abbrev pub first_of : List String → String
first_of [] = "und"
first_of (t ∷ ts) = t

module _ {A : Type 0} (library : Library A) where
  abbrev pub best_of : List String → Option (List String) → String
  best_of tags none = first_of tags
  best_of tags (some []) = first_of tags
  best_of tags (some (t ∷ ts)) = library.match_tags tags (t ∷ ts)

  abbrev pub match_in : List String → String → String
  match_in [] accept_language = "und"
  match_in (t ∷ ts) accept_language =
      if accept_language == ""
      then t
      else best_of (t ∷ ts) (library.parse_accept_language accept_language)

  -- Match: language.Und is "und"
  unfoldable pub match : Catalog → String → String
  match catalog accept_language = match_in catalog.tags accept_language

  abbrev pub text_or_empty : Option String → String
  text_or_empty none = ""
  text_or_empty (some text) = text

  abbrev pub interpolated : String → List (String × A) → String
  interpolated template [] = template
  interpolated template (p ∷ meta) = text_or_empty (library.execute template (p ∷ meta))

  abbrev pub value_at : Option (String × String) → String
  value_at none = ""
  value_at (some (code, template)) = template

  abbrev pub message_in : Option (String × List (String × String)) → Message A → String
  message_in none m = ""
  message_in (some (tag, locale)) m =
      let template = value_at (find (λ e. e.0 == m.code) locale) in
      if template == "" then "" else interpolated template m.meta

  -- Resolve
  unfoldable pub resolve : Catalog → String → Message A → String
  resolve catalog tag m =
      if m.code == "" then "" else message_in (find (λ l. l.0 == tag) catalog.locales) m
