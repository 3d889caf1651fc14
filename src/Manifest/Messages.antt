-- ===== src/Manifest/Messages.antt =====
-- ValidateI18nCatalog (i18n.go): what an accepted catalog of messages gives the generator.
use mathlib.Core.Logic.{∥∥₁_map}
use mathlib.Core.List.{Perm, Mem, mem-cons_self, mem-cons_of_mem}
use mathlib.Core.List.Perm
use dinchy.Prelude.{
  Texts, String, ◌≡◌, ◌≢◌, refl, subst, true, false, not, ◌&&◌, ◌||◌, ◌⊎◌, Bool-cases, inl, inr,
  some, List, [], ◌∷◌, any, guard, bind_some, ◌==◌, arith,
}
use dinchy.Manifest.{I18nMessage, I18nModules}
use dinchy.Manifest.Tree.{is_in, is_empty}
use dinchy.Manifest.Merge.{Placed, items_of}
use dinchy.Manifest.Naming.{i18n_code_for, i18n_constant_name}
use dinchy.Manifest.Validation.{
  SeenMessages, is_filled, has_translation, translations_ok, params_ok, langs_of, validate_message,
  validate_i18n_modules, validate_i18n_catalog,
}
use dinchy.Manifest.Walk.{
  Records, guard-not, guard_holds, Records-Perm, Records-cons, walk_modules-Keeps,
}

-- there is a message with a translation in the language
abbrev pub IsSpoken : String → List (Placed I18nMessage) → Type 0
IsSpoken lang messages = ∥ (
    (m : Placed I18nMessage) × Mem m messages
    × (is_in lang (langs_of m.1.translations []) ≡ true)) ∥₁

is_in-langs_of :
    (lang : String) (ts : List (String × String)) (langs : List String)
    → is_in lang (langs_of ts langs) ≡ (is_in lang (langs_of ts []) || is_in lang langs)
unfolding any
is_in-langs_of lang [] langs = refl
is_in-langs_of lang ((l, text) ∷ ts) langs =
    ground (arith, is_in-langs_of lang ts (l ∷ langs), is_in-langs_of lang ts (l ∷ []))

spoken-cases :
    (lang : String) (ts : List (String × String)) (langs : List String)
    → is_in lang (langs_of ts langs) ≡ true
    → (is_in lang (langs_of ts []) ≡ true) ⊎ (is_in lang langs ≡ true)
spoken-cases lang ts langs h = elim (Bool-cases (is_in lang langs)) [
  | inl before ↦ inr before
  | inr new ↦ inl (ground (arith, is_in-langs_of lang ts langs))
]

nothing_in : (lang : String) → is_in lang [] ≢ true
unfolding any
nothing_in lang h = cc

abbrev pub code_of : Placed I18nMessage → String
code_of (path, m) = i18n_code_for path m.name

module _ (texts : Texts) where
  abbrev pub constant_of : Placed I18nMessage → String
  constant_of (path, m) = i18n_constant_name texts path m.name

  -- what was seen are the codes and the names of these messages, all distinct, and only languages
  -- that one of them is translated to
  abbrev pub IsTold : SeenMessages → List (Placed I18nMessage) → Type 0
  IsTold seen messages =
      Records code_of seen.codes messages
      × Records constant_of seen.names messages
      × ((lang : String) → is_in lang seen.langs ≡ true → IsSpoken lang messages)

  IsTold-Perm :
      (seen : SeenMessages) (messages others : List (Placed I18nMessage))
      → Perm messages others
      → IsTold seen messages
      → IsTold seen others
  IsTold-Perm seen messages others p (codes, names, spoken) = (
    Records-Perm code_of seen.codes messages others p codes,
    Records-Perm constant_of seen.names messages others p names,
    λ lang h. ∥∥₁_map (spoken lang h) (λ (m, here, told). (m, (Perm.mem_iff p).0 here, told)),
  )

  validate_message-cases :
      (path ids : List String) (m : I18nMessage) (seen seen' : SeenMessages)
      → validate_message texts path ids m seen ≡ some seen'
      → (is_in (i18n_code_for path m.name) seen.codes ≡ false)
        × (is_in (i18n_constant_name texts path m.name) seen.names ≡ false)
        × (record {
          codes = i18n_code_for path m.name ∷ seen.codes;
          names = i18n_constant_name texts path m.name ∷ seen.names;
          langs = langs_of m.translations seen.langs;
        }
            ≡ seen')
  unfolding validate_message
  validate_message-cases path ids m seen seen' h =
      let (_, _, h₁) = bind_some (guard (not (m.name == "") && not (is_in m.name ids))) _ seen' h in
      let (_, code_test, h₂) =
        bind_some (guard (not (is_in (i18n_code_for path m.name) seen.codes))) _ seen' h₁ in
      let (_, name_test, h₃) =
        bind_some (guard (not (is_in (i18n_constant_name texts path m.name) seen.names))) _ seen'
          h₂ in
      let (_, _, h₄) =
        bind_some (guard (has_translation m.translations && translations_ok m.translations)) _ seen'
          h₃ in
      let (_, _, made) = bind_some (guard (params_ok m.params [])) _ seen' h₄ in
      (
        guard-not (is_in (i18n_code_for path m.name) seen.codes) code_test,
        guard-not (is_in (i18n_constant_name texts path m.name) seen.names) name_test,
        cc,
      )

  message-IsTold :
      (path ids : List String) (m : I18nMessage) (seen seen' : SeenMessages)
      (messages : List (Placed I18nMessage))
      → IsTold seen messages
      → validate_message texts path ids m seen ≡ some seen'
      → IsTold seen' ((path, m) ∷ messages)
  message-IsTold path ids m seen seen' messages (codes, names, spoken) h =
      let (new_code, new_name, made) = validate_message-cases path ids m seen seen' h in
      subst (λ s. IsTold s ((path, m) ∷ messages)) made
        (
          Records-cons code_of (path, m) seen.codes messages new_code codes,
          Records-cons constant_of (path, m) seen.names messages new_name names,
          λ lang told. elim (spoken-cases lang m.translations seen.langs told) [
            | inl here ↦ ∣ ((path, m), mem-cons_self, here) ∣₁
            | inr before ↦
                ∥∥₁_map (spoken lang before)
                  (λ (n, there, said). (n, mem-cons_of_mem (path, m) there, said))
          ],
        )

  -- In a catalog that ValidateI18nCatalog accepts, the codes are those of exactly the messages that
  -- the nested modules hold, and no two are the same; so are the generated names; and some message
  -- has an English translation.
  pub validate_i18n_catalog_ok :
      (ms : I18nModules) (seen : SeenMessages)
      → validate_i18n_catalog texts ms ≡ some seen
      → Records code_of seen.codes (items_of [] ms)
        × Records constant_of seen.names (items_of [] ms)
        × IsSpoken "en" (items_of [] ms)
  unfolding validate_i18n_catalog validate_i18n_modules
  validate_i18n_catalog_ok ms seen h =
      let (_, _, h₁) = bind_some (guard (not (is_empty ms))) _ seen h in
      let (s, walked, h₂) =
        bind_some
          (validate_i18n_modules texts ms [] [] (record { codes = []; names = []; langs = [] })) _
          seen h₁ in
      let (_, english, made) = bind_some (guard (is_in "en" s.langs)) _ seen h₂ in
      let (codes, names, spoken) =
        walk_modules-Keeps (λ m. m.name) is_filled (validate_message texts) IsTold IsTold-Perm
          message-IsTold ms [] [] (record { codes = []; names = []; langs = [] }) s []
          ((tt, Perm.refl []), (tt, Perm.refl []), λ lang no. absurd (nothing_in lang no)) walked in
      let same : s ≡ seen = cc in
      subst
        (λ t.
          Records code_of t.codes (items_of [] ms)
          × Records constant_of t.names (items_of [] ms)
          × IsSpoken "en" (items_of [] ms))
        same (codes, names, spoken "en" (guard_holds (is_in "en" s.langs) english))
