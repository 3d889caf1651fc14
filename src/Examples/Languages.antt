-- ===== src/Examples/Languages.antt =====
-- The theorems on the catalog of messages at concrete locales.
use mathlib.Core.List.{Mem, eq-or-mem_of_mem-cons, not-mem-nil}
use mathlib.Core.Logic.Or
use dinchy.Prelude.{String, ◌≡◌, ◌≢◌, refl, some, List, [], ◌∷◌, find, eq_iff, arith}
use dinchy.I18n.{Message, Library, keys, new_catalog, match, resolve}
use dinchy.I18n.Matching.{resolve-match_empty}

-- a matcher that answers American English for all languages
abbrev library : Library String
library = record {
  parse_accept_language = λ s. some (s ∷ []);
  match_tags = λ tags accepted. "en-u-rg-uszzzz";
  execute = λ template meta. some template;
}

abbrev english : String × List (String × String)
english = ("en", ("account.auth.forbidden", "Not allowed.") ∷ [])

abbrev german : String × List (String × String)
german = ("de", ("account.auth.forbidden", "Nicht erlaubt.") ∷ [])

abbrev forbidden : Message String
forbidden = record { code = "account.auth.forbidden"; meta = [] }

speaks : resolve library (new_catalog (english ∷ german ∷ [])) "en" forbidden ≡ "Not allowed."
unfolding resolve new_catalog find
speaks = refl

some_tags : keys (english ∷ german ∷ []) ≢ []
some_tags h = cc

other_tags : keys (german ∷ english ∷ []) ≢ []
other_tags h = cc

no_such_tag : ¬ Mem {A = String} "en-u-rg-uszzzz" ("en" ∷ [])
no_such_tag inside =
    Or.elim (λ a b. elim a [ ]) (eq-or-mem_of_mem-cons inside)
      (λ (same : ◌≡◌ {A = String} "en-u-rg-uszzzz" "en").
        absurd (ground (arith, eq_iff "en-u-rg-uszzzz" "en")))
      (λ later. absurd (not-mem-nil later))

given : ◌≢◌ {A = String} "en-US" ""
given h = ground (arith, eq_iff "en-US" "")

english_only : keys (english ∷ []) ≢ []
english_only h = cc

resolve-match_empty_example :
    resolve library
      (new_catalog (english ∷ []))
      (match library (new_catalog (english ∷ [])) "en-US")
      forbidden
    ≡ ""
resolve-match_empty_example =
    resolve-match_empty library (english ∷ []) "en-US" "en-US" [] forbidden given english_only refl
      no_such_tag
