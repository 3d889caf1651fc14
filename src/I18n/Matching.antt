-- ===== src/I18n/Matching.antt =====
-- Match and Resolve of the catalog (runtime.go): the tag that a request gets, and what is found there.
use mathlib.Core.List.{Perm, Mem, mem-cons_self, mem-cons_of_mem}
use mathlib.Core.List.Perm
use dinchy.Prelude.{
  String, ◌≡◌, ◌≢◌, refl, sym, subst, none, some, List, [], ◌∷◌, find, ◌==◌, eq_iff, Bool-cases,
  inl, inr, arith,
}
use dinchy.I18n.{
  Message, Library, Catalog, keys, first_of, sort_tags, new_catalog, match_in, match, resolve,
}
use dinchy.I18n.Order.{IsLeast, least_unique, first-sort_tags, insert_tag-cons}

first_key : (ks : List String) → ks ≢ [] → (k : String) × (rest : List String) × (ks ≡ k ∷ rest)
first_key [] h = absurd (h refl)
first_key (k ∷ ks) h = (k, ks, refl)

abbrev pub Locales : Type 0
Locales = List (String × List (String × String))

module _ {A : Type 0} (library : Library A) where
  match_in-first : (tags : List String) → match_in library tags "" ≡ first_of tags
  match_in-first [] = refl
  match_in-first (t ∷ ts) = refl

  match-first : (catalog : Catalog) → match library catalog "" ≡ first_of catalog.tags
  unfolding match
  match-first catalog = match_in-first catalog.tags

  default-IsLeast :
      (locales : Locales) (k : String) (ks : List String)
      → keys locales ≡ k ∷ ks
      → IsLeast (match library (new_catalog locales) "") (keys locales)
  unfolding new_catalog
  default-IsLeast locales k ks h =
      subst (λ t. IsLeast t (keys locales)) (sym (match-first (new_catalog locales)))
        (subst (λ xs. IsLeast (first_of (sort_tags xs)) xs) (sym h) (first-sort_tags k ks))

  -- The order in which the map of locales is read does not matter: two catalogs of the same locales
  -- give a request without a language the same tag, that of one of the locales.
  pub default_unique :
      (locales others : Locales)
      → Perm (keys locales) (keys others)
      → keys locales ≢ []
      → keys others ≢ []
      → (match library (new_catalog locales) "" ≡ match library (new_catalog others) "")
        × Mem (match library (new_catalog locales) "") (keys locales)
  default_unique locales others same some_tags some_others =
      let (k, ks, e) = first_key (keys locales) some_tags in
      let (l, ls, e') = first_key (keys others) some_others in
      let (here, least) = default-IsLeast locales k ks e in
      let (there, least') = default-IsLeast others l ls e' in
      (
        least_unique (match library (new_catalog locales) "")
            (match library (new_catalog others) "") (keys locales) (here, least)
            ((Perm.mem_iff same).1 there, λ u inside. least' u ((Perm.mem_iff same).0 inside)),
        here,
      )

  find_missing :
      (tag : String) (locales : Locales)
      → ¬ Mem tag (keys locales)
      → find (λ l. l.0 == tag) locales ≡ none
  unfolding find
  find_missing tag [] absent = refl
  find_missing tag ((k, messages) ∷ locales) absent = elim (Bool-cases (k == tag)) [
    | inl here ↦
        absurd
          (absent (subst (λ t. Mem t (k ∷ keys locales)) ((eq_iff k tag).0 here) mem-cons_self))
    | inr other ↦ rw other (find_missing tag locales (λ inside. absent (mem-cons_of_mem k inside)))
  ]

  match_in-given :
      (tags : List String) (accept_language t : String) (ts : List String)
      → tags ≢ []
      → accept_language ≢ ""
      → library.parse_accept_language accept_language ≡ some (t ∷ ts)
      → match_in library tags accept_language ≡ library.match_tags tags (t ∷ ts)
  match_in-given [] accept_language t ts some_tags given parsed = absurd (some_tags refl)
  match_in-given (k ∷ ks) accept_language t ts some_tags given parsed =
      ground (arith, eq_iff accept_language "")

  sorted_some : (tags : List String) → tags ≢ [] → sort_tags tags ≢ []
  unfolding sort_tags
  sorted_some [] h e = h e
  sorted_some (t ∷ ts) h e = let (u, us, same) = insert_tag-cons t (sort_tags ts) in cc

  -- Where the matcher answers a request's languages with a tag that no locale has, even one that only
  -- adds to a supported tag, each message of that request resolves to the empty text.
  pub resolve-match_empty :
      (locales : Locales) (accept_language t : String) (ts : List String) (m : Message A)
      → accept_language ≢ ""
      → keys locales ≢ []
      → library.parse_accept_language accept_language ≡ some (t ∷ ts)
      → ¬ Mem (library.match_tags (sort_tags (keys locales)) (t ∷ ts)) (keys locales)
      → resolve library
          (new_catalog locales)
          (match library (new_catalog locales) accept_language)
          m
        ≡ ""
  unfolding resolve match new_catalog
  resolve-match_empty locales accept_language t ts m given some_tags parsed absent =
      let tag = library.match_tags (sort_tags (keys locales)) (t ∷ ts) in
      let matched =
        match_in-given (sort_tags (keys locales)) accept_language t ts
          (sorted_some (keys locales) some_tags) given parsed in
      let missing = find_missing tag locales absent in
      rw (matched, missing)
        (elim (Bool-cases (m.code == "")) [ inl empty ↦ rw empty refl | inr code ↦ rw code refl ])
