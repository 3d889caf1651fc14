-- ===== src/Manifest/Constants.antt =====
-- EventConstantName and I18nConstantName (event.go, i18n.go, naming.go): the first names each part of
-- a path and concatenates, the second joins the path and names it whole.
use Prim.Native.Char.{Char, code}
use dinchy.Prelude.{
  Texts, String, ◌≡◌, refl, sym, ap, ◌∙◌, true, false, List, [], ◌∷◌, ◌++◌, cat, cat_assoc,
  cat-empty, join_by, Bool-cases, inl, inr, arith,
}
use dinchy.Manifest.Naming.{
  is_separator, grown, begins_run, fields, go_segment, go_name, concat_segments, concat_names,
  go_name_from_path, event_constant_name, i18n_constant_name,
}

begins_run-cat : (a b : String) → begins_run b ≡ false → begins_run (cat a b) ≡ begins_run a
begins_run-cat String.[] b h = h
begins_run-cat (String.◌∷◌ c a) b h = refl

-- a text that begins inside a run has a first field
first_field :
    (s : String) → begins_run s ≡ true → (f : String) × (fs : List String) × (fields s ≡ f ∷ fs)
unfolding fields
first_field String.[] h = cc
first_field (String.◌∷◌ c s) h = elim (Bool-cases (begins_run s)) [
  | inl inside ↦ let (f, fs, known) = first_field s inside in (String.◌∷◌ c f, fs, ground arith)
  | inr last ↦ (String.◌∷◌ c "", fields s, ground arith)
]

grown-append :
    (c : Char) (s : String) (rest : List String)
    → grown c (begins_run s) (fields s ++ rest) ≡ grown c (begins_run s) (fields s) ++ rest
grown-append c s rest = elim (Bool-cases (begins_run s)) [
  | inl inside ↦ let (f, fs, known) = first_field s inside in rw (inside, known) refl
  | inr outside ↦ rw outside refl
]

-- fields of two texts, of which the second does not go on with the first's last run
fields-cat : (a b : String) → begins_run b ≡ false → fields (cat a b) ≡ fields a ++ fields b
unfolding fields
fields-cat String.[] b h = refl
fields-cat (String.◌∷◌ c a) b h = elim (Bool-cases (is_separator (code c))) [
  | inl separator ↦ rw separator (fields-cat a b h)
  | inr other ↦ rw (other, fields-cat a b h, begins_run-cat a b h) (grown-append c a (fields b))
]

module _ (texts : Texts) where
  concat_segments-append :
      (xs ys : List String)
      → concat_segments texts (xs ++ ys) ≡ cat (concat_segments texts xs) (concat_segments texts ys)
  unfolding concat_segments
  concat_segments-append [] ys = refl
  concat_segments-append (x ∷ xs) ys =
      ap (cat (go_segment texts x)) (concat_segments-append xs ys)
      ∙ sym (cat_assoc (go_segment texts x) (concat_segments texts xs) (concat_segments texts ys))

  go_name_from_path-concat :
      (path : List String) → go_name_from_path texts path ≡ concat_names texts path
  unfolding go_name_from_path go_name concat_segments
  go_name_from_path-concat [] = refl
  go_name_from_path-concat (p ∷ []) = sym (cat-empty (concat_segments texts (fields p)))
  go_name_from_path-concat (p ∷ q ∷ ps) =
      ap (concat_segments texts) (fields-cat p (cat "_" (join_by "_" (q ∷ ps))) refl)
      ∙ concat_segments-append (fields p) (fields (join_by "_" (q ∷ ps)))
      ∙ ap (cat (concat_segments texts (fields p))) (go_name_from_path-concat (q ∷ ps))

  -- An event and a message under the same path and name get the same constant name: naming each part
  -- and concatenating is the same as joining the parts by underscores and naming the whole, whatever
  -- separators the parts hold.
  pub i18n_constant_name-event_constant_name :
      (path : List String) (name : String)
      → i18n_constant_name texts path name ≡ event_constant_name texts path name
  unfolding i18n_constant_name event_constant_name
  i18n_constant_name-event_constant_name path name = go_name_from_path-concat (path ++ name ∷ [])
