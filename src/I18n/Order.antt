-- ===== src/I18n/Order.antt =====
-- The order of texts is a strict total order, and the first of the sorted tags is the least.
use Prim.Native.Char.{Char, code}
use text.Mathlib.TextEquality.{Char-path}
use mathlib.Core.Logic.Or
use mathlib.Core.List.{Mem, mem-cons_self, mem-cons_of_mem, eq-or-mem_of_mem-cons, not-mem-nil}
use dinchy.Prelude.{
  String, ◌≡◌, refl, sym, subst, true, false, List, [], ◌∷◌, if◌then◌else◌, Bool-cases, inl, inr,
  arith,
}
use dinchy.I18n.{comes_before, insert_tag, sort_tags, first_of}

comes_before_irrefl : (s : String) → comes_before s s ≡ false
unfolding comes_before
comes_before_irrefl String.[] = refl
comes_before_irrefl (String.◌∷◌ c s) = ground (arith, comes_before_irrefl s)

comes_before_asymm : (s t : String) → comes_before s t ≡ true → comes_before t s ≡ false
unfolding comes_before
comes_before_asymm s String.[] h = cc
comes_before_asymm String.[] (String.◌∷◌ d t) h = refl
comes_before_asymm (String.◌∷◌ c s) (String.◌∷◌ d t) h = ground (arith, comes_before_asymm s t)

not_before_trans :
    (s t u : String)
    → comes_before s t ≡ false
    → comes_before t u ≡ false
    → comes_before s u ≡ false
unfolding comes_before
not_before_trans s t String.[] h h' = refl
not_before_trans s String.[] (String.◌∷◌ e u) h h' = cc
not_before_trans String.[] (String.◌∷◌ d t) (String.◌∷◌ e u) h h' = cc
not_before_trans (String.◌∷◌ c s) (String.◌∷◌ d t) (String.◌∷◌ e u) h h' =
    ground (arith, not_before_trans s t u)

code_injective : (c d : Char) → code c ≡ code d → c ≡ d
code_injective c d h = Char-path c d h

pub comes_before_connected :
    (s t : String) → comes_before s t ≡ false → comes_before t s ≡ false → s ≡ t
unfolding comes_before
comes_before_connected String.[] String.[] h h' = refl
comes_before_connected String.[] (String.◌∷◌ d t) h h' = cc
comes_before_connected (String.◌∷◌ c s) String.[] h h' = cc
comes_before_connected (String.◌∷◌ c s) (String.◌∷◌ d t) h h' =
    let same : code c ≡ code d = ground arith in
    let rest = comes_before_connected s t (ground arith) (ground arith) in
    cc (code_injective c d same, rest)

-- a text of the list that none of the list comes before
abbrev pub IsLeast : String → List String → Type 0
IsLeast t ts = Mem t ts × ((u : String) → Mem u ts → comes_before u t ≡ false)

pub least_unique : (s t : String) (ts : List String) → IsLeast s ts → IsLeast t ts → s ≡ t
least_unique s t ts (here, least) (there, least') =
    comes_before_connected s t (least' s here) (least t there)

false_prop : (s t : String) → IsProp (comes_before s t ≡ false)
false_prop s t = hlevel

first-insert_tag :
    (t u : String) (us : List String)
    → first_of (insert_tag t (u ∷ us)) ≡ (if comes_before u t then u else t)
unfolding insert_tag
first-insert_tag t u us = ground arith

-- the least of a list with one more text
IsLeast-cons :
    (t m : String) (ts : List String)
    → IsLeast m ts
    → IsLeast (if comes_before m t then m else t) (t ∷ ts)
IsLeast-cons t m ts (here, least) = elim (Bool-cases (comes_before m t)) [
  | inl before ↦ rw before (
    mem-cons_of_mem t here,
    λ u inside.
        Or.elim (false_prop u m) (eq-or-mem_of_mem-cons inside)
          (λ same. subst (λ v. comes_before v m ≡ false) (sym same) (comes_before_asymm m t before))
          (λ later. least u later),
  )
  | inr after ↦ rw after (
    mem-cons_self,
    λ u inside.
        Or.elim (false_prop u t) (eq-or-mem_of_mem-cons inside)
          (λ same. subst (λ v. comes_before v t ≡ false) (sym same) (comes_before_irrefl t))
          (λ later. not_before_trans u m t (least u later) after),
  )
]

pub insert_tag-cons :
    (t : String) (ts : List String) → (u : String) × (us : List String) × (insert_tag t ts ≡ u ∷ us)
unfolding insert_tag
insert_tag-cons t [] = (t, [], refl)
insert_tag-cons t (u ∷ us) = elim (Bool-cases (comes_before u t)) [
  | inl before ↦ (u, insert_tag t us, rw before refl)
  | inr after ↦ (t, u ∷ us, rw after refl)
]

first-nested :
    (t u : String) (us : List String)
    → first_of (insert_tag t (insert_tag u us))
      ≡ (if comes_before (first_of (insert_tag u us)) t then first_of (insert_tag u us) else t)
first-nested t u us = let (v, vs, same) = insert_tag-cons u us in rw same (first-insert_tag t v vs)

-- sorting puts the least first
pub first-sort_tags :
    (t : String) (ts : List String) → IsLeast (first_of (sort_tags (t ∷ ts))) (t ∷ ts)
unfolding sort_tags
first-sort_tags t [] = (
  mem-cons_self,
  λ u inside.
      Or.elim (false_prop u t) (eq-or-mem_of_mem-cons inside)
        (λ same. subst (λ v. comes_before v t ≡ false) (sym same) (comes_before_irrefl t))
        (λ later. absurd (not-mem-nil later)),
)
first-sort_tags t (u ∷ us) =
    subst (λ m. IsLeast m (t ∷ u ∷ us)) (sym (first-nested t u (sort_tags us)))
      (IsLeast-cons t (first_of (sort_tags (u ∷ us))) (u ∷ us) (first-sort_tags u us))
