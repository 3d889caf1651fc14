-- ===== src/Manifest/Walk.antt =====
-- The walk of a validation: what holds of all that was seen, if each accepted item keeps it.
use mathlib.Core.List.{Perm, perm_middle, append_assoc, append-nil}
use mathlib.Core.List.Perm
use dinchy.Prelude.{
  String, Bool, ◌≡◌, ◌≢◌, refl, sym, subst, ap, ◌∙◌, true, false, not, ◌&&◌, Option, some, List, [],
  ◌∷◌, ◌++◌, map, any, All, guard, bind_some, ◌==◌, eq_iff, arith,
}
use dinchy.Manifest.Tree.{Modules, node, no_modules, more, is_in, walk_items, walk_modules}
use dinchy.Manifest.Merge.{Placed, placed, module_items, items_of}

-- no text stands twice in the list
abbrev pub IsDistinct : List String → Type 0
IsDistinct [] = Unit
IsDistinct (t ∷ ts) = All (λ u. t ≢ u) ts × IsDistinct ts

-- a list of texts is one for each item, by `f`, and no two are the same
abbrev pub Records : {B : Type 0} → (B → String) → List String → List B → Type 0
Records f seen items = IsDistinct seen × Perm seen (map f items)

absent : (t : String) (ts : List String) → is_in t ts ≡ false → All (λ u. t ≢ u) ts
unfolding any
absent t [] h = tt
absent t (u ∷ ts) h =
    (λ (same : t ≡ u). absurd (ground (arith, eq_iff u t)), absent t ts (ground arith))

pub guard-not : (b : Bool) {u : Unit {0}} → guard (not b) ≡ some u → b ≡ false
guard-not true h = cc
guard-not false h = refl

pub guard_holds : (b : Bool) {u : Unit {0}} → guard b ≡ some u → b ≡ true
guard_holds true h = refl
guard_holds false h = cc

module _ {B : Type 0} (f : B → String) where
  pub Records-Perm :
      (seen : List String) (items others : List B)
      → Perm items others
      → Records f seen items
      → Records f seen others
  Records-Perm seen items others p (distinct, of_items) =
      (distinct, Perm.trans of_items (Perm.map f p))

  pub Records-cons :
      (b : B) (seen : List String) (items : List B)
      → is_in (f b) seen ≡ false
      → Records f seen items
      → Records f (f b ∷ seen) (b ∷ items)
  Records-cons b seen items new (distinct, of_items) =
      ((absent (f b) seen new, distinct), Perm.cons (f b) of_items)

module _ {A S : Type 0} (id_of : A → String) (is_filled : Modules A → List A → Bool)
    (check : List String → List String → A → S → Option S) (Keeps : S → List (Placed A) → Type 0)
    (respects : (s : S) (es fs : List (Placed A)) → Perm es fs → Keeps s es → Keeps s fs)
    (step : (path ids : List String) (e : A) (s s' : S) (es : List (Placed A))
      → Keeps s es
      → check path ids e s ≡ some s'
      → Keeps s' ((path, e) ∷ es)) where
  walk_items-Keeps :
      (path ids : List String) (items : List A) (s s' : S) (es : List (Placed A))
      → Keeps s es
      → walk_items id_of is_filled check path ids items s ≡ some s'
      → Keeps s' (es ++ placed path items)
  unfolding walk_items
  walk_items-Keeps path ids [] s s' es known h =
      let same : s ≡ s' = cc in
      subst (λ t. Keeps t (es ++ [])) same (subst (Keeps s) (sym (append-nil es)) known)
  walk_items-Keeps path ids (e ∷ items) s s' es known h =
      let (s₁, first, rest) = bind_some (check path ids e s) _ s' h in
      respects s' (((path, e) ∷ es) ++ placed path items) (es ++ (path, e) ∷ placed path items)
        (Perm.symm (perm_middle es (placed path items)))
        (walk_items-Keeps path (id_of e ∷ ids) items s₁ s' ((path, e) ∷ es)
          (step path ids e s s₁ es known first) rest)

  pub walk_modules-Keeps :
      (ms : Modules A) (path ids : List String) (s s' : S) (es : List (Placed A))
      → Keeps s es
      → walk_modules id_of is_filled check ms path ids s ≡ some s'
      → Keeps s' (es ++ items_of path ms)
  unfolding walk_modules items_of module_items
  walk_modules-Keeps no_modules path ids s s' es known h =
      let same : s ≡ s' = cc in
      subst (λ t. Keeps t (es ++ [])) same (subst (Keeps s) (sym (append-nil es)) known)
  walk_modules-Keeps (more (node id description children items) ms) path ids s s' es known h =
      let p = path ++ id ∷ [] in
      let (_, _, h₁) =
        bind_some (guard (not (id == "") && not (is_in id ids) && is_filled children items)) _ s'
          h in
      let (s₁, here, h₂) = bind_some (walk_items id_of is_filled check p [] items s) _ s' h₁ in
      let (s₂, below, after) =
        bind_some (walk_modules id_of is_filled check children p [] s₁) _ s' h₂ in
      let first = walk_items-Keeps p [] items s s₁ es known here in
      let second = walk_modules-Keeps children p [] s₁ s₂ (es ++ placed p items) first below in
      let third =
        walk_modules-Keeps ms path (id ∷ ids) s₂ s' ((es ++ placed p items) ++ items_of p children)
          second after in
      subst (Keeps s')
        (ap (λ l. l ++ items_of path ms) (append_assoc es (placed p items) (items_of p children))
          ∙ append_assoc es (placed p items ++ items_of p children) (items_of path ms))
        third
