-- ===== src/Manifest/Merge.antt =====
-- MergeEventCatalogs (event.go) and MergeI18nCatalogs (i18n.go): what becomes of the events or
-- messages of the fragments.
use mathlib.Core.List.{Perm, perm_append_comm, append_assoc, append-nil}
use mathlib.Core.List.Perm
use dinchy.Prelude.{
  String, ◌≡◌, refl, sym, subst, ap, not, ◌&&◌, Option, some, List, [], ◌∷◌, ◌++◌, bind_some, ◌==◌,
  eq_iff, Bool-cases, inl, inr, arith,
}
use dinchy.Manifest.Tree.{
  Module, Modules, node, no_modules, more, module_id, merge_description, has_id, put_module,
  merge_module, merge_modules, merge_from, merge_catalogs,
}
use dinchy.Manifest.{EventModules, I18nModules, merge_event_catalogs, merge_i18n_catalogs}

module _ {A : Type 0} where
  -- the last two of three parts in the other order
  swap_tail : (a b c : List A) → Perm ((a ++ b) ++ c) ((a ++ c) ++ b)
  swap_tail a b c =
      rw (append_assoc a b c, append_assoc a c b) (Perm.append (Perm.refl a) (perm_append_comm b c))

  interleave : (a b c d : List A) → Perm ((a ++ b) ++ (c ++ d)) ((a ++ c) ++ (b ++ d))
  interleave a b c d =
      subst (λ r. Perm ((a ++ b) ++ (c ++ d)) r) (append_assoc (a ++ c) b d)
        (subst (λ l. Perm l (((a ++ c) ++ b) ++ d)) (append_assoc (a ++ b) c d)
          (Perm.append_right d (swap_tail a b c)))

-- an event or a message with the path of the modules that it stands in
abbrev pub Placed : Type 0 → Type 0
Placed A = List String × A

module _ {A : Type 0} where
  abbrev pub placed : List String → List A → List (Placed A)
  placed path [] = []
  placed path (e ∷ es) = (path, e) ∷ placed path es

  unfoldable mutual
    pub module_items : List String → Module A → List (Placed A)
    module_items path (node id description modules events) =
        placed (path ++ id ∷ []) events ++ items_of (path ++ id ∷ []) modules

    pub items_of : List String → Modules A → List (Placed A)
    items_of path no_modules = []
    items_of path (more m ms) = module_items path m ++ items_of path ms

  placed-append :
      (path : List String) (es fs : List A)
      → placed path (es ++ fs) ≡ placed path es ++ placed path fs
  placed-append path [] fs = refl
  placed-append path (e ∷ es) fs = ap (λ r. (path, e) ∷ r) (placed-append path es fs)

  -- what a merging step does to the events, for a module that it merges `m` into
  abbrev Merges : List String → Module A → Module A → Module A → Type 0
  Merges path m d c = Perm (module_items path c) (module_items path d ++ module_items path m)

  put_module-Perm :
      (path : List String) (m : Module A) (combine : Module A → Option (Module A))
      (dst out : Modules A)
      → ((d c : Module A) → module_id d ≡ module_id m → combine d ≡ some c → Merges path m d c)
      → put_module m combine dst ≡ some out
      → Perm (items_of path out) (items_of path dst ++ module_items path m)
  unfolding put_module items_of
  put_module-Perm path m combine no_modules out merges h =
      let same : more m no_modules ≡ out = cc in
      subst (λ o. Perm (items_of path o) (module_items path m)) same
        (subst (λ l. Perm l (module_items path m)) (sym (append-nil (module_items path m)))
          (Perm.refl (module_items path m)))
  put_module-Perm path m combine (more d ds) out merges h =
      elim (Bool-cases (module_id d == module_id m && not (has_id (module_id m) ds))) [
        | inl here ↦
            let (c, combined, h') =
              bind_some (combine d) (λ c. some (more c ds)) out (ground arith) in
            let same : more c ds ≡ out = cc in
            subst
              (λ o.
                Perm (items_of path o)
                  ((module_items path d ++ items_of path ds) ++ module_items path m))
              same
              (Perm.trans
                (Perm.append_right (items_of path ds)
                  (merges d c (ground (arith, eq_iff (module_id d) (module_id m))) combined))
                (swap_tail (module_items path d) (module_items path m) (items_of path ds)))
        | inr later ↦
            let (rest, put, h') =
              bind_some (put_module m combine ds) (λ r. some (more d r)) out (ground arith) in
            let same : more d rest ≡ out = cc in
            subst
              (λ o.
                Perm (items_of path o)
                  ((module_items path d ++ items_of path ds) ++ module_items path m))
              same
              (subst (λ r. Perm (module_items path d ++ items_of path rest) r)
                (sym (append_assoc (module_items path d) (items_of path ds) (module_items path m)))
                (Perm.append_left (module_items path d)
                  (put_module-Perm path m combine ds rest merges put)))
      ]

  -- the events of a merged module, from those of its modules
  module-Perm :
      (path : List String) (own events : List A) (merged modules children : Modules A)
      → Perm (items_of path merged) (items_of path modules ++ items_of path children)
      → Perm (placed path (own ++ events) ++ items_of path merged) (
          (placed path own ++ items_of path modules)
          ++ (placed path events ++ items_of path children))
  module-Perm path own events merged modules children below =
      subst
        (λ l. Perm (l ++ items_of path merged) (
          (placed path own ++ items_of path modules)
          ++ (placed path events ++ items_of path children)))
        (sym (placed-append path own events))
        (Perm.trans (Perm.append_left (placed path own ++ placed path events) below) (
          interleave (placed path own) (placed path events) (items_of path modules)
            (items_of path children)))

  mutual
    unfolding merge_module merge_modules module_items items_of

    merge_module-Perm :
        (m d c : Module A) (path : List String)
        → module_id d ≡ module_id m
        → merge_module m d ≡ some c
        → Merges path m d c
    merge_module-Perm (node name incoming children events) (node id existing modules own) c path
          same_id h =
        let (description, _, h₁) = bind_some (merge_description existing incoming) _ c h in
        let (merged, below, h₂) = bind_some (merge_modules children modules) _ c h₁ in
        let made : node id description merged (own ++ events) ≡ c = cc in
        let p = path ++ id ∷ [] in
        subst
          (λ x. Perm (module_items path x) (
            module_items path (node id existing modules own)
            ++ module_items path (node name incoming children events)))
          made
          (subst
            (λ n. Perm (placed p (own ++ events) ++ items_of p merged) (
              (placed p own ++ items_of p modules)
              ++ (placed (path ++ n ∷ []) events ++ items_of (path ++ n ∷ []) children)))
            same_id
            (module-Perm p own events merged modules children
              (merge_modules-Perm children modules merged p below)))

    merge_modules-Perm :
        (ms dst out : Modules A) (path : List String)
        → merge_modules ms dst ≡ some out
        → Perm (items_of path out) (items_of path dst ++ items_of path ms)
    merge_modules-Perm no_modules dst out path h =
        let same : dst ≡ out = cc in
        subst (λ o. Perm (items_of path o) (items_of path dst ++ [])) same
          (subst (λ r. Perm (items_of path dst) r) (sym (append-nil (items_of path dst)))
            (Perm.refl (items_of path dst)))
    merge_modules-Perm (more m ms) dst out path h =
        let (added, put, h') =
          bind_some (put_module m (λ d. merge_module m d) dst) (merge_modules ms) out h in
        let first =
          put_module-Perm path m (λ d. merge_module m d) dst added
            (λ d c same_id merged. merge_module-Perm m d c path same_id merged) put in
        let then_ = merge_modules-Perm ms added out path h' in
        subst (λ r. Perm (items_of path out) r)
          (append_assoc (items_of path dst) (module_items path m) (items_of path ms))
          (Perm.trans then_ (Perm.append_right (items_of path ms) first))

  -- the events of all fragments, one after the other
  abbrev pub all_items : List (Modules A) → List (Placed A)
  all_items [] = []
  all_items (catalog ∷ catalogs) = items_of [] catalog ++ all_items catalogs

  merge_from-Perm :
      (catalogs : List (Modules A)) (merged out : Modules A)
      → merge_from merged catalogs ≡ some out
      → Perm (items_of [] out) (items_of [] merged ++ all_items catalogs)
  unfolding merge_from
  merge_from-Perm [] merged out h =
      let same : merged ≡ out = cc in
      subst (λ o. Perm (items_of [] o) (items_of [] merged ++ [])) same
        (subst (λ r. Perm (items_of [] merged) r) (sym (append-nil (items_of [] merged)))
          (Perm.refl (items_of [] merged)))
  merge_from-Perm (catalog ∷ catalogs) merged out h =
      let (modules, first, rest) =
        bind_some (merge_modules catalog merged) (λ m. merge_from m catalogs) out h in
      subst (λ r. Perm (items_of [] out) r)
        (append_assoc (items_of [] merged) (items_of [] catalog) (all_items catalogs))
        (Perm.trans (merge_from-Perm catalogs modules out rest) (
          Perm.append_right (all_items catalogs)
            (merge_modules-Perm catalog merged modules [] first)))

  merge_catalogs-Perm :
      (catalogs : List (Modules A)) (out : Modules A)
      → merge_catalogs catalogs ≡ some out
      → Perm (items_of [] out) (all_items catalogs)
  unfolding merge_catalogs items_of
  merge_catalogs-Perm catalogs out h = merge_from-Perm catalogs no_modules out h

-- A merged catalog holds exactly the events of the fragments, each as often as they do and under the
-- same path of modules: merging loses, invents and moves none, however the modules are nested.
pub merge_event_catalogs-Perm :
    (catalogs : List EventModules) (out : EventModules)
    → merge_event_catalogs catalogs ≡ some out
    → Perm (items_of [] out) (all_items catalogs)
unfolding merge_event_catalogs
merge_event_catalogs-Perm catalogs out h = merge_catalogs-Perm catalogs out h

pub merge_i18n_catalogs-Perm :
    (catalogs : List I18nModules) (out : I18nModules)
    → merge_i18n_catalogs catalogs ≡ some out
    → Perm (items_of [] out) (all_items catalogs)
unfolding merge_i18n_catalogs
merge_i18n_catalogs-Perm catalogs out h = merge_catalogs-Perm catalogs out h
