-- ===== src/Manifest/Permissions/Entries.antt =====
-- ValidatePermissionCatalog (permission.go): the loops over the modules and their entries.
use mathlib.Core.List.{Mem, mem-cons_self, mem-cons_of_mem, perm_middle, append_assoc, append-nil}
use mathlib.Core.List.Perm
use dinchy.Prelude.{
  String, ◌≡◌, refl, sym, subst, ap, true, not, ◌&&◌, some, List, [], ◌∷◌, ◌++◌, map, any, All,
  guard, bind_some, ◌==◌, eq_iff, Bool-cases, inl, inr, arith,
}
use dinchy.Manifest.{I18nMessage, I18nModules}
use dinchy.Manifest.Tree.{node, no_modules, more, is_in}
use dinchy.Manifest.Merge.{placed, module_items, items_of}
use dinchy.Manifest.Messages.{code_of}
use dinchy.Manifest.Walk.{Records, guard-not, guard_holds, Records-Perm, Records-cons}
use dinchy.Manifest.Permissions.{
  PermissionEntry, PermissionModule, permission_key, valid_permission_segment, codes_of,
  collect_i18n_codes, validate_entries, validate_modules,
}

-- an entry with the ID of its module
abbrev pub Declared : Type 0
Declared = String × PermissionEntry

abbrev tagged : String → List PermissionEntry → List Declared
tagged id [] = []
tagged id (e ∷ es) = (id, e) ∷ tagged id es

abbrev pub declared : List PermissionModule → List Declared
declared [] = []
declared (m ∷ ms) = tagged m.id m.entries ++ declared ms

abbrev pub key_of : Declared → String
key_of (id, e) = permission_key id e.resource e.action

-- the module, the resource and the action are valid, and the code is one of the codes
abbrev pub IsSound : List String → Declared → Type 0
IsSound codes (id, e) =
    (valid_permission_segment id ≡ true)
    × (valid_permission_segment e.resource ≡ true)
    × (valid_permission_segment e.action ≡ true)
    × Mem e.i18n_code codes

pub is_in-Mem : (s : String) (ts : List String) → is_in s ts ≡ true → Mem s ts
unfolding any
is_in-Mem s [] h = cc
is_in-Mem s (t ∷ ts) h = elim (Bool-cases (t == s)) [
  | inl here ↦ subst (λ u. Mem u (t ∷ ts)) ((eq_iff t s).0 here) mem-cons_self
  | inr there ↦ mem-cons_of_mem t (is_in-Mem s ts (ground arith))
]

module _ {ℓ} {A : Type ℓ} where
  All-append {κ} : (P : A → Type κ) (xs ys : List A) → All P xs → All P ys → All P (xs ++ ys)
  All-append P [] ys h hs = hs
  All-append P (x ∷ xs) ys (hx, h) hs = (hx, All-append P xs ys h hs)

-- the codes that collectI18nCodes finds are those of the messages
codes_of-map :
    (path : List String) (ms : List I18nMessage) → codes_of path ms ≡ map code_of (placed path ms)
codes_of-map path [] = refl
codes_of-map path (m ∷ ms) = ap (λ r. code_of (path, m) ∷ r) (codes_of-map path ms)

map-append : {A B : Type 0} (f : A → B) (xs ys : List A) → map f (xs ++ ys) ≡ map f xs ++ map f ys
map-append f [] ys = refl
map-append f (x ∷ xs) ys = ap (λ r. f x ∷ r) (map-append f xs ys)

pub collect_i18n_codes-map :
    (ms : I18nModules) (path : List String)
    → collect_i18n_codes ms path ≡ map code_of (items_of path ms)
unfolding collect_i18n_codes items_of module_items
collect_i18n_codes-map no_modules path = refl
collect_i18n_codes-map (more (node name description children messages) ms) path =
    let p = path ++ name ∷ [] in
    simp (
      codes_of-map p messages,
      collect_i18n_codes-map children p,
      collect_i18n_codes-map ms path,
      map-append code_of (placed p messages ++ items_of p children) (items_of path ms),
      map-append code_of (placed p messages) (items_of p children),
    )

module _ (codes : List String) where
  validate_entries_ok :
      (id : String) (es : List PermissionEntry) (seen seen' : List String) (known : List Declared)
      → valid_permission_segment id ≡ true
      → Records key_of seen known
      → validate_entries codes id es seen ≡ some seen'
      → Records key_of seen' (known ++ tagged id es) × All (IsSound codes) (tagged id es)
  unfolding validate_entries
  validate_entries_ok id [] seen seen' known valid records h =
      let same : seen ≡ seen' = cc in
      (
        subst (λ t. Records key_of t (known ++ [])) same
            (subst (Records key_of seen) (sym (append-nil known)) records),
        tt,
      )
  validate_entries_ok id (e ∷ es) seen seen' known valid records h =
      let key = permission_key id e.resource e.action in
      let (_, segments, h₁) =
        bind_some
          (guard (
            valid_permission_segment e.resource
            && valid_permission_segment e.action
            && not (e.description == "")
            && not (e.i18n_code == "")))
          _ seen' h in
      let (_, new, h₂) = bind_some (guard (not (is_in key seen))) _ seen' h₁ in
      let (_, told, h₃) = bind_some (guard (is_in e.i18n_code codes)) _ seen' h₂ in
      let valid_segments =
        guard_holds
          (valid_permission_segment e.resource
            && valid_permission_segment e.action
            && not (e.description == "")
            && not (e.i18n_code == ""))
          segments in
      let (records', sound) =
        validate_entries_ok id es (key ∷ seen) seen' ((id, e) ∷ known) valid
          (Records-cons key_of (id, e) seen known (guard-not (is_in key seen) new) records) h₃ in
      (
        Records-Perm key_of seen' (((id, e) ∷ known) ++ tagged id es)
            (known ++ (id, e) ∷ tagged id es) (Perm.symm (perm_middle known (tagged id es)))
            records',
        (
          (
            valid,
            ground arith,
            ground arith,
            is_in-Mem e.i18n_code codes (guard_holds (is_in e.i18n_code codes) told),
          ),
          sound,
        ),
      )

  pub validate_modules_ok :
      (ms : List PermissionModule) (ids seen seen' : List String) (known : List Declared)
      → Records key_of seen known
      → validate_modules codes ms ids seen ≡ some seen'
      → Records key_of seen' (known ++ declared ms) × All (IsSound codes) (declared ms)
  unfolding validate_modules
  validate_modules_ok [] ids seen seen' known records h =
      let same : seen ≡ seen' = cc in
      (
        subst (λ t. Records key_of t (known ++ [])) same
            (subst (Records key_of seen) (sym (append-nil known)) records),
        tt,
      )
  validate_modules_ok (m ∷ ms) ids seen seen' known records h =
      let (_, named, h₁) =
        bind_some (guard (valid_permission_segment m.id && not (m.description == ""))) _ seen' h in
      let (_, _, h₂) = bind_some (guard (not (is_in m.id ids))) _ seen' h₁ in
      let (s, entries, rest) = bind_some (validate_entries codes m.id m.entries seen) _ seen' h₂ in
      let valid = guard_holds (valid_permission_segment m.id && not (m.description == "")) named in
      let (here, sound) =
        validate_entries_ok m.id m.entries seen s known (ground arith) records entries in
      let (all, sound') =
        validate_modules_ok ms (m.id ∷ ids) s seen' (known ++ tagged m.id m.entries) here rest in
      (
        subst (Records key_of seen') (append_assoc known (tagged m.id m.entries) (declared ms)) all,
        All-append (IsSound codes) (tagged m.id m.entries) (declared ms) sound sound',
      )
