-- ===== src/Manifest/Permissions/Grants.antt =====
-- ValidatePermissionCatalog (permission.go): what an accepted catalog grants and refers to.
use mathlib.Core.List.{Mem}
use mathlib.Core.List.Perm
use dinchy.Prelude.{
  String, ◌≡◌, subst, true, not, ◌&&◌, some, List, [], ◌∷◌, map, All, All-map, guard, bind_some,
  ◌==◌, arith,
}
use dinchy.Manifest.{I18nModules}
use dinchy.Manifest.Tree.{is_in}
use dinchy.Manifest.Merge.{items_of}
use dinchy.Manifest.Messages.{code_of}
use dinchy.Manifest.Walk.{Records, guard_holds}
use dinchy.Manifest.Permissions.{
  PermissionRole, PermissionCatalog, valid_permission_segment, collect_i18n_codes, validate_modules,
  grants_known, validate_roles, is_defined, validate_permission_catalog,
}
use dinchy.Manifest.Permissions.Entries.{
  declared, key_of, IsSound, is_in-Mem, collect_i18n_codes-map, validate_modules_ok,
}

-- the role's code is one of the codes, and its permissions are among the permissions
abbrev pub IsGranted : List String → List String → PermissionRole → Type 0
IsGranted codes permissions r = Mem r.i18n_code codes × All (λ v. Mem v permissions) r.permissions

grants_known-All :
    (permissions vs : List String)
    → grants_known permissions vs ≡ true
    → All (λ v. Mem v permissions) vs
unfolding grants_known
grants_known-All permissions [] h = tt
grants_known-All permissions (v ∷ vs) h =
    (is_in-Mem v permissions (ground arith), grants_known-All permissions vs (ground arith))

module _ (codes : List String) where
  validate_roles_ok :
      (rs : List PermissionRole) (permissions ids : List String)
      → validate_roles codes permissions rs ids ≡ some tt
      → All (IsGranted codes permissions) rs
  unfolding validate_roles
  validate_roles_ok [] permissions ids h = tt
  validate_roles_ok (r ∷ rs) permissions ids h =
      let (_, _, h₁) =
        bind_some
          (guard
            (valid_permission_segment r.id && not (r.description == "") && not (r.i18n_code == "")))
          _ tt h in
      let (_, _, h₂) = bind_some (guard (not (is_in r.id ids))) _ tt h₁ in
      let (_, told, h₃) = bind_some (guard (is_in r.i18n_code codes)) _ tt h₂ in
      let (_, grants, rest) = bind_some (guard (grants_known permissions r.permissions)) _ tt h₃ in
      (
        (
          is_in-Mem r.i18n_code codes (guard_holds (is_in r.i18n_code codes) told),
          grants_known-All permissions r.permissions
              (guard_holds (grants_known permissions r.permissions) grants),
        ),
        validate_roles_ok rs permissions (r.id ∷ ids) rest,
      )

-- In a catalog of permissions that is accepted beside a catalog of messages, the keys of the declared
-- permissions are all distinct, each permission has valid segments and the code of one of the
-- messages, and each role has the code of one of the messages and grants only declared permissions.
pub validate_permission_catalog_ok :
    (catalog : PermissionCatalog) (i18n : I18nModules)
    → validate_permission_catalog catalog i18n ≡ some tt
    → ((keys : List String) × Records key_of keys (declared catalog.modules))
      × All (IsSound (map code_of (items_of [] i18n))) (declared catalog.modules)
      × All
          (IsGranted (map code_of (items_of [] i18n)) (map key_of (declared catalog.modules)))
          catalog.roles
unfolding validate_permission_catalog
validate_permission_catalog_ok catalog i18n h =
    let codes = collect_i18n_codes i18n [] in
    let (_, _, h₁) = bind_some (guard (is_defined catalog)) _ tt h in
    let (keys, modules, roles) = bind_some (validate_modules codes catalog.modules [] []) _ tt h₁ in
    let (records, sound) =
      validate_modules_ok codes catalog.modules [] [] keys [] (tt, Perm.refl []) modules in
    let granted = validate_roles_ok codes catalog.roles keys [] roles in
    subst
      (λ cs.
        ((ks : List String) × Records key_of ks (declared catalog.modules))
        × All (IsSound cs) (declared catalog.modules)
        × All (IsGranted cs (map key_of (declared catalog.modules))) catalog.roles)
      (collect_i18n_codes-map i18n [])
      (
        (keys, records),
        sound,
        All-map catalog.roles
            (λ r (told, grants).
              (told, All-map r.permissions (λ v. (Perm.mem_iff records.1).0) grants))
            granted,
      )
