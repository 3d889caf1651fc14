-- ===== src/Manifest/Permissions.antt =====
-- internal/manifest/permission.go: the catalog of permissions and roles, checked against the messages.
pub mod Keys
pub mod Entries
pub mod Grants
use Prim.Native.Char.{code}
use dinchy.Prelude.{
  ℕ, String, Bool, true, false, not, ◌&&◌, ◌||◌, ltb, Option, none, some, List, [], ◌∷◌, ◌++◌,
  join_by, ◌>>=◌, ◌>>◌, guard, ◌==◌,
}
use dinchy.Manifest.{I18nMessage, I18nModules}
use dinchy.Manifest.Tree.{node, no_modules, more, is_in}
use dinchy.Manifest.Naming.{i18n_code_for}

pub record PermissionEntry : Type 0 where
  pub resource : String
  pub action : String
  pub description : String
  pub i18n_code : String

pub record PermissionModule : Type 0 where
  pub id : String
  pub description : String
  pub entries : List PermissionEntry

pub record PermissionRole : Type 0 where
  pub id : String
  pub description : String
  pub i18n_code : String
  pub permissions : List String

pub record PermissionCatalog : Type 0 where
  pub modules : List PermissionModule
  pub roles : List PermissionRole

-- PermissionKey
unfoldable pub permission_key : String → String → String → String
permission_key module_id resource action = join_by "." (module_id ∷ resource ∷ action ∷ [])

-- the characters of ". \t\n"
abbrev pub is_excluded : ℕ → Bool
is_excluded c = let is = λ (d : ℕ). not (ltb c d || ltb d c) in is b'.' || is b' ' || is 9 || is 10

-- strings.ContainsAny
abbrev pub contains_excluded : String → Bool
contains_excluded String.[] = false
contains_excluded (String.◌∷◌ c s) = is_excluded (code c) || contains_excluded s

unfoldable pub valid_permission_segment : String → Bool
valid_permission_segment value = not (value == "") && not (contains_excluded value)

abbrev pub codes_of : List String → List I18nMessage → List String
codes_of path [] = []
codes_of path (m ∷ ms) = i18n_code_for path m.name ∷ codes_of path ms

-- collectI18nCodes, as what it adds
unfoldable pub collect_i18n_codes : I18nModules → List String → List String
collect_i18n_codes no_modules path = []
collect_i18n_codes (more (node name _ children messages) ms) path =
    (codes_of (path ++ name ∷ []) messages ++ collect_i18n_codes children (path ++ name ∷ []))
    ++ collect_i18n_codes ms path

-- The loop over the entries of a module. What is returned are the permissions.
unfoldable pub validate_entries :
    List String → String → List PermissionEntry → List String → Option (List String)
unfolding valid_permission_segment permission_key
validate_entries codes id [] permissions = some permissions
validate_entries codes id (e ∷ es) permissions = do
  guard (
      valid_permission_segment e.resource
      && valid_permission_segment e.action
      && not (e.description == "")
      && not (e.i18n_code == ""))
  guard (not (is_in (permission_key id e.resource e.action) permissions))
  guard (is_in e.i18n_code codes)
  validate_entries codes id es (permission_key id e.resource e.action ∷ permissions)

-- the loop over the modules
unfoldable pub validate_modules :
    List String → List PermissionModule → List String → List String → Option (List String)
unfolding validate_entries
validate_modules codes [] modules permissions = some permissions
validate_modules codes (m ∷ ms) modules permissions = do
  guard (valid_permission_segment m.id && not (m.description == ""))
  guard (not (is_in m.id modules))
  permissions' ← validate_entries codes m.id m.entries permissions
  validate_modules codes ms (m.id ∷ modules) permissions'

-- the loop over the permissions of a role
unfoldable pub grants_known : List String → List String → Bool
grants_known permissions [] = true
grants_known permissions (v ∷ vs) = is_in v permissions && grants_known permissions vs

-- the loop over the roles
unfoldable pub validate_roles :
    List String → List String → List PermissionRole → List String → Option (Unit {0})
unfolding grants_known
validate_roles codes permissions [] roles = some tt
validate_roles codes permissions (r ∷ rs) roles = do
  guard (valid_permission_segment r.id && not (r.description == "") && not (r.i18n_code == ""))
  guard (not (is_in r.id roles))
  guard (is_in r.i18n_code codes)
  guard (grants_known permissions r.permissions)
  validate_roles codes permissions rs (r.id ∷ roles)

abbrev pub is_defined : PermissionCatalog → Bool
is_defined catalog = elim catalog.modules [
  | [] ↦ false
  | m ∷ ms ↦ elim catalog.roles [ [] ↦ false | r ∷ rs ↦ true ]
]

unfoldable pub validate_permission_catalog : PermissionCatalog → I18nModules → Option (Unit {0})
unfolding validate_modules validate_roles collect_i18n_codes
validate_permission_catalog catalog i18n = do
  guard (is_defined catalog)
  permissions ← validate_modules (collect_i18n_codes i18n []) catalog.modules [] []
  validate_roles (collect_i18n_codes i18n []) permissions catalog.roles []
