-- ===== src/Manifest/Tree.antt =====
-- internal/manifest/event.go and i18n.go: the nested modules of a catalog, which hold events in one
-- kind of catalog and messages in the other; the merging of fragments, and the walk of a validation.
use dinchy.Prelude.{
  String, Bool, true, false, not, ◌&&◌, ◌||◌, Option, none, some, List, [], ◌∷◌, ◌++◌, any, ◌>>=◌,
  ◌>>◌, guard, ◌==◌, if◌then◌else◌,
}

-- EventModule and I18nModule: the ID or name, the description, the modules, the events or messages.
mutual
  pub data Module (A : Type 0) : Type 0 where
    node : String → String → Modules A → List A → Module A

  pub data Modules (A : Type 0) : Type 0 where
    no_modules : Modules A
    more : Module A → Modules A → Modules A

abbrev pub is_in : String → List String → Bool
is_in s seen = any (λ t. t == s) seen

-- mergeEventDescription and mergeI18nDescription
unfoldable pub merge_description : String → String → Option String
merge_description existing incoming =
    if existing == ""
    then some incoming
    else if incoming == "" || incoming == existing
    then some existing
    else none

module _ {A : Type 0} where
  abbrev pub module_id : Module A → String
  module_id (node id _ _ _) = id

  abbrev pub is_empty : Modules A → Bool
  is_empty no_modules = true
  is_empty (more m ms) = false

  unfoldable pub has_id : String → Modules A → Bool
  has_id id no_modules = false
  has_id id (more m ms) = module_id m == id || has_id id ms

  -- One round of the loop of mergeEventModules: a module whose ID the index does not have is added,
  -- else the one that the index names, which is the last with that ID, is replaced by `combine` of it.
  unfoldable pub put_module :
      Module A → (Module A → Option (Module A)) → Modules A → Option (Modules A)
  unfolding has_id
  put_module m combine no_modules = some (more m no_modules)
  put_module m combine (more d ds) =
      let combined = combine d >>= λ c. some (more c ds) in
      let rest = put_module m combine ds >>= λ r. some (more d r) in
      if module_id d == module_id m && not (has_id (module_id m) ds) then combined else rest

unfoldable mutual
  unfolding put_module merge_description

  -- mergeEventModule and mergeI18nModule, with the module that is merged in first
  pub merge_module : {A : Type 0} → Module A → Module A → Option (Module A)
  merge_module (node _ incoming children items) (node id existing modules own) = do
    description ← merge_description existing incoming
    merged ← merge_modules children modules
    some (node id description merged (own ++ items))

  -- mergeEventModules and mergeI18nModules, with the modules that are merged in first
  pub merge_modules : {A : Type 0} → Modules A → Modules A → Option (Modules A)
  merge_modules no_modules dst = some dst
  merge_modules (more m ms) dst = do
    added ← put_module m (λ d. merge_module m d) dst
    merge_modules ms added

module _ {A : Type 0} where
  -- MergeEventCatalogs and MergeI18nCatalogs
  unfoldable pub merge_from : Modules A → List (Modules A) → Option (Modules A)
  unfolding merge_modules
  merge_from merged [] = some merged
  merge_from merged (catalog ∷ catalogs) = do
    modules ← merge_modules catalog merged
    merge_from modules catalogs

  unfoldable pub merge_catalogs : List (Modules A) → Option (Modules A)
  unfolding merge_from
  merge_catalogs catalogs = merge_from no_modules catalogs

-- The loops of validateEventModules and validateI18nModules: over the modules, with their IDs so far,
-- over the items of each with their IDs so far, and into its modules. `is_filled` is the test of a
-- module's content, `check` the round for one item, which adds it to what was seen.
module _ {A S : Type 0} (id_of : A → String) (is_filled : Modules A → List A → Bool)
    (check : List String → List String → A → S → Option S) where
  unfoldable pub walk_items : List String → List String → List A → S → Option S
  walk_items path ids [] seen = some seen
  walk_items path ids (e ∷ es) seen = do
    seen' ← check path ids e seen
    walk_items path (id_of e ∷ ids) es seen'

  unfoldable pub walk_modules : Modules A → List String → List String → S → Option S
  unfolding walk_items
  walk_modules no_modules path ids seen = some seen
  walk_modules (more (node id _ children items) ms) path ids seen = do
    guard (not (id == "") && not (is_in id ids) && is_filled children items)
    seen₁ ← walk_items (path ++ id ∷ []) [] items seen
    seen₂ ← walk_modules children (path ++ id ∷ []) [] seen₁
    walk_modules ms path (id ∷ ids) seen₂
