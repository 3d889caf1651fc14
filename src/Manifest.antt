-- ===== src/Manifest.antt =====
-- internal/manifest: the catalogs of events, messages and permissions that the code generators read.
-- Events (event.go) and messages (i18n.go) stand in nested modules (Tree).
pub mod Tree
pub mod Merge
pub mod Naming
pub mod Validation
pub mod Walk
pub mod Distinct
pub mod Messages
pub mod Constants
pub mod Permissions
use dinchy.Prelude.{String, Option, List}
use dinchy.Manifest.Tree.{Modules, merge_catalogs}

-- Field
pub record Field : Type 0 where
  pub name : String
  pub field_type : String

pub record EventDefinition : Type 0 where
  pub id : String
  pub description : String
  pub action : String
  pub outcome : String
  pub metadata_keys : List Field
  pub change_keys : List Field

-- EventCatalog
abbrev pub EventModules : Type 0
EventModules = Modules EventDefinition

-- I18nParam
pub record I18nParam : Type 0 where
  pub name : String
  pub param_type : String

-- a message with its translations as pairs of a language and a text
pub record I18nMessage : Type 0 where
  pub name : String
  pub description : String
  pub params : List I18nParam
  pub translations : List (String × String)

-- I18nCatalog
abbrev pub I18nModules : Type 0
I18nModules = Modules I18nMessage

-- MergeEventCatalogs
unfoldable pub merge_event_catalogs : List EventModules → Option EventModules
unfolding merge_catalogs
merge_event_catalogs catalogs = merge_catalogs catalogs

-- MergeI18nCatalogs, with the functions that it merges modules and descriptions by
unfoldable pub merge_i18n_catalogs : List I18nModules → Option I18nModules
unfolding merge_catalogs
merge_i18n_catalogs catalogs = merge_catalogs catalogs
