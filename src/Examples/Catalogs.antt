-- ===== src/Examples/Catalogs.antt =====
-- The theorems on the catalogs of events, messages and permissions at concrete catalogs.
use mathlib.Core.List.{Perm}
use dinchy.Prelude.{Texts, String, ◌≡◌, refl, true, any, All, some, List, [], ◌∷◌, map}
use dinchy.Manifest.{EventDefinition, EventModules, I18nMessage, I18nModules, merge_event_catalogs}
use dinchy.Manifest.Tree.{node, no_modules, more}
use dinchy.Manifest.Naming.{event_type_for, event_constant_name, i18n_code_for, i18n_constant_name}
use dinchy.Manifest.Validation.{Seen, validate_event_catalog, SeenMessages, validate_i18n_catalog}
use dinchy.Manifest.Merge.{items_of, all_items, merge_event_catalogs-Perm}
use dinchy.Manifest.Walk.{Records}
use dinchy.Manifest.Messages.{code_of, constant_of, IsSpoken, validate_i18n_catalog_ok}
use dinchy.Manifest.Constants.{i18n_constant_name-event_constant_name}
use dinchy.Manifest.Permissions.{
  PermissionCatalog, valid_permission_segment, validate_permission_catalog,
}
use dinchy.Manifest.Permissions.Entries.{declared, key_of, IsSound}
use dinchy.Manifest.Permissions.Grants.{IsGranted, validate_permission_catalog_ok}

abbrev definition : String → EventDefinition
definition id = record {
  id = id;
  description = "";
  action = "do";
  outcome = "success";
  metadata_keys = [];
  change_keys = [];
}

-- security.auth with two events, in two fragments
abbrev fragment : String → String → EventModules
fragment description id =
    more
      (node "security" description
        (more (node "auth" "" no_modules (definition id ∷ [])) no_modules) [])
      no_modules

abbrev both : EventModules
both =
    more
      (node "security" "Security"
        (more (node "auth" "" no_modules (definition "login" ∷ definition "logout" ∷ []))
          no_modules)
        [])
      no_modules

merges : merge_event_catalogs (fragment "" "login" ∷ fragment "Security" "logout" ∷ []) ≡ some both
unfolding merge_event_catalogs
merges = refl

merge_event_catalogs-Perm_example :
    Perm (items_of [] both) (all_items (fragment "" "login" ∷ fragment "Security" "logout" ∷ []))
merge_event_catalogs-Perm_example =
    merge_event_catalogs-Perm (fragment "" "login" ∷ fragment "Security" "logout" ∷ []) both merges

-- a text that the functions on texts leave alone
abbrev plain : Texts
plain = record {
  trim_space = λ s. s;
  to_lower = λ s. s;
  to_upper = λ s. s;
  first_byte = λ s. s;
  after_first_byte = λ s. "";
}

abbrev seen_both : Seen
seen_both = record {
  types = "security.auth.logout" ∷ "security.auth.login" ∷ [];
  names = "securityauthlogout" ∷ "securityauthlogin" ∷ [];
}

accepted : validate_event_catalog plain both ≡ some seen_both
unfolding validate_event_catalog any event_type_for event_constant_name
accepted = refl

abbrev message : String → I18nMessage
message name = record {
  name = name;
  description = "";
  params = [];
  translations = ("en", "Read") ∷ ("de", "Lesen") ∷ [];
}

abbrev messages : I18nModules
messages = more (node "access" "" no_modules (message "read" ∷ message "admin" ∷ [])) no_modules

abbrev seen_messages : SeenMessages
seen_messages = record {
  codes = "access.admin" ∷ "access.read" ∷ [];
  names = "accessadmin" ∷ "accessread" ∷ [];
  langs = "de" ∷ "en" ∷ "de" ∷ "en" ∷ [];
}

messages_accepted : validate_i18n_catalog plain messages ≡ some seen_messages
unfolding validate_i18n_catalog any i18n_code_for i18n_constant_name
messages_accepted = refl

validate_i18n_catalog_ok_example :
    Records code_of seen_messages.codes (items_of [] messages)
    × Records (constant_of plain) seen_messages.names (items_of [] messages)
    × IsSpoken "en" (items_of [] messages)
validate_i18n_catalog_ok_example =
    validate_i18n_catalog_ok plain messages seen_messages messages_accepted

i18n_constant_name-event_constant_name_example :
    i18n_constant_name plain ("account.auth" ∷ []) "sign_in"
    ≡ event_constant_name plain ("account.auth" ∷ []) "sign_in"
i18n_constant_name-event_constant_name_example =
    i18n_constant_name-event_constant_name plain ("account.auth" ∷ []) "sign_in"

abbrev catalog : PermissionCatalog
catalog = record {
  modules =
      record {
        id = "audit";
        description = "Audit";
        entries =
            record {
              resource = "logs";
              action = "read";
              description = "Read the log";
              i18n_code = "access.read";
            }
            ∷ [];
      }
      ∷ [];
  roles =
      record {
        id = "admin";
        description = "Administrator";
        i18n_code = "access.admin";
        permissions = "audit.logs.read" ∷ [];
      }
      ∷ [];
}

catalog_accepted : validate_permission_catalog catalog messages ≡ some tt
unfolding validate_permission_catalog any i18n_code_for
catalog_accepted = refl

validate_permission_catalog_ok_example :
    ((keys : List String) × Records key_of keys (declared catalog.modules))
    × All (IsSound (map code_of (items_of [] messages))) (declared catalog.modules)
    × All
        (IsGranted (map code_of (items_of [] messages)) (map key_of (declared catalog.modules)))
        catalog.roles
validate_permission_catalog_ok_example =
    validate_permission_catalog_ok catalog messages catalog_accepted

valid_segments :
    (valid_permission_segment "audit" ≡ true) × (valid_permission_segment "logs" ≡ true)
unfolding valid_permission_segment
valid_segments = (refl, refl)
