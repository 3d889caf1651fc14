-- ===== src/Manifest/Distinct.antt =====
-- ValidateEventCatalog (event.go): an accepted catalog gives each event a type and a name of its own.
use mathlib.Core.List.Perm
use dinchy.Prelude.{
  Texts, String, ◌≡◌, subst, true, false, not, ◌&&◌, some, List, [], ◌∷◌, guard, bind_some, ◌==◌,
}
use dinchy.Manifest.{EventDefinition, EventModules}
use dinchy.Manifest.Tree.{is_in, is_empty}
use dinchy.Manifest.Merge.{Placed, items_of}
use dinchy.Manifest.Naming.{event_type_for, event_constant_name}
use dinchy.Manifest.Validation.{
  Seen, validate_typed_fields, validate_event, validate_event_modules, validate_event_catalog,
}
use dinchy.Manifest.Walk.{Records, guard-not, Records-Perm, Records-cons, walk_modules-Keeps}

module _ (texts : Texts) where
  abbrev pub type_of : Placed EventDefinition → String
  type_of (path, e) = event_type_for texts path e.id

  abbrev pub name_of : Placed EventDefinition → String
  name_of (path, e) = event_constant_name texts path e.id

  -- what was seen are the types and the names of these events, all distinct
  abbrev pub IsRecord : Seen → List (Placed EventDefinition) → Type 0
  IsRecord seen events = Records type_of seen.types events × Records name_of seen.names events

  -- the three tests of an event that are about what was seen, and their result
  validate_event-cases :
      (path ids : List String) (e : EventDefinition) (seen seen' : Seen)
      → validate_event texts path ids e seen ≡ some seen'
      → (is_in (event_type_for texts path e.id) seen.types ≡ false)
        × (is_in (event_constant_name texts path e.id) seen.names ≡ false)
        × (record {
          types = event_type_for texts path e.id ∷ seen.types;
          names = event_constant_name texts path e.id ∷ seen.names;
        }
            ≡ seen')
  unfolding validate_event
  validate_event-cases path ids e seen seen' h =
      let (_, _, h₁) = bind_some (guard (not (e.id == "") && not (is_in e.id ids))) _ seen' h in
      let (_, _, h₂) =
        bind_some (guard (not (e.action == "") && not (e.outcome == ""))) _ seen' h₁ in
      let (_, type_test, h₃) =
        bind_some (guard (not (is_in (event_type_for texts path e.id) seen.types))) _ seen' h₂ in
      let (_, name_test, h₄) =
        bind_some (guard (not (is_in (event_constant_name texts path e.id) seen.names))) _ seen'
          h₃ in
      let (_, _, made) =
        bind_some
          (guard
            (validate_typed_fields e.metadata_keys [] && validate_typed_fields e.change_keys []))
          _ seen' h₄ in
      (
        guard-not (is_in (event_type_for texts path e.id) seen.types) type_test,
        guard-not (is_in (event_constant_name texts path e.id) seen.names) name_test,
        cc,
      )

  event-IsRecord :
      (path ids : List String) (e : EventDefinition) (seen seen' : Seen)
      (events : List (Placed EventDefinition))
      → IsRecord seen events
      → validate_event texts path ids e seen ≡ some seen'
      → IsRecord seen' ((path, e) ∷ events)
  event-IsRecord path ids e seen seen' events (types, names) h =
      let (new_type, new_name, made) = validate_event-cases path ids e seen seen' h in
      subst (λ s. IsRecord s ((path, e) ∷ events)) made
        (
          Records-cons type_of (path, e) seen.types events new_type types,
          Records-cons name_of (path, e) seen.names events new_name names,
        )

  -- In a catalog that ValidateEventCatalog accepts, the event types are the types of exactly the
  -- events that the nested modules hold, and no two are the same; so are the generated names.
  pub validate_event_catalog-IsRecord :
      (ms : EventModules) (seen : Seen)
      → validate_event_catalog texts ms ≡ some seen
      → IsRecord seen (items_of [] ms)
  unfolding validate_event_catalog validate_event_modules
  validate_event_catalog-IsRecord ms seen h =
      let (_, _, h') = bind_some (guard (not (is_empty ms))) _ seen h in
      walk_modules-Keeps (λ e. e.id) (λ _ _. true) (validate_event texts) IsRecord
        (λ s es fs p (types, names).
          (Records-Perm type_of s.types es fs p types, Records-Perm name_of s.names es fs p names))
        event-IsRecord ms [] [] (record { types = []; names = [] }) seen []
        ((tt, Perm.refl []), (tt, Perm.refl [])) h'
