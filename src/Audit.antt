-- ===== src/Audit.antt =====
-- internal/features/audit: the subscriber that stores events as audit logs, and their listing
-- (audit_service.go, audit_helpers.go, audit_type.go, handler.go).
pub mod RoundTrip
pub mod Listing
pub mod Subscriber
pub mod Redelivery
use dinchy.Prelude.{
  ℕ, ◌%◌, ◌^◌, leb, String, Bool, true, false, not, Option, none, some, List, [], ◌∷◌, ◌==◌,
  if◌then◌else◌,
}
use dinchy.Errors.{
  GoError, failure, app, caused, unauthorized, forbidden, unprocessable_entity, Result, ok, err,
  annotate, internal_because,
}
use dinchy.Errors.Codes.{server_internal_error, validation_failed, unauthenticated}
use dinchy.Permission.{audit_logs_read}
use dinchy.Db.{AuditLogRow}
use dinchy.Db.AuditLogs.{ListAuditLogsParams, insert_audit_log, list_audit_logs}
use dinchy.World.{Env}
use dinchy.World.Exec.{Exec, pure, raise, fail_as, some_or, require, ◌>>=◌, ◌>>◌}
use dinchy.World.Effects.{clock_now, generate_id, select, statement, tick}
use dinchy.Session.{Principal, has_permission}
use dinchy.Events.{Record, EventCodec}

-- sqltype.Text and sqltype.TextValue
abbrev pub nullable_text : String → Option String
nullable_text value = if value == "" then none else some value

abbrev pub text_of : Option String → String
text_of none = ""
text_of (some value) = value

abbrev pub from_result : {A : Type 0} → Result A → Exec A
from_result r w = (r, w)

abbrev pub then_result : {A B : Type 0} → Result A → (A → Result B) → Result B
then_result (ok a) f = f a
then_result (err e) f = err e

-- ListInput and ListIn: `before` is none where the time is zero
pub record ListInput : Type 0 where
  pub category : String
  pub subcategory : String
  pub event_type : String
  pub actor_user_id : String
  pub target_type : String
  pub target_id : String
  pub outcome : String
  pub before : Option ℕ
  pub limit : ℕ

module _ (codec : EventCodec) where
  abbrev or_failure : {A : Type 0} → GoError → Option A → Result A
  or_failure e none = err e
  or_failure e (some a) = ok a

  unfoldable pub marshal_map : codec.Map → Result String
  marshal_map m = or_failure (internal_because server_internal_error failure) (codec.marshal m)

  unfoldable pub unmarshal_map : String → Result codec.Map
  unmarshal_map raw =
      if raw == ""
      then ok codec.empty
      else or_failure (internal_because server_internal_error failure) (codec.unmarshal raw)

  -- id.Parse, and id.NullUUID(value, value != "")
  unfoldable pub parse_id : String → Result String
  parse_id value = or_failure failure (codec.parse_uuid value)

  unfoldable pub null_uuid : String → Result (Option String)
  unfolding parse_id
  null_uuid value = if value == "" then ok none else then_result (parse_id value) λ u. ok (some u)

  abbrev row_of :
      Record codec.Map → String → String → String → Option String → Option String → ℕ → AuditLogRow
  row_of event metadata changes id actor organization created_at = record {
    id = id;
    category = event.category;
    subcategory = event.subcategory;
    event_type = event.event_type;
    action = event.action;
    outcome = event.outcome;
    actor_user_id = actor;
    actor_organization_id = organization;
    target_type = event.target_type;
    target_id = event.target_id;
    target_display = event.target_display;
    request_id = nullable_text event.request_id;
    trace_id = nullable_text event.trace_id;
    span_id = nullable_text event.span_id;
    ip_address = event.ip_address;
    user_agent = event.user_agent;
    metadata_json = metadata;
    changes_json = changes;
    created_at = created_at;
  }

  -- insertParams, at the time that Handle has made sure of
  unfoldable pub insert_params : Record codec.Map → ℕ → Result AuditLogRow
  unfolding marshal_map parse_id null_uuid
  insert_params event created_at = then_result (marshal_map event.metadata) λ metadata.
      then_result (marshal_map event.changes) λ changes. then_result (parse_id event.id) λ id.
        then_result (null_uuid event.actor_user_id) λ actor.
          then_result (null_uuid event.actor_organization_id)
            λ organization. ok (row_of event metadata changes id actor organization created_at)

  unfoldable pub log_from_row : AuditLogRow → Result (Record codec.Map)
  unfolding unmarshal_map
  log_from_row row = then_result (unmarshal_map row.metadata_json) λ metadata.
      then_result (unmarshal_map row.changes_json) λ changes. ok (record {
        id = row.id;
        event_type = row.event_type;
        category = row.category;
        subcategory = row.subcategory;
        action = row.action;
        outcome = row.outcome;
        actor_user_id = text_of row.actor_user_id;
        actor_organization_id = text_of row.actor_organization_id;
        target_type = row.target_type;
        target_id = row.target_id;
        target_display = row.target_display;
        request_id = text_of row.request_id;
        trace_id = text_of row.trace_id;
        span_id = text_of row.span_id;
        ip_address = row.ip_address;
        user_agent = row.user_agent;
        metadata = metadata;
        changes = changes;
        created_at = some row.created_at;
      })

  unfoldable pub logs_from_rows : List AuditLogRow → Result (List (Record codec.Map))
  unfolding log_from_row
  logs_from_rows [] = ok []
  logs_from_rows (row ∷ rows) =
      let rest = logs_from_rows rows in
      then_result (log_from_row row) λ log. then_result rest λ logs. ok (log ∷ logs)

  module _ (env : Env) where
    abbrev given_or : {A : Type 0} → Exec A → Option A → Exec A
    given_or m none = m
    given_or m (some a) = pure a

    -- Handle, of an event whose ID and time are set
    unfoldable pub store_log : Record codec.Map → ℕ → Exec (Unit {0})
    unfolding insert_params
    store_log event created_at = do
      row ← from_result (insert_params event created_at)
      fail_as annotate (statement env (insert_audit_log row))

    -- Service.Handle
    unfoldable pub handle : Record codec.Map → Exec (Unit {0})
    unfolding store_log
    handle event = do
      id ← if event.id == "" then generate_id env else pure event.id
      created_at ← given_or (clock_now env) event.created_at
      store_log (record event { id = id }) created_at

    abbrev bad_actor : GoError → GoError
    bad_actor cause = caused unprocessable_entity validation_failed cause

    abbrev actor_filter : String → Result (Option String) → Exec (Option String)
    actor_filter value (ok actor) = pure actor
    actor_filter value (err e) = raise (bad_actor e)

    -- int32(in.Limit), of a limit that is not negative, as its 32 bits
    abbrev pub int32 : ℕ → ℕ
    int32 limit = limit % 2 ^ 32

    abbrev pub list_params : ListInput → Option String → ListAuditLogsParams
    list_params input actor = record {
      category = input.category;
      subcategory = input.subcategory;
      event_type = input.event_type;
      actor_user_id_filter = input.actor_user_id;
      actor_user_id = actor;
      target_type = input.target_type;
      target_id = input.target_id;
      outcome = input.outcome;
      before = input.before;
      limit = int32 input.limit;
    }

    -- the query, which PostgreSQL refuses for a negative LIMIT
    unfoldable pub query_rows : ListAuditLogsParams → Exec (List AuditLogRow)
    query_rows params w =
        if leb (2 ^ 31) params.limit
        then (err failure, tick w)
        else select env (list_audit_logs env.before params) w

    -- Service.List; the database orders by created_at, then by id
    unfoldable pub list_logs : ListInput → Exec (List (Record codec.Map))
    unfolding null_uuid logs_from_rows
    list_logs input = do
      actor ← actor_filter input.actor_user_id (null_uuid input.actor_user_id)
      rows ← query_rows (list_params input actor)
      from_result (logs_from_rows rows)

    abbrev may_read : Option Principal → Exec (Unit {0})
    may_read none = raise (app unauthorized unauthenticated)
    may_read (some p) =
        require (has_permission p.permissions audit_logs_read) (app forbidden unauthenticated)

    -- API.list, whose LogOut copies each field of a record
    unfoldable pub api_list : Option Principal → ListInput → Exec (List (Record codec.Map))
    unfolding list_logs
    api_list principal input = do may_read principal; list_logs input
