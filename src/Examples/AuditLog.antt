-- ===== src/Examples/AuditLog.antt =====
-- The theorems on the event bus and the audit log at a concrete stream.
use mathlib.Core.List.{Perm}
use dinchy.Prelude.{
  ◌<◌, ◌≤◌, ◌^◌, ◌≡◌, ◌≢◌, ◌⊎◌, refl, String, Bool, true, false, not, Option, none, some, List, [],
  ◌∷◌, map, length, any, keep_if, All, All-map, is_some, ◌==◌, eq_refl, eq_iff, inl, inr,
  Bool-cases, arith, ap, All-zip,
}
use dinchy.Errors.{ok}
use dinchy.Db.{AuditLogRow}
use dinchy.Db.AuditLogs.{is_listed, take, insert_audit_log, list_audit_logs}
use dinchy.Db.AuditLogs.Order.{IsNewestFirst}
use dinchy.World.{World}
use dinchy.Events.{
  Record, EventCodec, Message, Broker, BusConfig, Handler, process_group, process_subscriber,
  run_worker, registered,
}
use dinchy.Events.Delivery.{holds_id}
use dinchy.Events.Drain.{NoErrors, run_worker-drains}
use dinchy.Audit.{
  ListInput, insert_params, log_from_row, logs_from_rows, list_params, handle, api_list, query_rows,
  null_uuid,
}
use dinchy.Audit.RoundTrip.{log_from_row-insert_params}
use dinchy.Audit.Listing.{api_list_ok}
use dinchy.Audit.Subscriber.{IsLogged, process_subscriber-IsLogged}
use dinchy.Audit.Redelivery.{process_group_again}
use dinchy.Session.{Principal, has_permission}
use dinchy.Permission.{audit_logs_read}
use dinchy.World.Effects.{select, statement, clock_now, generate_id}
use dinchy.Examples.{env, world}

-- The record of a payload, which is its ID here. A JSON object is nil or empty.
abbrev record_of : String → Record Bool
record_of id = record {
  id = id;
  event_type = "logout.succeeded";
  category = "account";
  subcategory = "auth";
  action = "logout";
  outcome = "success";
  actor_user_id = "ada";
  actor_organization_id = "";
  target_type = "session";
  target_id = "token";
  target_display = "Ada";
  request_id = "request";
  trace_id = "";
  span_id = "";
  ip_address = "ip";
  user_agent = "agent";
  metadata = true;
  changes = false;
  created_at = some 7;
}

abbrev json : Bool → String
json true = "{}"
json false = "null"

read-json : (m : Bool) (t : String) → some (json m) ≡ some t → some (t == "{}") ≡ some m
read-json true t h = ground (arith, eq_iff t "{}")
read-json false t h = ground (arith, eq_iff t "{}", eq_iff "null" "{}")

json-ne-empty : (m : Bool) (t : String) → some (json m) ≡ some t → t ≢ ""
json-ne-empty true t h empty = ground (arith, eq_iff "{}" "")
json-ne-empty false t h empty = ground (arith, eq_iff "null" "")

abbrev codec : EventCodec
codec = record {
  Map = Bool;
  empty = true;
  marshal = λ m. some (json m);
  unmarshal = λ t. some (t == "{}");
  unmarshal-marshal = read-json;
  marshal-ne-empty = json-ne-empty;
  encode_record = λ r. some r.id;
  decode_record = λ payload. some (record_of payload);
  parse_uuid = λ value. some value;
}

abbrev message : String → Message
message id = record { id = id; payload = id }

keep_if-map :
    (id : String) (ids : List String)
    → map message (keep_if (λ i. not (i == id)) ids)
      ≡ keep_if (λ m. not (m.id == id)) (map message ids)
unfolding keep_if
keep_if-map id [] = refl
keep_if-map id (i ∷ ids) = elim (Bool-cases (i == id)) [
  | inl acked ↦ rw acked (keep_if-map id ids)
  | inr other ↦ rw (other, keep_if-map id ids) refl
]

-- what is read is among the messages of the group
present :
    (ids : List String)
    → All (λ d. 0 < length (keep_if (λ m. m.id == d.id) (map message ids))) (map message ids)
unfolding keep_if
present [] = tt
present (i ∷ ids) = (
  rw (eq_refl i) (omega arith),
  All-map (map message ids)
      (λ (d : Message) (h : 0 < length (keep_if (λ m. m.id == d.id) (map message ids))).
        ground (arith))
      (present ids),
)

one_payload :
    (j : String) (ids : List String) → All (λ m. m.id ≡ j → m ≡ message j) (map message ids)
one_payload j [] = tt
one_payload j (i ∷ ids) = (λ same. ap message same, one_payload j ids)

one_payload_each :
    (js ids : List String)
    → All (λ d. All (λ m. m.id ≡ d.id → m ≡ d) (map message ids)) (map message js)
one_payload_each [] ids = tt
one_payload_each (j ∷ js) ids = (one_payload j ids, one_payload_each js ids)

-- a group that is given all of its messages at each read
abbrev broker : Broker
broker = record {
  Stream = List String;
  outstanding = λ g s. map message s;
  add = λ payload s. payload ∷ s;
  read_group = λ g n c s. (map message s, s);
  ack = λ g id s. keep_if (λ i. not (i == id)) s;
  pass = λ d s. s;
  ready_in = λ g c s. 0;
  outstanding-read_group = λ g n c s. refl;
  outstanding-ack = λ g id s. keep_if-map id s;
  outstanding-pass = λ g d s. refl;
  read_group-outstanding =
      λ g n c s. All-zip _ _ (map message s) (present s) (one_payload_each s s);
  read_group-ne-nil = λ g n c s sized waiting ready. waiting;
  read_group-nil = λ g n c s nothing. refl;
  ready_in-le = λ g c s. omega arith;
  ready_in-pass = λ g c d s. omega arith;
}

abbrev config : BusConfig
config = record {
  consumer_group_prefix = "dinchy";
  batch_size = 10;
  claim_min_idle = 120;
  worker_interval = 60;
}

abbrev event : Record Bool
event = record_of "event-1"

abbrev event_row : AuditLogRow
event_row = record {
  id = "event-1";
  category = "account";
  subcategory = "auth";
  event_type = "logout.succeeded";
  action = "logout";
  outcome = "success";
  actor_user_id = some "ada";
  actor_organization_id = none;
  target_type = "session";
  target_id = "token";
  target_display = "Ada";
  request_id = some "request";
  trace_id = none;
  span_id = none;
  ip_address = "ip";
  user_agent = "agent";
  metadata_json = "{}";
  changes_json = "null";
  created_at = 7;
}

event-row : insert_params codec event 7 ≡ ok event_row
unfolding insert_params
event-row = refl

log_from_row-insert_params_example : log_from_row codec event_row ≡ ok event
log_from_row-insert_params_example =
    log_from_row-insert_params codec event 7 event_row refl (inr refl) (inl refl) event-row

-- the state after the event was stored
abbrev logged : World
logged = record world { db = record world.db { audit_logs = event_row ∷ [] } }

abbrev reader : Principal
reader = record {
  session_id = "token";
  user_id = "ada";
  email = "ada@example.com";
  display_name = "Ada";
  organization_id = "org";
  organization_name = "Default";
  organization_slug = "default";
  role = "admin";
  permissions = audit_logs_read ∷ [];
  idle_expires_at = 150;
  expires_at = 190;
  revoked_at = none;
}

abbrev by_ada : ListInput
by_ada = record {
  category = "";
  subcategory = "auth";
  event_type = "";
  actor_user_id = "ada";
  target_type = "";
  target_id = "";
  outcome = "";
  before = some 9;
  limit = 50;
}

lists : (api_list codec env (some reader) by_ada logged).0 ≡ ok (event ∷ [])
unfolding api_list query_rows select list_audit_logs has_permission keep_if
lists = refl

api_list_ok_example :
    (p : Principal) × (actor : Option String) × (rows : List AuditLogRow) × (◌≡◌
      {A = Option Principal}
      (some reader)
      (some p))
    × (has_permission p.permissions audit_logs_read ≡ true)
    × (null_uuid codec "ada" ≡ ok actor)
    × Perm rows (keep_if (is_listed (list_params codec env by_ada actor)) logged.db.audit_logs)
    × IsNewestFirst rows
    × (logs_from_rows codec (take 50 rows) ≡ ok (event ∷ []))
    × (50 < 2 ^ 31)
    × (50 ≤ 200 → logs_from_rows codec (take 50 rows) ≡ ok (event ∷ []))
api_list_ok_example = api_list_ok codec env (some reader) by_ada logged (event ∷ []) lists

abbrev stream : List String
stream = "event-1" ∷ "event-2" ∷ []

abbrev subscribers : List (String × Handler env codec broker config)
subscribers = ("audit", handle codec env) ∷ []

finds_audit : registered "audit" subscribers ≡ some (handle codec env)
unfolding registered
finds_audit = refl

process_subscriber-IsLogged_example :
    let after = process_subscriber env codec broker config subscribers "audit" stream world in
    All
      (λ m.
        (holds_id m.id (map message after.stream) ≡ true)
        ⊎ ((r : Record Bool) × (◌≡◌ {A = Option (Record Bool)}
              (some (record_of m.payload))
              (some r))
            × IsLogged codec env r after.world))
      (map message stream)
process_subscriber-IsLogged_example =
    process_subscriber-IsLogged codec env broker config subscribers "audit" stream world finds_audit

already : any (λ row. row.id == "event-1") logged.db.audit_logs ≡ true
unfolding any
already = refl

process_group_again_example :
    let after =
      process_group env codec broker config (handle codec env) "dinchy:audit" stream logged in
    (after.processed ≡ 0)
    × (is_some after.error ≡ true)
    × (map message after.stream ≡ map message stream)
    × (after.world.db.audit_logs ≡ logged.db.audit_logs)
process_group_again_example =
    process_group_again codec env broker config "dinchy:audit" (message "event-1")
      (message "event-2" ∷ []) event stream logged refl refl refl refl already

no_errors : NoErrors env codec broker config (handle codec env) "dinchy:audit" 6 stream world
unfolding process_group handle statement insert_audit_log keep_if any clock_now generate_id
no_errors = (refl, (refl, (refl, (refl, (refl, (refl, tt))))))

run_worker-drains_example :
    map message
      (run_worker env codec broker config (handle codec env) "dinchy:audit" 6 stream world).0
    ≡ []
run_worker-drains_example =
    run_worker-drains env codec broker config (handle codec env) "dinchy:audit" 2 6 stream world
      (omega arith) (omega arith) no_errors (omega arith)
