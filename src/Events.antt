-- ===== src/Events.antt =====
-- internal/platform/events: the record of an event, its publication to a Redis stream (bus.go), and
-- the processing of a subscriber's batch. Redis, encoding/json and google/uuid are the parameters
-- `Broker` and `EventCodec`, with the laws that they document.
pub mod Delivery
pub mod Drain
use Prim.Native.String.{◌++◌}
use dinchy.Prelude.{
  ℕ, zero, suc, ◌+◌, String, Bool, true, false, not, ◌≡◌, ◌≢◌, Option, none, some, List, [], ◌∷◌,
  length, keep_if, All, ◌<◌, ◌≤◌, ◌-◌, ◌==◌, if◌then◌else◌,
}
use dinchy.Errors.{GoError, failure, Result, ok, err, internal_because, annotate}
use dinchy.Errors.Codes.{server_internal_error}
use dinchy.World.{Env, World, Envelope}
use dinchy.World.Exec.{Exec}
use dinchy.World.Effects.{clock_now, generate_id, tick}

-- Record, with the type of its two JSON objects; none is the zero time
pub record Record (Map : Type 0) : Type 0 where
  pub id : String
  pub event_type : String
  pub category : String
  pub subcategory : String
  pub action : String
  pub outcome : String
  pub actor_user_id : String
  pub actor_organization_id : String
  pub target_type : String
  pub target_id : String
  pub target_display : String
  pub request_id : String
  pub trace_id : String
  pub span_id : String
  pub ip_address : String
  pub user_agent : String
  pub metadata : Map
  pub changes : Map
  pub created_at : Option ℕ

-- The part of Definition that a record takes over.
pub record Definition : Type 0 where
  pub category : String
  pub subcategory : String
  pub action : String
  pub outcome : String

-- What the interface Event and its envelope give; `id` and `created_at` may be unset.
pub record BusEvent (Map : Type 0) : Type 0 where
  pub event_type : String
  pub id : String
  pub envelope : Envelope
  pub metadata : Map
  pub changes : Map
  pub created_at : Option ℕ

-- `Map` are the JSON objects (map[string]any as json.Unmarshal makes them, nil included).
-- `parse_uuid` gives a UUID as its canonical string.
pub record EventCodec : Type 1 where
  pub Map : Type 0
  pub empty : Map
  pub marshal : Map → Option String
  pub unmarshal : String → Option Map
  pub unmarshal-marshal : (m : Map) (t : String) → marshal m ≡ some t → unmarshal t ≡ some m
  pub marshal-ne-empty : (m : Map) (t : String) → marshal m ≡ some t → t ≢ ""
  pub encode_record : Record Map → Option String
  pub decode_record : String → Option (Record Map)
  pub parse_uuid : String → Option String

-- A message of the stream: its entry ID and the value under "payload".
pub record Message : Type 0 where
  pub id : String
  pub payload : String

abbrev pub same_id : Message → Message → Bool
same_id a b = a.id == b.id

-- A Redis stream with its consumer groups. `outstanding` are the entries that a group has not
-- acknowledged: those it has not been given yet, and its pending list. `read_group` gives at most a
-- number of them: new ones, and those that have been pending for a time (XREADGROUP with CLAIM); it
-- marks them as pending, and acknowledges none. `pass` is the passing of time. `ready_in` is how long
-- it takes until a read with that time for CLAIM finds an outstanding entry: nothing if there is a
-- new one, and never longer than the time for CLAIM, since only a read starts an entry's time again.
pub record Broker : Type 1 where
  pub Stream : Type 0
  pub outstanding : String → Stream → List Message
  pub add : String → Stream → Stream
  pub read_group : String → ℕ → ℕ → Stream → List Message × Stream
  pub ack : String → String → Stream → Stream
  pub pass : ℕ → Stream → Stream
  pub ready_in : String → ℕ → Stream → ℕ
  pub outstanding-read_group :
      (g : String) (n c : ℕ) (s : Stream) → outstanding g (read_group g n c s).1 ≡ outstanding g s
  pub outstanding-ack :
      (g id : String) (s : Stream)
      → outstanding g (ack g id s) ≡ keep_if (λ m. not (m.id == id)) (outstanding g s)
  pub outstanding-pass :
      (g : String) (d : ℕ) (s : Stream) → outstanding g (pass d s) ≡ outstanding g s
  -- what is read is outstanding, and an entry ID names one entry
  pub read_group-outstanding :
      (g : String) (n c : ℕ) (s : Stream)
      → All
          (λ d.
            (0 < length (keep_if (λ m. m.id == d.id) (outstanding g s)))
            × All (λ m. m.id ≡ d.id → m ≡ d) (outstanding g s))
          (read_group g n c s).0
  pub read_group-ne-nil :
      (g : String) (n c : ℕ) (s : Stream)
      → 0 < n
      → outstanding g s ≢ []
      → ready_in g c s ≡ 0
      → (read_group g n c s).0 ≢ []
  -- a read that finds nothing changes nothing
  pub read_group-nil :
      (g : String) (n c : ℕ) (s : Stream) → (read_group g n c s).0 ≡ [] → (read_group g n c s).1 ≡ s
  pub ready_in-le : (g : String) (c : ℕ) (s : Stream) → ready_in g c s ≤ c
  pub ready_in-pass :
      (g : String) (c d : ℕ) (s : Stream) → ready_in g c (pass d s) ≤ ready_in g c s - d

pub record BusConfig : Type 0 where
  pub consumer_group_prefix : String
  pub batch_size : ℕ
  pub claim_min_idle : ℕ
  pub worker_interval : ℕ

abbrev internal_failure : GoError
internal_failure = internal_because server_internal_error failure

-- newRecord
unfoldable pub new_record : {Map : Type 0} → BusEvent Map → Definition → Record Map
new_record event definition = record {
  id = event.id;
  event_type = event.event_type;
  category = definition.category;
  subcategory = definition.subcategory;
  action = definition.action;
  outcome = definition.outcome;
  actor_user_id = event.envelope.actor_user_id;
  actor_organization_id = event.envelope.actor_organization_id;
  target_type = event.envelope.target_type;
  target_id = event.envelope.target_id;
  target_display = event.envelope.target_display;
  request_id = event.envelope.request_id;
  trace_id = event.envelope.trace_id;
  span_id = event.envelope.span_id;
  ip_address = event.envelope.ip_address;
  user_agent = event.envelope.user_agent;
  metadata = event.metadata;
  changes = event.changes;
  created_at = event.created_at;
}

-- the registries of a Service, the entries registered last in front
module _ {ℓ} {A : Type ℓ} where
  unfoldable pub registered : String → List (String × A) → Option A
  registered name [] = none
  registered name ((n, a) ∷ rest) = if n == name then some a else registered name rest

module _ (env : Env) (codec : EventCodec) (broker : Broker) (config : BusConfig) where
  unfoldable pub id_or_new : String → Exec String
  id_or_new id w = if id == "" then generate_id env w else (ok id, w)

  unfoldable pub time_or_now : Option ℕ → Exec ℕ
  time_or_now none w = clock_now env w
  time_or_now (some at) w = (ok at, w)

  -- XADD, which also drops what is older than the retention window
  unfoldable pub add_to_stream :
      String → broker.Stream × World → Result (Unit {0}) × (broker.Stream × World)
  add_to_stream payload (s, w) =
      if env.fault w.step
      then (err (annotate failure), (s, tick w))
      else (ok tt, (broker.add payload s, tick w))

  publish_encoded :
      Option String → broker.Stream × World → Result (Unit {0}) × (broker.Stream × World)
  unfolding add_to_stream
  publish_encoded none at = (err internal_failure, at)
  publish_encoded (some payload) at = add_to_stream payload at

  publish_stamped :
      Record codec.Map
      → Result String × World
      → broker.Stream
      → Result (Unit {0}) × (broker.Stream × World)
  unfolding time_or_now publish_encoded
  publish_stamped r (err e, w) s = (err e, (s, w))
  publish_stamped r (ok id, w) s =
      let (at, w') = time_or_now r.created_at w in
      elim at [
        | err e ↦ (err e, (s, w'))
        | ok now ↦
            publish_encoded (codec.encode_record (record r { id = id; created_at = some now }))
              (s, w')
      ]

  -- Service.Publish
  unfoldable pub publish :
      List (String × Definition)
      → BusEvent codec.Map
      → broker.Stream × World
      → Result (Unit {0}) × (broker.Stream × World)
  unfolding registered new_record id_or_new publish_stamped
  publish definitions event (s, w) = elim (registered event.event_type definitions) [
    | none ↦ (err internal_failure, (s, w))
    | some definition ↦
        let r = new_record event definition in publish_stamped r (id_or_new r.id w) s
  ]

  abbrev pub Handler : Type 0
  Handler = Record codec.Map → Exec (Unit {0})

  -- What ProcessSubscriber returns, both its results, with the state that it leaves.
  pub record Processed : Type 0 where
    pub processed : ℕ
    pub error : Option GoError
    pub stream : broker.Stream
    pub world : World

  abbrev stopped : ℕ → GoError → broker.Stream → World → Processed
  stopped n e s w = record { processed = n; error = some e; stream = s; world = w }

  -- consumerGroupName
  abbrev pub consumer_group_name : String → String
  consumer_group_name name = config.consumer_group_prefix ++ ":" ++ name

  -- one message: decode, Handle, XACK
  unfoldable pub process_message :
      Handler
      → String
      → Message
      → broker.Stream
      → World
      → Result (Unit {0}) × (broker.Stream × World)
  process_message handle group m s w = elim (codec.decode_record m.payload) [
    | none ↦ (err internal_failure, (s, w))
    | some r ↦
        let (done, w') = handle r w in
        elim done [
          | err e ↦ (err (annotate e), (s, w'))
          | ok _ ↦
              if env.fault w'.step
              then (err (annotate failure), (s, tick w'))
              else (ok tt, (broker.ack group m.id s, tick w'))
        ]
  ]

  -- the loop over the batch
  unfoldable pub process_messages :
      Handler → String → List Message → ℕ → broker.Stream → World → Processed
  unfolding process_message
  process_messages handle group [] n s w = record {
    processed = n;
    error = none;
    stream = s;
    world = w;
  }
  process_messages handle group (m ∷ ms) n s w =
      let (done, (s', w')) = process_message handle group m s w in
      elim done [
        | err e ↦ stopped n e s' w'
        | ok _ ↦ process_messages handle group ms (n + 1) s' w'
      ]

  unfoldable pub process_group : Handler → String → broker.Stream → World → Processed
  unfolding process_messages
  process_group handle group s w =
      let (batch, s') = broker.read_group group config.batch_size config.claim_min_idle s in
      if env.fault w.step
      then stopped 0 (annotate failure) s (tick w)
      else process_messages handle group batch 0 s' (tick w)

  -- Service.ProcessSubscriber. An empty batch is goredis.Nil, which is no error.
  unfoldable pub process_subscriber :
      List (String × Handler) → String → broker.Stream → World → Processed
  unfolding registered process_group
  process_subscriber subscribers name s w = elim (registered name subscribers) [
    | none ↦ stopped 0 internal_failure s w
    | some handle ↦ process_group handle (consumer_group_name name) s w
  ]

  -- The job of a subscriber (RegisterWorkers): the first run at once, and the next ones each a
  -- WorkerInterval after the one before. The scheduler goes on after a run that failed.
  unfoldable pub run_worker : Handler → String → ℕ → broker.Stream → World → broker.Stream × World
  unfolding process_group
  run_worker handle group zero s w = (s, w)
  run_worker handle group (suc k) s w =
      let after = process_group handle group s w in
      run_worker handle group k (broker.pass config.worker_interval after.stream) after.world
