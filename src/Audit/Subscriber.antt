-- ===== src/Audit/Subscriber.antt =====
-- Handle (audit_service.go) as the subscriber of the event bus.
use mathlib.Core.List.{Mem, mem-append_left, mem-append_right, mem-cons_self}
use dinchy.Prelude.{
  ℕ, ◌+◌, String, ◌≡◌, ◌⊎◌, refl, sym, ap, ◌∙◌, subst, true, false, some, List, [], ◌∷◌, ◌++◌, any,
  All, ◌==◌, arith, Option-cases, Bool-cases, inl, inr,
}
use dinchy.Errors.{ok}
use dinchy.Db.{AuditLogRow}
use dinchy.Db.AuditLogs.{insert_audit_log}
use dinchy.World.{Env, World}
use dinchy.World.Effects.{statement, tick, generate_id, clock_now}
use dinchy.World.Inversion.{Result-cases}
use dinchy.Events.{
  Record, EventCodec, Broker, BusConfig, Handler, registered, process_subscriber,
  consumer_group_name,
}
use dinchy.Events.Delivery.{holds_id, process_group-IsAccounted}
use dinchy.Audit.{insert_params, store_log, handle}

module _ (codec : EventCodec) (env : Env) where
  store_log-rows :
      (event : Record codec.Map) (at : ℕ) (w : World)
      → ((store_log codec env event at w).1.db.audit_logs ≡ w.db.audit_logs)
        ⊎ ((row : AuditLogRow) × (insert_params codec event at ≡ ok row)
            × ((store_log codec env event at w).1.db.audit_logs ≡ w.db.audit_logs ++ row ∷ []))
  unfolding store_log statement insert_audit_log
  store_log-rows event at w = elim (Result-cases (insert_params codec event at)) [
    | inr (e, refused) ↦ inl (ground arith)
    | inl (row, made) ↦ elim (Bool-cases (env.fault w.step)) [
      | inl failed ↦ inl (ground arith)
      | inr sent ↦ elim (Bool-cases (any (λ r. r.id == row.id) w.db.audit_logs)) [
        | inl taken ↦ inl (ground arith)
        | inr fresh ↦ inr (row, made, ground arith)
      ]
    ]
  ]

  store_log-ok :
      (event : Record codec.Map) (at : ℕ) (w : World)
      → (store_log codec env event at w).0 ≡ ok tt
      → (row : AuditLogRow) × (insert_params codec event at ≡ ok row)
        × ((store_log codec env event at w).1.db.audit_logs ≡ w.db.audit_logs ++ row ∷ [])
  unfolding store_log statement insert_audit_log
  store_log-ok event at w h = elim (Result-cases (insert_params codec event at)) [
    | inr (e, refused) ↦ absurd (ground arith)
    | inl (row, made) ↦ (row, made, ground arith)
  ]

  -- what Handle sets before it stores
  abbrev pub IsStamped : Record codec.Map → String → ℕ → Type 0
  IsStamped event id at =
      ((event.id == "") ≡ false → id ≡ event.id) × ((t : ℕ) → event.created_at ≡ some t → at ≡ t)

  pub handle-stamps :
      (event : Record codec.Map) (w : World)
      → (id : String) × (at : ℕ) × (w' : World) × IsStamped event id at
        × (w'.db ≡ w.db)
        × (handle codec env event w ≡ store_log codec env (record event { id = id }) at w')
  unfolding handle generate_id clock_now
  handle-stamps event w = elim (Option-cases event.created_at) [
    | inl unset ↦ elim (Bool-cases (event.id == "")) [
      | inl new ↦ (
        env.new_id w.step,
        w.now + env.drift (w.step + 1),
        record (tick (tick w)) { now = w.now + env.drift (w.step + 1) },
        (
          λ (h : (event.id == "") ≡ false). absurd (ground arith),
          λ t (h : event.created_at ≡ some t). absurd (ground arith),
        ),
        refl,
        ground arith,
      )
      | inr given ↦ (
        event.id,
        w.now + env.drift w.step,
        record (tick w) { now = w.now + env.drift w.step },
        (λ h. refl, λ t (h : event.created_at ≡ some t). absurd (ground arith)),
        refl,
        ground arith,
      )
    ]
    | inr (t, set) ↦ elim (Bool-cases (event.id == "")) [
      | inl new ↦ (
        env.new_id w.step,
        t,
        tick w,
        (
          λ (h : (event.id == "") ≡ false). absurd (ground arith),
          λ u (h : event.created_at ≡ some u). ground arith,
        ),
        refl,
        ground arith,
      )
      | inr given ↦ (
        event.id,
        t,
        w,
        (λ h. refl, λ u (h : event.created_at ≡ some u). ground arith),
        refl,
        ground arith,
      )
    ]
  ]

  kept-store_log :
      (row : AuditLogRow) (event : Record codec.Map) (at : ℕ) (w : World)
      → Mem row w.db.audit_logs
      → Mem row (store_log codec env event at w).1.db.audit_logs
  kept-store_log row event at w h = elim (store_log-rows event at w) [
    | inl same ↦ subst (λ rows. Mem row rows) (sym same) h
    | inr (new, _, added) ↦ subst (λ rows. Mem row rows) (sym added) (mem-append_left (new ∷ []) h)
  ]

  kept-handle :
      (row : AuditLogRow) (event : Record codec.Map) (w : World)
      → Mem row w.db.audit_logs
      → Mem row (handle codec env event w).1.db.audit_logs
  kept-handle row event w h =
      let (id, at, w', _, same, run) = handle-stamps event w in
      subst (λ x. Mem row x.1.db.audit_logs) (sym run)
        (kept-store_log row (record event { id = id }) at w'
          (subst (λ d. Mem row d.audit_logs) (sym same) h))

  -- the audit log holds a row of the event, with the event's ID and time where these are set
  abbrev pub IsLogged : Record codec.Map → World → Type 0
  IsLogged event w =
      (id : String) × (at : ℕ) × (row : AuditLogRow) × IsStamped event id at
      × (insert_params codec (record event { id = id }) at ≡ ok row)
      × Mem row w.db.audit_logs

  handle-IsLogged :
      (event : Record codec.Map) (w : World)
      → (handle codec env event w).0 ≡ ok tt
      → IsLogged event (handle codec env event w).1
  handle-IsLogged event w h =
      let (id, at, w', stamped, same, run) = handle-stamps event w in
      let (row, made, stored) =
        store_log-ok (record event { id = id }) at w' (ap (λ x. x.0) (sym run) ∙ h) in
      (
        id,
        at,
        row,
        stamped,
        made,
        subst (λ rows. Mem row rows) (sym (ap (λ x. x.1.db.audit_logs) run ∙ stored))
            (mem-append_right w'.db.audit_logs mem-cons_self),
      )

  IsLogged-handle :
      (event other : Record codec.Map) (w : World)
      → IsLogged event w
      → IsLogged event (handle codec env other w).1
  IsLogged-handle event other w (id, at, row, stamped, made, stored) =
      (id, at, row, stamped, made, kept-handle row other w stored)

module _ (codec : EventCodec) (env : Env) (broker : Broker) (config : BusConfig) where
  -- Where the audit service is the subscriber of that name, a run loses no event, whatever fails
  -- and wherever it stops: each message that the group had not acknowledged before is still not
  -- acknowledged after it, or the audit log holds a row of the event that the message carries.
  pub process_subscriber-IsLogged :
      (subscribers : List (String × Handler env codec broker config)) (name : String)
      (s : broker.Stream) (w : World)
      → registered name subscribers ≡ some (handle codec env)
      → let group = consumer_group_name env codec broker config name in
        let after = process_subscriber env codec broker config subscribers name s w in
        All
          (λ m.
            (holds_id m.id (broker.outstanding group after.stream) ≡ true)
            ⊎ ((r : Record codec.Map) × (codec.decode_record m.payload ≡ some r)
                × IsLogged codec env r after.world))
          (broker.outstanding group s)
  unfolding process_subscriber
  process_subscriber-IsLogged subscribers name s w h =
      rw (process_subscriber, h)
        (process_group-IsAccounted env codec broker config (handle codec env)
          (consumer_group_name env codec broker config name) (IsLogged codec env)
          (IsLogged-handle codec env) (handle-IsLogged codec env) (λ r v stored. stored) s w)
