-- ===== src/Audit/Redelivery.antt =====
-- Handle (audit_service.go) on an event that it has stored before, as the bus delivers one again
-- whose acknowledgement failed (bus.go).
use dinchy.Prelude.{
  ℕ, String, ◌≡◌, refl, sym, ap, subst, ◌∙◌, true, false, some, List, ◌∷◌, any, is_some, ◌==◌,
  arith, Bool-cases, inl, inr,
}
use dinchy.Errors.{GoError, err, annotate}
use dinchy.Db.AuditLogs.{insert_audit_log}
use dinchy.World.{Env, World}
use dinchy.World.Effects.{statement, tick}
use dinchy.World.Inversion.{Result-cases}
use dinchy.Events.{
  Record, EventCodec, Message, Broker, BusConfig, process_message, process_messages, process_group,
}
use dinchy.Audit.{insert_params, store_log, handle}
use dinchy.Audit.RoundTrip.{IsCanonical, insert_params-id}
use dinchy.Audit.Subscriber.{handle-stamps}

module _ (codec : EventCodec) (env : Env) where
  store_log_again :
      (event : Record codec.Map) (at : ℕ) (w : World)
      → IsCanonical codec event.id
      → any (λ row. row.id == event.id) w.db.audit_logs ≡ true
      → (e : GoError) × ((store_log codec env event at w).0 ≡ err e)
  unfolding store_log statement insert_audit_log
  store_log_again event at w canonical taken = elim (Result-cases (insert_params codec event at)) [
    | inr (e, refused) ↦ (e, ground arith)
    | inl (row, made) ↦
        let taken' : any (λ r. r.id == row.id) w.db.audit_logs ≡ true =
          rw (insert_params-id codec event at row canonical made) taken in
        elim (Result-cases (store_log codec env event at w).0) [
          | inr failed ↦ failed
          | inl (_, done) ↦ absurd (ground arith)
        ]
  ]

  -- an event with an ID that is in the table is refused
  handle_again :
      (event : Record codec.Map) (w : World)
      → (event.id == "") ≡ false
      → IsCanonical codec event.id
      → any (λ row. row.id == event.id) w.db.audit_logs ≡ true
      → (e : GoError) × ((handle codec env event w).0 ≡ err e)
  handle_again event w given canonical taken =
      let (id, at, w', stamped, same, run) = handle-stamps codec env event w in
      let same_id : event.id ≡ id = sym (stamped.0 given) in
      let (e, refused) =
        store_log_again (record event { id = id }) at w'
          (subst (λ i. IsCanonical codec i) same_id canonical)
          (subst (λ i. any (λ row. row.id == i) w'.db.audit_logs ≡ true) same_id (rw same taken)) in
      (e, ap (λ x. x.0) run ∙ refused)

  store_log_refused :
      (event : Record codec.Map) (at : ℕ) (w : World) {e : GoError}
      → (store_log codec env event at w).0 ≡ err e
      → (store_log codec env event at w).1.db.audit_logs ≡ w.db.audit_logs
  unfolding store_log statement insert_audit_log
  store_log_refused event at w refused = elim (Result-cases (insert_params codec event at)) [
    | inr (e, failed) ↦ ground arith
    | inl (row, made) ↦ ground arith
  ]

  -- a refused event leaves the audit log
  audit_logs-handle :
      (event : Record codec.Map) (w : World) {e : GoError}
      → (handle codec env event w).0 ≡ err e
      → (handle codec env event w).1.db.audit_logs ≡ w.db.audit_logs
  audit_logs-handle event w refused =
      let (id, at, w', stamped, same, run) = handle-stamps codec env event w in
      ap (λ x. x.1.db.audit_logs) run
      ∙ store_log_refused (record event { id = id }) at w' (ap (λ x. x.0) (sym run) ∙ refused)
      ∙ ap (λ d. d.audit_logs) same

  module _ (broker : Broker) (config : BusConfig) where
    refused_message :
        (group : String) (m : Message) (event : Record codec.Map) (s : broker.Stream) (w : World)
        {e : GoError}
        → codec.decode_record m.payload ≡ some event
        → (handle codec env event w).0 ≡ err e
        → process_message env codec broker config (handle codec env) group m s w
          ≡ (err (annotate e), (s, (handle codec env event w).1))
    unfolding process_message
    refused_message group m event s w decoded refused = rw (process_message, decoded, refused) refl

    blocked_batch :
        (group : String) (m : Message) (ms : List Message) (event : Record codec.Map)
        (s : broker.Stream) (w : World) {e : GoError}
        → codec.decode_record m.payload ≡ some event
        → (handle codec env event w).0 ≡ err e
        → let after =
            process_messages env codec broker config (handle codec env) group (m ∷ ms) 0 s w in
          (after.processed ≡ 0)
          × (is_some after.error ≡ true)
          × (after.stream ≡ s)
          × (after.world.db.audit_logs ≡ (handle codec env event w).1.db.audit_logs)
    unfolding process_messages
    blocked_batch group m ms event s w decoded refused =
        let ended = refused_message group m event s w decoded refused in
        rw (process_messages, ended)
          (refl, refl, ap (λ x. x.1.0) ended, ap (λ x. x.1.1.db.audit_logs) ended)

    -- A run whose batch begins with the message of an event that is in the audit log ends there with
    -- an error. It has processed nothing, every message of the group is still outstanding, and the
    -- audit log is the same, so that the next run whose batch begins with the message ends in the
    -- same way.
    pub process_group_again :
        (group : String) (m : Message) (ms : List Message) (event : Record codec.Map)
        (s : broker.Stream) (w : World)
        → (broker.read_group group config.batch_size config.claim_min_idle s).0 ≡ m ∷ ms
        → codec.decode_record m.payload ≡ some event
        → (event.id == "") ≡ false
        → IsCanonical codec event.id
        → any (λ row. row.id == event.id) w.db.audit_logs ≡ true
        → let after = process_group env codec broker config (handle codec env) group s w in
          (after.processed ≡ 0)
          × (is_some after.error ≡ true)
          × (broker.outstanding group after.stream ≡ broker.outstanding group s)
          × (after.world.db.audit_logs ≡ w.db.audit_logs)
    unfolding process_group
    process_group_again group m ms event s w first decoded given canonical taken =
        elim (Bool-cases (env.fault w.step)) [
          | inl failed ↦ rw (process_group, failed) (refl, refl, refl, refl)
          | inr read ↦
              let (e, refused) = handle_again event (tick w) given canonical taken in
              let (none_done, stopped, kept, logs) =
                blocked_batch group m ms event
                  (broker.read_group group config.batch_size config.claim_min_idle s).1 (tick w)
                  decoded refused in
              rw (process_group, read, first)
                (
                  none_done,
                  stopped,
                  ap (broker.outstanding group) kept
                      ∙ broker.outstanding-read_group group config.batch_size config.claim_min_idle
                          s,
                  logs ∙ audit_logs-handle event (tick w) refused,
                )
        ]
