-- ===== src/Events/Delivery.antt =====
-- ProcessSubscriber (bus.go): a message is acknowledged only after its event was handled.
use dinchy.Prelude.{
  ℕ, ◌+◌, String, Bool, ◌≡◌, sym, subst, true, false, not, some, List, [], ◌∷◌, ◌⊎◌, inl, inr, any,
  keep_if, All, All-map, All-zip, All-swap, ◌==◌, eq_iff, eq_refl, Bool-cases, Option-cases, arith,
}
use dinchy.Errors.{ok}
use dinchy.World.{Env, World}
use dinchy.World.Effects.{tick}
use dinchy.World.Inversion.{Result-cases}
use dinchy.Events.{
  Record, EventCodec, Message, Broker, BusConfig, Handler, Processed, process_message,
  process_messages, process_group,
}

abbrev pub holds_id : String → List Message → Bool
holds_id id ms = any (λ m. m.id == id) ms

holds_id_self : (ms : List Message) → All (λ m. holds_id m.id ms ≡ true) ms
unfolding any
holds_id_self [] = tt
holds_id_self (m ∷ ms) = (
  rw (eq_refl m.id),
  All-map ms (λ (a : Message) (h : holds_id a.id ms ≡ true). ground arith) (holds_id_self ms),
)

holds_id-keep_if :
    (id other : String) (ms : List Message)
    → (id == other) ≡ false
    → holds_id id ms ≡ true
    → holds_id id (keep_if (λ m. not (m.id == other)) ms) ≡ true
unfolding any keep_if
holds_id-keep_if id other [] ne h = h
holds_id-keep_if id other (m ∷ ms) ne h =
    ground
      (arith, eq_iff m.id id, eq_iff m.id other, eq_iff id other, holds_id-keep_if id other ms ne)

module _ (env : Env) (codec : EventCodec) (broker : Broker) (config : BusConfig)
    (handle : Handler env codec broker config) (group : String)
    (Stored : Record codec.Map → World → Type 0)
    (stored-handle : (r q : Record codec.Map) (w : World) → Stored r w → Stored r (handle q w).1)
    (handle-Stored : (r : Record codec.Map) (w : World)
      → (handle r w).0 ≡ ok tt
      → Stored r (handle r w).1)
    (stored-tick : (r : Record codec.Map) (w : World) → Stored r w → Stored r (tick w)) where
  -- the event of the message was handled, and what that has stored is still there
  abbrev pub IsSettled : Message → World → Type 0
  IsSettled m w = (r : Record codec.Map) × (codec.decode_record m.payload ≡ some r) × Stored r w

  abbrev pub IsAccounted : Message → broker.Stream → World → Type 0
  IsAccounted m s w = (holds_id m.id (broker.outstanding group s) ≡ true) ⊎ IsSettled m w

  IsSettled-handle :
      (m : Message) (q : Record codec.Map) (w : World) → IsSettled m w → IsSettled m (handle q w).1
  IsSettled-handle m q w (r, decoded, stored) = (r, decoded, stored-handle r q w stored)

  IsSettled-tick : (m : Message) (w : World) → IsSettled m w → IsSettled m (tick w)
  IsSettled-tick m w (r, decoded, stored) = (r, decoded, stored-tick r w stored)

  IsAccounted-handle :
      (m : Message) (q : Record codec.Map) (s : broker.Stream) (w : World)
      → IsAccounted m s w
      → IsAccounted m s (handle q w).1
  IsAccounted-handle m q s w (inl waiting) = inl waiting
  IsAccounted-handle m q s w (inr settled) = inr (IsSettled-handle m q w settled)

  IsAccounted-tick :
      (m : Message) (s : broker.Stream) (w : World) → IsAccounted m s w → IsAccounted m s (tick w)
  IsAccounted-tick m s w (inl waiting) = inl waiting
  IsAccounted-tick m s w (inr settled) = inr (IsSettled-tick m w settled)

  -- an acknowledgement of `d`, whose event is handled
  IsAccounted-ack :
      (m d : Message) (s : broker.Stream) (w : World)
      → (m.id ≡ d.id → m ≡ d)
      → IsSettled d w
      → IsAccounted m s w
      → IsAccounted m (broker.ack group d.id s) w
  IsAccounted-ack m d s w one settled (inr other) = inr other
  IsAccounted-ack m d s w one settled (inl waiting) = elim (Bool-cases (m.id == d.id)) [
    | inl same ↦
        inr (subst (λ x. IsSettled x w) (sym (one (ground (arith, eq_iff m.id d.id)))) settled)
    | inr different ↦ inl (
        rw (broker.outstanding-ack group d.id s)
          (holds_id-keep_if m.id d.id (broker.outstanding group s) different waiting))
  ]

  abbrev IsAccountedAt : Message → broker.Stream × World → Type 0
  IsAccountedAt m (s, w) = IsAccounted m s w

  process_message-IsAccounted :
      (m d : Message) (s : broker.Stream) (w : World)
      → (m.id ≡ d.id → m ≡ d)
      → IsAccounted m s w
      → IsAccountedAt m (process_message env codec broker config handle group d s w).1
  unfolding process_message
  process_message-IsAccounted m d s w one known =
      elim (Option-cases (codec.decode_record d.payload)) [
        | inl garbled ↦ rw (process_message, garbled) known
        | inr (r, decoded) ↦ elim (Result-cases (handle r w).0) [
          | inr (e, failed) ↦
              rw (process_message, decoded, failed) (IsAccounted-handle m r s w known)
          | inl (_, handled) ↦
              let w' = (handle r w).1 in
              let here = IsAccounted-tick m s w' (IsAccounted-handle m r s w known) in
              elim (Bool-cases (env.fault w'.step)) [
                | inl lost ↦ rw (process_message, decoded, handled, lost) here
                | inr acked ↦
                    rw (process_message, decoded, handled, acked)
                      (IsAccounted-ack m d s (tick w') one
                        (r, decoded, stored-tick r w' (handle-Stored r w handled)) here)
              ]
        ]
      ]

  abbrev IsAccountedBy : Message → Processed env codec broker config → Type 0
  IsAccountedBy m out = IsAccounted m out.stream out.world

  process_messages-IsAccounted :
      (m : Message) (ds : List Message) (n : ℕ) (s : broker.Stream) (w : World)
      → All (λ d. m.id ≡ d.id → m ≡ d) ds
      → IsAccounted m s w
      → IsAccountedBy m (process_messages env codec broker config handle group ds n s w)
  unfolding process_messages
  process_messages-IsAccounted m [] n s w _ known = known
  process_messages-IsAccounted m (d ∷ ds) n s w (one, ones) known =
      let after = process_message-IsAccounted m d s w one known in
      elim (Result-cases (process_message env codec broker config handle group d s w).0) [
        | inr (e, stopped) ↦ rw (process_messages, stopped) after
        | inl (_, done) ↦
            rw (process_messages, done) (process_messages-IsAccounted m ds (n + 1) _ _ ones after)
      ]

  -- a message of the group that shares its ID with one of the batch is that one
  batch_names :
      (s : broker.Stream)
      → All
          (λ m.
            All
              (λ d. m.id ≡ d.id → m ≡ d)
              (broker.read_group group config.batch_size config.claim_min_idle s).0)
          (broker.outstanding group s)
  batch_names s =
      let (batch, _) = broker.read_group group config.batch_size config.claim_min_idle s in
      All-swap _ batch (broker.outstanding group s) (
        All-map batch (λ d (_, one). one)
          (broker.read_group-outstanding group config.batch_size config.claim_min_idle s))

  read_batch :
      (m : Message) (s : broker.Stream) (w : World)
      → holds_id m.id (broker.outstanding group s) ≡ true
      → All
          (λ d. m.id ≡ d.id → m ≡ d)
          (broker.read_group group config.batch_size config.claim_min_idle s).0
      → IsAccountedBy m (
          process_messages env codec broker config handle group
            (broker.read_group group config.batch_size config.claim_min_idle s).0
            0
            (broker.read_group group config.batch_size config.claim_min_idle s).1
            (tick w))
  read_batch m s w h ones =
      let (batch, s') = broker.read_group group config.batch_size config.claim_min_idle s in
      process_messages-IsAccounted m batch 0 s' (tick w) ones
        (inl (rw (broker.outstanding-read_group group config.batch_size config.claim_min_idle s) h))

  -- After a run over a group, whatever fails in it, each message that the group had not acknowledged
  -- is still not acknowledged, or its event has been handled.
  pub process_group-IsAccounted :
      (s : broker.Stream) (w : World)
      → All
          (λ m. IsAccountedBy m (process_group env codec broker config handle group s w))
          (broker.outstanding group s)
  unfolding process_group
  process_group-IsAccounted s w =
      let waiting = broker.outstanding group s in
      elim (Bool-cases (env.fault w.step)) [
        | inl failed ↦
            rw (process_group, failed)
              (All-map waiting (λ (m : Message) (h : holds_id m.id waiting ≡ true). inl h)
                (holds_id_self waiting))
        | inr read ↦
            rw (process_group, read)
              (All-map waiting (λ m (h, ones). read_batch m s w h ones)
                (All-zip _ _ waiting (holds_id_self waiting) (batch_names s)))
      ]
