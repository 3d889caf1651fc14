-- ===== src/Events/Drain.antt =====
-- RegisterWorkers (worker.go): the repeated runs of a subscriber's job drain its group.
use dinchy.Prelude.{
  ℕ, zero, suc, ◌+◌, ◌*◌, ◌<◌, subst, ◌≤◌, String, ◌≡◌, ◌≢◌, refl, sym, ap, ◌∙◌, none, List, [],
  ◌∷◌, length, keep_if, length-keep_if-not, All, All-map, ◌⊎◌, ◌==◌, Bool-cases, Option-cases, inl,
  inr, arith,
}
use dinchy.Errors.{ok}
use dinchy.World.{Env, World}
use dinchy.World.Effects.{tick}
use dinchy.World.Inversion.{Result-cases}
use dinchy.Events.{
  EventCodec, Message, Broker, BusConfig, Handler, Processed, process_message, process_messages,
  process_group, run_worker,
}

nil_or : {A : Type 0} (xs : List A) → (xs ≡ []) ⊎ (xs ≢ [])
nil_or [] = inl refl
nil_or (x ∷ xs) = inr (λ e. absurd (ground (arith, e)))

zero_or : (n : ℕ) → (n ≡ 0) ⊎ ((m : ℕ) × (n ≡ suc m))
zero_or zero = inl refl
zero_or (suc n) = inr (n, refl)

le_zero : (n : ℕ) → n ≤ 0 → n ≡ 0
le_zero n h = omega (arith, h)

-- the runs that are left after one that read something
budget_left :
    (n' n rounds m k : ℕ)
    → n ≡ suc n'
    → suc m + n * suc rounds ≤ suc k
    → suc rounds + n' * suc rounds ≤ k
budget_left n' n rounds m k more h =
    let h' : suc m + suc n' * suc rounds ≤ suc k = rw more at h in omega (arith, h')

budget :
    (rounds k n left : ℕ) → left ≡ suc n → left * suc rounds ≤ k → suc rounds + n * suc rounds ≤ k
budget rounds k n left more h = let h' : suc n * suc rounds ≤ k = rw more at h in omega (arith, h')

module _ (env : Env) (codec : EventCodec) (broker : Broker) (config : BusConfig)
    (handle : Handler env codec broker config) (group : String) where
  abbrev left : broker.Stream → ℕ
  left s = length (broker.outstanding group s)

  -- an acknowledged message is gone from the group
  left-ack : (id : String) (s : broker.Stream) → left (broker.ack group id s) ≤ left s
  left-ack id s =
      rw (broker.outstanding-ack group id s)
        (omega (arith, length-keep_if-not (λ m. m.id == id) (broker.outstanding group s)))

  left-ack_lt :
      (id : String) (s : broker.Stream)
      → 0 < length (keep_if (λ m. m.id == id) (broker.outstanding group s))
      → left (broker.ack group id s) < left s
  left-ack_lt id s h =
      rw (broker.outstanding-ack group id s)
        (omega (arith, h, length-keep_if-not (λ m. m.id == id) (broker.outstanding group s)))

  -- a message that was processed has been acknowledged
  process_message_ok :
      (m : Message) (s : broker.Stream) (w : World)
      → (process_message env codec broker config handle group m s w).0 ≡ ok tt
      → (process_message env codec broker config handle group m s w).1.0 ≡ broker.ack group m.id s
  unfolding process_message
  process_message_ok m s w h = elim (Option-cases (codec.decode_record m.payload)) [
    | inl garbled ↦ absurd (ground arith)
    | inr (r, decoded) ↦ elim (Result-cases (handle r w).0) [
      | inl (_, handled) ↦ elim (Bool-cases (env.fault (handle r w).1.step)) [
        | inl lost ↦ absurd (ground arith)
        | inr acked ↦ rw (process_message, decoded, handled, acked) refl
      ]
      | inr (e, failed) ↦ absurd (ground arith)
    ]
  ]

  abbrev process : List Message → ℕ → broker.Stream → World → Processed env codec broker config
  process = process_messages env codec broker config handle group

  -- the first message of a batch that is processed without an error
  process-first :
      (m : Message) (ms : List Message) (n : ℕ) (s : broker.Stream) (w : World)
      → (process (m ∷ ms) n s w).error ≡ none
      → (w' : World) × (process (m ∷ ms) n s w ≡ process ms (n + 1) (broker.ack group m.id s) w')
  unfolding process_messages
  process-first m ms n s w h =
      elim (Result-cases (process_message env codec broker config handle group m s w).0) [
        | inr (e, failed) ↦ absurd (ground arith)
        | inl (_, done) ↦ (
          (process_message env codec broker config handle group m s w).1.1,
          rw (process_messages, done, process_message_ok m s w done) refl,
        )
      ]

  process-le :
      (ms : List Message) (n : ℕ) (s : broker.Stream) (w : World)
      → (process ms n s w).error ≡ none
      → left (process ms n s w).stream ≤ left s
  process-le [] n s w h = unfold process_messages in omega arith
  process-le (m ∷ ms) n s w h =
      let (w', next) = process-first m ms n s w h in
      let rest =
        process-le ms (n + 1) (broker.ack group m.id s) w' (ap (λ x. x.error) (sym next) ∙ h) in
      rw next (omega (arith, rest, left-ack m.id s))

  process-lt :
      (m : Message) (ms : List Message) (n : ℕ) (s : broker.Stream) (w : World)
      → (process (m ∷ ms) n s w).error ≡ none
      → 0 < length (keep_if (λ x. x.id == m.id) (broker.outstanding group s))
      → left (process (m ∷ ms) n s w).stream < left s
  process-lt m ms n s w h waiting =
      let (w', next) = process-first m ms n s w h in
      let rest =
        process-le ms (n + 1) (broker.ack group m.id s) w' (ap (λ x. x.error) (sym next) ∙ h) in
      rw next (omega (arith, rest, left-ack_lt m.id s waiting))

  abbrev pub run : broker.Stream → World → Processed env codec broker config
  run = process_group env codec broker config handle group

  nothing_left : (s : broker.Stream) → left s ≤ 0 → broker.outstanding group s ≡ []
  nothing_left s h = no_length (broker.outstanding group s) h
    where
      no_length : (ms : List Message) → length ms ≤ 0 → ms ≡ []
      no_length [] h = refl
      no_length (m ∷ ms) h = absurd (omega (arith, h))

  -- a run that reports no error
  run-batch :
      (s : broker.Stream) (w : World)
      → (run s w).error ≡ none
      → run s w
        ≡ process
            (broker.read_group group config.batch_size config.claim_min_idle s).0
            0
            (broker.read_group group config.batch_size config.claim_min_idle s).1
            (tick w)
  unfolding process_group
  run-batch s w h = elim (Bool-cases (env.fault w.step)) [
    | inl failed ↦ absurd (ground arith)
    | inr read ↦ rw (process_group, read) refl
  ]

  batch-lt :
      (ms : List Message) (n : ℕ) (s : broker.Stream) (w : World)
      → ms ≢ []
      → All (λ d. 0 < length (keep_if (λ m. m.id == d.id) (broker.outstanding group s))) ms
      → (process ms n s w).error ≡ none
      → left (process ms n s w).stream < left s
  batch-lt [] n s w some_read waiting h = absurd (some_read refl)
  batch-lt (m ∷ ms) n s w some_read (waiting, _) h = process-lt m ms n s w h waiting

  next : broker.Stream → World → broker.Stream
  next s w = broker.pass config.worker_interval (run s w).stream

  -- A run that reports no error makes the group smaller, if it reads something.
  run-lt :
      (s : broker.Stream) (w : World)
      → (broker.read_group group config.batch_size config.claim_min_idle s).0 ≢ []
      → (run s w).error ≡ none
      → left (run s w).stream < left s
  run-lt s w some_read h =
      let (batch, s₂) = broker.read_group group config.batch_size config.claim_min_idle s in
      let ran = run-batch s w h in
      let same = broker.outstanding-read_group group config.batch_size config.claim_min_idle s in
      let less =
        batch-lt batch 0 s₂ (tick w) some_read
          (rw same (
            All-map batch (λ d (there, _). there)
              (broker.read_group-outstanding group config.batch_size config.claim_min_idle s)))
          (ap (λ x. x.error) (sym ran) ∙ h) in
      rw ran (omega (arith, less, ap length same))

  run-le : (s : broker.Stream) (w : World) → (run s w).error ≡ none → left (run s w).stream ≤ left s
  run-le s w h =
      let (batch, s₂) = broker.read_group group config.batch_size config.claim_min_idle s in
      let ran = run-batch s w h in
      let less = process-le batch 0 s₂ (tick w) (ap (λ x. x.error) (sym ran) ∙ h) in
      rw ran (
        omega (
          arith,
          less,
          ap length (broker.outstanding-read_group group config.batch_size config.claim_min_idle s),
        ))

  -- A run that reads nothing and reports no error leaves the stream.
  run-idle :
      (s : broker.Stream) (w : World)
      → (broker.read_group group config.batch_size config.claim_min_idle s).0 ≡ []
      → (run s w).error ≡ none
      → (run s w).stream ≡ s
  unfolding process_messages
  run-idle s w nothing h =
      ap (λ x. x.stream) (run-batch s w h)
      ∙ ap
          (λ ms.
            (process ms 0 (broker.read_group group config.batch_size config.claim_min_idle s).1
              (tick w)).stream)
          nothing
      ∙ broker.read_group-nil group config.batch_size config.claim_min_idle s nothing

  -- the next `k` runs report no error
  abbrev pub NoErrors : ℕ → broker.Stream → World → Type 0
  NoErrors zero s w = Unit
  NoErrors (suc k) s w =
      let after = process_group env codec broker config handle group s w in
      (after.error ≡ none)
      × NoErrors k (broker.pass config.worker_interval after.stream) after.world

  left-next : (s : broker.Stream) (w : World) → left (next s w) ≡ left (run s w).stream
  unfolding next
  left-next s w = ap length (broker.outstanding-pass group config.worker_interval (run s w).stream)

  abbrev ready : broker.Stream → ℕ
  ready s = broker.ready_in group config.claim_min_idle s

  -- a group with nothing outstanding stays so
  run_worker-drained :
      (k : ℕ) (s : broker.Stream) (w : World)
      → NoErrors k s w
      → left s ≤ 0
      → broker.outstanding group (run_worker env codec broker config handle group k s w).0 ≡ []
  unfolding run_worker next
  run_worker-drained zero s w none_failed empty = nothing_left s empty
  run_worker-drained (suc k) s w (h, none_failed) empty =
      run_worker-drained k (next s w) (run s w).world none_failed
        (omega (arith, empty, run-le s w h, left-next s w))

  at_once : (s : broker.Stream) (m : ℕ) → ready s ≤ m * config.worker_interval → m ≡ 0 → ready s ≡ 0
  at_once s m soon now =
      let soon' : ready s ≤ 0 * config.worker_interval = rw now at soon in
      le_zero (ready s) (omega (arith, soon'))

  -- after a run that read nothing the wait is shorter by an interval
  sooner :
      (s : broker.Stream) (w : World) (m m' : ℕ)
      → (broker.read_group group config.batch_size config.claim_min_idle s).0 ≡ []
      → (run s w).error ≡ none
      → ready s ≤ m * config.worker_interval
      → m ≡ suc m'
      → ready (next s w) ≤ m' * config.worker_interval
  unfolding next
  sooner s w m m' nothing h soon later =
      let soon' : ready s ≤ suc m' * config.worker_interval = rw later at soon in
      let less = broker.ready_in-pass group config.claim_min_idle config.worker_interval s in
      subst (λ t. ready (broker.pass config.worker_interval t) ≤ m' * config.worker_interval)
        (sym (run-idle s w nothing h)) (omega (arith, soon', less))

  -- `n` messages at most are outstanding, one can be read after `m` more pauses, and each further one
  -- after `rounds` pauses
  run_worker-left :
      (rounds n m k : ℕ) (s : broker.Stream) (w : World)
      → 0 < config.batch_size
      → config.claim_min_idle ≤ rounds * config.worker_interval
      → NoErrors k s w
      → left s ≤ suc n
      → ready s ≤ m * config.worker_interval
      → suc m + n * suc rounds ≤ k
      → broker.outstanding group (run_worker env codec broker config handle group k s w).0 ≡ []
  unfolding run_worker next
  run_worker-left rounds n m zero s w sized covered none_failed few soon enough =
      absurd (omega (arith, enough))
  run_worker-left rounds n m (suc k) s w sized covered (h, none_failed) few soon enough =
      let batch = (broker.read_group group config.batch_size config.claim_min_idle s).0 in
      elim (nil_or batch) [
        | inr some_read ↦
            let fewer : left (next s w) ≤ n =
              omega (arith, run-lt s w some_read h, left-next s w, few) in
            elim (zero_or n) [
              | inl last ↦
                  run_worker-drained k (next s w) (run s w).world none_failed
                    (omega (arith, fewer, last))
              | inr (n', more) ↦
                  run_worker-left rounds n' rounds k (next s w) (run s w).world sized covered
                    none_failed (omega (arith, fewer, more))
                    (omega
                      (arith, covered, broker.ready_in-le group config.claim_min_idle (next s w)))
                    (omega (arith, budget_left n' n rounds m k more enough))
            ]
        | inl nothing ↦ elim (nil_or (broker.outstanding group s)) [
          | inl empty ↦
              run_worker-drained (suc k) s w (h, none_failed) (omega (arith, ap length empty))
          | inr waiting ↦ elim (zero_or m) [
            | inl now ↦ absurd (
                broker.read_group-ne-nil group config.batch_size config.claim_min_idle s sized
                  waiting (at_once s m soon now) nothing)
            | inr (m', later) ↦
                run_worker-left rounds n m' k (next s w) (run s w).world sized covered none_failed
                  (omega (arith, few, left-next s w, run-le s w h))
                  (sooner s w m m' nothing h soon later) (omega (arith, later, enough))
          ]
        ]
      ]

  -- Let a number of WorkerIntervals, `rounds`, cover ClaimMinIdle, and let a run be allowed to read
  -- a message. Then the runs of a subscriber's job, if none of them reports an error, have
  -- acknowledged all outstanding messages once there were `rounds` + 1 runs for each message; the
  -- first run is at once, and each other one a WorkerInterval after the one before.
  pub run_worker-drains :
      (rounds k : ℕ) (s : broker.Stream) (w : World)
      → 0 < config.batch_size
      → config.claim_min_idle ≤ rounds * config.worker_interval
      → NoErrors k s w
      → length (broker.outstanding group s) * suc rounds ≤ k
      → broker.outstanding group (run_worker env codec broker config handle group k s w).0 ≡ []
  run_worker-drains rounds k s w sized covered none_failed enough = elim (zero_or (left s)) [
    | inl empty ↦ run_worker-drained k s w none_failed (omega (arith, empty))
    | inr (n, some_left) ↦
        run_worker-left rounds n rounds k s w sized covered none_failed (omega (arith, some_left))
          (omega (arith, covered, broker.ready_in-le group config.claim_min_idle s))
          (budget rounds k n (left s) some_left enough)
  ]
