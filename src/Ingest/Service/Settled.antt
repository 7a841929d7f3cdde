-- ===== src/Ingest/Service/Settled.antt =====
-- What the service promises about acknowledgements, its queue and its statistics.
use telhawk_stack.Prelude.{
  eq_of_parts, sub_ℕ, ℕ, ◌≤◌, ℤ, String, Bool, true, false, Option, some, List, [], ◌∷◌, length,
  ltb, ◌≡◌, refl, sym, ap, ◌∙◌, inl, inr, ◌↔◌, arith, eq_iff, subst,
}
use telhawk_stack.Prelude.Keys.{In}
use telhawk_stack.Prelude.Maps.{get, get-put_same}
use telhawk_stack.Prelude.Result.{Result, ok, err, Result-cases}
use telhawk_stack.Ingest.Ack.{
  Ack, Manager, is_pending, is_success, pending, success, failed, get_pending, complete, fail,
  create,
}
use telhawk_stack.Ingest.Ack.Answers.{get-query}
use telhawk_stack.Ingest.Event.{HecEvent, Event, TokenInfo, Error, queue_full}
use telhawk_stack.Ingest.Service.{
  IngestService, Draw, enqueue, ingest_event, ingest_marshalled, internal_event, query_acks,
}
use telhawk_stack.Ingest.Service.Worker.{Backend, finish, outcome}
use telhawk_stack.Ingest.Service.Queue.{Agrees}
use telhawk_stack.Ingest.Service.Steps.{AddUp, waiting, uncounted, Reachable, IsSound}
use telhawk_stack.Ingest.Service.Sound.{Reachable-IsSound, settled_as, finish_stored, finish_failed}

same_some {ℓ} : {A : Type ℓ} (o : Option A) (a b : A) → o ≡ some a → o ≡ some b → a ≡ b
same_some o a b e f = cc

module _ {ttl start : ℕ} {has_dlq : Bool} {s : IngestService}
    (r : Reachable ttl start has_dlq s) where
  module _ (m : Manager) (e : s.ack_manager ≡ some m) where
    pub manager_Agrees : Agrees m (uncounted s.calls) (waiting s)
    manager_Agrees =
        let h : IsSound s = Reachable-IsSound r in
        subst (λ n. Agrees n (uncounted s.calls) (waiting s))
          (same_some s.ack_manager h.manager m h.configured e) h.agrees

    -- In every state that the service reaches, with any number of calls in progress, the gauge of
    -- pending acknowledgements is the number of those in the map less the number of calls that are
    -- between the lock of Create and its gauge.
    pub acks_pending_exact : m.acks_pending ≡ sub_ℕ (get_pending m) (uncounted s.calls)
    unfolding get_pending
    acks_pending_exact =
        eq_of_parts m.acks_pending (sub_ℕ (get_pending m) (uncounted s.calls))
          (ground (arith, manager_Agrees.exact))

    -- In every state that the service reaches, with any number of calls in progress, an
    -- acknowledgement in the map is pending exactly if its event is in the queue or in flight, or
    -- it is that of a call that has neither sent its event nor failed it: none is left pending when
    -- the work is done.
    pub pending_iff_waiting :
        (k : String) (a : Ack)
        → get k m.acks ≡ some a
        → (is_pending a.status ≡ true) ↔ In k (waiting s)
    pending_iff_waiting k a f =
        (manager_Agrees.pending_waits k a f, manager_Agrees.waiting_is_pending k a f)

  -- In every state that the service reaches, the queue holds at most 10000 events, and the events
  -- counted are those counted as accepted and those counted as refused.
  pub queue_bounded_and_counted : (length s.event_queue ≤ 10000) × AddUp s.stats
  queue_bounded_and_counted =
      let h : IsSound s = Reachable-IsSound r in (omega (arith, h.bounded, h.capacity), h.add_up)

-- Whether the event was normalized and stored.
abbrev pub is_stored : Result Error (Unit {0}) → Bool
is_stored (ok done) = true
is_stored (err e) = false

query_one :
    (k : String) (s : IngestService) (m : Manager) (a : Ack)
    → s.ack_manager ≡ some m
    → get k m.acks ≡ some a
    → get k (query_acks (k ∷ []) s) ≡ some (is_success a.status)
query_one k s m a e f = ground (arith, e, f, eq_iff k k, get-query k (k ∷ []) m)

get-complete :
    (k : String) (now : ℕ) (m : Manager) (a : Ack)
    → get k m.acks ≡ some a
    → get k (complete k now m).acks ≡ some (record a { status = success; timestamp = now })
unfolding complete
get-complete k now m a e =
    ground (arith, e, get-put_same k (record a { status = success; timestamp = now }) m.acks)

get-fail :
    (k : String) (now : ℕ) (m : Manager) (a : Ack)
    → get k m.acks ≡ some a
    → get k (fail k now m).acks ≡ some (record a { status = failed; timestamp = now })
unfolding fail
get-fail k now m a e =
    ground (arith, e, get-put_same k (record a { status = failed; timestamp = now }) m.acks)

module _ {ttl start : ℕ} {has_dlq : Bool} {s : IngestService} (r : Reachable ttl start has_dlq s)
    (backend : Backend) (now : ℕ) (e : Event) (a : Ack) where
  sound : IsSound s
  sound = Reachable-IsSound r

  -- In every state that the service reaches, once the event in flight is finished, a query for its
  -- acknowledgement, if that is still in the map, answers whether the event was stored.
  pub query_acks-finish :
      (m : Manager)
      → s.ack_manager ≡ some m
      → s.in_flight ≡ some e
      → get e.ack_id m.acks ≡ some a
      → get e.ack_id (query_acks (e.ack_id ∷ []) (finish backend now s))
        ≡ some (is_stored (outcome backend e))
  query_acks-finish m configured flying found =
      let same : m ≡ sound.manager =
        same_some s.ack_manager m sound.manager configured sound.configured in
      let found' : get e.ack_id sound.manager.acks ≡ some a =
        ap (λ n. get e.ack_id n.acks) (sym same) ∙ found in
      elim (Result-cases (outcome backend e)) [
        | inl p ↦ ground (
          arith,
          p.1,
          finish_stored s sound backend now e flying p.1,
          query_one e.ack_id (settled_as s sound backend e (complete e.ack_id now sound.manager))
              (complete e.ack_id now sound.manager) (record a { status = success; timestamp = now })
              refl (get-complete e.ack_id now sound.manager a found'),
        )
        | inr p ↦ ground (
          arith,
          p.1,
          finish_failed s sound backend now e flying p.0 p.1,
          query_one e.ack_id (settled_as s sound backend e (fail e.ack_id now sound.manager))
              (fail e.ack_id now sound.manager) (record a { status = failed; timestamp = now }) refl
              (get-fail e.ack_id now sound.manager a found'),
        )
      ]

get-create :
    (k : String) (now : ℕ) (ids : List String) (m : Manager)
    → get k (create k now ids m).acks
      ≡ some (record { id = k; status = pending; timestamp = now; event_ids = ids })
unfolding create
get-create k now ids m =
    get-put_same k (record { id = k; status = pending; timestamp = now; event_ids = ids }) m.acks

module _ (draw : Draw) (s : IngestService) (m : Manager) where
  -- The manager after the acknowledgement of a refused event.
  abbrev refusal : Manager
  refusal = fail draw.ack_id draw.now (create draw.ack_id draw.now (draw.event_id ∷ []) m)

  enqueue_full :
      (event : Event)
      → s.ack_manager ≡ some m
      → ltb (length s.event_queue) s.queue_capacity ≡ false
      → ¬ (draw.ack_id ≡ "")
      → ((enqueue draw event s).0 ≡ err queue_full)
        × ((enqueue draw event s).1.event_queue ≡ s.event_queue)
        × ((enqueue draw event s).1.ack_manager ≡ some refusal)
  unfolding enqueue create
  enqueue_full event e full n =
      (ground (arith, full), ground (arith, full), ground (arith, full, e, eq_iff draw.ack_id ""))

module _ (truncate : ℕ → ℤ) (unix_time : ℕ → ℕ) (marshal : HecEvent → Result Error (List ℕ))
    (string_of : List ℕ → String) (draw : Draw) (event : HecEvent) (source_ip : String)
    (token_info : Option TokenInfo) (s : IngestService) where
  abbrev pub ingested : Result Error String × IngestService
  ingested = ingest_event truncate unix_time marshal string_of draw event source_ip token_info s

  -- Where the queue is full and nothing comes between its parts, IngestEvent of an event that
  -- json.Marshal takes returns an error,
  -- leaves the queue as it is, and leaves the acknowledgement that it drew, whose id is not empty,
  -- as one that a query answers with false.
  pub ingest_event_full :
      (raw : List ℕ) (m : Manager)
      → marshal event ≡ ok raw
      → s.ack_manager ≡ some m
      → s.queue_capacity ≤ length s.event_queue
      → ¬ (draw.ack_id ≡ "")
      → (ingested.0 ≡ err queue_full)
        × (ingested.1.event_queue ≡ s.event_queue)
        × (get draw.ack_id (query_acks (draw.ack_id ∷ []) ingested.1) ≡ some false)
  unfolding ingest_event ingest_marshalled
  ingest_event_full raw m marshalled configured full n =
      let inner : Event =
        internal_event truncate unix_time marshal string_of draw event source_ip token_info raw in
      let h = enqueue_full draw s m inner configured (ground (arith, full)) n in
      let ack : Ack = record {
        id = draw.ack_id;
        status = pending;
        timestamp = draw.now;
        event_ids = draw.event_id ∷ [];
      } in
      let answered =
        query_one draw.ack_id (enqueue draw inner s).1 (refusal draw s m)
          (record ack { status = failed; timestamp = draw.now }) h.2
          (get-fail draw.ack_id draw.now (create draw.ack_id draw.now (draw.event_id ∷ []) m) ack
            (get-create draw.ack_id draw.now (draw.event_id ∷ []) m)) in
      (
        ground (arith, marshalled, h.0),
        ground (arith, marshalled, h.1),
        subst
            (λ r.
              get draw.ack_id (
                query_acks (draw.ack_id ∷ [])
                  (ingest_marshalled truncate unix_time marshal string_of draw event source_ip
                    token_info r s).1)
              ≡ some false)
            (sym marshalled) answered,
      )
