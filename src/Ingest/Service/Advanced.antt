-- ===== src/Ingest/Service/Advanced.antt =====
-- The other parts of `IngestEvent` and `IngestRaw` keep what holds of the service.
use telhawk_stack.Prelude.{
  ℕ, suc, ◌+◌, ◌≤◌, String, true, false, Option, some, List, [], ◌∷◌, ◌++◌, length, ◌≡◌, refl, sym,
  inl, inr, arith, eq_iff, length-append, subst, Bool-cases,
}
use telhawk_stack.Prelude.Keys.{times, times-append, In, In-times}
use telhawk_stack.Ingest.Ack.{Manager, count_ack, fail}
use telhawk_stack.Ingest.Event.{Event, IngestionStats}
use telhawk_stack.Ingest.Service.{
  IngestService, Draw, Stage, created, counted, sent, full, failed, PendingCall, advance,
  update_stats, has_room,
}
use telhawk_stack.Ingest.Service.Queue.{
  Agrees, count_ack-Agrees, moved-Agrees, fail-Agrees, taken-IsWithout,
}
use telhawk_stack.Ingest.Service.Steps.{AddUp, waiting_ids, call_ids, uncounted, IsSound}
use telhawk_stack.Ingest.Service.Begun.{
  times-waiting_ids, times-call_ids, uncounted-append, AddUp-update_stats,
}

module _ (s : IngestService) (h : IsSound s) where
  module _ (draw : Draw) (event : Event) (before after : List PendingCall) where
    abbrev at : Stage → PendingCall
    at stage = record { stage = stage; draw = draw; event = event }

    -- The calls with others in the place of the one that goes on.
    abbrev with_calls : List PendingCall → List PendingCall
    with_calls mid = before ++ (mid ++ after)

    split_times :
        (k : String) (o : Option Event) (es : List Event) (mid : List PendingCall)
        → times k (waiting_ids o es ++ call_ids (with_calls mid))
          ≡ times k (waiting_ids o es)
            + times k (call_ids before)
            + times k (call_ids mid)
            + times k (call_ids after)
    split_times k o es mid = omega (
      arith,
      times-append k (waiting_ids o es) (call_ids (with_calls mid)),
      times-call_ids k before (mid ++ after),
      times-call_ids k mid after,
    )

    split_uncounted :
        (mid : List PendingCall)
        → uncounted (with_calls mid) ≡ uncounted before + uncounted mid + uncounted after
    split_uncounted mid =
        omega (arith, uncounted-append before (mid ++ after), uncounted-append mid after)

    module _ (stage : Stage) (placed : s.calls ≡ before ++ at stage ∷ after) where
      placed-Agrees :
          Agrees h.manager
            (uncounted (with_calls (at stage ∷ [])))
            (waiting_ids s.in_flight s.event_queue ++ call_ids (with_calls (at stage ∷ [])))
      placed-Agrees =
          subst
            (λ cs.
              Agrees h.manager (uncounted cs)
                (waiting_ids s.in_flight s.event_queue ++ call_ids cs))
            placed h.agrees

      -- Where the call goes on to `mid` and the queue to `es`, and as many wait for each id.
      next-Agrees :
          (lag : ℕ) (es : List Event) (mid : List PendingCall)
          → uncounted (with_calls (at stage ∷ [])) ≡ lag
          → ((k : String)
              → times k (waiting_ids s.in_flight es) + times k (call_ids mid)
                ≡ times k (waiting_ids s.in_flight s.event_queue)
                  + times k (call_ids (at stage ∷ [])))
          → Agrees h.manager lag (waiting_ids s.in_flight es ++ call_ids (with_calls mid))
      next-Agrees lag es mid e moved =
          moved-Agrees h.manager (uncounted (with_calls (at stage ∷ []))) lag
            (waiting_ids s.in_flight s.event_queue ++ call_ids (with_calls (at stage ∷ [])))
            (waiting_ids s.in_flight es ++ call_ids (with_calls mid)) e
            (λ k. omega (
              arith,
              moved k,
              split_times k s.in_flight es mid,
              split_times k s.in_flight s.event_queue (at stage ∷ []),
            ))
            placed-Agrees

    -- The service with another manager, queue, statistics and calls.
    abbrev next : Manager → List Event → IngestionStats → List PendingCall → IngestService
    next m es stats mid = record s {
      ack_manager = some m;
      event_queue = es;
      stats = stats;
      calls = with_calls mid;
    }

    next-IsSound :
        (m : Manager) (es : List Event) (stats : IngestionStats) (mid : List PendingCall)
        → Agrees m
            (uncounted (with_calls mid))
            (waiting_ids s.in_flight es ++ call_ids (with_calls mid))
        → length es ≤ s.queue_capacity
        → AddUp stats
        → IsSound (next m es stats mid)
    next-IsSound m es stats mid agrees bounded add_up = record {
      manager = m;
      configured = refl;
      agrees = agrees;
      bounded = bounded;
      capacity = h.capacity;
      add_up = add_up;
    }

    abbrev advanced : Stage → IngestService
    advanced stage = record (advance (at stage) s).0 { calls = with_calls (advance (at stage) s).1 }

    created_lem :
        advanced created ≡ next (count_ack h.manager) s.event_queue s.stats (at counted ∷ [])
    unfolding advance
    created_lem = ground (arith, h.configured)

    sent_lem :
        has_room s ≡ true
        → advanced counted ≡ next h.manager (s.event_queue ++ event ∷ []) s.stats (at sent ∷ [])
    unfolding advance
    sent_lem room = ground (arith, room, h.configured)

    full_lem :
        has_room s ≡ false → advanced counted ≡ next h.manager s.event_queue s.stats (at full ∷ [])
    unfolding advance
    full_lem no_room = ground (arith, no_room, h.configured)

    given_up_lem :
        ¬ (event.ack_id ≡ "")
        → advanced full
          ≡ next (fail event.ack_id draw.now h.manager) s.event_queue s.stats (at failed ∷ [])
    unfolding advance
    given_up_lem n = ground (arith, h.configured, eq_iff event.ack_id "")

    counted_lem :
        (advanced sent
          ≡ next h.manager s.event_queue (update_stats draw.now (length event.raw) true s.stats) [])
        × (advanced failed
            ≡ next h.manager s.event_queue (update_stats draw.now 0 false s.stats) [])
    unfolding advance
    counted_lem = (ground (arith, h.configured), ground (arith, h.configured))

    given_up-Agrees :
        s.calls ≡ before ++ at full ∷ after
        → (¬ (event.ack_id ≡ ""))
          × Agrees
              (fail event.ack_id draw.now h.manager)
              (uncounted (with_calls (at failed ∷ [])))
              (waiting_ids s.in_flight s.event_queue ++ call_ids (with_calls (at failed ∷ [])))
    given_up-Agrees placed =
        let k = event.ack_id in
        let old = waiting_ids s.in_flight s.event_queue ++ call_ids (with_calls (at full ∷ [])) in
        let new = waiting_ids s.in_flight s.event_queue ++ call_ids (with_calls (at failed ∷ [])) in
        let agrees =
          next-Agrees full placed (uncounted (with_calls (at failed ∷ []))) s.event_queue
            (at full ∷ [])
            (omega (arith, split_uncounted (at full ∷ []), split_uncounted (at failed ∷ [])))
            (λ j. refl) in
        let waits : In k old =
          In-times k old
            (ground (arith, eq_iff k k, split_times k s.in_flight s.event_queue (at full ∷ []))) in
        (
          λ e. agrees.named (subst (λ j. In j old) e waits),
          fail-Agrees k old new
              (taken-IsWithout k old new agrees.distinct (λ j. omega (
                arith,
                split_times j s.in_flight s.event_queue (at full ∷ []),
                split_times j s.in_flight s.event_queue (at failed ∷ []),
              )))
              draw.now h.manager (uncounted (with_calls (at failed ∷ []))) waits agrees,
        )

    pub advance-IsSound :
        (stage : Stage) → s.calls ≡ before ++ at stage ∷ after → IsSound (advanced stage)
    advance-IsSound created placed = subst IsSound (sym created_lem) (
        next-IsSound (count_ack h.manager) s.event_queue s.stats (at counted ∷ [])
          (count_ack-Agrees h.manager (uncounted (with_calls (at counted ∷ [])))
            (waiting_ids s.in_flight s.event_queue ++ call_ids (with_calls (at counted ∷ [])))
            (next-Agrees created placed (suc (uncounted (with_calls (at counted ∷ []))))
              s.event_queue (at counted ∷ [])
              (omega (arith, split_uncounted (at created ∷ []), split_uncounted (at counted ∷ [])))
              (λ k. refl)))
          h.bounded h.add_up)
    advance-IsSound counted placed = elim (Bool-cases (has_room s)) [
      | inl room ↦ subst IsSound (sym (sent_lem room)) (
          next-IsSound h.manager (s.event_queue ++ event ∷ []) s.stats (at sent ∷ [])
            (next-Agrees counted placed (uncounted (with_calls (at sent ∷ [])))
              (s.event_queue ++ event ∷ []) (at sent ∷ [])
              (omega (arith, split_uncounted (at counted ∷ []), split_uncounted (at sent ∷ [])))
              (λ k. omega (arith, times-waiting_ids k s.in_flight s.event_queue event)))
            (ground (arith, room, length-append s.event_queue (event ∷ []))) h.add_up)
      | inr no_room ↦ subst IsSound (sym (full_lem no_room)) (
          next-IsSound h.manager s.event_queue s.stats (at full ∷ [])
            (next-Agrees counted placed (uncounted (with_calls (at full ∷ []))) s.event_queue
              (at full ∷ [])
              (omega (arith, split_uncounted (at counted ∷ []), split_uncounted (at full ∷ [])))
              (λ k. refl))
            h.bounded h.add_up)
    ]
    advance-IsSound full placed =
        let given_up = given_up-Agrees placed in
        subst IsSound (sym (given_up_lem given_up.0)) (
          next-IsSound (fail event.ack_id draw.now h.manager) s.event_queue s.stats (at failed ∷ [])
            given_up.1 h.bounded h.add_up)
    advance-IsSound sent placed = subst IsSound (sym counted_lem.0) (
        next-IsSound h.manager s.event_queue (update_stats draw.now (length event.raw) true s.stats)
          []
          (next-Agrees sent placed (uncounted (with_calls [])) s.event_queue []
            (omega (arith, split_uncounted (at sent ∷ []), split_uncounted [])) (λ k. refl))
          h.bounded (AddUp-update_stats draw.now (length event.raw) true s.stats h.add_up))
    advance-IsSound failed placed = subst IsSound (sym counted_lem.1) (
        next-IsSound h.manager s.event_queue (update_stats draw.now 0 false s.stats) []
          (next-Agrees failed placed (uncounted (with_calls [])) s.event_queue []
            (omega (arith, split_uncounted (at failed ∷ []), split_uncounted [])) (λ k. refl))
          h.bounded (AddUp-update_stats draw.now 0 false s.stats h.add_up))
