-- ===== src/Ingest/Service/Begun.antt =====
-- The first part of `IngestEvent` and `IngestRaw` keeps what holds of the service.
use telhawk_stack.Prelude.{
  ℕ, suc, ◌+◌, String, Bool, true, false, Option, none, some, List, [], ◌∷◌, ◌++◌, ◌≡◌, refl, sym,
  arith, subst,
}
use telhawk_stack.Prelude.Keys.{times, times-append}
use telhawk_stack.Ingest.Ack.{Manager, add_ack}
use telhawk_stack.Ingest.Event.{Event, IngestionStats}
use telhawk_stack.Ingest.Service.{IngestService, Draw, created, PendingCall, begin, update_stats}
use telhawk_stack.Ingest.Service.Queue.{IsNew, add_ack-Agrees, moved-Agrees}
use telhawk_stack.Ingest.Service.Steps.{
  AddUp, CanDrawFor, ack_ids, waiting_ids, waiting, open_ids, call_ids, uncounted, CanDraw, IsSound,
}

times-ack_ids :
    (k : String) (es : List Event) (e : Event)
    → times k (ack_ids (es ++ e ∷ [])) ≡ times k (ack_ids es) + times k (e.ack_id ∷ [])
times-ack_ids k [] e = ground arith
times-ack_ids k (d ∷ es) e = ground (arith, times-ack_ids k es e)

pub times-waiting_ids :
    (k : String) (o : Option Event) (es : List Event) (e : Event)
    → times k (waiting_ids o (es ++ e ∷ [])) ≡ times k (waiting_ids o es) + times k (e.ack_id ∷ [])
times-waiting_ids k none es e = times-ack_ids k es e
times-waiting_ids k (some d) es e = ground (arith, times-ack_ids k es e)

pub times-call_ids :
    (k : String) (xs ys : List PendingCall)
    → times k (call_ids (xs ++ ys)) ≡ times k (call_ids xs) + times k (call_ids ys)
times-call_ids k [] ys = omega arith
times-call_ids k (c ∷ xs) ys = omega (
  arith,
  times-append k (open_ids c.stage c.event.ack_id) (call_ids (xs ++ ys)),
  times-append k (open_ids c.stage c.event.ack_id) (call_ids xs),
  times-call_ids k xs ys,
)

pub uncounted-append :
    (xs ys : List PendingCall) → uncounted (xs ++ ys) ≡ uncounted xs + uncounted ys
uncounted-append [] ys = omega arith
uncounted-append (c ∷ xs) ys = omega (arith, uncounted-append xs ys)

pub AddUp-update_stats :
    (now bytes : ℕ) (success : Bool) (stats : IngestionStats)
    → AddUp stats
    → AddUp (update_stats now bytes success stats)
unfolding update_stats
AddUp-update_stats now bytes true stats (a, b, h, i, j) =
    (suc a, b, ground arith, ground arith, ground arith)
AddUp-update_stats now bytes false stats (a, b, h, i, j) =
    (a, suc b, ground arith, ground arith, ground arith)

module _ (s : IngestService) (h : IsSound s) where
  module _ (draw : Draw) (event : Event) (new : CanDraw draw s) where
    draw-IsNew : IsNew draw.ack_id h.manager (waiting s)
    draw-IsNew = subst (λ o. CanDrawFor draw.ack_id o (waiting s)) h.configured new

    abbrev added : Manager
    added = add_ack draw.ack_id draw.now (draw.event_id ∷ []) h.manager

    abbrev call : PendingCall
    call = record { stage = created; draw = draw; event = record event { ack_id = draw.ack_id } }

    abbrev begun : IngestService
    begun = record s { ack_manager = some added; calls = s.calls ++ call ∷ [] }

    begin_lem : begin draw event s ≡ begun
    unfolding begin
    begin_lem = ground (arith, h.configured)

    begun-IsSound : IsSound begun
    begun-IsSound = record {
      manager = added;
      configured = refl;
      agrees =
          moved-Agrees added (suc (uncounted s.calls)) (uncounted (s.calls ++ call ∷ []))
            (waiting s ++ draw.ack_id ∷ []) (waiting begun)
            (omega (arith, uncounted-append s.calls (call ∷ [])))
            (λ k. omega (
              arith,
              times-append k (waiting s) (draw.ack_id ∷ []),
              times-append k (waiting_ids s.in_flight s.event_queue) (call_ids s.calls),
              times-append k (waiting_ids s.in_flight s.event_queue)
                  (call_ids (s.calls ++ call ∷ [])),
              times-call_ids k s.calls (call ∷ []),
            ))
            (add_ack-Agrees draw.ack_id draw.now (draw.event_id ∷ []) (waiting s) h.manager
              (uncounted s.calls) draw-IsNew h.agrees);
      bounded = h.bounded;
      capacity = h.capacity;
      add_up = h.add_up;
    }

    pub begin-IsSound : IsSound (begin draw event s)
    begin-IsSound = subst IsSound (sym begin_lem) begun-IsSound
