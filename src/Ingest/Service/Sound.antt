-- ===== src/Ingest/Service/Sound.antt =====
-- What holds in every state that the service reaches.
use telhawk_stack.Prelude.{
  List-cases, ℕ, String, Bool, none, some, List, ◌∷◌, ◌++◌, if◌then◌else◌, ◌≡◌, refl, sym, ap, ◌∙◌,
  inl, inr, arith, eq_iff, subst, Option-cases,
}
use telhawk_stack.Prelude.Result.{ok, err, Result-cases}
use telhawk_stack.Ingest.Ack.{Manager, new_manager, complete, fail, cleanup}
use telhawk_stack.Ingest.Event.{Event, Error}
use telhawk_stack.Ingest.Service.{IngestService, new_ingest_service, set_ack_manager}
use telhawk_stack.Ingest.Service.Worker.{Backend, receive, finish, outcome, dead_letters_of}
use telhawk_stack.Ingest.Service.Queue.{
  IsWithout, Agrees, new_manager-Agrees, complete-Agrees, fail-Agrees, cleanup-Agrees,
  head-IsWithout,
}
use telhawk_stack.Ingest.Service.Steps.{
  cleaned, ack_ids, waiting_ids, waiting, call_ids, uncounted, clean_acks, Step, event_step,
  raw_step, call_step, receive_step, finish_step, cleanup_step, Reachable, started, then_step,
  IsSound,
}
use telhawk_stack.Ingest.Service.Begun.{begin-IsSound}
use telhawk_stack.Ingest.Service.Advanced.{advance-IsSound}

started-IsSound :
    (ttl now : ℕ) (has_dlq : Bool)
    → IsSound (set_ack_manager (new_manager ttl) (new_ingest_service has_dlq now))
unfolding set_ack_manager new_ingest_service
started-IsSound ttl now has_dlq = record {
  manager = new_manager ttl;
  configured = refl;
  agrees = new_manager-Agrees ttl;
  bounded = omega arith;
  capacity = refl;
  add_up = (0, 0, refl, refl, refl);
}

module _ (s : IngestService) (h : IsSound s) where
  received-IsSound :
      (e : Event) (rest : List Event)
      → s.in_flight ≡ none
      → s.event_queue ≡ e ∷ rest
      → IsSound (record s { event_queue = rest; in_flight = some e })
  received-IsSound e rest idle front = record {
    manager = h.manager;
    configured = h.configured;
    agrees =
        subst (Agrees h.manager (uncounted s.calls))
          (ap (λ o. waiting_ids o s.event_queue ++ call_ids s.calls) idle
            ∙ ap (λ es. waiting_ids none es ++ call_ids s.calls) front)
          h.agrees;
    bounded = ground (arith, front, h.bounded);
    capacity = h.capacity;
    add_up = h.add_up;
  }

  receive-IsSound : IsSound (receive s)
  unfolding receive
  receive-IsSound = elim (Option-cases s.in_flight) [
    | inl idle ↦ elim (List-cases s.event_queue) [
      | inl empty ↦ subst IsSound (sym (ground (arith, idle, empty))) h
      | inr p ↦ subst IsSound (sym (ground (arith, idle, p.2))) (received-IsSound p.0 p.1 idle p.2)
    ]
    | inr p ↦ subst IsSound (sym (ground (arith, p.1))) h
  ]

  -- The state after the event in flight has left the given manager.
  abbrev pub settled_as : Backend → Event → Manager → IngestService
  settled_as backend e m = record s {
    in_flight = none;
    dead_letters =
        if s.has_dlq then s.dead_letters ++ dead_letters_of backend e else s.dead_letters;
    ack_manager = some m;
  }

  module _ (backend : Backend) (now : ℕ) (e : Event) (flying : s.in_flight ≡ some e) where
    abbrev others : List String
    others = ack_ids s.event_queue ++ call_ids s.calls

    flying-Agrees : Agrees h.manager (uncounted s.calls) (e.ack_id ∷ others)
    flying-Agrees =
        subst (Agrees h.manager (uncounted s.calls))
          (ap (λ o. waiting_ids o s.event_queue ++ call_ids s.calls) flying) h.agrees

    flying_named : ¬ (e.ack_id ≡ "")
    flying_named n = flying-Agrees.named (inl n)

    pub finish_stored :
        outcome backend e ≡ ok tt
        → finish backend now s ≡ settled_as backend e (complete e.ack_id now h.manager)
    unfolding finish
    finish_stored stored =
        ground (arith, flying, stored, h.configured, eq_iff e.ack_id "", flying_named)

    pub finish_failed :
        (error : Error)
        → outcome backend e ≡ err error
        → finish backend now s ≡ settled_as backend e (fail e.ack_id now h.manager)
    unfolding finish
    finish_failed error failed =
        ground (arith, flying, failed, h.configured, eq_iff e.ack_id "", flying_named)

    settled_as-IsSound :
        (m : Manager) → Agrees m (uncounted s.calls) others → IsSound (settled_as backend e m)
    settled_as-IsSound m agrees = record {
      manager = m;
      configured = refl;
      agrees = agrees;
      bounded = h.bounded;
      capacity = h.capacity;
      add_up = h.add_up;
    }

    flying-IsWithout : IsWithout e.ack_id (e.ack_id ∷ others) others
    flying-IsWithout = head-IsWithout e.ack_id others flying-Agrees.distinct

    finish_flying-IsSound : IsSound (finish backend now s)
    finish_flying-IsSound = elim (Result-cases (outcome backend e)) [
      | inl p ↦ subst IsSound (sym (finish_stored (p.1 ∙ refl))) (
          settled_as-IsSound (complete e.ack_id now h.manager) (
            complete-Agrees e.ack_id (e.ack_id ∷ others) others flying-IsWithout now h.manager
              (uncounted s.calls) (inl refl) flying-Agrees))
      | inr p ↦ subst IsSound (sym (finish_failed p.0 p.1)) (
          settled_as-IsSound (fail e.ack_id now h.manager) (
            fail-Agrees e.ack_id (e.ack_id ∷ others) others flying-IsWithout now h.manager
              (uncounted s.calls) (inl refl) flying-Agrees))
    ]

  finish-IsSound : (backend : Backend) (now : ℕ) → IsSound (finish backend now s)
  unfolding finish
  finish-IsSound backend now = elim (Option-cases s.in_flight) [
    | inl idle ↦ subst IsSound (sym (ground (arith, idle))) h
    | inr p ↦ finish_flying-IsSound backend now p.0 p.1
  ]

  cleaned-IsSound : (now : ℕ) → IsSound (record s { ack_manager = some (cleanup now h.manager) })
  cleaned-IsSound now = record {
    manager = cleanup now h.manager;
    configured = refl;
    agrees = cleanup-Agrees now h.manager (uncounted s.calls) (waiting s) h.agrees;
    bounded = h.bounded;
    capacity = h.capacity;
    add_up = h.add_up;
  }

  clean_acks-IsSound : (now : ℕ) → IsSound (clean_acks now s)
  clean_acks-IsSound now =
      subst (λ o. IsSound (record s { ack_manager = cleaned now o })) (sym h.configured)
        (cleaned-IsSound now)

Step-IsSound : {s t : IngestService} → Step s t → IsSound s → IsSound t
Step-IsSound (event_step tr ut marshal so draw event ip info raw s marshalled new) h =
    begin-IsSound s h draw _ new
Step-IsSound (raw_step tr ut marshal so draw raw ip info source source_type host s new) h =
    begin-IsSound s h draw _ new
Step-IsSound (call_step s before c after placed) h =
    advance-IsSound s h c.draw c.event before after c.stage placed
Step-IsSound (receive_step s) h = receive-IsSound s h
Step-IsSound (finish_step backend now s) h = finish-IsSound s h backend now
Step-IsSound (cleanup_step now s) h = clean_acks-IsSound s h now

pub Reachable-IsSound :
    {ttl now : ℕ} {has_dlq : Bool} {s : IngestService} → Reachable ttl now has_dlq s → IsSound s
Reachable-IsSound {ttl} {now} {has_dlq} started = started-IsSound ttl now has_dlq
Reachable-IsSound (then_step r step) = Step-IsSound step (Reachable-IsSound r)
