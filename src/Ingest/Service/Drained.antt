-- ===== src/Ingest/Service/Drained.antt =====
-- Rounds of the processing loop without new events.
use telhawk_stack.Prelude.{
  ℕ, ◌-◌, ◌≤◌, List-cases, String, Bool, true, false, none, some, List, [], ◌∷◌, length, ◌≡◌, ap,
  ◌∙◌, refl, inl, inr, arith, eq_iff, subst, Bool-cases, Option-cases,
}
use telhawk_stack.Prelude.Keys.{In, IsDistinct}
use telhawk_stack.Prelude.Maps.{get, keys, get-missing}
use telhawk_stack.Ingest.Ack.{Ack, Manager, is_pending, count_pending, get_pending}
use telhawk_stack.Ingest.Service.{IngestService}
use telhawk_stack.Ingest.Service.Worker.{Backend, receive, finish, outcome}
use telhawk_stack.Ingest.Service.Steps.{
  waiting, call_ids, uncounted, Reachable, then_step, receive_step, finish_step,
}
use telhawk_stack.Ingest.Service.Settled.{manager_Agrees}
use telhawk_stack.Ingest.Service.Queue.{Agrees}
use telhawk_stack.Prelude.Result.{Result-cases}

none_pending :
    (acks : List (String × Ack))
    → IsDistinct (keys acks)
    → ((k : String) (a : Ack) → get k acks ≡ some a → is_pending a.status ≡ false)
    → count_pending acks ≡ 0
none_pending [] d h = refl
none_pending ((k, a) ∷ acks) d h =
    let settled : is_pending a.status ≡ false = h k a (ground (arith, eq_iff k k)) in
    let rest =
      none_pending acks d.1
        (λ j b e. h j b (ground (arith, e, eq_iff k j, get-missing k acks d.0))) in
    ground (arith, settled, rest)

module _ (backend : Backend) where
  -- A round for each of the times.
  abbrev pub rounds : List ℕ → IngestService → IngestService
  rounds [] s = s
  rounds (now ∷ nows) s = rounds nows (finish backend now (receive s))

  finish-idle :
      (now : ℕ) (s : IngestService)
      → ((finish backend now s).in_flight ≡ none)
        × ((finish backend now s).event_queue ≡ s.event_queue)
  unfolding finish
  finish-idle now s = elim (Option-cases s.in_flight) [
    | inl idle ↦ rw idle (refl, refl)
    | inr (event, busy) ↦ elim (Result-cases (outcome backend event)) [
      | inl (done, stored) ↦ rw busy (rw stored (refl, refl))
      | inr (e, failed) ↦ rw busy (rw failed (refl, refl))
    ]
  ]

  finish-calls : (now : ℕ) (s : IngestService) → (finish backend now s).calls ≡ s.calls
  unfolding finish
  finish-calls now s = elim (Option-cases s.in_flight) [
    | inl idle ↦ rw idle refl
    | inr (event, busy) ↦ elim (Result-cases (outcome backend event)) [
      | inl (done, stored) ↦ rw busy (rw stored refl)
      | inr (e, failed) ↦ rw busy (rw failed refl)
    ]
  ]

  receive-calls : (s : IngestService) → (receive s).calls ≡ s.calls
  unfolding receive
  receive-calls s = elim (Option-cases s.in_flight) [
    | inr (event, busy) ↦ rw busy refl
    | inl idle ↦ elim (List-cases s.event_queue) [
      | inl empty ↦ rw idle (rw empty refl)
      | inr (event, rest, more) ↦ rw idle (rw more refl)
    ]
  ]

  receive_idle :
      (s : IngestService)
      → s.in_flight ≡ none
      → length (receive s).event_queue ≡ length s.event_queue - 1
  unfolding receive
  receive_idle s idle = elim (List-cases s.event_queue) [
    | inl empty ↦ ground (arith, idle, empty)
    | inr (event, rest, more) ↦ ground (arith, idle, more)
  ]

  receive_le : (s : IngestService) → length (receive s).event_queue ≤ length s.event_queue
  unfolding receive
  receive_le s = elim (Option-cases s.in_flight) [
    | inl idle ↦ omega (arith, receive_idle s idle)
    | inr (event, busy) ↦ ground (arith, busy)
  ]

  rounds_idle :
      (nows : List ℕ) (s : IngestService)
      → s.in_flight ≡ none
      → length s.event_queue ≤ length nows
      → ((rounds nows s).in_flight ≡ none) × ((rounds nows s).event_queue ≡ [])
  rounds_idle [] s idle few = (
    idle,
    elim (List-cases s.event_queue) [
      | inl empty ↦ empty
      | inr (event, rest, more) ↦ ground (arith, few, more)
    ],
  )
  rounds_idle (now ∷ nows) s idle few =
      let finished = finish-idle now (receive s) in
      rounds_idle nows (finish backend now (receive s)) finished.0
        (rw finished.1 (omega (arith, few, receive_idle s idle)))

  rounds-Reachable :
      {ttl start : ℕ} {has_dlq : Bool} (nows : List ℕ) (s : IngestService)
      → Reachable ttl start has_dlq s
      → Reachable ttl start has_dlq (rounds nows s)
  rounds-Reachable [] s r = r
  rounds-Reachable (now ∷ nows) s r =
      rounds-Reachable nows (finish backend now (receive s))
        (then_step (then_step r (receive_step s)) (finish_step backend now (receive s)))

  rounds-calls : (nows : List ℕ) (s : IngestService) → (rounds nows s).calls ≡ s.calls
  rounds-calls [] s = refl
  rounds-calls (now ∷ nows) s =
      rounds-calls nows (finish backend now (receive s))
      ∙ (finish-calls now (receive s) ∙ receive-calls s)

  -- From every state that the service reaches, whatever the pipeline and the storage answer, as many
  -- rounds of the loop as there are events in the queue, and one more for an event in flight, leave
  -- the queue empty, nothing in flight, no acknowledgement pending but those of calls that have
  -- neither sent their event nor failed it, and so none at all where no call is in progress.
  pub get_pending-rounds :
      {ttl start : ℕ} {has_dlq : Bool} (s : IngestService)
      → Reachable ttl start has_dlq s
      → (now : ℕ) (nows : List ℕ) (m : Manager) → length s.event_queue ≤ length nows
      → (rounds (now ∷ nows) s).ack_manager ≡ some m
      → ((rounds (now ∷ nows) s).in_flight ≡ none)
        × ((rounds (now ∷ nows) s).event_queue ≡ [])
        × ((k : String) (a : Ack)
            → get k m.acks ≡ some a
            → is_pending a.status ≡ true
            → In k (call_ids s.calls))
        × (s.calls ≡ [] → get_pending m ≡ 0)
  unfolding get_pending
  get_pending-rounds s r now nows m few e =
      let finished = finish-idle now (receive s) in
      let left =
        rounds_idle nows (finish backend now (receive s)) finished.0
          (rw finished.1 (omega (arith, few, receive_le s))) in
      let agrees : Agrees m (uncounted (rounds (now ∷ nows) s).calls)
          (waiting (rounds (now ∷ nows) s)) =
        manager_Agrees (rounds-Reachable (now ∷ nows) s r) m e in
      let calls_wait : waiting (rounds (now ∷ nows) s) ≡ call_ids s.calls =
        rw left.0 (rw left.1 (ap call_ids (rounds-calls (now ∷ nows) s))) in
      let of_calls : (k : String) (a : Ack)
          → get k m.acks ≡ some a
          → is_pending a.status ≡ true
          → In k (call_ids s.calls) =
        λ k a f waits. subst (In k) calls_wait (agrees.pending_waits k a f waits) in
      (
        left.0,
        left.1,
        of_calls,
        λ idle. none_pending m.acks agrees.distinct_keys (λ k a f.
            elim (Bool-cases (is_pending a.status)) [
              | inr settled ↦ settled
              | inl waits ↦ elim (subst (λ cs. In k (call_ids cs)) idle (of_calls k a f waits)) [ ]
            ]),
      )
