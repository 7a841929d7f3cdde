-- ===== src/Ingest/Service/Runs.antt =====
-- A call of `IngestEvent` or `IngestRaw` that nothing comes between is a run of the steps.
use telhawk_stack.Prelude.{List, ◌++◌}
use telhawk_stack.Prelude.Result.{Result}
use telhawk_stack.Ingest.Event.{Event}
use telhawk_stack.Ingest.Service.{
  IngestService, Draw, Stage, PendingCall, add_new, count_new, acknowledged,
}

module _ (draw : Draw) (event : Event) (s : IngestService) where
  abbrev ready : Event
  ready = acknowledged draw event s

  abbrev at : Stage → PendingCall
  at stage = record { stage = stage; draw = draw; event = ready }

  -- The state with the call at a stage, or gone.
  abbrev with_call : IngestService → List PendingCall → IngestService
  with_call t mid = record t { calls = s.calls ++ mid }

  abbrev created_state : IngestService
  created_state = count_new (add_new draw s)
