-- ===== src/Ingest/Service/Steps.antt =====
-- The steps of the service, in any order: `IngestEvent` and `IngestRaw` up to the lock of `Create`, the
-- parts of the calls in progress, any number of which stand side by side, the two halves of a round of
-- the loop, and cleanups. What the loop calls may answer differently in every step.
use telhawk_stack.Prelude.{
  ℕ, ◌+◌, ◌≤◌, ℤ, pos, String, Bool, Option, none, some, List, [], ◌∷◌, ◌++◌, length, ◌≡◌,
}
use telhawk_stack.Prelude.Result.{Result, ok}
use telhawk_stack.Ingest.Ack.{Manager, new_manager, cleanup}
use telhawk_stack.Ingest.Event.{HecEvent, Event, IngestionStats, TokenInfo, Error}
use telhawk_stack.Ingest.Service.{
  IngestService, new_ingest_service, set_ack_manager, Draw, Stage, created, counted, sent, full,
  failed, PendingCall, begin, advance, internal_event, raw_event,
}
use telhawk_stack.Ingest.Service.Worker.{Backend, receive, finish}
use telhawk_stack.Ingest.Service.Queue.{Agrees, IsNew}

abbrev pub ack_ids : List Event → List String
ack_ids [] = []
ack_ids (e ∷ es) = e.ack_id ∷ ack_ids es

-- The acknowledgements of the event in flight and of those in the queue.
abbrev pub waiting_ids : Option Event → List Event → List String
waiting_ids none es = ack_ids es
waiting_ids (some e) es = e.ack_id ∷ ack_ids es

-- The acknowledgements of the calls in progress whose event is neither queued nor given up.
abbrev pub open_ids : Stage → String → List String
open_ids created k = k ∷ []
open_ids counted k = k ∷ []
open_ids full k = k ∷ []
open_ids sent k = []
open_ids failed k = []

abbrev pub call_ids : List PendingCall → List String
call_ids [] = []
call_ids (c ∷ cs) = open_ids c.stage c.event.ack_id ++ call_ids cs

abbrev pub waiting : IngestService → List String
waiting s = waiting_ids s.in_flight s.event_queue ++ call_ids s.calls

-- The calls between the two parts of `Create`.
abbrev pub is_uncounted : Stage → ℕ
is_uncounted created = 1
is_uncounted _ = 0

abbrev pub uncounted : List PendingCall → ℕ
uncounted [] = 0
uncounted (c ∷ cs) = is_uncounted c.stage + uncounted cs

abbrev pub cleaned : ℕ → Option Manager → Option Manager
cleaned now none = none
cleaned now (some m) = some (cleanup now m)

-- The cleanup that the manager's own loop makes.
abbrev pub clean_acks : ℕ → IngestService → IngestService
clean_acks now s = record s { ack_manager = cleaned now s.ack_manager }

-- uuid.New draws an id that nothing has, and that is not empty.
abbrev pub CanDrawFor : String → Option Manager → List String → Type 0
CanDrawFor k none ids = Unit {0}
CanDrawFor k (some m) ids = IsNew k m ids

abbrev pub CanDraw : Draw → IngestService → Type 0
CanDraw draw s = CanDrawFor draw.ack_id s.ack_manager (waiting s)

pub data Step : IngestService → IngestService → Type 1 where
  event_step :
      (truncate : ℕ → ℤ) (unix_time : ℕ → ℕ) (marshal : HecEvent → Result Error (List ℕ))
      (string_of : List ℕ → String) (draw : Draw) (event : HecEvent) (source_ip : String)
      (token_info : Option TokenInfo) (raw : List ℕ) (s : IngestService)
      → marshal event ≡ ok raw
      → CanDraw draw s
      → Step s (
          begin draw
            (internal_event truncate unix_time marshal string_of draw event source_ip token_info
              raw)
            s)
  raw_step :
      (truncate : ℕ → ℤ) (unix_time : ℕ → ℕ) (marshal : HecEvent → Result Error (List ℕ))
      (string_of : List ℕ → String) (draw : Draw) (raw : List ℕ) (source_ip : String)
      (token_info : Option TokenInfo) (source source_type host : String) (s : IngestService)
      → CanDraw draw s
      → Step s (
          begin draw
            (raw_event truncate unix_time marshal string_of draw raw source_ip token_info source
              source_type host)
            s)
  call_step :
      (s : IngestService) (before : List PendingCall) (c : PendingCall) (after : List PendingCall)
      → s.calls ≡ before ++ c ∷ after
      → Step s (record (advance c s).0 { calls = before ++ ((advance c s).1 ++ after) })
  receive_step : (s : IngestService) → Step s (receive s)
  finish_step : (backend : Backend) (now : ℕ) (s : IngestService) → Step s (finish backend now s)
  cleanup_step : (now : ℕ) (s : IngestService) → Step s (clean_acks now s)

-- The states of a service that starts with a new manager.
pub data Reachable (ttl now : ℕ) (has_dlq : Bool) : IngestService → Type 1 where
  started :
      Reachable ttl now has_dlq (set_ack_manager (new_manager ttl) (new_ingest_service has_dlq now))
  then_step :
      {s t : IngestService} → Reachable ttl now has_dlq s → Step s t → Reachable ttl now has_dlq t

abbrev pub AddUp : IngestionStats → Type 0
AddUp stats =
    (a : ℕ) × (b : ℕ) × (stats.successful_events ≡ pos a)
    × (stats.failed_events ≡ pos b)
    × (stats.total_events ≡ pos (a + b))

pub record IsSound (s : IngestService) : Type 0 where
  pub manager : Manager
  pub configured : s.ack_manager ≡ some manager
  pub agrees : Agrees manager (uncounted s.calls) (waiting s)
  pub bounded : length s.event_queue ≤ s.queue_capacity
  pub capacity : s.queue_capacity ≡ 10000
  pub add_up : AddUp s.stats
