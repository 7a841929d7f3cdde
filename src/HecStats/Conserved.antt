-- ===== src/HecStats/Conserved.antt =====
-- What becomes of the events that are recorded.
use telhawk_stack.Prelude.{ℕ, ◌+◌, Option, some, List, [], ◌∷◌}
use telhawk_stack.HecStats.{
  BatchUpdate, Exec, unanswered, Collector, values, pick, Call, recorded, started, tried, perform,
}

abbrev sum : List BatchUpdate → ℕ
sum [] = 0
sum (b ∷ bs) = b.event_count + sum bs

-- The events that wait to be written.
abbrev pub waiting : Collector → ℕ
waiting c = sum (values c.batches) + sum c.flushing

-- The events of the calls of Record.
abbrev pub recorded_events : List Call → ℕ
recorded_events [] = 0
recorded_events (recorded token_id event_count client_ip ∷ calls) =
    event_count + recorded_events calls
recorded_events (started ∷ calls) = recorded_events calls
recorded_events (tried n exec ∷ calls) = recorded_events calls

-- The events of a round whose batch Redis took though the answer was an error.
abbrev pub again_in : Exec → Option (BatchUpdate × List BatchUpdate) → ℕ
again_in unanswered (some (b, rest)) = b.event_count
again_in _ _ = 0

abbrev pub again_of : Call → Collector → ℕ
again_of (tried n exec) c = again_in exec (pick n c.flushing)
again_of _ c = 0

-- The sum of those over the calls.
abbrev pub written_again : List Call → Collector → ℕ
written_again [] c = 0
written_again (call ∷ calls) c = again_of call c + written_again calls (perform call c)
