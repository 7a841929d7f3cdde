-- ===== src/HecStats/Examples.antt =====
-- A flush that fails while events come in.
use telhawk_stack.Prelude.{none, some, List, [], ◌∷◌, ◌≡◌, refl}
use telhawk_stack.HecStats.{
  add, record_usage, take_out, flush_batch, stored, unanswered, Call, recorded, started, tried,
  perform, perform_all, new_collector, stats,
}

abbrev calls : List Call
calls =
    recorded "t1" 2 (some "10.0.0.1")
    ∷ recorded "t2" 1 none
    ∷ started
    ∷ recorded "t1" 3 (some "10.0.0.2")
    ∷ tried 1 stored
    ∷ tried 0 unanswered
    ∷ []

-- The batch that is given back carries the older address, which replaces the later one.
given_back_test :
    (perform_all calls new_collector).batches
    ≡ (
      "t1",
      record {
        token_id = "t1";
        event_count = 5;
        client_ips = "10.0.0.2" ∷ "10.0.0.1" ∷ [];
        last_ip = some "10.0.0.1";
      },
    )
      ∷ []
unfolding perform record_usage take_out flush_batch add
given_back_test = refl

stats_test : stats (perform_all calls new_collector) ≡ ("t1", 5) ∷ []
unfolding stats perform record_usage take_out flush_batch add
stats_test = refl
