-- ===== src/Ingest/Ack.antt =====
-- ingest/internal/ack/manager.go: the acknowledgements of queued events, and the two metrics that
-- only the manager moves. The id that `uuid.New` gives and the time that `time.Now` gives are
-- arguments. Each method holds the manager's lock, so that each is one step, but for `Create`, which
-- moves the gauge after it has released the lock and is two.
use telhawk_stack.Prelude.{
  ℕ, ◌+◌, zero, suc, ℤ, pos, negsuc, String, Bool, true, false, Option, none, some, List, [], ◌∷◌,
  ltb, if◌then◌else◌,
}
use telhawk_stack.Prelude.Maps.{get, put}
pub mod Gauge
pub mod Answers

pub data Status : Type 0 where
  pending success failed : Status

pub record Ack : Type 0 where
  pub id : String
  pub status : Status
  pub timestamp : ℕ
  pub event_ids : List String

-- `acks_pending` and `acks_completed` are the metrics AcksPending (a gauge) and AcksCompleted.
pub record Manager : Type 0 where
  pub acks : List (String × Ack)
  pub ttl : ℕ
  pub acks_pending : ℤ
  pub acks_completed : ℕ

-- Gauge.Inc and Gauge.Dec
abbrev pub increment : ℤ → ℤ
increment (pos n) = pos (suc n)
increment (negsuc zero) = pos 0
increment (negsuc (suc n)) = negsuc n

abbrev pub decrement : ℤ → ℤ
decrement (pos zero) = negsuc 0
decrement (pos (suc n)) = pos n
decrement (negsuc n) = negsuc (suc n)

abbrev pub is_pending : Status → Bool
is_pending pending = true
is_pending _ = false

abbrev pub is_success : Status → Bool
is_success success = true
is_success _ = false

unfoldable pub new_manager : ℕ → Manager
new_manager ttl = record { acks = []; ttl = ttl; acks_pending = pos 0; acks_completed = 0 }

-- What `Create` does under the lock, and then the gauge.
unfoldable pub add_ack : String → ℕ → List String → Manager → Manager
add_ack ack_id now event_ids m = record m {
  acks =
      put ack_id (record { id = ack_id; status = pending; timestamp = now; event_ids = event_ids })
        m.acks;
}

unfoldable pub count_ack : Manager → Manager
count_ack m = record m { acks_pending = increment m.acks_pending }

unfoldable pub create : String → ℕ → List String → Manager → Manager
unfolding add_ack count_ack
create ack_id now event_ids m = count_ack (add_ack ack_id now event_ids m)

complete_found : String → ℕ → Manager → Option Ack → Manager
complete_found ack_id now m none = m
complete_found ack_id now m (some a) = record m {
  acks = put ack_id (record a { status = success; timestamp = now }) m.acks;
  acks_pending = decrement m.acks_pending;
  acks_completed = suc m.acks_completed;
}

unfoldable pub complete : String → ℕ → Manager → Manager
unfolding complete_found
complete ack_id now m = complete_found ack_id now m (get ack_id m.acks)

fail_found : String → ℕ → Manager → Option Ack → Manager
fail_found ack_id now m none = m
fail_found ack_id now m (some a) = record m {
  acks = put ack_id (record a { status = failed; timestamp = now }) m.acks;
  acks_pending = decrement m.acks_pending;
}

unfoldable pub fail : String → ℕ → Manager → Manager
unfolding fail_found
fail ack_id now m = fail_found ack_id now m (get ack_id m.acks)

query_found : String → Option Ack → List (String × Bool) → List (String × Bool)
query_found ack_id none result = result
query_found ack_id (some a) result = put ack_id (is_success a.status) result

query_onto : List String → Manager → List (String × Bool) → List (String × Bool)
query_onto [] m result = result
query_onto (ack_id ∷ ids) m result =
    query_onto ids m (query_found ack_id (get ack_id m.acks) result)

unfoldable pub query : List String → Manager → List (String × Bool)
unfolding query_onto query_found
query ack_ids m = query_onto ack_ids m []

abbrev pub count_pending : List (String × Ack) → ℕ
count_pending [] = 0
count_pending ((k, a) ∷ acks) =
    if is_pending a.status then suc (count_pending acks) else count_pending acks

unfoldable pub get_pending : Manager → ℕ
get_pending m = count_pending m.acks

-- ack.Timestamp.Before(now.Add(-ttl))
abbrev pub is_expired : ℕ → ℕ → Ack → Bool
is_expired now ttl a = ltb (a.timestamp + ttl) now

-- The entries that the loop of `cleanup` leaves.
abbrev pub unexpired : ℕ → ℕ → List (String × Ack) → List (String × Ack)
unexpired now ttl [] = []
unexpired now ttl ((k, a) ∷ acks) =
    let rest = unexpired now ttl acks in if is_expired now ttl a then rest else (k, a) ∷ rest

-- The gauge after that loop.
abbrev pub after_sweep : ℕ → ℕ → List (String × Ack) → ℤ → ℤ
after_sweep now ttl [] gauge = gauge
after_sweep now ttl ((k, a) ∷ acks) gauge = after_sweep now ttl acks (
    if is_expired now ttl a
    then (if is_pending a.status then decrement gauge else gauge)
    else gauge)

unfoldable pub cleanup : ℕ → Manager → Manager
cleanup now m = record m {
  acks = unexpired now m.ttl m.acks;
  acks_pending = after_sweep now m.ttl m.acks m.acks_pending;
}
