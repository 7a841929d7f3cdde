-- ===== src/Ingest/Ack/Gauge.antt =====
-- The gauge of pending acknowledgements against the map.
use telhawk_stack.Prelude.{
  ℕ, zero, suc, ◌+◌, ℤ, pos, negsuc, pos_part, neg_part, String, Option, none, some, List, [], ◌∷◌,
  if◌then◌else◌, ◌≡◌, inl, inr, arith, Option-cases,
}
use telhawk_stack.Prelude.Maps.{get, put}
use telhawk_stack.Ingest.Ack.{
  pending, success, failed, Ack, Manager, increment, decrement, is_pending, new_manager, add_ack,
  count_ack, create, complete, fail, count_pending, get_pending, unexpired, after_sweep, cleanup,
}

-- The gauge is `extra` below the number of pending acknowledgements.
abbrev pub IsBehind : ℕ → Manager → Type 0
IsBehind extra m = pos_part m.acks_pending + extra ≡ count_pending m.acks + neg_part m.acks_pending

-- One where the entry found is pending.
abbrev pub weight : Option Ack → ℕ
weight none = 0
weight (some a) = if is_pending a.status then 1 else 0

pub count_pending-put :
    (k : String) (a : Ack) (m : List (String × Ack))
    → count_pending (put k a m) + weight (get k m) ≡ count_pending m + weight (some a)
count_pending-put k a [] = ground arith
count_pending-put k a ((j, b) ∷ m) = ground (arith, count_pending-put k a m)

increment_parts :
    (z : ℤ) → pos_part (increment z) + neg_part z ≡ suc (pos_part z) + neg_part (increment z)
increment_parts (pos n) = omega arith
increment_parts (negsuc zero) = omega arith
increment_parts (negsuc (suc n)) = omega arith

decrement_parts :
    (z : ℤ) → suc (pos_part (decrement z)) + neg_part z ≡ pos_part z + neg_part (decrement z)
decrement_parts (pos zero) = omega arith
decrement_parts (pos (suc n)) = omega arith
decrement_parts (negsuc n) = omega arith

sweep_balance :
    (now ttl : ℕ) (m : List (String × Ack)) (z : ℤ)
    → pos_part (after_sweep now ttl m z) + count_pending m + neg_part z
      ≡ pos_part z + count_pending (unexpired now ttl m) + neg_part (after_sweep now ttl m z)
sweep_balance now ttl [] z = omega arith
sweep_balance now ttl ((k, a) ∷ m) z =
    ground
      (arith, decrement_parts z, sweep_balance now ttl m z, sweep_balance now ttl m (decrement z))

pub create-IsBehind :
    (extra : ℕ) (id : String) (now : ℕ) (ids : List String) (m : Manager)
    → get id m.acks ≡ none
    → IsBehind extra m
    → IsBehind extra (create id now ids m)
unfolding create
create-IsBehind extra id now ids m fresh h = ground (
  arith,
  increment_parts m.acks_pending,
  count_pending-put id (record { id = id; status = pending; timestamp = now; event_ids = ids })
      m.acks,
)

pub add_ack-IsBehind :
    (extra : ℕ) (id : String) (now : ℕ) (ids : List String) (m : Manager)
    → get id m.acks ≡ none
    → IsBehind extra m
    → IsBehind (suc extra) (add_ack id now ids m)
unfolding add_ack
add_ack-IsBehind extra id now ids m fresh h = ground (
  arith,
  count_pending-put id (record { id = id; status = pending; timestamp = now; event_ids = ids })
      m.acks,
)

pub count_ack-IsBehind :
    (extra : ℕ) (m : Manager) → IsBehind (suc extra) m → IsBehind extra (count_ack m)
unfolding count_ack
count_ack-IsBehind extra m h = omega (arith, h, increment_parts m.acks_pending)

-- Whether the acknowledgement is in the map and already settled.
abbrev pub is_repeat : Option Ack → ℕ
is_repeat none = 0
is_repeat (some a) = if is_pending a.status then 0 else 1

pub complete-IsBehind :
    (extra : ℕ) (id : String) (now : ℕ) (m : Manager)
    → IsBehind extra m
    → IsBehind (extra + is_repeat (get id m.acks)) (complete id now m)
unfolding complete
complete-IsBehind extra id now m h = elim (Option-cases (get id m.acks)) [
  | inl e ↦ ground arith
  | inr p ↦ ground (
    arith,
    p.1,
    decrement_parts m.acks_pending,
    count_pending-put id (record p.0 { status = success; timestamp = now }) m.acks,
  )
]

pub fail-IsBehind :
    (extra : ℕ) (id : String) (now : ℕ) (m : Manager)
    → IsBehind extra m
    → IsBehind (extra + is_repeat (get id m.acks)) (fail id now m)
unfolding fail
fail-IsBehind extra id now m h = elim (Option-cases (get id m.acks)) [
  | inl e ↦ ground arith
  | inr p ↦ ground (
    arith,
    p.1,
    decrement_parts m.acks_pending,
    count_pending-put id (record p.0 { status = failed; timestamp = now }) m.acks,
  )
]

pub cleanup-IsBehind :
    (extra now : ℕ) (m : Manager) → IsBehind extra m → IsBehind extra (cleanup now m)
unfolding cleanup
cleanup-IsBehind extra now m h = ground (arith, sweep_balance now m.ttl m.acks m.acks_pending)

-- The calls that a manager takes, each with the time and, for a new one, the id that it draws.
pub data Call : Type 0 where
  call_create : String → ℕ → List String → Call
  call_complete call_fail : String → ℕ → Call
  call_cleanup : ℕ → Call

abbrev pub perform : Call → Manager → Manager
perform (call_create id now ids) m = create id now ids m
perform (call_complete id now) m = complete id now m
perform (call_fail id now) m = fail id now m
perform (call_cleanup now) m = cleanup now m

abbrev pub perform_all : List Call → Manager → Manager
perform_all [] m = m
perform_all (c ∷ cs) m = perform_all cs (perform c m)

-- A call of Complete or Fail for an acknowledgement that is settled already counts one.
abbrev pub repeats_of : Call → Manager → ℕ
repeats_of (call_complete id now) m = is_repeat (get id m.acks)
repeats_of (call_fail id now) m = is_repeat (get id m.acks)
repeats_of _ m = 0

abbrev pub repeats : List Call → Manager → ℕ
repeats [] m = 0
repeats (c ∷ cs) m = repeats_of c m + repeats cs (perform c m)

-- The id of a new acknowledgement is not in the map.
abbrev pub IsFresh : Call → Manager → Type 0
IsFresh (call_create id now ids) m = get id m.acks ≡ none
IsFresh _ m = Unit {0}

abbrev pub AllFresh : List Call → Manager → Type 0
AllFresh [] m = Unit {0}
AllFresh (c ∷ cs) m = IsFresh c m × AllFresh cs (perform c m)

perform-IsBehind :
    (extra : ℕ) (c : Call) (m : Manager)
    → IsFresh c m
    → IsBehind extra m
    → IsBehind (extra + repeats_of c m) (perform c m)
perform-IsBehind extra (call_create id now ids) m f h =
    omega (arith, create-IsBehind extra id now ids m f h)
perform-IsBehind extra (call_complete id now) m f h = complete-IsBehind extra id now m h
perform-IsBehind extra (call_fail id now) m f h = fail-IsBehind extra id now m h
perform-IsBehind extra (call_cleanup now) m f h = omega (arith, cleanup-IsBehind extra now m h)

perform_all-IsBehind :
    (extra : ℕ) (cs : List Call) (m : Manager)
    → AllFresh cs m
    → IsBehind extra m
    → IsBehind (extra + repeats cs m) (perform_all cs m)
perform_all-IsBehind extra [] m f h = omega (arith, h)
perform_all-IsBehind extra (c ∷ cs) m f h = omega (
  arith,
  perform_all-IsBehind (extra + repeats_of c m) cs (perform c m) f.1
      (perform-IsBehind extra c m f.0 h),
)

pub new_manager-IsBehind : (ttl : ℕ) → IsBehind 0 (new_manager ttl)
unfolding new_manager
new_manager-IsBehind ttl = omega arith

-- After any sequence of calls to a new manager, in which every id drawn is new to the map, the
-- gauge of pending acknowledgements is the number of those in the map less the calls of Complete
-- and Fail that met an acknowledgement which was already settled.
pub get_pending-perform_all :
    (ttl : ℕ) (calls : List Call)
    → AllFresh calls (new_manager ttl)
    → pos_part (perform_all calls (new_manager ttl)).acks_pending + repeats calls (new_manager ttl)
      ≡ get_pending (perform_all calls (new_manager ttl))
        + neg_part (perform_all calls (new_manager ttl)).acks_pending
unfolding get_pending
get_pending-perform_all ttl calls f =
    omega (arith, perform_all-IsBehind 0 calls (new_manager ttl) f (new_manager-IsBehind ttl))
