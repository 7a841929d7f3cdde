-- ===== src/Ingest/Ack/Answers.antt =====
-- What the map answers after the calls.
use telhawk_stack.Prelude.{
  ℕ, String, Bool, Option, none, some, List, [], ◌∷◌, any, str_eq, if◌then◌else◌, ◌≡◌, refl, arith,
  eq_iff,
}
use telhawk_stack.Prelude.Keys.{In, IsDistinct}
use telhawk_stack.Prelude.Maps.{get, keys, get-put_same, get-put_other, get-missing}
use telhawk_stack.Ingest.Ack.{
  Ack, Manager, is_success, query, query_onto, query_found, is_expired, unexpired, cleanup,
}

-- The answer for an entry of the map: whether it succeeded.
abbrev pub answer : Option Ack → Option Bool
answer none = none
answer (some a) = some (is_success a.status)

-- The first option that is there.
abbrev or_else : Option Bool → Option Bool → Option Bool
or_else none o = o
or_else (some b) o = some b

get-query_found :
    (k id : String) (o : Option Ack) (r : List (String × Bool))
    → get k (query_found id o r) ≡ (if str_eq k id then or_else (answer o) (get k r) else get k r)
unfolding query_found
get-query_found k id none r = ground arith
get-query_found k id (some a) r = ground (
  arith,
  eq_iff k id,
  get-put_same id (is_success a.status) r,
  get-put_other id k (is_success a.status) r,
)

get-query_onto :
    (k : String) (ids : List String) (m : Manager) (r : List (String × Bool))
    → get k (query_onto ids m r)
      ≡ (if any (str_eq k) ids then or_else (answer (get k m.acks)) (get k r) else get k r)
unfolding query_onto
get-query_onto k [] m r = refl
get-query_onto k (id ∷ ids) m r = ground (
  arith,
  eq_iff k id,
  get-query_found k id (get id m.acks) r,
  get-query_onto k ids m (query_found id (get id m.acks) r),
)

-- Query answers for an id exactly if it was asked for and is in the map, and then whether its
-- status is success.
pub get-query :
    (k : String) (ids : List String) (m : Manager)
    → get k (query ids m) ≡ (if any (str_eq k) ids then answer (get k m.acks) else none)
unfolding query
get-query k ids m = ground (arith, get-query_onto k ids m [])

-- An entry that has not expired.
abbrev pub live : ℕ → ℕ → Option Ack → Option Ack
live now ttl none = none
live now ttl (some a) = if is_expired now ttl a then none else some a

pub In-keys-unexpired :
    (k : String) (now ttl : ℕ) (m : List (String × Ack))
    → In k (keys (unexpired now ttl m))
    → In k (keys m)
In-keys-unexpired k now ttl [] h = h
In-keys-unexpired k now ttl ((j, a) ∷ m) h = ground (arith, In-keys-unexpired k now ttl m)

pub IsDistinct-unexpired :
    (now ttl : ℕ) (m : List (String × Ack))
    → IsDistinct (keys m)
    → IsDistinct (keys (unexpired now ttl m))
IsDistinct-unexpired now ttl [] d = d
IsDistinct-unexpired now ttl ((j, a) ∷ m) d =
    ground (arith, In-keys-unexpired j now ttl m, IsDistinct-unexpired now ttl m d.1)

get-unexpired :
    (k : String) (now ttl : ℕ) (m : List (String × Ack))
    → IsDistinct (keys m)
    → get k (unexpired now ttl m) ≡ live now ttl (get k m)
get-unexpired k now ttl [] d = refl
get-unexpired k now ttl ((j, a) ∷ m) d = ground (
  arith,
  eq_iff j k,
  get-unexpired k now ttl m d.1,
  get-missing k m,
  In-keys-unexpired k now ttl m,
)

-- After a cleanup an id has the entry that it had before, unless that is older than the ttl, where
-- the map's keys are distinct.
pub get-cleanup :
    (k : String) (now : ℕ) (m : Manager)
    → IsDistinct (keys m.acks)
    → get k (cleanup now m).acks ≡ live now m.ttl (get k m.acks)
unfolding cleanup
get-cleanup k now m d = get-unexpired k now m.ttl m.acks d
