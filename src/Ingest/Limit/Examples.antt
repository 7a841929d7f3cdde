-- ===== src/Ingest/Limit/Examples.antt =====
-- Redis's sorted sets as lists, and a run of the limiter.
use telhawk_stack.Prelude.{
  ℕ, ◌-◌, ◌≤◌, ◌<◌, pos, true, false, List, [], ◌∷◌, length, ltb, ◌==◌, if◌then◌else◌, ◌≡◌, refl,
  arith, All,
}
use telhawk_stack.Ingest.Limit.{above, SortedSets, RateLimiter, allow}
use telhawk_stack.Ingest.Limit.Window.{answers, expected, log_after, last_time, allow_window}

-- A member is inserted where it belongs, once.
abbrev insert : ℕ → List ℕ → List ℕ
insert t [] = t ∷ []
insert t (u ∷ us) =
    let rest = insert t us in if ltb u t then t ∷ u ∷ us else if u == t then u ∷ us else u ∷ rest

insert_newest : (t : ℕ) (us : List ℕ) → All (λ u. u < t) us → insert t us ≡ t ∷ us
insert_newest t [] h = refl
insert_newest t (u ∷ us) h = ground arith

abbrev lists : SortedSets
lists = record {
  Set = List ℕ;
  empty = [];
  zremrangebyscore = above;
  zcard = length;
  zadd = insert;
  scores = λ s. s;
  scores_empty = refl;
  scores_removed = λ max s. refl;
  zcard_length = λ s. refl;
  scores_added = insert_newest;
}

-- Two calls in ten seconds.
abbrev two_per_ten : RateLimiter
two_per_ten = record { limit = pos 2; window = 10000000000; disabled = false }

abbrev calls : List ℕ
calls = 21000000000 ∷ 22000000000 ∷ 23000000000 ∷ 31500000000 ∷ 90000000000 ∷ []

answers_test :
    answers lists (λ t. t) two_per_ten calls (record { entries = []; expires_at = 0 })
    ≡ true ∷ true ∷ false ∷ true ∷ true ∷ []
unfolding allow
answers_test = refl

allow_window_example :
    (answers lists (λ t. t) two_per_ten calls (record { entries = []; expires_at = 0 })
      ≡ expected (λ t. t) two_per_ten calls [])
    × (length (
          above
            (last_time 20000000000 calls - 10000000000)
            (log_after (λ t. t) two_per_ten calls []))
        ≤ 2)
allow_window_example =
    allow_window lists (λ t. t) (λ a b h. h) two_per_ten (omega arith) refl 20000000000 calls
      (omega arith)
