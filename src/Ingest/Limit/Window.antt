-- ===== src/Ingest/Limit/Window.antt =====
-- The limit holds in every window.
use telhawk_stack.Prelude.{
  ℕ, ◌+◌, ◌-◌, ◌≤◌, ◌<◌, pos, ltb_ℤ, pos_part, Bool, true, false, List, [], ◌∷◌, length, leb,
  if◌then◌else◌, ◌≡◌, refl, sym, ap, ◌∙◌, inl, inr, arith, All, Bool-cases,
}
use telhawk_stack.Ingest.Limit.{
  above, SortedSets, RateLimiter, time_to_live, Key, live, run_script, allow,
}

length-above_le : (a b : ℕ) (ts : List ℕ) → a ≤ b → length (above b ts) ≤ length (above a ts)
length-above_le a b [] h = omega arith
length-above_le a b (t ∷ ts) h = ground (arith, length-above_le a b ts h)

above-above : (a b : ℕ) (ts : List ℕ) → a ≤ b → above b (above a ts) ≡ above b ts
above-above a b [] h = refl
above-above a b (t ∷ ts) h = ground (arith, above-above a b ts h)

All-above : (a t : ℕ) (ts : List ℕ) → All (λ u. u < t) ts → All (λ u. u < t) (above a ts)
All-above a t [] h = h
All-above a t (u ∷ us) h = ground (arith, All-above a t us h.1)

above_none : (b c : ℕ) (ts : List ℕ) → All (λ u. u ≤ c) ts → c ≤ b → above b ts ≡ []
above_none b c [] h le = refl
above_none b c (t ∷ ts) h le = ground (arith, above_none b c ts h.1 le)

All_le_mono : (c d : ℕ) (ts : List ℕ) → c ≤ d → All (λ u. u ≤ c) ts → All (λ u. u ≤ d) ts
All_le_mono c d [] le h = h
All_le_mono c d (t ∷ ts) le h = (omega (arith, h.0), All_le_mono c d ts le h.1)

-- The reference: a log of all calls let through, newest first, and a call is let through if fewer
-- than `limit` of the log lie in the window that ends with it.
abbrev pub has_room : (ℕ → ℕ) → RateLimiter → ℕ → List ℕ → Bool
has_room tonumber r now log = ltb_ℤ (pos (length (above (tonumber (now - r.window)) log))) r.limit

abbrev pub logged : (ℕ → ℕ) → RateLimiter → ℕ → List ℕ → List ℕ
logged tonumber r now log = if has_room tonumber r now log then tonumber now ∷ log else log

-- What the reference answers to calls at the given times.
abbrev pub expected : (ℕ → ℕ) → RateLimiter → List ℕ → List ℕ → List Bool
expected tonumber r [] log = []
expected tonumber r (t ∷ ts) log =
    has_room tonumber r t log ∷ expected tonumber r ts (logged tonumber r t log)

-- The log after those calls.
abbrev pub log_after : (ℕ → ℕ) → RateLimiter → List ℕ → List ℕ → List ℕ
log_after tonumber r [] log = log
log_after tonumber r (t ∷ ts) log = log_after tonumber r ts (logged tonumber r t log)

abbrev pub last_time : ℕ → List ℕ → ℕ
last_time start [] = start
last_time start (t ∷ ts) = last_time t ts

-- The clock, as Lua reads it, ticks between the calls.
abbrev pub Ticks : (ℕ → ℕ) → ℕ → List ℕ → Type 0
Ticks tonumber start [] = Unit {0}
Ticks tonumber start (t ∷ ts) = (tonumber start < tonumber t) × Ticks tonumber t ts

-- What `allow` answers.
abbrev pub answers :
    (redis : SortedSets) (tonumber : ℕ → ℕ) → RateLimiter → List ℕ → Key redis tonumber → List Bool
answers redis tonumber r [] k = []
answers redis tonumber r (t ∷ ts) k =
    (allow redis tonumber r t k).0 ∷ answers redis tonumber r ts (allow redis tonumber r t k).1

module _ (redis : SortedSets) (tonumber : ℕ → ℕ)
    (mono : (a b : ℕ) → a ≤ b → tonumber a ≤ tonumber b) (r : RateLimiter)
    (short : r.window ≤ time_to_live) (enabled : r.disabled ≡ false) where
  -- The first score outside the window that ends at the given time.
  abbrev pub start_of : ℕ → ℕ
  start_of now = tonumber (now - r.window)

  -- After a call at `now`, before which the calls at the times `allowed` were let through.
  record Follows (now : ℕ) (k : Key redis tonumber) (allowed : List ℕ) : Type 0 where
    same : (b : ℕ) → start_of now ≤ b → above b (redis.scores k.entries) ≡ above b allowed
    old : All (λ t. t ≤ start_of k.expires_at) allowed
    past : All (λ t. t ≤ tonumber now) allowed
    bounded : length (above (start_of now) allowed) ≤ pos_part r.limit

  module _ (now next : ℕ) (k : Key redis tonumber) (allowed : List ℕ) (h : Follows now k allowed)
      (ticks : tonumber now < tonumber next) where
    now_le : now ≤ next
    now_le = ground (arith, mono next now)

    start_le : start_of now ≤ start_of next
    start_le = mono (now - r.window) (next - r.window) (omega (arith, now_le))

    abbrev kept : redis.Set
    kept = redis.zremrangebyscore (start_of next) (live redis tonumber next k)

    gone_le : {b : ℕ} → leb k.expires_at next ≡ true → start_of next ≤ b → start_of k.expires_at ≤ b
    gone_le {b} gone le =
        let before : k.expires_at ≤ next = ground arith in
        omega (arith, le, mono (k.expires_at - r.window) (next - r.window) (omega (arith, before)))

    live_same :
        (b : ℕ)
        → start_of next ≤ b
        → above b (redis.scores (live redis tonumber next k)) ≡ above b allowed
    live_same b le = elim (Bool-cases (leb k.expires_at next)) [
      | inl gone ↦ rw gone (
          rw redis.scores_empty
            (sym (above_none b (start_of k.expires_at) allowed h.old (gone_le gone le))))
      | inr kept ↦ rw kept (h.same b (omega (arith, le, start_le)))
    ]

    kept_same : (b : ℕ) → start_of next ≤ b → above b (redis.scores kept) ≡ above b allowed
    kept_same b le = rw (redis.scores_removed (start_of next) (live redis tonumber next k)) (
        above-above (start_of next) b (redis.scores (live redis tonumber next k)) le
        ∙ live_same b le)

    kept_scores : redis.scores kept ≡ above (start_of next) allowed
    kept_scores =
        redis.scores_removed (start_of next) (live redis tonumber next k)
        ∙ live_same (start_of next) (omega arith)

    kept_card : redis.zcard kept ≡ length (above (start_of next) allowed)
    kept_card = redis.zcard_length kept ∙ ap length kept_scores

    kept_bounded : length (above (start_of next) allowed) ≤ pos_part r.limit
    kept_bounded =
        omega (arith, h.bounded, length-above_le (start_of now) (start_of next) allowed start_le)

    past_next : All (λ t. t ≤ tonumber next) allowed
    past_next = All_le_mono (tonumber now) (tonumber next) allowed (omega (arith, ticks)) h.past

    strict : (ts : List ℕ) → All (λ t. t ≤ tonumber now) ts → All (λ t. t < tonumber next) ts
    strict [] p = p
    strict (t ∷ ts) p = (omega (arith, p.0, ticks), strict ts p.1)

    added :
        redis.scores (redis.zadd (tonumber next) kept)
        ≡ tonumber next ∷ above (start_of next) allowed
    added =
        redis.scores_added (tonumber next) kept (
          rw kept_scores
            (All-above (start_of next) (tonumber next) allowed (strict allowed h.past)))
        ∙ ap (λ ts. tonumber next ∷ ts) kept_scores

    accepted-Follows :
        redis.zcard kept < pos_part r.limit
        → Follows next
            (record { entries = redis.zadd (tonumber next) kept; expires_at = next + time_to_live })
            (tonumber next ∷ allowed)
    accepted-Follows room = record {
      same = λ b le. rw added (ground (arith, above-above (start_of next) b allowed le));
      old = (
        mono next (next + time_to_live - r.window) (omega (arith, short)),
        All_le_mono (tonumber next) (start_of (next + time_to_live)) allowed
            (mono next (next + time_to_live - r.window) (omega (arith, short))) past_next,
      );
      past = (omega arith, past_next);
      bounded = ground (arith, room, kept_card);
    }

    refused-Follows :
        Follows next
          (record {
            entries = kept;
            expires_at = if leb k.expires_at next then next else k.expires_at;
          })
          allowed
    refused-Follows = record {
      same = kept_same;
      old = elim (Bool-cases (leb k.expires_at next)) [
        | inl gone ↦ rw gone (
            All_le_mono (start_of k.expires_at) (start_of next) allowed (gone_le gone (omega arith))
              h.old)
        | inr kept ↦ rw kept h.old
      ];
      past = past_next;
      bounded = kept_bounded;
    }

    abbrev Step : Bool × Key redis tonumber → Type 0
    Step result =
        (result.0 ≡ has_room tonumber r next allowed)
        × Follows next result.1 (logged tonumber r next allowed)

    script-Step : Step (run_script redis tonumber next (next - r.window) r.limit k)
    script-Step = elim (Bool-cases (ltb_ℤ (pos (redis.zcard kept)) r.limit)) [
      | inl room ↦
          let test : has_room tonumber r next allowed ≡ true = ground (arith, kept_card, room) in
          rw (room, test) (refl, accepted-Follows (ground (arith, room)))
      | inr full ↦
          let test : has_room tonumber r next allowed ≡ false = ground (arith, kept_card, full) in
          rw (full, test) (refl, refused-Follows)
    ]

    allow-Step : Step (allow redis tonumber r next k)
    unfolding allow
    allow-Step = rw enabled script-Step

  run-Follows :
      (calls : List ℕ) (now : ℕ) (k : Key redis tonumber) (log : List ℕ)
      → Follows now k log
      → Ticks tonumber now calls
      → (answers redis tonumber r calls k ≡ expected tonumber r calls log)
        × (length (above (start_of (last_time now calls)) (log_after tonumber r calls log))
            ≤ pos_part r.limit)
  run-Follows [] now k log h ticks = (refl, h.bounded)
  run-Follows (t ∷ ts) now k log h ticks =
      let step = allow-Step now t k log h ticks.0 in
      let rest =
        run-Follows ts t (allow redis tonumber r t k).1 (logged tonumber r t log) step.1 ticks.1 in
      (
        ap (λ b. b ∷ answers redis tonumber r ts (allow redis tonumber r t k).1) step.0
            ∙ ap (λ l. has_room tonumber r t log ∷ l) rest.0,
        rest.1,
      )

  -- A limiter that is not disabled and whose window is at most the time to live of a key answers
  -- every sequence of calls for a new key as the log of all calls would: a call is let through
  -- exactly if fewer than `limit` of those let through lie in the window that ends with it. So at
  -- most `limit` lie in the window at the end. The clock, as Lua reads it, is monotone and ticks
  -- between the calls.
  pub allow_window :
      (start : ℕ) (calls : List ℕ)
      → Ticks tonumber start calls
      → (answers redis tonumber r calls (record { entries = redis.empty; expires_at = 0 })
          ≡ expected tonumber r calls [])
        × (length (above (start_of (last_time start calls)) (log_after tonumber r calls []))
            ≤ pos_part r.limit)
  allow_window start calls ticks =
      run-Follows calls start (record { entries = redis.empty; expires_at = 0 }) []
        (record {
          same = λ b le. ap (above b) redis.scores_empty;
          old = tt;
          past = tt;
          bounded = omega arith;
        })
        ticks
