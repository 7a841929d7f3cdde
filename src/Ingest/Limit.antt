-- ===== src/Ingest/Limit.antt =====
-- ingest/internal/ratelimit/ratelimit.go: the sliding window of one key. The Lua script runs as one
-- step in Redis, whose sorted sets are a parameter; times are nanoseconds past the first window.
use telhawk_stack.Prelude.{
  ℕ, ◌+◌, ◌-◌, ◌≡◌, ◌<◌, ℤ, pos, ltb_ℤ, Bool, true, false, Option, none, some, List, [], ◌∷◌, ltb,
  leb, if◌then◌else◌, All, length,
}
pub mod Window
mod Examples

-- Those above the bound.
abbrev pub above : ℕ → List ℕ → List ℕ
above bound [] = []
above bound (t ∷ ts) = let rest = above bound ts in if ltb bound t then t ∷ rest else rest

-- Redis's commands on a sorted set whose members are their own scores, and what its manual says of
-- them: `scores` are the members from the highest score down.
pub record SortedSets : Type 1 where
  pub Set : Type 0
  pub empty : Set
  pub zremrangebyscore : ℕ → Set → Set
  pub zcard : Set → ℕ
  pub zadd : ℕ → Set → Set
  pub scores : Set → List ℕ
  pub scores_empty : scores empty ≡ []
  pub scores_removed : (max : ℕ) (s : Set) → scores (zremrangebyscore max s) ≡ above max (scores s)
  pub zcard_length : (s : Set) → zcard s ≡ length (scores s)
  pub scores_added :
      (t : ℕ) (s : Set) → All (λ u. u < t) (scores s) → scores (zadd t s) ≡ t ∷ scores s

-- redisRateLimiter, less its client.
pub record RateLimiter : Type 0 where
  pub limit : ℤ
  pub window : ℕ
  pub disabled : Bool

-- EXPIRE key 60
abbrev pub time_to_live : ℕ
time_to_live = 60000000000

-- `tonumber` is Lua's: numbers are floats, which tell nanoseconds apart only in steps.
module _ (redis : SortedSets) (tonumber : ℕ → ℕ) where
  -- A key of Redis: a set, and when it is dropped.
  pub record Key : Type 0 where
    pub entries : redis.Set
    pub expires_at : ℕ

  -- What Redis finds under the key.
  abbrev pub live : ℕ → Key → redis.Set
  live now k = if leb k.expires_at now then redis.empty else k.entries

  -- The script of `Allow`.
  abbrev pub run_script : ℕ → ℕ → ℤ → Key → Bool × Key
  run_script now window_start limit k =
      let kept = redis.zremrangebyscore (tonumber window_start) (live now k) in
      if ltb_ℤ (pos (redis.zcard kept)) limit
      then (
        true,
        record { entries = redis.zadd (tonumber now) kept; expires_at = now + time_to_live },
      )
      else (
        false,
        record { entries = kept; expires_at = if leb k.expires_at now then now else k.expires_at },
      )

  unfoldable pub allow : RateLimiter → ℕ → Key → Bool × Key
  allow r now k = if r.disabled then (true, k) else run_script now (now - r.window) r.limit k
