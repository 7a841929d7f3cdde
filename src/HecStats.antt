-- ===== src/HecStats.antt =====
-- common/hecstats/collector.go, and the batches of common/hecstats/hecstats.go. A flush is one step
-- that takes the batches out, and one for each batch that it tries to write; other calls may come
-- between them. `flushing` are the batches taken out and not tried yet, and `written` is the sum of
-- what Redis added to the field total_events. The pipeline of FlushBatch is no transaction: where its
-- Exec returns an error, that increment may have been applied or not, and the batch is merged back in
-- both cases. An address is its text, and event counts are the lengths that the callers pass.
use telhawk_stack.Prelude.{
  ℕ, zero, suc, ◌+◌, ◌-◌, ◌*◌, ◌≤◌, ◌<◌, ℤ, pos, negsuc, ltb_ℤ, eqb_ℤ, sub_ℕ, is_some, List-cases,
  eq_of_parts, pos_part, neg_part, String, Bool, true, false, not, ◌&&◌, ◌||◌, Option, none, some,
  List, [], ◌∷◌, ◌++◌, map, length, any, all, ltb, leb, ◌==◌, str_eq, if◌then◌else◌, ◌≡◌, refl, sym,
  ap, ◌∙◌, ◌⊎◌, inl, inr, ◌↔◌, arith, eq_iff, All, Any, length-append, subst, Bool-cases,
  Option-cases,
}
use telhawk_stack.Prelude.Maps.{get, put}
pub mod Conserved
mod Examples

pub record BatchUpdate : Type 0 where
  pub token_id : String
  pub event_count : ℕ
  pub client_ips : List String
  pub last_ip : Option String

abbrev new_batch_update : String → BatchUpdate
new_batch_update token_id = record {
  token_id = token_id;
  event_count = 0;
  client_ips = [];
  last_ip = none;
}

abbrev put_ip : String → List String → List String
put_ip ip ips = if any (str_eq ip) ips then ips else ips ++ ip ∷ []

abbrev put_ips : List String → List String → List String
put_ips [] ips = ips
put_ips (ip ∷ new) ips = put_ips new (put_ip ip ips)

abbrev seen : Option String → BatchUpdate → BatchUpdate
seen none b = b
seen (some ip) b = record b { client_ips = put_ip ip b.client_ips; last_ip = some ip }

unfoldable pub add : ℕ → Option String → BatchUpdate → BatchUpdate
add event_count client_ip b =
    seen client_ip (record b { event_count = b.event_count + event_count })

pub record Collector : Type 0 where
  pub batches : List (String × BatchUpdate)
  pub flushing : List BatchUpdate
  pub written : ℕ

abbrev pub or_new : String → Option BatchUpdate → BatchUpdate
or_new token_id none = new_batch_update token_id
or_new token_id (some b) = b

unfoldable pub record_usage : String → ℕ → Option String → Collector → Collector
record_usage token_id event_count client_ip c = record c {
  batches =
      put token_id (add event_count client_ip (or_new token_id (get token_id c.batches))) c.batches;
}

abbrev pub values : List (String × BatchUpdate) → List BatchUpdate
values [] = []
values ((k, b) ∷ m) = b ∷ values m

-- The start of `flush`: the batches are taken out.
unfoldable pub take_out : Collector → Collector
take_out c = record c { batches = []; flushing = c.flushing ++ values c.batches }

abbrev later_ip : Option String → Option String → Option String
later_ip none old = old
later_ip (some ip) old = some ip

abbrev pub merged : BatchUpdate → Option BatchUpdate → BatchUpdate
merged b none = b
merged b (some existing) = record existing {
  event_count = existing.event_count + b.event_count;
  client_ips = put_ips b.client_ips existing.client_ips;
  last_ip = later_ip b.last_ip existing.last_ip;
}

-- What comes of `pipe.Exec`: no error; an error, and total_events is not incremented; an error, though
-- it is.
pub data Exec : Type 0 where
  stored refused unanswered : Exec

abbrev merge_back : BatchUpdate → Collector → Collector
merge_back b c = record c {
  batches = put b.token_id (merged b (get b.token_id c.batches)) c.batches;
}

-- A batch is written, or goes back to the batches for the next flush, or both.
abbrev pub settle : Exec → BatchUpdate → Collector → Collector
settle stored b c = record c { written = c.written + b.event_count }
settle refused b c = merge_back b c
settle unanswered b c = merge_back b (record c { written = c.written + b.event_count })

-- FlushBatch returns at once where the batch has no events.
abbrev pub exec_of : BatchUpdate → Exec → Exec
exec_of b exec = if b.event_count == 0 then stored else exec

-- The batch at a place, and the others.
abbrev pub with_first :
    BatchUpdate → Option (BatchUpdate × List BatchUpdate) → Option (BatchUpdate × List BatchUpdate)
with_first b none = none
with_first b (some (a, rest)) = some (a, b ∷ rest)

abbrev pub pick : ℕ → List BatchUpdate → Option (BatchUpdate × List BatchUpdate)
pick n [] = none
pick zero (b ∷ bs) = some (b, bs)
pick (suc n) (b ∷ bs) = with_first b (pick n bs)

abbrev pub settle_picked : Exec → Option (BatchUpdate × List BatchUpdate) → Collector → Collector
settle_picked exec none c = c
settle_picked exec (some (b, rest)) c = settle (exec_of b exec) b (record c { flushing = rest })

-- A round of the loop of `flush` on the batch at a place.
unfoldable pub flush_batch : ℕ → Exec → Collector → Collector
flush_batch n exec c = settle_picked exec (pick n c.flushing) c

abbrev count_of : List (String × BatchUpdate) → List (String × ℕ)
count_of [] = []
count_of ((k, b) ∷ m) = (k, b.event_count) ∷ count_of m

-- The method `Stats`.
unfoldable pub stats : Collector → List (String × ℕ)
stats c = count_of c.batches

-- The calls and rounds in any order.
pub data Call : Type 0 where
  recorded : String → ℕ → Option String → Call
  started : Call
  tried : ℕ → Exec → Call

unfoldable pub perform : Call → Collector → Collector
perform (recorded token_id event_count client_ip) c = record_usage token_id event_count client_ip c
perform started c = take_out c
perform (tried n exec) c = flush_batch n exec c

abbrev pub perform_all : List Call → Collector → Collector
perform_all [] c = c
perform_all (call ∷ calls) c = perform_all calls (perform call c)

abbrev pub new_collector : Collector
new_collector = record { batches = []; flushing = []; written = 0 }
