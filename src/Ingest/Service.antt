-- ===== src/Ingest/Service.antt =====
-- ingest/internal/service/ingest_service.go: the bounded queue, the two ways in, and the loop that
-- normalizes and stores. Ids, signatures and times that the code draws are arguments. Lengths of
-- channels and buffers are natural numbers.
use telhawk_stack.Prelude.{
  ℕ, zero, suc, ◌+◌, ℤ, pos, negsuc, sub_ℕ, String, Bool, true, false, not, ◌&&◌, Option, none,
  some, List, [], ◌∷◌, ◌++◌, length, ltb, ltb_ℤ, str_eq, if◌then◌else◌,
}
use telhawk_stack.Prelude.Result.{Result, ok, err, ◌>>=◌, wrap}
use telhawk_stack.Query.Json.{Json, text, obj, Members, member, put}
use telhawk_stack.Ingest.Ack.{Manager, add_ack, count_ack, complete, fail, query, increment}
use telhawk_stack.Ingest.Event.{
  HecEvent, Event, IngestionStats, RawEventEnvelope, TokenInfo, IngestResponse,
  ValidateHecTokenResponse, Error, normalization_failed, conversion_failed, storage_ingest_failed,
  token_validation_failed, nil_response, queue_full, auth_client_missing, invalid_token,
  storage_failures, map_value,
}
use telhawk_stack.Ingest.SourceType.{determine_source_type}
pub mod Worker
pub mod Queue
pub mod Steps
pub mod Begun
pub mod Advanced
pub mod Sound
pub mod Settled
pub mod Context
pub mod Drained
pub mod Runs

-- The ids that a call draws and the time at which it runs.
pub record Draw : Type 0 where
  pub event_id : String
  pub signature : String
  pub ack_id : String
  pub now : ℕ

pub data Stage : Type 0 where
  created counted sent full failed : Stage

-- A call of `IngestEvent` or `IngestRaw` in progress.
pub record PendingCall : Type 0 where
  pub stage : Stage
  pub draw : Draw
  pub event : Event

-- `in_flight` is the event that the loop has received and not finished. `dead_letters` are the
-- envelopes handed to the dead letter queue, where one is configured. `calls` are the calls that have
-- drawn an acknowledgement and not returned.
pub record IngestService : Type 0 where
  pub stats : IngestionStats
  pub event_queue : List Event
  pub in_flight : Option Event
  pub queue_capacity : ℕ
  pub ack_manager : Option Manager
  pub has_dlq : Bool
  pub dead_letters : List RawEventEnvelope
  pub calls : List PendingCall

unfoldable pub new_ingest_service : Bool → ℕ → IngestService
new_ingest_service has_dlq now = record {
  stats = record {
    total_events = pos 0;
    total_bytes = pos 0;
    successful_events = pos 0;
    failed_events = pos 0;
    last_event = now;
  };
  event_queue = [];
  in_flight = none;
  queue_capacity = 10000;
  ack_manager = none;
  has_dlq = has_dlq;
  dead_letters = [];
  calls = [];
}

unfoldable pub set_ack_manager : Manager → IngestService → IngestService
set_ack_manager manager s = record s { ack_manager = some manager }

-- z + n
abbrev pub add_length : ℤ → ℕ → ℤ
add_length (pos m) n = pos (m + n)
add_length (negsuc m) n = sub_ℕ n (suc m)

unfoldable pub update_stats : ℕ → ℕ → Bool → IngestionStats → IngestionStats
update_stats now bytes success stats = record stats {
  total_events = increment stats.total_events;
  total_bytes = add_length stats.total_bytes bytes;
  last_event = now;
  successful_events =
      if success then increment stats.successful_events else stats.successful_events;
  failed_events = if success then stats.failed_events else increment stats.failed_events;
}

unfoldable pub get_index : String → String
get_index index = if str_eq index "" then "main" else index

drawn_ack : Draw → Option Manager → String
drawn_ack draw none = ""
drawn_ack draw (some m) = draw.ack_id

-- if s.ackManager != nil && ackID != "" { s.ackManager.Fail(ackID) }
abbrev pub fail_ack : String → ℕ → Option Manager → Option Manager
fail_ack ack_id now none = none
fail_ack ack_id now (some m) = some (if not (str_eq ack_id "") then fail ack_id now m else m)

abbrev pub complete_ack : String → ℕ → Option Manager → Option Manager
complete_ack ack_id now none = none
complete_ack ack_id now (some m) =
    some (if not (str_eq ack_id "") then complete ack_id now m else m)

abbrev pub with_manager : (Manager → Manager) → Option Manager → Option Manager
with_manager f none = none
with_manager f (some m) = some (f m)

-- The parts of the end of `IngestEvent` and `IngestRaw`, between which other calls may come: the two of
-- `Create`, the send of the select, `Fail` where the queue is full, and `updateStats`.
unfoldable pub add_new : Draw → IngestService → IngestService
add_new draw s = record s {
  ack_manager = with_manager (add_ack draw.ack_id draw.now (draw.event_id ∷ [])) s.ack_manager;
}

unfoldable pub count_new : IngestService → IngestService
count_new s = record s { ack_manager = with_manager count_ack s.ack_manager }

unfoldable pub acknowledged : Draw → Event → IngestService → Event
unfolding drawn_ack
acknowledged draw event s = record event { ack_id = drawn_ack draw s.ack_manager }

abbrev pub has_room : IngestService → Bool
has_room s = ltb (length s.event_queue) s.queue_capacity

abbrev pub send : Event → IngestService → IngestService
send event s = record s { event_queue = s.event_queue ++ event ∷ [] }

abbrev pub give_up : Draw → Event → IngestService → IngestService
give_up draw event s = record s { ack_manager = fail_ack event.ack_id draw.now s.ack_manager }

abbrev pub count_event : Draw → ℕ → Bool → IngestService → IngestService
count_event draw bytes success s = record s { stats = update_stats draw.now bytes success s.stats }

-- The end of `IngestEvent` and `IngestRaw`, where nothing comes between its parts.
unfoldable pub enqueue : Draw → Event → IngestService → Result Error String × IngestService
unfolding add_new count_new acknowledged update_stats
enqueue draw event s =
    let ready = acknowledged draw event s in
    let created = count_new (add_new draw s) in
    if has_room created
    then (ok ready.ack_id, count_event draw (length event.raw) true (send ready created))
    else (err queue_full, count_event draw 0 false (give_up draw ready created))

-- A call in progress has an event, and stands after the first part of `Create` (`created`), after the
-- second (`counted`), after the select (`sent`, or `full` where it found no room), or after `Fail`
-- (`failed`). `advance` is its next part, with what is left of it.
unfoldable pub begin : Draw → Event → IngestService → IngestService
unfolding add_new acknowledged
begin draw event s = record (add_new draw s) {
  calls =
      s.calls ++ record { stage = created; draw = draw; event = acknowledged draw event s } ∷ [];
}

abbrev at_stage : Stage → PendingCall → List PendingCall
at_stage stage c = record c { stage = stage } ∷ []

abbrev pub advance_from : Stage → PendingCall → IngestService → IngestService × List PendingCall
advance_from created c s = (count_new s, at_stage counted c)
advance_from counted c s =
    if has_room s then (send c.event s, at_stage sent c) else (s, at_stage full c)
advance_from sent c s = (count_event c.draw (length c.event.raw) true s, [])
advance_from full c s = (give_up c.draw c.event s, at_stage failed c)
advance_from failed c s = (count_event c.draw 0 false s, [])

unfoldable pub advance : PendingCall → IngestService → IngestService × List PendingCall
unfolding count_new update_stats
advance c s = advance_from c.stage c s

abbrev pub token_of : Option TokenInfo → String
token_of none = ""
token_of (some t) = t.token_id

abbrev pub client_of : Option TokenInfo → String
client_of none = ""
client_of (some t) = t.client_id

-- QueryAcks
abbrev pub query_acks : List String → IngestService → List (String × Bool)
query_acks ack_ids s = query_manager s.ack_manager
  where
    query_manager : Option Manager → List (String × Bool)
    query_manager none = []
    query_manager (some m) = query ack_ids m

checked_token : ValidateHecTokenResponse → Result Error TokenInfo
checked_token resp =
    if not resp.valid
    then err invalid_token
    else ok
        (record { token_id = resp.token_id; user_id = resp.user_id; client_id = resp.client_id })

-- `client` is the authentication client, where one is configured.
unfoldable pub validate_hec_token :
    Option (String → Result Error ValidateHecTokenResponse) → String → Result Error TokenInfo
unfolding checked_token
validate_hec_token none token = err auth_client_missing
validate_hec_token (some client) token =
    wrap token_validation_failed (client token) >>= λ resp. checked_token resp

-- `truncate` is Go's conversion of a float64 to an int, `unix_time` the time at that many seconds,
-- `marshal` is json.Marshal, and `string_of` the conversion of bytes to a string.
module _ (truncate : ℕ → ℤ) (unix_time : ℕ → ℕ) (marshal : HecEvent → Result Error (List ℕ))
    (string_of : List ℕ → String) where
  parse_time : ℕ → Option ℕ → ℕ
  parse_time now none = now
  parse_time now (some t) = unix_time t

  unfoldable pub internal_event : Draw → HecEvent → String → Option TokenInfo → List ℕ → Event
  unfolding parse_time determine_source_type get_index
  internal_event draw event source_ip token_info raw = record {
    id = draw.event_id;
    timestamp = parse_time draw.now event.time;
    host = event.host;
    source = event.source;
    source_type =
        if str_eq event.source_type ""
        then determine_source_type truncate event.event
        else event.source_type;
    source_ip = source_ip;
    index = get_index event.index;
    event = event.event;
    fields = event.fields;
    raw = raw;
    hec_token_id = token_of token_info;
    client_id = client_of token_info;
    signature = draw.signature;
    ack_id = "";
  }

  unfoldable pub ingest_marshalled :
      Draw
      → HecEvent
      → String
      → Option TokenInfo
      → Result Error (List ℕ)
      → IngestService
      → Result Error String × IngestService
  ingest_marshalled draw event source_ip token_info (err e) s = (err e, s)
  ingest_marshalled draw event source_ip token_info (ok raw) s =
      enqueue draw (internal_event draw event source_ip token_info raw) s

  unfoldable pub ingest_event :
      Draw
      → HecEvent
      → String
      → Option TokenInfo
      → IngestService
      → Result Error String × IngestService
  unfolding ingest_marshalled
  ingest_event draw event source_ip token_info s =
      ingest_marshalled draw event source_ip token_info (marshal event) s

  unfoldable pub raw_event :
      Draw → List ℕ → String → Option TokenInfo → String → String → String → Event
  raw_event draw data_ source_ip token_info source source_type host = record {
    id = draw.event_id;
    timestamp = draw.now;
    host = host;
    source = source;
    source_type = source_type;
    source_ip = source_ip;
    index = "main";
    event = text (string_of data_);
    fields = none;
    raw = data_;
    hec_token_id = token_of token_info;
    client_id = client_of token_info;
    signature = draw.signature;
    ack_id = "";
  }

  unfoldable pub ingest_raw :
      Draw
      → List ℕ
      → String
      → Option TokenInfo
      → String
      → String
      → String
      → IngestService
      → Result Error String × IngestService
  unfolding raw_event
  ingest_raw draw data_ source_ip token_info source source_type host s =
      enqueue draw (raw_event draw data_ source_ip token_info source source_type host) s
