-- ===== src/Ingest/Service/Worker.antt =====
-- The loop of `processEvents`. A round of it is two steps, so that other calls may come between: the
-- event at the front of the queue is received, and later it is finished.
use telhawk_stack.Prelude.{
  ℕ, pos, String, not, Option, none, some, List, [], ◌∷◌, ◌++◌, ltb_ℤ, str_eq, if◌then◌else◌,
}
use telhawk_stack.Prelude.Result.{Result, ok, err, ◌>>=◌, wrap}
use telhawk_stack.Query.Json.{Json, text, Members, member, put}
use telhawk_stack.Ingest.Event.{
  Event, RawEventEnvelope, IngestResponse, Error, normalization_failed, conversion_failed,
  storage_ingest_failed, nil_response, storage_failures, map_value,
}
use telhawk_stack.Ingest.Service.{IngestService, fail_ack, complete_ack}

unfoldable pub envelope_of : Event → RawEventEnvelope
envelope_of event = record {
  id = event.id;
  source = event.source;
  source_type = event.source_type;
  format = "json";
  payload = event.raw;
  attributes = ("host", event.host) ∷ ("index", event.index) ∷ ("source_ip", event.source_ip) ∷ [];
  received_at = event.timestamp;
}

-- if value != "" { eventMap[key] = value }
unfoldable pub put_present : String → String → Members → Members
put_present key value ms = if not (str_eq value "") then put key (text value) ms else ms

-- The ingestion context that is written over the normalized event.
unfoldable pub add_context : Event → Members → Members
add_context event ms =
    put_present "ingest_source_ip" event.source_ip
      (put_present "hec_token_id" event.hec_token_id (put_present "client_id" event.client_id ms))

-- `time_value` is how a time is written.
unfoldable pub event_to_map : (ℕ → Json) → Event → Members
event_to_map time_value event = member "id" (text event.id) (
    member "timestamp" (time_value event.timestamp) (
      member "host" (text event.host) (
        member "source" (text event.source) (
          member "sourcetype" (text event.source_type) (
            member "ingest_source_ip" (text event.source_ip) (
              member "index" (text event.index) (
                member "event" event.event (
                  member "fields" (map_value event.fields) (
                    member "hec_token_id" (text event.hec_token_id) (
                      member "client_id" (text event.client_id)
                        (member "signature" (text event.signature) Members.end)))))))))))

unfoldable pub check_response : Option IngestResponse → Result Error (Unit {0})
check_response none = err nil_response
check_response (some resp) =
    if ltb_ℤ (pos 0) resp.failed then err (storage_failures resp.failed resp.errors) else ok tt

-- What the loop calls: the pipeline, where there is one; the JSON round trip that turns an OCSF
-- event into a map; the storage client, where there is one.
pub record Backend : Type 1 where
  pub Ocsf : Type 0
  pub process : Option (RawEventEnvelope → Result Error Ocsf)
  pub ocsf_event_to_map : Ocsf → Result Error Members
  pub ingest : Option (Members → Result Error (Option IngestResponse))
  pub time_value : ℕ → Json

receive_from : Option Event → List Event → IngestService → IngestService
receive_from none (event ∷ rest) s = record s { event_queue = rest; in_flight = some event }
receive_from _ _ s = s

-- event := <-s.eventQueue, where the loop is idle
unfoldable pub receive : IngestService → IngestService
unfolding receive_from
receive s = receive_from s.in_flight s.event_queue s

module _ (backend : Backend) where
  converted : Event → Result Error backend.Ocsf → Result Error Members
  converted event (err e) = err (normalization_failed e)
  converted event (ok normalized) =
      wrap conversion_failed (backend.ocsf_event_to_map normalized) >>= λ ms.
      ok (add_context event ms)

  normalized_by :
      Option (RawEventEnvelope → Result Error backend.Ocsf) → Event → Result Error Members
  normalized_by none event = ok (event_to_map backend.time_value event)
  normalized_by (some process) event = converted event (process (envelope_of event))

  unfoldable pub normalize_event : Event → Result Error Members
  unfolding converted normalized_by
  normalize_event event = normalized_by backend.process event

  stored_by :
      Option (Members → Result Error (Option IngestResponse)) → Members → Result Error (Unit {0})
  stored_by none ms = ok tt
  stored_by (some ingest) ms =
      wrap storage_ingest_failed (ingest ms) >>= λ resp. check_response resp

  unfoldable pub forward_to_storage : Members → Result Error (Unit {0})
  unfolding stored_by
  forward_to_storage ms = stored_by backend.ingest ms

  -- The envelopes that `normalizeEvent` hands to the dead letter queue: that of an event which the
  -- pipeline refuses.
  refused_by : Option (RawEventEnvelope → Result Error backend.Ocsf) → Event → List RawEventEnvelope
  refused_by none event = []
  refused_by (some process) event = refused (process (envelope_of event))
    where
      refused : Result Error backend.Ocsf → List RawEventEnvelope
      refused (ok normalized) = []
      refused (err e) = envelope_of event ∷ []

  unfoldable pub dead_letters_of : Event → List RawEventEnvelope
  unfolding refused_by
  dead_letters_of event = refused_by backend.process event

  -- Normalized and stored, or the first error.
  unfoldable pub outcome : Event → Result Error (Unit {0})
  outcome event = normalize_event event >>= λ ms. forward_to_storage ms

  settled_by : Result Error (Unit {0}) → String → ℕ → IngestService → IngestService
  settled_by (ok done) ack_id now s = record s {
    ack_manager = complete_ack ack_id now s.ack_manager;
  }
  settled_by (err e) ack_id now s = record s { ack_manager = fail_ack ack_id now s.ack_manager }

  finish_event : ℕ → Option Event → IngestService → IngestService
  unfolding settled_by
  finish_event now none s = s
  finish_event now (some event) s = settled_by (outcome event) event.ack_id now (record s {
    in_flight = none;
    dead_letters = if s.has_dlq then s.dead_letters ++ dead_letters_of event else s.dead_letters;
  })

  -- The rest of the round: the received event is normalized and stored, and its acknowledgement
  -- settled.
  unfoldable pub finish : ℕ → IngestService → IngestService
  unfolding finish_event
  finish now s = finish_event now s.in_flight s
