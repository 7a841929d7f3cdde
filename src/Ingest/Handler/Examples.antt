-- ===== src/Ingest/Handler/Examples.antt =====
-- Requests to the endpoints of the collector.
use telhawk_stack.Prelude.{
  ℕ, ◌-◌, pos, String, true, false, none, some, List, [], ◌∷◌, ltb, ◌==◌, str_eq, if◌then◌else◌,
  ◌≡◌, refl, ◌↔◌,
}
use telhawk_stack.Prelude.Text.{cut, ◌++◌ as append}
use telhawk_stack.Prelude.Text.Cut.{Lacks}
use telhawk_stack.Prelude.Result.{Result, ok, err}
use telhawk_stack.Query.Json.{text}
use telhawk_stack.Ingest.Ack.{new_manager}
use telhawk_stack.Ingest.Event.{HecEvent, TokenInfo, invalid_token, outside, Error}
use telhawk_stack.Ingest.Service.{
  IngestService, Draw, new_ingest_service, set_ack_manager, enqueue, ingest_event,
  ingest_marshalled,
}
use telhawk_stack.Ingest.Service.Worker.{receive}
use telhawk_stack.Ingest.Hec.{extract_token, extract_token_lem, is_scheme}
use telhawk_stack.Ingest.Http.{get_client_ip}
use telhawk_stack.Ingest.Handler.{
  Request, Backend, State, limited, admitted, ingest_events, handle_event, handle_raw,
}
use telhawk_stack.Ingest.Handler.Admission.{IsAuthorized, Refuses, handle-unauthorized}

abbrev lower : String → String
lower s = if str_eq s "Splunk" then "splunk" else s

extract_token_lem_example :
    extract_token lower "Splunk abc" ≡ "abc"
    ↔ (scheme : String) × Lacks b' ' scheme
      × (is_scheme (lower scheme) ≡ true)
      × ("Splunk abc" ≡ append scheme (append " " "abc"))
extract_token_lem_example = extract_token_lem lower "Splunk abc" "abc" cc

client_ip_test :
    get_client_ip
      (λ s. s)
      (λ s. none)
      (λ name. if str_eq name "X-Forwarded-For" then "10.0.0.7,10.0.0.1" else "")
      "10.0.0.1:80"
    ≡ "10.0.0.7"
unfolding get_client_ip cut
client_ip_test = refl

abbrev sample : HecEvent
sample = record {
  time = none;
  host = "h";
  source = "s";
  source_type = "syslog";
  index = "";
  event = text "x";
  fields = none;
}

abbrev one_event : List ℕ → Result Error HecEvent
one_event (b ∷ []) = if b == 1 then ok sample else err (outside "json")
one_event _ = err (outside "json")

abbrev trim : List ℕ → List ℕ
trim [] = []
trim (b ∷ bs) = if b == 32 then bs else b ∷ bs

-- Lines are single bytes: 1 is an event, and 32 is blank. The limiter allows as many calls as it counts.
abbrev sample_backend : Backend
sample_backend = record {
  Limiter = ℕ;
  allow = λ key n. (ok (ltb 0 n), n - 1);
  validate_hec_token = λ token.
      if str_eq token "abc"
      then ok (record { token_id = "t1"; user_id = "u1"; client_id = "c1" })
      else err invalid_token;
  unmarshal = one_event;
  unmarshal_acks = λ body. ok [];
  trim_space = trim;
  to_lower = lower;
  truncate = λ bits. pos bits;
  unix_time = λ bits. bits;
  marshal = λ event. ok (7 ∷ []);
  string_of = λ bytes. "raw";
  others = λ id s. receive s;
}

abbrev draws : ℕ → Draw
draws n = record {
  event_id = if n == 0 then "e0" else "e1";
  signature = "sig";
  ack_id = if n == 0 then "k0" else "k1";
  now = 5;
}

abbrev service : IngestService
service = set_ack_manager (new_manager 100) (new_ingest_service false 0)

abbrev start : State sample_backend
start = record { service = service; limiter = some 2; recorded = [] }

abbrev request : String → Request
request authorization = record {
  is_post = true;
  client_ip = "10.0.0.7";
  header = λ name.
      if str_eq name "Authorization"
      then authorization
      else if str_eq name "X-Splunk-Request-Channel"
      then "ch"
      else "";
  query = λ name. "";
  body = ok (1 ∷ b'\n' ∷ 32 ∷ b'\n' ∷ 1 ∷ []);
}

-- Two events, the second after a blank line.
accepted_test :
    (handle_event sample_backend (request "Splunk abc") draws start).0
    ≡ record { status = 200; text = "Success"; code = 0; ack_id = "k0" }
unfolding handle_event admitted limited ingest_events extract_token cut ingest_event
    ingest_marshalled enqueue set_ack_manager new_manager new_ingest_service receive
accepted_test = refl

-- A body of blank lines alone is no error of the client's.
blank_test :
    (handle_event sample_backend
      (record (request "Splunk abc") { body = ok (b'\n' ∷ []) })
      draws
      start).0
    ≡ record { status = 503; text = "Server is busy"; code = 9; ack_id = "" }
unfolding handle_event admitted limited ingest_events extract_token cut ingest_event
    ingest_marshalled enqueue set_ack_manager new_manager new_ingest_service
blank_test = refl

refused_token :
    (got : TokenInfo × List ℕ) → ¬ IsAuthorized sample_backend (request "Splunk xyz") got
unfolding extract_token cut
refused_token (info, body) (posted, given, valid, there) = cc

handle-unauthorized_example :
    Refuses sample_backend start (handle_event sample_backend (request "Splunk xyz") draws start)
    × Refuses sample_backend start
        (handle_raw sample_backend (request "Splunk xyz") (draws 0) start)
handle-unauthorized_example =
    handle-unauthorized sample_backend (request "Splunk xyz") draws (draws 0) start refused_token
