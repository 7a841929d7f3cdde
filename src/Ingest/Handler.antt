-- ===== src/Ingest/Handler.antt =====
-- ingest/internal/handlers/hec_handler.go: the collector's endpoints over the service. Metrics and
-- logs are left out. A batch's events draw their ids by their place in it. `others` is what the
-- processing goroutine and other requests do to the service before a call of IngestEvent or
-- IngestRaw, named by the id of its event; what comes between the parts of such a call is in
-- Ingest.Service.Steps.
use telhawk_stack.Prelude.{
  ℕ, suc, ℤ, ◌==◌, String, Bool, true, false, not, ◌&&◌, Option, none, some, List, [], ◌∷◌, ◌++◌,
  length, str_eq, if◌then◌else◌,
}
use telhawk_stack.Prelude.Text.{cut, ◌++◌ as append}
use telhawk_stack.Prelude.Result.{Result, ok, err}
use telhawk_stack.Ingest.Event.{HecEvent, TokenInfo, Error}
use telhawk_stack.Ingest.Service.{IngestService, Draw, ingest_event, ingest_raw, query_acks}
use telhawk_stack.Ingest.Hec.{
  HecError, extract_token, err_invalid_event, err_no_data, err_unauthorized, err_server_busy,
}
pub use telhawk_stack.Ingest.Http.{
  or_else, Request, Response, send_error, send_success, send_success_with_ack, is_present,
  success_for, lines, is_empty, with_event, one_or_lines, Part, go_on, ◌>>=◌, require, read,
}
pub mod Admission
mod Examples

-- What the handlers call: the limiter, the token validation, encoding/json, package strings, and the
-- conversions that the service uses.
pub record Backend : Type 1 where
  pub Limiter : Type 0
  pub allow : String → Limiter → Result Error Bool × Limiter
  pub validate_hec_token : String → Result Error TokenInfo
  pub unmarshal : List ℕ → Result Error HecEvent
  pub unmarshal_acks : List ℕ → Result Error (List String)
  pub trim_space : List ℕ → List ℕ
  pub to_lower : String → String
  pub truncate : ℕ → ℤ
  pub unix_time : ℕ → ℕ
  pub marshal : HecEvent → Result Error (List ℕ)
  pub string_of : List ℕ → String
  pub others : String → IngestService → IngestService

module _ (backend : Backend) where
  -- The handler's state; `recorded` is what the statistics collector was told.
  pub record State : Type 0 where
    pub service : IngestService
    pub limiter : Option backend.Limiter
    pub recorded : List (String × ℕ × String)

  -- What an error of the limiter comes to.
  abbrev pub pass_or_answer : Option Response → Result Response (Unit {0})
  pass_or_answer none = ok tt
  pass_or_answer (some r) = err r

  abbrev pub verdict : Option Response → Result Error Bool → Result Response (Unit {0})
  verdict on_error (ok true) = ok tt
  verdict on_error (ok false) = err (send_error err_server_busy 429)
  verdict on_error (err e) = pass_or_answer on_error

  abbrev pub asked :
      Option Response
      → State
      → Result Error Bool × backend.Limiter
      → Result Response (Unit {0}) × State
  asked on_error s (allowed, l) = (verdict on_error allowed, record s { limiter = some l })

  abbrev pub limited_by :
      Option Response → String → State → Option backend.Limiter → Result Response (Unit {0}) × State
  limited_by on_error key s none = (ok tt, s)
  limited_by on_error key s (some l) = asked on_error s (backend.allow key l)

  unfoldable pub limited : Option Response → String → Part State (Unit {0})
  limited on_error key s = limited_by on_error key s s.limiter

  -- The checks that both endpoints make, each of them going on with the next, from the last one.
  abbrev pub with_body : TokenInfo → List ℕ → Part State (TokenInfo × List ℕ)
  with_body token_info body =
      require (not (is_empty body)) (send_error err_no_data 400) >>= λ filled s.
      (ok (token_info, body), s)

  abbrev pub read_body : Request → TokenInfo → Part State (TokenInfo × List ℕ)
  read_body r token_info = read r.body (send_error err_invalid_event 400) >>= with_body token_info

  abbrev pub limited_by_token :
      Option Response → Request → String → TokenInfo → Part State (TokenInfo × List ℕ)
  limited_by_token on_error r token token_info =
      limited on_error (append "token:" token) >>= λ passed. read_body r token_info

  abbrev pub validated : Option Response → Request → String → Part State (TokenInfo × List ℕ)
  validated on_error r token =
      read (backend.validate_hec_token token) (send_error err_unauthorized 401)
      >>= limited_by_token on_error r token

  abbrev pub authenticated : Option Response → Request → String → Part State (TokenInfo × List ℕ)
  authenticated on_error r token =
      require (is_present token) (send_error err_unauthorized 401) >>= λ given.
      validated on_error r token

  abbrev pub limited_by_ip : Option Response → Request → Part State (TokenInfo × List ℕ)
  limited_by_ip on_error r = limited on_error (append "ip:" r.client_ip) >>= λ passed.
      authenticated on_error r (extract_token backend.to_lower (r.header "Authorization"))

  unfoldable pub admitted : Option Response → Request → Part State (TokenInfo × List ℕ)
  admitted on_error r =
      require r.is_post (send_error err_invalid_event 405) >>= λ posted. limited_by_ip on_error r

  -- One event, or the lines that are not blank.
  abbrev pub parse_lines : List (List ℕ) → Option (List HecEvent)
  parse_lines [] = some []
  parse_lines (l ∷ ls) =
      let rest = parse_lines ls in
      let line = backend.trim_space l in
      if is_empty line then rest else with_event (backend.unmarshal line) rest

  abbrev pub parse_events : List ℕ → Option (List HecEvent)
  parse_events body = one_or_lines (backend.unmarshal body) (parse_lines (lines body))

  -- The loop over the events: the service afterwards, the first acknowledgement that is not empty, and
  -- the number of events that failed.
  abbrev pub after_event :
      String → ℕ → Result Error String × IngestService → String × ℕ × IngestService
  after_event ack_id failed (err e, service) = (ack_id, suc failed, service)
  after_event ack_id failed (ok event_ack_id, service) =
      (if str_eq ack_id "" then event_ack_id else ack_id, failed, service)

  abbrev pub ingest_one :
      Draw → HecEvent → String → TokenInfo → IngestService → Result Error String × IngestService
  ingest_one draw event source_ip token_info service =
      ingest_event backend.truncate backend.unix_time backend.marshal backend.string_of draw event
        source_ip (some token_info) (backend.others draw.event_id service)

  abbrev pub ingest_all :
      List HecEvent
      → (ℕ → Draw)
      → String
      → TokenInfo
      → String × ℕ × IngestService
      → String × ℕ × IngestService
  ingest_all [] draws source_ip token_info result = result
  ingest_all (event ∷ events) draws source_ip token_info (ack_id, failed, service) =
      ingest_all events (λ i. draws (suc i)) source_ip token_info
        (after_event ack_id failed (ingest_one (draws 0) event source_ip token_info service))

  abbrev pub answered :
      Request
      → TokenInfo
      → ℕ
      → String × ℕ × IngestService
      → State
      → Result Response Response × State
  answered r token_info total (ack_id, failed, service) s =
      if failed == total
      then (err (send_error err_server_busy 503), record s { service = service })
      else (
        ok (success_for r ack_id),
        record s {
          service = service;
          recorded = s.recorded ++ (token_info.token_id, total, r.client_ip) ∷ [];
        },
      )

  unfoldable pub ingest_events :
      Request → (ℕ → Draw) → TokenInfo → Option (List HecEvent) → Part State Response
  ingest_events r draws token_info none s = (err (send_error err_invalid_event 400), s)
  ingest_events r draws token_info (some events) s =
      answered r token_info (length events)
        (ingest_all events draws r.client_ip token_info ("", 0, s.service)) s

  abbrev pub response : Result Response Response × State → Response × State
  response (ok r, s) = (r, s)
  response (err r, s) = (r, s)

  unfoldable pub handle_event : Request → (ℕ → Draw) → State → Response × State
  handle_event r draws s = response (
      (admitted (some (send_error err_server_busy 503)) r >>= λ got.
      ingest_events r draws got.0 (parse_events got.1))
        s)

  abbrev pub after_raw :
      Request
      → TokenInfo
      → Result Error String × IngestService
      → State
      → Result Response Response × State
  after_raw r token_info (err e, service) s =
      (err (send_error err_server_busy 503), record s { service = service })
  after_raw r token_info (ok ack_id, service) s = (
    ok (success_for r ack_id),
    record s {
      service = service;
      recorded = s.recorded ++ (token_info.token_id, 1, r.client_ip) ∷ [];
    },
  )

  abbrev pub raw_result :
      Request → Draw → TokenInfo → List ℕ → State → Result Error String × IngestService
  raw_result r draw token_info body s =
      ingest_raw backend.truncate backend.unix_time backend.marshal backend.string_of draw body
        r.client_ip (some token_info)
        (or_else (r.query "source") (r.header "X-Splunk-Request-Source"))
        (or_else (r.query "sourcetype") (r.header "X-Splunk-Request-Sourcetype"))
        (or_else (r.query "host") (r.header "X-Splunk-Request-Host"))
        (backend.others draw.event_id s.service)

  unfoldable pub ingest_raw_body : Request → Draw → TokenInfo × List ℕ → Part State Response
  ingest_raw_body r draw (token_info, body) s =
      after_raw r token_info (raw_result r draw token_info body s) s

  unfoldable pub handle_raw : Request → Draw → State → Response × State
  handle_raw r draw s = response ((admitted none r >>= λ got. ingest_raw_body r draw got) s)

  abbrev acks_of : Bool → Result Error (List ℕ) → Result Error (List String)
  acks_of true (ok body) = backend.unmarshal_acks body
  acks_of true (err e) = err e
  acks_of false body = ok []

  abbrev queried :
      IngestService → Result Error (List String) → Result Response (List (String × Bool))
  queried service (err e) = err (send_error err_invalid_event 400)
  queried service (ok ack_ids) = ok (query_acks ack_ids service)

  -- The endpoint `Ack`, whose answer is the map of what was found.
  unfoldable pub handle_ack : Request → State → Result Response (List (String × Bool))
  handle_ack r s = queried s.service (acks_of r.is_post r.body)
