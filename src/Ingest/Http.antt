-- ===== src/Ingest/Http.antt =====
-- Requests and responses of ingest's HTTP endpoints, and handlers as chains of parts, each of which
-- answers at once or goes on: models.HECResponse, httputil.GetClientIP and the senders of
-- ingest/internal/handlers/hec_handler.go.
use telhawk_stack.Prelude.{
  ℕ, String, Bool, true, false, not, ◌&&◌, Option, none, some, List, [], ◌∷◌, ◌==◌, str_eq,
  if◌then◌else◌,
}
use telhawk_stack.Prelude.Text.{cut}
use telhawk_stack.Prelude.Result.{Result, ok, err}
use telhawk_stack.Ingest.Event.{HecEvent, Error}
use telhawk_stack.Ingest.Hec.{HecError}

-- httputil.GetClientIP of common/httputil/request.go. `trim_space` is strings.TrimSpace and
-- `split_host_port` the host that net.SplitHostPort finds.
module _ (trim_space : String → String) (split_host_port : String → Option String) where
  abbrev first_part : String → Option (String × String) → String
  first_part whole none = trim_space whole
  first_part whole (some (first, rest)) = trim_space first

  abbrev host_or_all : String → Option String → String
  host_or_all remote_addr none = remote_addr
  host_or_all remote_addr (some host) = host

  unfoldable pub get_client_ip : (String → String) → String → String
  get_client_ip header remote_addr =
      let forwarded = header "X-Forwarded-For" in
      let real = header "X-Real-IP" in
      if not (str_eq forwarded "")
      then first_part forwarded (cut b',' forwarded)
      else if not (str_eq real "")
      then real
      else host_or_all remote_addr (split_host_port remote_addr)

-- What is read of an HTTP request; `client_ip` is what `get_client_ip` makes of it.
pub record Request : Type 0 where
  pub is_post : Bool
  pub client_ip : String
  pub header : String → String
  pub query : String → String
  pub body : Result Error (List ℕ)

-- models.HECResponse, under its HTTP status.
pub record Response : Type 0 where
  pub status : ℕ
  pub text : String
  pub code : ℕ
  pub ack_id : String

abbrev pub send_error : HecError → ℕ → Response
send_error e status = record { status = status; text = e.text; code = e.code; ack_id = "" }

abbrev pub send_success : Response
send_success = record { status = 200; text = "Success"; code = 0; ack_id = "" }

abbrev pub send_success_with_ack : String → Response
send_success_with_ack ack_id = record { status = 200; text = "Success"; code = 0; ack_id = ack_id }

abbrev pub is_present : String → Bool
is_present s = not (str_eq s "")

-- if channelID != "" && ackID != ""
abbrev pub success_for : Request → String → Response
success_for r ack_id =
    if is_present (r.header "X-Splunk-Request-Channel") && is_present ack_id
    then send_success_with_ack ack_id
    else send_success

-- if v == "" { v = other }
abbrev pub or_else : String → String → String
or_else v other = if str_eq v "" then other else v

-- The bytes up to the first line feed, and the lines after it.
abbrev push_byte : ℕ → List (List ℕ) → List (List ℕ)
push_byte b [] = (b ∷ []) ∷ []
push_byte b (l ∷ ls) = (b ∷ l) ∷ ls

-- strings.Split(body, "\n")
abbrev pub lines : List ℕ → List (List ℕ)
lines [] = [] ∷ []
lines (b ∷ bs) = let rest = lines bs in if b == b'\n' then [] ∷ rest else push_byte b rest

abbrev pub is_empty {ℓ} : {A : Type ℓ} → List A → Bool
is_empty [] = true
is_empty (x ∷ xs) = false

abbrev pub with_event : Result Error HecEvent → Option (List HecEvent) → Option (List HecEvent)
with_event (err e) rest = none
with_event (ok event) none = none
with_event (ok event) (some events) = some (event ∷ events)

abbrev pub one_or_lines : Result Error HecEvent → Option (List HecEvent) → Option (List HecEvent)
one_or_lines (ok event) by_line = some (event ∷ [])
one_or_lines (err e) by_line = by_line

-- A part of a handler: it answers at once, or goes on with a value.
abbrev pub Part : Type 0 → Type 0 → Type 0
Part S A = S → Result Response A × S

abbrev pub go_on : {S A B : Type 0} → (A → Part S B) → Result Response A × S → Result Response B × S
go_on f (err r, s) = (err r, s)
go_on f (ok a, s) = f a s

infixl 5 ◌>>=◌
abbrev pub ◌>>=◌ : {S A B : Type 0} → Part S A → (A → Part S B) → Part S B
(m >>= f) s = go_on f (m s)

abbrev pub require : {S : Type 0} → Bool → Response → Part S (Unit {0})
require true r s = (ok tt, s)
require false r s = (err r, s)

abbrev pub read : {S A : Type 0} → Result Error A → Response → Part S A
read (ok a) r s = (ok a, s)
read (err e) r s = (err r, s)
