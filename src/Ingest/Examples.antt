-- ===== src/Ingest/Examples.antt =====
-- Tests and examples of ingestion.
use telhawk_stack.Prelude.{
  ℕ, ◌+◌, ◌≤◌, pos, pos_part, neg_part, String, true, false, Option, none, some, List, [], ◌∷◌,
  ◌++◌, sub_ℕ, length, any, str_eq, if◌then◌else◌, ◌≡◌, refl, ◌↔◌, arith, eq_iff,
}
use telhawk_stack.Prelude.Maps.{get}
use telhawk_stack.Prelude.Result.{Result, ok, err}
use telhawk_stack.Prelude.Keys.{In}
use telhawk_stack.Query.Json.{Json, null, int, float, text, obj, Members, member}
use telhawk_stack.Ingest.Ack.{
  pending, Ack, Manager, is_pending, add_ack, count_ack, new_manager, create, complete, fail, query,
  get_pending, cleanup,
}
use telhawk_stack.Ingest.Ack.Gauge.{
  Call, call_create, call_complete, call_cleanup, perform_all, repeats, get_pending-perform_all,
}
use telhawk_stack.Ingest.Ack.Answers.{answer, live, get-query, get-cleanup}
use telhawk_stack.Ingest.Event.{HecEvent, Event, TokenInfo, Error, outside, queue_full}
use telhawk_stack.Ingest.SourceType.{find, determine_source_type}
use telhawk_stack.Ingest.Service.{
  IngestService, new_ingest_service, set_ack_manager, Draw, ingest_event, query_acks, enqueue,
  get_index, internal_event, ingest_marshalled, PendingCall, begin, advance, add_new, count_new,
  acknowledged,
}
use telhawk_stack.Ingest.Service.Worker.{
  Backend, receive, finish, outcome, normalize_event, forward_to_storage, add_context, put_present,
}
use telhawk_stack.Ingest.Service.Steps.{
  waiting, uncounted, call_ids, CanDraw, Reachable, started, then_step, event_step, call_step,
  receive_step, AddUp,
}
use telhawk_stack.Ingest.Service.Drained.{rounds, get_pending-rounds}
use telhawk_stack.Ingest.Service.Settled.{
  acks_pending_exact, pending_iff_waiting, queue_bounded_and_counted, is_stored, query_acks-finish,
  ingest_event_full,
}
use telhawk_stack.Ingest.Service.Context.{of_client, find-normalize_event}

-- A batch that is completed twice: the gauge falls below the number of pending acknowledgements.
abbrev calls : List Call
calls =
    call_create "a" 10 ("e1" ∷ [])
    ∷ call_create "b" 11 ("e2" ∷ [])
    ∷ call_complete "a" 12
    ∷ call_complete "a" 13
    ∷ call_cleanup 14
    ∷ []

gauge_test : (perform_all calls (new_manager 100)).acks_pending ≡ pos 0
unfolding new_manager create complete cleanup
gauge_test = refl

pending_test : get_pending (perform_all calls (new_manager 100)) ≡ 1
unfolding new_manager create complete cleanup get_pending
pending_test = refl

query_test :
    query ("a" ∷ "b" ∷ "c" ∷ []) (perform_all calls (new_manager 100))
    ≡ ("a", true) ∷ ("b", false) ∷ []
unfolding new_manager create complete cleanup query
query_test = refl

expired_test : get_pending (cleanup 200 (perform_all calls (new_manager 100))) ≡ 0
unfolding new_manager create complete cleanup get_pending
expired_test = refl

calls_fresh :
    (get "a" (new_manager 100).acks ≡ none)
    × (get "b" (perform_all (call_create "a" 10 ("e1" ∷ []) ∷ []) (new_manager 100)).acks ≡ none)
unfolding new_manager create
calls_fresh = (refl, refl)

get_pending-perform_all_test :
    pos_part (perform_all calls (new_manager 100)).acks_pending + repeats calls (new_manager 100)
    ≡ get_pending (perform_all calls (new_manager 100))
      + neg_part (perform_all calls (new_manager 100)).acks_pending
get_pending-perform_all_test =
    get_pending-perform_all 100 calls (calls_fresh.0, (calls_fresh.1, (tt, (tt, (tt, tt)))))

abbrev two_acks : Manager
two_acks = perform_all calls (new_manager 100)

get-query_test :
    get "a" (query ("b" ∷ "a" ∷ []) two_acks)
    ≡ (if any (str_eq "a") ("b" ∷ "a" ∷ []) then answer (get "a" two_acks.acks) else none)
get-query_test = get-query "a" ("b" ∷ "a" ∷ []) two_acks

abbrev one_ack : Manager
one_ack = record {
  acks = ("a", record { id = "a"; status = pending; timestamp = 10; event_ids = "e1" ∷ [] }) ∷ [];
  ttl = 100;
  acks_pending = pos 1;
  acks_completed = 0;
}

get-cleanup_test : get "a" (cleanup 111 one_ack).acks ≡ live 111 100 (get "a" one_ack.acks)
get-cleanup_test = get-cleanup "a" 111 one_ack ((λ i. elim i [ ]), tt)

-- An event without a source type, sent with a token.
abbrev login : HecEvent
login = record {
  time = some 7;
  host = "web1";
  source = "auth";
  source_type = "";
  index = "";
  event = obj (member "class_uid" (float 3002) Members.end);
  fields = none;
}

abbrev token : Option TokenInfo
token = some (record { token_id = "t1"; user_id = "u1"; client_id = "c1" })

abbrev draw : Draw
draw = record { event_id = "e1"; signature = "s1"; ack_id = "a1"; now = 5 }

abbrev empty_service : IngestService
empty_service = set_ack_manager (new_manager 100) (new_ingest_service true 1)

abbrev marshalled : HecEvent → Result Error (List ℕ)
marshalled event = ok (123 ∷ 125 ∷ [])

-- The next part of the first call in progress.
abbrev next_part : List PendingCall → IngestService → IngestService
next_part [] s = s
next_part (c ∷ cs) s = record (advance c s).0 { calls = (advance c s).1 ++ cs }

abbrev go_on : IngestService → IngestService
go_on s = next_part s.calls s

abbrev begun : IngestService
begun =
    begin draw
      (internal_event (λ bits. pos bits) (λ t. t) marshalled (λ bytes. "") draw login "10.0.0.1"
        token (123 ∷ 125 ∷ []))
      empty_service

-- The call goes through the end of `Create`, the select and `updateStats`.
abbrev with_login : IngestService
with_login = go_on (go_on (go_on begun))

-- That is what the call leaves where nothing comes between its parts.
run_test :
    (ingest_event
      (λ bits. pos bits)
      (λ t. t)
      marshalled
      (λ bytes. "")
      draw
      login
      "10.0.0.1"
      token
      empty_service).1
    ≡ with_login
unfolding ingest_event ingest_marshalled internal_event enqueue begin advance set_ack_manager
    new_manager new_ingest_service determine_source_type get_index add_new count_new acknowledged
run_test = refl

abbrev logged : Event
logged = record {
  id = "e1";
  timestamp = 7;
  host = "web1";
  source = "auth";
  source_type = "ocsf:iam";
  source_ip = "10.0.0.1";
  index = "main";
  event = login.event;
  fields = none;
  raw = 123 ∷ 125 ∷ [];
  hec_token_id = "t1";
  client_id = "c1";
  signature = "s1";
  ack_id = "a1";
}

abbrev a1_ack : Ack
a1_ack = record { id = "a1"; status = pending; timestamp = 5; event_ids = "e1" ∷ [] }

abbrev one_pending : Manager
one_pending = record {
  acks = ("a1", a1_ack) ∷ [];
  ttl = 100;
  acks_pending = pos 1;
  acks_completed = 0;
}

queue_test : with_login.event_queue ≡ logged ∷ []
unfolding internal_event begin advance set_ack_manager new_manager new_ingest_service
    determine_source_type get_index
queue_test = refl

draw_fresh : CanDraw draw empty_service
unfolding set_ack_manager new_manager new_ingest_service
draw_fresh = (refl, (λ i. elim i [ ]), λ e. ground (arith, eq_iff "a1" "", e))

next_part-Reachable :
    (cs : List PendingCall) (s : IngestService)
    → s.calls ≡ cs
    → Reachable 100 1 true s
    → Reachable 100 1 true (next_part cs s)
next_part-Reachable [] s e r = r
next_part-Reachable (c ∷ cs) s e r = then_step r (call_step s [] c cs e)

go_on-Reachable : (s : IngestService) → Reachable 100 1 true s → Reachable 100 1 true (go_on s)
go_on-Reachable s r = next_part-Reachable s.calls s refl r

begun-Reachable : Reachable 100 1 true begun
begun-Reachable = then_step started (
    event_step (λ bits. pos bits) (λ t. t) marshalled (λ bytes. "") draw login "10.0.0.1" token
      (123 ∷ 125 ∷ []) empty_service refl draw_fresh)

with_login-Reachable : Reachable 100 1 true with_login
with_login-Reachable =
    go_on-Reachable (go_on (go_on begun))
      (go_on-Reachable (go_on begun) (go_on-Reachable begun begun-Reachable))

reached : Reachable 100 1 true (receive with_login)
reached = then_step with_login-Reachable (receive_step with_login)

reached_manager : (receive with_login).ack_manager ≡ some one_pending
unfolding receive begin advance internal_event set_ack_manager new_manager new_ingest_service
    add_ack count_ack
reached_manager = refl

reached_event : (receive with_login).in_flight ≡ some logged
unfolding receive begin advance internal_event set_ack_manager new_manager new_ingest_service
    determine_source_type get_index
reached_event = refl

-- The call that holds the lock of `Create` no more, and has not moved the gauge yet.
abbrev uncounted_ack : Manager
uncounted_ack = record one_pending { acks_pending = pos 0 }

begun_manager : begun.ack_manager ≡ some uncounted_ack
unfolding begin set_ack_manager new_manager new_ingest_service add_ack
begun_manager = refl

acks_pending_exact_example :
    uncounted_ack.acks_pending ≡ sub_ℕ (get_pending uncounted_ack) (uncounted begun.calls)
acks_pending_exact_example = acks_pending_exact begun-Reachable uncounted_ack begun_manager

pending_iff_waiting_example : (true ≡ true) ↔ In "a1" (waiting begun)
pending_iff_waiting_example =
    pending_iff_waiting begun-Reachable uncounted_ack begun_manager "a1" a1_ack refl

queue_bounded_and_counted_example :
    (length (receive with_login).event_queue ≤ 10000) × AddUp (receive with_login).stats
queue_bounded_and_counted_example = queue_bounded_and_counted reached

-- A pipeline that keeps nothing of the event, and a storage that is down.
abbrev storage_down : Backend
storage_down = record {
  Ocsf = Members;
  process = some (λ envelope. ok (member "client_id" (text "other") Members.end));
  ocsf_event_to_map = λ ms. ok ms;
  ingest = some (λ ms. err (outside "connection refused"));
  time_value = λ t. int (pos t);
}

query_acks-finish_example :
    get "a1" (query_acks ("a1" ∷ []) (finish storage_down 9 (receive with_login)))
    ≡ some (is_stored (outcome storage_down logged))
query_acks-finish_example =
    query_acks-finish reached storage_down 9 logged a1_ack one_pending reached_manager reached_event
      refl

outcome_test : is_stored (outcome storage_down logged) ≡ false
unfolding outcome normalize_event forward_to_storage
outcome_test = refl

abbrev stored_login : Members
stored_login =
    member "client_id" (text "c1")
      (member "hec_token_id" (text "t1") (member "ingest_source_ip" (text "10.0.0.1") Members.end))

normalize_test : normalize_event storage_down logged ≡ ok stored_login
unfolding normalize_event add_context put_present telhawk_stack.Query.Json.put
normalize_test = refl

find-normalize_event_example : find "client_id" stored_login ≡ some (text "c1")
find-normalize_event_example =
    find-normalize_event storage_down logged stored_login "client_id" "c1" of_client
      (λ e. ground (arith, eq_iff "c1" "", e)) normalize_test

abbrev full_service : IngestService
full_service = record (new_ingest_service false 1) {
  queue_capacity = 1;
  event_queue = logged ∷ [];
  ack_manager = some one_pending;
}

abbrev second : Draw
second = record { event_id = "e2"; signature = "s2"; ack_id = "a2"; now = 6 }

abbrev refused_login : Result Error String × IngestService
refused_login =
    ingest_event (λ bits. pos bits) (λ t. t) marshalled (λ bytes. "") second login "10.0.0.1" token
      full_service

ingest_event_full_example :
    (refused_login.0 ≡ err queue_full)
    × (refused_login.1.event_queue ≡ full_service.event_queue)
    × (get "a2" (query_acks ("a2" ∷ []) refused_login.1) ≡ some false)
ingest_event_full_example =
    ingest_event_full (λ bits. pos bits) (λ t. t) marshalled (λ bytes. "") second login "10.0.0.1"
      token full_service (123 ∷ 125 ∷ []) one_pending refl refl (omega arith)
      (λ e. ground (arith, eq_iff "a2" "", e))

drained_manager :
    (rounds storage_down (9 ∷ 10 ∷ []) with_login).ack_manager ≡ some (fail "a1" 9 one_pending)
unfolding receive finish outcome normalize_event forward_to_storage begin advance internal_event
    set_ack_manager new_manager new_ingest_service add_ack count_ack fail determine_source_type
    get_index
drained_manager = refl

waiting_login : length with_login.event_queue ≤ 1
unfolding begin advance internal_event set_ack_manager new_manager new_ingest_service
waiting_login = omega arith

get_pending-rounds_example :
    ((rounds storage_down (9 ∷ 10 ∷ []) with_login).in_flight ≡ none)
    × ((rounds storage_down (9 ∷ 10 ∷ []) with_login).event_queue ≡ [])
    × ((k : String) (a : Ack)
        → get k (fail "a1" 9 one_pending).acks ≡ some a
        → is_pending a.status ≡ true
        → In k (call_ids with_login.calls))
    × (with_login.calls ≡ [] → get_pending (fail "a1" 9 one_pending) ≡ 0)
get_pending-rounds_example =
    get_pending-rounds storage_down with_login with_login-Reachable 9 (10 ∷ [])
      (fail "a1" 9 one_pending) waiting_login drained_manager
