-- ===== src/Ingest/Service/Context.antt =====
-- The ingestion context on the events that are stored.
use telhawk_stack.Prelude.{
  ℕ, String, false, some, str_eq, ◌≡◌, refl, ◌∙◌, inl, inr, arith, eq_iff, Option-cases,
}
use telhawk_stack.Prelude.Result.{ok, Result-cases}
use telhawk_stack.Query.Json.{Json, text, Members, member, put}
use telhawk_stack.Ingest.SourceType.{find}
use telhawk_stack.Ingest.Event.{Event}
use telhawk_stack.Ingest.Service.Worker.{
  Backend, normalize_event, add_context, event_to_map, put_present, envelope_of,
}

find-put_same : (key : String) (v : Json) (ms : Members) → find key (put key v ms) ≡ some v
unfolding put
find-put_same key v Members.end = ground (arith, eq_iff key key)
find-put_same key v (member k w ms) =
    ground (arith, eq_iff k key, eq_iff key key, find-put_same key v ms)

find-put_other :
    (key other : String) (v : Json) (ms : Members)
    → str_eq key other ≡ false
    → find other (put key v ms) ≡ find other ms
unfolding put
find-put_other key other v Members.end n = ground (arith, n)
find-put_other key other v (member k w ms) n =
    ground (arith, n, eq_iff k key, eq_iff key other, find-put_other key other v ms n)

-- The entries of the ingestion context: who sent the event, by which token, from where.
pub data IsContext (event : Event) : String → String → Type 0 where
  of_client : IsContext event "client_id" event.client_id
  of_token : IsContext event "hec_token_id" event.hec_token_id
  of_source : IsContext event "ingest_source_ip" event.source_ip

find-put_present :
    (key value : String) (ms : Members)
    → str_eq value "" ≡ false
    → find key (put_present key value ms) ≡ some (text value)
unfolding put_present
find-put_present key value ms n = ground (arith, n, find-put_same key (text value) ms)

find-put_present_other :
    (key other value : String) (ms : Members)
    → str_eq key other ≡ false
    → find other (put_present key value ms) ≡ find other ms
unfolding put_present
find-put_present_other key other value ms n =
    ground (arith, find-put_other key other (text value) ms n)

find-add_context :
    (event : Event) (ms : Members) (key value : String)
    → IsContext event key value
    → str_eq value "" ≡ false
    → find key (add_context event ms) ≡ some (text value)
unfolding add_context
find-add_context event ms key value of_client n =
    find-put_present_other "ingest_source_ip" "client_id" event.source_ip _ refl
    ∙ find-put_present_other "hec_token_id" "client_id" event.hec_token_id _ refl
    ∙ find-put_present "client_id" event.client_id ms n
find-add_context event ms key value of_token n =
    find-put_present_other "ingest_source_ip" "hec_token_id" event.source_ip _ refl
    ∙ find-put_present "hec_token_id" event.hec_token_id _ n
find-add_context event ms key value of_source n =
    find-put_present "ingest_source_ip" event.source_ip _ n

find-event_to_map :
    (time_value : ℕ → Json) (event : Event) (key value : String)
    → IsContext event key value
    → find key (event_to_map time_value event) ≡ some (text value)
unfolding event_to_map
find-event_to_map time_value event key value of_client = refl
find-event_to_map time_value event key value of_token = refl
find-event_to_map time_value event key value of_source = refl

-- An event that is normalized carries the client, the token and the source address of the request
-- that sent it, each that is not empty, whatever the normalizer wrote under those keys.
pub find-normalize_event :
    (backend : Backend) (event : Event) (ms : Members) (key value : String)
    → IsContext event key value
    → ¬ (value ≡ "")
    → normalize_event backend event ≡ ok ms
    → find key ms ≡ some (text value)
unfolding normalize_event
find-normalize_event backend event ms key value c n e =
    let given : str_eq value "" ≡ false = ground (arith, eq_iff value "", n) in
    elim (Option-cases backend.process) [
      | inl p ↦ ground (arith, p, find-event_to_map backend.time_value event key value c)
      | inr p ↦ elim (Result-cases (p.0 (envelope_of event))) [
        | inl q ↦ elim (Result-cases (backend.ocsf_event_to_map q.0)) [
          | inl t ↦ ground (arith, p.1, q.1, t.1, find-add_context event t.0 key value c given)
          | inr t ↦ ground (arith, p.1, q.1, t.1)
        ]
        | inr q ↦ ground (arith, p.1, q.1)
      ]
    ]
