-- ===== src/Respond/Examples.antt =====
-- Schemas and cases at concrete rows.
use telhawk_stack.Prelude.{
  ℕ, pos, String, Bool, true, false, not, ◌&&◌, Option, none, some, List, [], ◌∷◌, map, any, ltb,
  str_eq, if◌then◌else◌, ◌≡◌, refl, arith,
}
use telhawk_stack.Prelude.Select.{select, take}
use telhawk_stack.Prelude.Result.{Result, ok}
use telhawk_stack.Query.Json.{Json, Members, end, member, text}
use telhawk_stack.Respond.Models.{SchemaRow, DetectionSchema, CreateCaseRequest, Error}
use telhawk_stack.Respond.Schemas.{
  has_id, scanned, listing, get_latest_schema_by_id, get_schema_by_version_id, newest_first,
  insert_by_version,
}
use telhawk_stack.Respond.Schemas
use telhawk_stack.Respond.Cases.{
  Tables, is_alert, add_alerts_to_case, remove_alert_from_case, is_valid_row,
}
use telhawk_stack.Respond.Cases
use telhawk_stack.Respond.Cases.Alerts.{any-add_alerts_to_case, any-remove_alert_from_case}
use telhawk_stack.Respond.Service.{
  Draw, create_schema, update_schema, disable_schema, create_case, new_case, alert_of,
}
use telhawk_stack.Respond.Service.Versions.{
  Stores, row_for, update_schema_lem, get_schema-create_schema,
}
use telhawk_stack.Respond.Service.Disabled.{IsDisabled, listing-disable_schema}
use telhawk_stack.Respond.Service.Scheduler.{
  all_active, is_active, is_leading, row_has_query, run_correlations, CorrelationJobRequest,
  version_ids-run_correlations,
}

-- The ids of the examples are ordered by their number.
abbrev rank : String → ℕ
rank s = if str_eq s "v1" then 1 else if str_eq s "v2" then 2 else if str_eq s "v3" then 3 else 0

abbrev earlier : String → String → Bool
earlier u v = ltb (rank u) (rank v)

ltb_self : (n : ℕ) → ltb n n ≡ false
ltb_self n = ground arith

ltb_trans : (m n k : ℕ) → ltb m n ≡ true → ltb n k ≡ true → ltb m k ≡ true
ltb_trans m n k h i = ground (arith, h, i)

abbrev no_members : Members
no_members = end

abbrev query_controller : Members
query_controller = member "query" (text "severity:high") end

abbrev titled : Members
titled = member "title" (text "Brute force") end

abbrev old_row : SchemaRow
old_row = row_for "s1" "v1" no_members titled query_controller

abbrev new_row : SchemaRow
new_row = row_for "s1" "v2" no_members titled query_controller

abbrev draws : Draw
draws = record {
  id = ok "s1";
  version_id = ok "v2";
  spare_id = ok "s9";
  spare_version_id = ok "v9";
}

get_schema-create_schema_example : Stores earlier "s1" new_row [] (
    create_schema earlier draws
      (record {
        id = "";
        model = some no_members;
        view = some titled;
        controller = some query_controller;
      })
      [])
get_schema-create_schema_example =
    get_schema-create_schema earlier draws "s1" "v2" no_members titled query_controller [] refl
      (cc, cc) refl tt refl "" refl

found_old : get_latest_schema_by_id earlier "s1" (old_row ∷ []) ≡ ok (scanned 1 old_row)
unfolding get_latest_schema_by_id
found_old = refl

update_schema_lem_example : Stores earlier "s1" new_row (old_row ∷ []) (
    update_schema earlier draws "s1"
      (record { model = some no_members; view = some titled; controller = some query_controller })
      (old_row ∷ []))
update_schema_lem_example =
    update_schema_lem earlier draws "s1" "v2" no_members titled query_controller (old_row ∷ []) refl
      (cc, cc) refl ((λ e. (refl, refl)), tt) refl (scanned 1 old_row) found_old

abbrev no_text : Json → Option String
no_text v = none

abbrev no_match : Option String → String → Bool
no_match s t = false

abbrev disabled_schema : DetectionSchema
disabled_schema = scanned 1 (record new_row { disabled_at = some 7; disabled_by = some "u1" })

found_new : get_latest_schema_by_id earlier "s1" (old_row ∷ new_row ∷ []) ≡ ok (scanned 2 new_row)
unfolding get_latest_schema_by_id
found_new = refl

done_disable : (disable_schema earlier "s1" "u1" 7 (old_row ∷ new_row ∷ [])).0 ≡ ok disabled_schema
unfolding disable_schema Schemas.disable_schema get_latest_schema_by_id get_schema_by_version_id
done_disable = refl

abbrev after_disable : List SchemaRow
after_disable = (disable_schema earlier "s1" "u1" 7 (old_row ∷ new_row ∷ [])).1

listing-disable_schema_example :
    IsDisabled "v2" (old_row ∷ new_row ∷ []) after_disable
    × (true ≡ true
        → any
            (λ (s : DetectionSchema). str_eq s.id "s1" && not (str_eq s.version_id "v2"))
            (listing earlier no_text no_match all_active after_disable)
          ≡ true)
listing-disable_schema_example =
    listing-disable_schema earlier (λ v. ltb_self (rank v))
      (λ u v w. ltb_trans (rank u) (rank v) (rank w)) "s1" no_text no_match "u1" 7
      (old_row ∷ new_row ∷ []) (scanned 2 new_row) disabled_schema found_new done_disable

abbrev case_request : CreateCaseRequest
case_request = record {
  title = "Intrusion";
  description = "";
  severity = "";
  priority = "high";
  assignee_id = none;
  alert_ids = "a1" ∷ "a1" ∷ [];
}

abbrev no_alerts : Tables
no_alerts = record { cases = new_case case_request "u1" "c1" ∷ []; case_alerts = [] }

abbrev no_tables : Tables
no_tables = record { cases = []; case_alerts = [] }

abbrev first_alerts : List (String × Result Error String)
first_alerts = ("a1", ok "k1") ∷ ("a1", ok "k2") ∷ []

abbrev one_case : Tables
one_case = record {
  cases = new_case case_request "u1" "c1" ∷ [];
  case_alerts =
      record {
        id = "k1";
        case_id = "c1";
        alert_id = "a1";
        detection_schema_id = "";
        detection_schema_version_id = "";
        added_by = "u1";
      }
      ∷ [];
}

create_case_test :
    (create_case (ok "c1") (ok "c9") case_request first_alerts "u1" no_tables).1 ≡ one_case
unfolding create_case Cases.create_case is_valid_row add_alerts_to_case
create_case_test = refl

done_add : (add_alerts_to_case "c1" (map alert_of (("a2", ok "k2") ∷ [])) "u1" one_case).0 ≡ ok tt
unfolding add_alerts_to_case
done_add = refl

any-add_alerts_to_case_example :
    any
      (is_alert "c1" "a2")
      (add_alerts_to_case "c1" (map alert_of (("a2", ok "k2") ∷ [])) "u1" one_case).1.case_alerts
    ≡ true
any-add_alerts_to_case_example =
    any-add_alerts_to_case "c1" "u1" "c1" "a2" (map alert_of (("a2", ok "k2") ∷ [])) one_case
      done_add

done_remove : remove_alert_from_case "c1" "a1" one_case ≡ ok no_alerts
unfolding remove_alert_from_case
done_remove = refl

any-remove_alert_from_case_test : any (is_alert "c1" "a1") no_alerts.case_alerts ≡ false
any-remove_alert_from_case_test =
    any-remove_alert_from_case "c1" "a1" "c1" "a1" one_case no_alerts done_remove

version_ids-run_correlations_example :
    map
      (λ (r : CorrelationJobRequest). r.schema_version_id)
      (run_correlations
        (λ s. none)
        (λ bits. pos bits)
        earlier
        no_text
        no_match
        (λ s. (ok "j1", 400000000000))
        (old_row ∷ new_row ∷ []))
    ≡ map
        (λ (r : SchemaRow). r.version_id)
        (select row_has_query (
          take 1000 (
            newest_first earlier (
              select
                (λ r. is_active r && is_leading earlier (old_row ∷ new_row ∷ []) r)
                (old_row ∷ new_row ∷ [])))))
version_ids-run_correlations_example =
    version_ids-run_correlations (λ s. none) (λ bits. pos bits) earlier no_text no_match
      (λ s. (ok "j1", 400000000000)) (old_row ∷ new_row ∷ []) (λ s. ("j1", refl))
