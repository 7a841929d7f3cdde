-- ===== src/Respond/Service.antt =====
-- respond/internal/service/service.go over the tables. Where a method writes and then reads, both are
-- one step here; ids, versions and times are drawn by the caller.
use telhawk_stack.Prelude.{
  ℕ, ◌+◌, ◌-◌, ◌/◌, ℤ, pos, pos_part, ltb_ℤ, String, Bool, true, false, Option, none, some, List,
  [], ◌∷◌, map, str_eq, if◌then◌else◌,
}
use telhawk_stack.Prelude.Result.{Result, ok, err, ◌>>=◌, wrap}
use telhawk_stack.Query.Json.{Json, Members}
use telhawk_stack.Respond.Models.{
  SchemaRow, DetectionSchema, CreateSchemaRequest, UpdateSchemaRequest, ListSchemasRequest,
  DetectionSchemaVersion, Pagination, ListSchemasResponse, VersionHistoryResponse, Case, CaseAlert,
  CreateCaseRequest, UpdateCaseRequest, ListCasesRequest, ListCasesResponse, Error,
  schema_not_found, failed,
}
use telhawk_stack.Respond.Schemas
use telhawk_stack.Respond.Cases
use telhawk_stack.Respond.Cases.{Tables}
pub mod Versions
pub mod Listed
pub mod Disabled
pub mod Scheduler
pub mod Lifecycle

-- A call that fails leaves the database as it is.
abbrev pub Stateful : Type 0 → Type 0 → Type 0
Stateful S A = Result Error A × S

-- What a repository's write leaves, and then what a read of it gives.
abbrev pub then_read : {S A : Type 0} → Result Error S → (S → Result Error A) → S → Stateful S A
then_read (err e) read old = (err e, old)
then_read (ok new) read old = (read new, new)

-- if page < 1 { page = 1 }
abbrev pub page_of : ℤ → ℕ
page_of page = if ltb_ℤ page (pos 1) then 1 else pos_part page

-- if limit < 1 { limit = default }, if limit > 100 { limit = 100 }
abbrev pub limit_of : ℕ → ℤ → ℕ
limit_of default limit =
    if ltb_ℤ limit (pos 1) then default else if ltb_ℤ (pos 100) limit then 100 else pos_part limit

abbrev pub pagination : ℕ → ℕ → ℕ → Pagination
pagination page limit total = record {
  page = page;
  limit = limit;
  total = total;
  total_pages = (total + limit - 1) / limit;
}

abbrev new_schema :
    String → String → Option Members → Option Members → Option Members → DetectionSchema
new_schema id version_id model view controller = record {
  id = id;
  version_id = version_id;
  model = model;
  view = view;
  controller = controller;
  created_by = "";
  disabled_at = none;
  disabled_by = none;
  hidden_at = none;
  hidden_by = none;
  version = 0;
}

-- The ids that a call draws: the service's own, and those that the repository would draw.
pub record Draw : Type 0 where
  pub id : Result Error String
  pub version_id : Result Error String
  pub spare_id : Result Error String
  pub spare_version_id : Result Error String

module _ (before : String → String → Bool) where
  abbrev stored :
      Draw
      → Result Error DetectionSchema
      → String
      → List SchemaRow
      → Stateful (List SchemaRow) DetectionSchema
  stored draw (err e) what rows = (err e, rows)
  stored draw (ok schema) what rows =
      then_read
        (wrap (failed what) (Schemas.create_schema draw.spare_version_id draw.spare_id schema rows))
        (Schemas.get_schema_by_version_id before schema.version_id) rows

  unfoldable pub create_schema :
      Draw → CreateSchemaRequest → List SchemaRow → Stateful (List SchemaRow) DetectionSchema
  create_schema draw req rows =
      stored draw
        ((if str_eq req.id "" then wrap (failed "generate schema ID") draw.id else ok req.id)
          >>= λ id. wrap (failed "generate version ID") draw.version_id >>= λ version_id.
              ok (new_schema id version_id req.model req.view req.controller))
        "create schema" rows

  unfoldable pub update_schema :
      Draw
      → String
      → UpdateSchemaRequest
      → List SchemaRow
      → Stateful (List SchemaRow) DetectionSchema
  update_schema draw id req rows =
      stored draw
        (wrap (failed "get existing schema") (Schemas.get_latest_schema_by_id before id rows)
          >>= λ existing. wrap (failed "generate version ID") draw.version_id >>= λ version_id.
              ok (new_schema id version_id req.model req.view req.controller))
        "create new version" rows

  abbrev or_by_version :
      String → List SchemaRow → Result Error DetectionSchema → Result Error DetectionSchema
  or_by_version id rows (ok schema) = ok schema
  or_by_version id rows (err schema_not_found) = Schemas.get_schema_by_version_id before id rows
  or_by_version id rows (err e) = err e

  unfoldable pub get_schema : String → List SchemaRow → Result Error DetectionSchema
  get_schema id rows = or_by_version id rows (Schemas.get_latest_schema_by_id before id rows)

  -- The writes on the latest version, after which it is read again.
  abbrev on_latest :
      String
      → (String → List SchemaRow → Result Error (List SchemaRow))
      → Result Error DetectionSchema
      → List SchemaRow
      → Stateful (List SchemaRow) DetectionSchema
  on_latest what write (err e) rows = (err e, rows)
  on_latest what write (ok schema) rows =
      then_read (wrap (failed what) (write schema.version_id rows))
        (Schemas.get_schema_by_version_id before schema.version_id) rows

  unfoldable pub disable_schema :
      String → String → ℕ → List SchemaRow → Stateful (List SchemaRow) DetectionSchema
  disable_schema id user_id now rows =
      on_latest "disable schema" (λ v. Schemas.disable_schema v user_id now)
        (Schemas.get_latest_schema_by_id before id rows) rows

  unfoldable pub enable_schema : String → List SchemaRow → Stateful (List SchemaRow) DetectionSchema
  enable_schema id rows =
      on_latest "enable schema" Schemas.enable_schema
        (Schemas.get_latest_schema_by_id before id rows) rows

  unfoldable pub set_active_parameter_set :
      String → String → List SchemaRow → Stateful (List SchemaRow) DetectionSchema
  set_active_parameter_set id parameter_set rows =
      on_latest "set active parameter set" (λ v. Schemas.set_active_parameter_set v parameter_set)
        (Schemas.get_latest_schema_by_id before id rows) rows

  abbrev hidden_version :
      String
      → ℕ
      → Result Error DetectionSchema
      → List SchemaRow
      → Stateful (List SchemaRow) (Unit {0})
  hidden_version user_id now (err e) rows = (err e, rows)
  hidden_version user_id now (ok schema) rows =
      then_read (Schemas.hide_schema schema.version_id user_id now rows) (λ new. ok tt) rows

  unfoldable pub hide_schema :
      String → String → ℕ → List SchemaRow → Stateful (List SchemaRow) (Unit {0})
  hide_schema id user_id now rows =
      hidden_version user_id now (Schemas.get_latest_schema_by_id before id rows) rows

  module _ (as_text : Json → Option String) where
    abbrev first_title : List DetectionSchemaVersion → String
    first_title [] = ""
    first_title (v ∷ vs) = v.title

    unfoldable pub get_version_history :
        String → List SchemaRow → Result Error VersionHistoryResponse
    get_version_history id rows =
        wrap (failed "get version history")
          (Schemas.get_schema_version_history before as_text id rows)
        >>= λ versions. ok (record { id = id; title = first_title versions; versions = versions })

    module _ (ilike : Option String → String → Bool) where
      unfoldable pub list_schemas : ListSchemasRequest → List SchemaRow → ListSchemasResponse
      list_schemas req rows =
          let page = page_of req.page in
          let limit = limit_of 50 req.limit in
          let found = Schemas.list_schemas before as_text ilike req page limit rows in
          record { schemas = found.0; pagination = pagination page limit found.1 }

  unfoldable pub list_cases : ListCasesRequest → Tables → ListCasesResponse
  list_cases req t =
      let page = page_of req.page in
      let limit = limit_of 20 req.limit in
      let found = Cases.list_cases before req page limit t in
      record { cases = found.0; pagination = pagination page limit found.1 }

-- if s == "" { s = default }
abbrev pub defaulted : String → String → String
defaulted default s = if str_eq s "" then default else s

-- An alert as `AddAlertsToCase` makes it, with the id drawn for it.
abbrev pub alert_of : String × Result Error String → CaseAlert × Result Error String
alert_of (alert_id, draw) = (
  record {
    id = "";
    case_id = "";
    alert_id = alert_id;
    detection_schema_id = "";
    detection_schema_version_id = "";
    added_by = "";
  },
  draw,
)

abbrev pub new_case : CreateCaseRequest → String → String → Case
new_case req user_id id = record {
  id = id;
  title = req.title;
  description = req.description;
  severity = defaulted "medium" req.severity;
  status = "open";
  priority = defaulted "medium" req.priority;
  assignee_id = req.assignee_id;
  created_by = user_id;
  closed_at = none;
  closed_by = none;
  alert_count = 0;
  detection_schema_id = none;
  detection_schema_version_id = none;
}

-- An error of the alerts is logged only.
abbrev pub with_alerts : String → List (String × Result Error String) → String → Tables → Tables
with_alerts id [] user_id t = t
with_alerts id (a ∷ alerts) user_id t =
    (Cases.add_alerts_to_case id (map alert_of (a ∷ alerts)) user_id t).1

abbrev created_case :
    Result Error String
    → CreateCaseRequest
    → List (String × Result Error String)
    → String
    → Tables
    → Result Error String
    → Stateful Tables Case
created_case spare req alerts user_id t (err e) = (err e, t)
created_case spare req alerts user_id t (ok id) =
    then_read
      (wrap (failed "create case") (Cases.create_case spare (new_case req user_id id) t) >>= λ new.
        ok (with_alerts id alerts user_id new))
      (Cases.get_case_by_id id) t

-- `alerts` are the request's alert ids, each with the id drawn for its row.
unfoldable pub create_case :
    Result Error String
    → Result Error String
    → CreateCaseRequest
    → List (String × Result Error String)
    → String
    → Tables
    → Stateful Tables Case
create_case draw spare req alerts user_id t =
    created_case spare req alerts user_id t (wrap (failed "generate case ID") draw)

unfoldable pub update_case : String → UpdateCaseRequest → Tables → Stateful Tables Case
update_case id req t =
    then_read (wrap (failed "update case") (Cases.update_case id req t)) (Cases.get_case_by_id id) t

unfoldable pub close_case : String → String → ℕ → Tables → Stateful Tables Case
close_case id user_id now t =
    then_read (wrap (failed "close case") (Cases.close_case id user_id now t))
      (Cases.get_case_by_id id) t

unfoldable pub reopen_case : String → Tables → Stateful Tables Case
reopen_case id t =
    then_read (wrap (failed "reopen case") (Cases.reopen_case id t)) (Cases.get_case_by_id id) t

unfoldable pub add_alerts_to_case :
    String → List (String × Result Error String) → String → Tables → Stateful Tables (Unit {0})
add_alerts_to_case case_id alerts user_id t =
    Cases.add_alerts_to_case case_id (map alert_of alerts) user_id t

unfoldable pub remove_alert_from_case : String → String → Tables → Stateful Tables (Unit {0})
remove_alert_from_case case_id alert_id t =
    then_read (Cases.remove_alert_from_case case_id alert_id t) (λ new. ok tt) t
