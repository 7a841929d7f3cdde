-- ===== src/Respond/Cases.antt =====
-- The tables cases and case_alerts of respond/internal/repository/postgres.go, with the checks of
-- respond/migrations/001_init.up.sql on status and priority.
use telhawk_stack.Prelude.{
  ℕ, ◌-◌, ◌*◌, ◌==◌, String, Bool, true, false, not, ◌&&◌, ◌||◌, Option, none, some, List, [], ◌∷◌,
  ◌++◌, map, length, any, is_some, str_eq, if◌then◌else◌,
}
use telhawk_stack.Prelude.Select.{select, count, first_of, update_where, take, drop}
use telhawk_stack.Prelude.Result.{Result, ok, err, ◌>>=◌, wrap}
use telhawk_stack.Respond.Models.{
  Case, CaseAlert, UpdateCaseRequest, ListCasesRequest, Error, case_not_found, alert_not_in_case,
  constraint_violated, syntax_error, failed,
}
pub mod Alerts

pub record Tables : Type 0 where
  pub cases : List Case
  pub case_alerts : List CaseAlert

abbrev pub is_case : String → Case → Bool
is_case id c = str_eq c.id id

abbrev pub of_case : String → CaseAlert → Bool
of_case id a = str_eq a.case_id id

-- The constraints cases_status_check and cases_priority_check.
abbrev pub is_valid_status : String → Bool
is_valid_status s = any (str_eq s) ("open" ∷ "in_progress" ∷ "resolved" ∷ "closed" ∷ [])

abbrev pub is_valid_priority : String → Bool
is_valid_priority s = any (str_eq s) ("low" ∷ "medium" ∷ "high" ∷ "critical" ∷ [])

unfoldable pub is_valid_row : Case → Bool
is_valid_row c = is_valid_status c.status && is_valid_priority c.priority

abbrev pub inserted : Case → Tables → Result Error Tables
inserted c t =
    if any (is_case c.id) t.cases || not (is_valid_row c)
    then err constraint_violated
    else ok (record t {
      cases = t.cases ++ record c { closed_at = none; closed_by = none; alert_count = 0 } ∷ [];
    })

unfoldable pub create_case : Result Error String → Case → Tables → Result Error Tables
create_case draw c t =
    (if str_eq c.id "" then wrap (failed "generate case UUID") draw else ok c.id) >>= λ id.
    wrap (failed "create case") (inserted (record c { id = id }) t)

-- COUNT(ca.alert_id) of the rows that the join finds for a case.
abbrev pub with_count : Tables → Case → Case
with_count t c = record c { alert_count = count (of_case c.id) t.case_alerts }

abbrev counted : Tables → Option Case → Result Error Case
counted t none = err case_not_found
counted t (some c) = ok (with_count t c)

unfoldable pub get_case_by_id : String → Tables → Result Error Case
get_case_by_id id t = counted t (first_of (is_case id) t.cases)

abbrev pub assigned_to : Option String → String → Bool
assigned_to none s = false
assigned_to (some a) s = str_eq a s

-- The WHERE clause of `ListCases`.
abbrev pub listed : ListCasesRequest → Case → Bool
listed req c =
    (str_eq req.status "" || str_eq c.status req.status)
    && (str_eq req.priority "" || str_eq c.priority req.priority)
    && (str_eq req.severity "" || str_eq c.severity req.severity)
    && (str_eq req.assignee_id "" || assigned_to c.assignee_id req.assignee_id)

module _ (before : String → String → Bool) where
  unfoldable pub insert_by_id : Case → List Case → List Case
  insert_by_id c [] = c ∷ []
  insert_by_id c (d ∷ ds) =
      let rest = insert_by_id c ds in if before d.id c.id then c ∷ d ∷ ds else d ∷ rest

  -- ORDER BY c.id DESC
  unfoldable pub newest_first : List Case → List Case
  unfolding insert_by_id
  newest_first [] = []
  newest_first (c ∷ cs) = insert_by_id c (newest_first cs)

  -- All that a request for one page takes its rows from.
  abbrev pub listing : ListCasesRequest → Tables → List Case
  listing req t = map (with_count t) (newest_first (select (listed req) t.cases))

  unfoldable pub list_cases : ListCasesRequest → ℕ → ℕ → Tables → List Case × ℕ
  list_cases req page limit t =
      (take limit (drop ((page - 1) * limit) (listing req t)), count (listed req) t.cases)

-- UPDATE cases, where the new rows have to pass the constraints.
abbrev pub update_cases : String → (Case → Case) → Tables → Result Error Tables
update_cases id f t =
    if any (λ c. is_case id c && not (is_valid_row (f c))) t.cases
    then err constraint_violated
    else ok (record t { cases = update_where (is_case id) f t.cases })

-- The error where no row was affected.
abbrev pub affecting : String → Tables → Result Error Tables → Result Error Tables
affecting id t result =
    result >>= λ updated. if any (is_case id) t.cases then ok updated else err case_not_found

abbrev set_or_keep {ℓ} : {A : Type ℓ} → Option A → A → A
set_or_keep none old = old
set_or_keep (some new) old = new

abbrev assign_or_keep : Option String → Option String → Option String
assign_or_keep none old = old
assign_or_keep (some new) old = some new

-- The SET clauses that `UpdateCase` builds.
abbrev pub assignments : UpdateCaseRequest → Case → Case
assignments req c = record c {
  title = set_or_keep req.title c.title;
  description = set_or_keep req.description c.description;
  status = set_or_keep req.status c.status;
  priority = set_or_keep req.priority c.priority;
  assignee_id = assign_or_keep req.assignee_id c.assignee_id;
}

abbrev pub sets_nothing : UpdateCaseRequest → Bool
sets_nothing req = not (
    is_some req.title
    || is_some req.description
    || is_some req.status
    || is_some req.priority
    || is_some req.assignee_id)

-- Without an assignment the statement is no SQL.
unfoldable pub update_case : String → UpdateCaseRequest → Tables → Result Error Tables
update_case id req t = affecting id t (
    wrap (failed "update case")
      (if sets_nothing req then err syntax_error else update_cases id (assignments req) t))

-- The SET clauses of `CloseCase` and `ReopenCase`.
abbrev pub closing : String → ℕ → Case → Case
closing user_id now c = record c {
  status = "closed";
  closed_at = some now;
  closed_by = some user_id;
}

abbrev pub reopening : Case → Case
reopening c = record c { status = "open"; closed_at = none; closed_by = none }

unfoldable pub close_case : String → String → ℕ → Tables → Result Error Tables
close_case id user_id now t =
    affecting id t (wrap (failed "close case") (update_cases id (closing user_id now) t))

unfoldable pub reopen_case : String → Tables → Result Error Tables
reopen_case id t = affecting id t (wrap (failed "reopen case") (update_cases id reopening t))

abbrev pub is_alert : String → String → CaseAlert → Bool
is_alert case_id alert_id a = str_eq a.case_id case_id && str_eq a.alert_id alert_id

-- INSERT INTO case_alerts ... ON CONFLICT (case_id, alert_id) DO NOTHING, where id is the primary
-- key. A conflict of ids alone is an error.
abbrev pub insert_alert : CaseAlert → List CaseAlert → Result Error (List CaseAlert)
insert_alert a alerts =
    if any (is_alert a.case_id a.alert_id) alerts
    then ok alerts
    else if any (λ b. str_eq b.id a.id) alerts
    then err constraint_violated
    else ok (alerts ++ a ∷ [])

-- What an alert that is given becomes, with the id drawn for it.
abbrev pub as_row : String → String → String → CaseAlert → CaseAlert
as_row case_id user_id id a = record {
  id = id;
  case_id = case_id;
  alert_id = a.alert_id;
  detection_schema_id = "";
  detection_schema_version_id = "";
  added_by = user_id;
}

-- The loop of `AddAlertsToCase`, which is no transaction: an error leaves what stands before it.
-- Each alert comes with the id drawn for it.
abbrev pub row_id : CaseAlert × Result Error String → Result Error String
row_id (a, draw) = if str_eq a.id "" then wrap (failed "generate alert UUID") draw else ok a.id

abbrev after_insert :
    List CaseAlert → Result Error (List CaseAlert) → Result Error (Unit {0}) × List CaseAlert
after_insert old (err e) = (err (failed "add alert to case" e), old)
after_insert old (ok new) = (ok tt, new)

abbrev add_one :
    String
    → String
    → CaseAlert
    → Result Error String
    → List CaseAlert
    → Result Error (Unit {0}) × List CaseAlert
add_one case_id user_id a (err e) alerts = (err e, alerts)
add_one case_id user_id a (ok id) alerts =
    after_insert alerts (insert_alert (as_row case_id user_id id a) alerts)

abbrev go_on :
    Result Error (Unit {0}) × List CaseAlert
    → (List CaseAlert → Result Error (Unit {0}) × List CaseAlert)
    → Result Error (Unit {0}) × List CaseAlert
go_on (err e, alerts) next = (err e, alerts)
go_on (ok done, alerts) next = next alerts

abbrev pub add_each :
    String
    → String
    → List (CaseAlert × Result Error String)
    → List CaseAlert
    → Result Error (Unit {0}) × List CaseAlert
add_each case_id user_id [] alerts = (ok tt, alerts)
add_each case_id user_id (d ∷ drawn) alerts =
    let rest = add_each case_id user_id drawn in
    go_on (add_one case_id user_id d.0 (row_id d) alerts) rest

unfoldable pub add_alerts_to_case :
    String
    → List (CaseAlert × Result Error String)
    → String
    → Tables
    → Result Error (Unit {0}) × Tables
add_alerts_to_case case_id drawn user_id t =
    if not (any (is_case case_id) t.cases)
    then (err case_not_found, t)
    else (let result = add_each case_id user_id drawn t.case_alerts in
        (result.0, record t { case_alerts = result.1 }))

module _ (before : String → String → Bool) where
  insert_alert_by_id : CaseAlert → List CaseAlert → List CaseAlert
  insert_alert_by_id a [] = a ∷ []
  insert_alert_by_id a (b ∷ bs) =
      let rest = insert_alert_by_id a bs in if before b.id a.id then a ∷ b ∷ bs else b ∷ rest

  -- ORDER BY id DESC
  unfoldable pub newest_alerts_first : List CaseAlert → List CaseAlert
  unfolding insert_alert_by_id
  newest_alerts_first [] = []
  newest_alerts_first (a ∷ as_) = insert_alert_by_id a (newest_alerts_first as_)

  unfoldable pub get_case_alerts : String → Tables → List CaseAlert
  unfolding newest_alerts_first
  get_case_alerts case_id t = newest_alerts_first (select (of_case case_id) t.case_alerts)

unfoldable pub remove_alert_from_case : String → String → Tables → Result Error Tables
remove_alert_from_case case_id alert_id t =
    if any (is_alert case_id alert_id) t.case_alerts
    then ok
        (record t { case_alerts = select (λ a. not (is_alert case_id alert_id a)) t.case_alerts })
    else err alert_not_in_case
