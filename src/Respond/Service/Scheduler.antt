-- ===== src/Respond/Service/Scheduler.antt =====
-- respond/internal/scheduler/scheduler.go: the correlation jobs that one round asks for. The limit of
-- time.ParseDuration, the conversion of a float64 to int and the drawn job ids are parameters.
use telhawk_stack.Prelude.{
  ℕ, zero, suc, ◌==◌, ◌&&◌, is_some, ◌∙◌, ◌+◌, ℤ, pos, negsuc, sub_ℕ, String, Bool, false, not,
  Option, none, some, List, [], ◌∷◌, ◌++◌, map, str_eq, if◌then◌else◌, ◌≡◌, refl, ap, inl, inr,
  arith, Bool-cases,
}
use mathlib.Core.Path.{fun_ext}
use telhawk_stack.Prelude.Select.{select, count, take, select-select, count-select_and}
use telhawk_stack.Prelude.Result.{Result, ok, err}
use telhawk_stack.Query.Json.{Json, Members, end, member, text, float}
use telhawk_stack.Respond.Models.{SchemaRow, DetectionSchema, ListSchemasRequest, Error}
use telhawk_stack.Respond.Schemas
use telhawk_stack.Respond.Schemas.{
  has_id, scanned, row_number_desc, versions_of, latest, newest_first, listed, listing,
}

-- A time in nanoseconds.
pub record TimeRange : Type 0 where
  pub start : ℤ
  pub stop : ℤ

pub record CorrelationJobRequest : Type 0 where
  pub job_id : String
  pub schema_id : String
  pub schema_version_id : String
  pub query : String
  pub time_range : TimeRange
  pub aggregation_key : String
  pub threshold : ℤ

-- m[key]
abbrev value_at : String → Members → Option Json
value_at key end = none
value_at key (member k v ms) = if str_eq k key then some v else value_at key ms

abbrev text_or_empty : Option Json → String
text_or_empty (some (text s)) = s
text_or_empty _ = ""

-- getStringFromMap
unfoldable pub string_from_map : String → Members → String
string_from_map key m = text_or_empty (value_at key m)

abbrev controller_query : Option Members → String
controller_query none = ""
controller_query (some controller) = string_from_map "query" controller

abbrev pub has_query : DetectionSchema → Bool
has_query s = not (str_eq (controller_query s.controller) "")

-- The controller has a query.
abbrev pub row_has_query : SchemaRow → Bool
row_has_query r = not (str_eq (string_from_map "query" r.controller) "")

-- Neither disabled nor hidden.
abbrev pub is_active : SchemaRow → Bool
is_active r = not (is_some r.disabled_at) && not (is_some r.hidden_at)

-- No active row of the same schema is later.
abbrev pub is_leading : (String → String → Bool) → List SchemaRow → SchemaRow → Bool
is_leading before rows r =
    count (λ q. is_active q && (has_id r.id q && before r.version_id q.version_id)) rows == 0

-- 5 * time.Minute
abbrev five_minutes : ℕ
five_minutes = 300000000000

-- now.Add(-window)
abbrev go_back : ℕ → ℤ → ℤ
go_back now (pos window) = sub_ℕ now window
go_back now (negsuc window) = pos (now + suc window)

abbrev window_or_default : Option ℤ → ℤ
window_or_default none = pos five_minutes
window_or_default (some window) = window

-- The request of a round.
abbrev pub all_active : ListSchemasRequest
all_active = record {
  page = pos 1;
  limit = pos 1000;
  severity = "";
  title = "";
  id = "";
  include_disabled = false;
  include_hidden = false;
}

module _ (parse_duration : String → Option ℤ) (truncate : ℕ → ℤ) where
  abbrev threshold_of : Option Json → ℤ
  threshold_of (some (float bits)) = truncate bits
  threshold_of _ = pos 1

  abbrev pub job_request : String → ℕ → DetectionSchema → Members → CorrelationJobRequest
  job_request job_id now schema controller = record {
    job_id = job_id;
    schema_id = schema.id;
    schema_version_id = schema.version_id;
    query = string_from_map "query" controller;
    time_range = record {
      start =
          go_back now
            (window_or_default (parse_duration (string_from_map "time_window" controller)));
      stop = pos now;
    };
    aggregation_key = string_from_map "aggregation_key" controller;
    threshold = threshold_of (value_at "threshold" controller);
  }

  abbrev drawn_request :
      ℕ → DetectionSchema → Members → Result Error String → List CorrelationJobRequest
  drawn_request now schema controller (err e) = []
  drawn_request now schema controller (ok job_id) = job_request job_id now schema controller ∷ []

  abbrev requests_of :
      Result Error String → ℕ → DetectionSchema → Option Members → List CorrelationJobRequest
  requests_of draw now schema none = []
  requests_of draw now schema (some controller) =
      if str_eq (string_from_map "query" controller) ""
      then []
      else drawn_request now schema controller draw

  -- The request that is handed to the publisher, if any.
  unfoldable pub run_schema_correlation :
      Result Error String → ℕ → DetectionSchema → List CorrelationJobRequest
  run_schema_correlation draw now schema = requests_of draw now schema schema.controller

  -- A schema whose run fails is logged and passed over. `draws` are the ids drawn and the times read.
  abbrev each_schema :
      (DetectionSchema → Result Error String × ℕ)
      → List DetectionSchema
      → List CorrelationJobRequest
  each_schema draws [] = []
  each_schema draws (s ∷ schemas) =
      run_schema_correlation (draws s).0 (draws s).1 s ++ each_schema draws schemas

  module _ (before : String → String → Bool) (as_text : Json → Option String)
      (ilike : Option String → String → Bool) where
    unfoldable pub run_correlations :
        (DetectionSchema → Result Error String × ℕ) → List SchemaRow → List CorrelationJobRequest
    run_correlations draws rows =
        each_schema draws (Schemas.list_schemas before as_text ilike all_active 1 1000 rows).0

    abbrev pub IsDrawn : (DetectionSchema → Result Error String × ℕ) → Type 0
    IsDrawn draws = (s : DetectionSchema) → (id : String) × ((draws s).0 ≡ ok id)

    abbrev asked : List CorrelationJobRequest → List String
    asked requests = map (λ (r : CorrelationJobRequest). r.schema_version_id) requests

    abbrev version_ids : List DetectionSchema → List String
    version_ids schemas = map (λ (s : DetectionSchema). s.version_id) schemas

    version_ids-step :
        (draw : Result Error String) (now : ℕ) (s : DetectionSchema) (controller : Option Members)
        (requests : List CorrelationJobRequest) (schemas : List DetectionSchema)
        → (id : String) × (draw ≡ ok id)
        → asked requests ≡ version_ids schemas
        → asked (requests_of draw now s controller ++ requests)
          ≡ version_ids
              (if not (str_eq (controller_query controller) "") then s ∷ schemas else schemas)
    version_ids-step draw now s none requests schemas drawn rest = rest
    version_ids-step draw now s (some controller) requests schemas drawn rest =
        elim (Bool-cases (str_eq (string_from_map "query" controller) "")) [
          | inl empty ↦ rw empty rest
          | inr query ↦ rw query (rw drawn.1 (ap (λ l. s.version_id ∷ l) rest))
        ]

    version_ids-each :
        (draws : DetectionSchema → Result Error String × ℕ) (schemas : List DetectionSchema)
        → IsDrawn draws
        → asked (each_schema draws schemas) ≡ version_ids (select has_query schemas)
    unfolding run_schema_correlation
    version_ids-each draws [] h = refl
    version_ids-each draws (s ∷ schemas) h =
        version_ids-step (draws s).0 (draws s).1 s s.controller (each_schema draws schemas)
          (select has_query schemas) (h s) (version_ids-each draws schemas h)

    scanned_ids :
        (version : SchemaRow → ℕ) (n : ℕ) (rows : List SchemaRow)
        → version_ids (select has_query (take n (map (λ r. scanned (version r) r) rows)))
          ≡ map (λ (r : SchemaRow). r.version_id) (select row_has_query (take n rows))
    scanned_ids version zero rows = refl
    scanned_ids version (suc n) [] = refl
    scanned_ids version (suc n) (r ∷ rows) =
        elim (Bool-cases (str_eq (string_from_map "query" r.controller) "")) [
          | inl empty ↦ rw empty (scanned_ids version n rows)
          | inr query ↦ rw query (ap (λ l. r.version_id ∷ l) (scanned_ids version n rows))
        ]

    listed_active : listed before as_text ilike all_active ≡ is_active
    listed_active = fun_ext (λ r. ground arith)

    first_is_leading :
        (rows : List SchemaRow) (r : SchemaRow)
        → (row_number_desc before (select is_active rows) r == 1) ≡ is_leading before rows r
    first_is_leading rows r = ground (
      arith,
      count-select_and is_active (λ q. has_id r.id q && before r.version_id q.version_id) rows,
    )

    latest_active :
        (rows : List SchemaRow)
        → latest before (select is_active rows)
          ≡ select (λ r. is_active r && is_leading before rows r) rows
    latest_active rows =
        select-select is_active (λ r. row_number_desc before (select is_active rows) r == 1) rows
        ∙ ap (λ p. select (λ r. is_active r && p r) rows) (fun_ext (first_is_leading rows))

    -- Where job ids can be drawn, a round of the scheduler asks for one job for each row of the table
    -- that is neither disabled nor hidden, is the latest of such rows of its schema, is among the
    -- first 1000 of these from the latest version id down, and has a query in its controller; in
    -- that order, and for no other row.
    pub version_ids-run_correlations :
        (draws : DetectionSchema → Result Error String × ℕ) (rows : List SchemaRow)
        → IsDrawn draws
        → map (λ (r : CorrelationJobRequest). r.schema_version_id) (run_correlations draws rows)
          ≡ map
              (λ (r : SchemaRow). r.version_id)
              (select row_has_query (
                take 1000 (
                  newest_first before
                    (select (λ r. is_active r && is_leading before rows r) rows))))
    unfolding run_correlations Schemas.list_schemas
    version_ids-run_correlations draws rows h =
        version_ids-each draws (take 1000 (listing before as_text ilike all_active rows)) h
        ∙ ap
            (λ p. version_ids (
              select has_query (
                take 1000 (
                  map (λ r. scanned (versions_of before (select p rows) r) r)
                    (newest_first before (latest before (select p rows)))))))
            listed_active
        ∙ scanned_ids (versions_of before (select is_active rows)) 1000
            (newest_first before (latest before (select is_active rows)))
        ∙ ap
            (λ l.
              map (λ (r : SchemaRow). r.version_id)
                (select row_has_query (take 1000 (newest_first before l))))
            (latest_active rows)
