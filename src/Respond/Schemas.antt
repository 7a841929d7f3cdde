-- ===== src/Respond/Schemas.antt =====
-- The table detection_schemas of respond/internal/repository/postgres.go. An SQL statement is the
-- list operation that it denotes. `before` is Postgres's order on UUIDs, `as_text` its operator ->>,
-- `ilike` its pattern match. A map that encoding/json writes and reads is the map.
use telhawk_stack.Prelude.{
  ℕ, suc, ◌-◌, ◌*◌, ◌==◌, String, Bool, true, false, not, ◌&&◌, ◌||◌, Option, none, some, List, [],
  ◌∷◌, ◌++◌, map, any, is_some, str_eq, if◌then◌else◌,
}
use telhawk_stack.Prelude.Select.{select, count, first_of, update_where, take, drop}
use telhawk_stack.Prelude.Result.{Result, ok, err, ◌>>=◌, wrap}
use telhawk_stack.Prelude.Text.{◌++◌ as append}
use telhawk_stack.Query.Json.{Json, Members, member}
use telhawk_stack.Respond.Models.{
  SchemaRow, DetectionSchema, ListSchemasRequest, DetectionSchemaVersion, Error, schema_not_found,
  constraint_violated, failed,
}

abbrev pub has_id : String → SchemaRow → Bool
has_id id r = str_eq r.id id

abbrev pub has_version_id : String → SchemaRow → Bool
has_version_id version_id r = str_eq r.version_id version_id

-- The fields that a SELECT scans, with the calculated version.
abbrev pub scanned : ℕ → SchemaRow → DetectionSchema
scanned version r = record {
  id = r.id;
  version_id = r.version_id;
  model = some r.model;
  view = some r.view;
  controller = some r.controller;
  created_by = "";
  disabled_at = r.disabled_at;
  disabled_by = r.disabled_by;
  hidden_at = r.hidden_at;
  hidden_by = r.hidden_by;
  version = version;
}

-- if s == "" { s = uuid.NewV7() }
abbrev pub filled : Result Error String → String → Result Error String
filled draw s = if str_eq s "" then draw else ok s

-- The row of a schema, whose columns are JSON and not null.
abbrev pub row_of :
    String → String → Option Members → Option Members → Option Members → Result Error SchemaRow
row_of id version_id (some model) (some view) (some controller) = ok (record {
  id = id;
  version_id = version_id;
  model = model;
  view = view;
  controller = controller;
  active_parameter_set = none;
  disabled_at = none;
  disabled_by = none;
  hidden_at = none;
  hidden_by = none;
})
row_of id version_id _ _ _ = err constraint_violated

-- INSERT INTO detection_schemas, where version_id is the primary key.
abbrev pub insert : SchemaRow → List SchemaRow → Result Error (List SchemaRow)
insert row rows =
    if any (has_version_id row.version_id) rows
    then err constraint_violated
    else ok (rows ++ row ∷ [])

unfoldable pub create_schema :
    Result Error String
    → Result Error String
    → DetectionSchema
    → List SchemaRow
    → Result Error (List SchemaRow)
create_schema version_draw id_draw schema rows =
    wrap (failed "generate version UUID") (filled version_draw schema.version_id) >>= λ version_id.
    wrap (failed "generate ID UUID") (filled id_draw schema.id) >>= λ id.
    wrap (failed "create detection schema")
      (row_of id version_id schema.model schema.view schema.controller >>= λ row. insert row rows)

-- The rows that an UPDATE affects, or none.
abbrev pub update_rows :
    (SchemaRow → Bool) → (SchemaRow → SchemaRow) → List SchemaRow → Result Error (List SchemaRow)
update_rows p f rows = if any p rows then ok (update_where p f rows) else err schema_not_found

unfoldable pub disable_schema : String → String → ℕ → List SchemaRow → Result Error (List SchemaRow)
disable_schema version_id user_id now rows =
    update_rows (λ r. has_version_id version_id r && not (is_some r.disabled_at))
      (λ r. record r { disabled_at = some now; disabled_by = some user_id }) rows

unfoldable pub enable_schema : String → List SchemaRow → Result Error (List SchemaRow)
enable_schema version_id rows =
    update_rows (has_version_id version_id)
      (λ r. record r { disabled_at = none; disabled_by = none }) rows

unfoldable pub hide_schema : String → String → ℕ → List SchemaRow → Result Error (List SchemaRow)
hide_schema version_id user_id now rows =
    update_rows (λ r. has_version_id version_id r && not (is_some r.hidden_at))
      (λ r. record r { hidden_at = some now; hidden_by = some user_id }) rows

unfoldable pub set_active_parameter_set :
    String → String → List SchemaRow → Result Error (List SchemaRow)
set_active_parameter_set version_id parameter_set rows =
    update_rows
      (λ r. has_version_id version_id r && not (is_some r.disabled_at) && not (is_some r.hidden_at))
      (λ r. record r { active_parameter_set = some parameter_set }) rows

abbrev scanned_or_missing : Option DetectionSchema → Result Error DetectionSchema
scanned_or_missing none = err schema_not_found
scanned_or_missing (some s) = ok s

module _ (before : String → String → Bool) where
  -- ROW_NUMBER() OVER (PARTITION BY id ORDER BY version_id), and the same with DESC.
  abbrev pub row_number : List SchemaRow → SchemaRow → ℕ
  row_number rows r = suc (count (λ q. has_id r.id q && before q.version_id r.version_id) rows)

  abbrev pub row_number_desc : List SchemaRow → SchemaRow → ℕ
  row_number_desc rows r = suc (count (λ q. has_id r.id q && before r.version_id q.version_id) rows)

  -- COUNT(*) OVER (PARTITION BY id)
  abbrev pub versions_of : List SchemaRow → SchemaRow → ℕ
  versions_of rows r = count (has_id r.id) rows

  -- The only row with that version id, since it is the primary key.
  abbrev pub the_row :
      (List SchemaRow → SchemaRow → ℕ)
      → List SchemaRow
      → Option SchemaRow
      → Result Error DetectionSchema
  the_row version rows none = err schema_not_found
  the_row version rows (some r) = ok (scanned (version rows r) r)

  unfoldable pub get_schema_by_version_id : String → List SchemaRow → Result Error DetectionSchema
  get_schema_by_version_id version_id rows =
      let found = select (has_version_id version_id) rows in
      the_row row_number found (first_of (λ r. true) found)

  -- WHERE rn = 1
  abbrev pub latest : List SchemaRow → List SchemaRow
  latest rows = select (λ r. row_number_desc rows r == 1) rows

  unfoldable pub get_latest_schema_by_id : String → List SchemaRow → Result Error DetectionSchema
  get_latest_schema_by_id id rows =
      let found = select (has_id id) rows in
      the_row versions_of found (first_of (λ r. row_number_desc found r == 1) found)

  -- ORDER BY version_id DESC
  unfoldable pub insert_by_version : SchemaRow → List SchemaRow → List SchemaRow
  insert_by_version r [] = r ∷ []
  insert_by_version r (q ∷ qs) =
      let rest = insert_by_version r qs in
      if before q.version_id r.version_id then r ∷ q ∷ qs else q ∷ rest

  unfoldable pub newest_first : List SchemaRow → List SchemaRow
  unfolding insert_by_version
  newest_first [] = []
  newest_first (r ∷ rs) = insert_by_version r (newest_first rs)

  module _ (as_text : Json → Option String) where
    -- column->>'key'
    abbrev pub text_at : String → Members → Option String
    text_at key Members.end = none
    text_at key (member k v ms) = if str_eq k key then as_text v else text_at key ms

    abbrev text_or_empty : Option String → String
    text_or_empty none = ""
    text_or_empty (some s) = s

    abbrev history_entry : List SchemaRow → SchemaRow → DetectionSchemaVersion
    history_entry rows r = record {
      version_id = r.version_id;
      version = row_number rows r;
      title = text_or_empty (text_at "title" r.view);
      created_by = "";
      disabled_at = r.disabled_at;
      changes = "";
    }

    abbrev none_missing : List DetectionSchemaVersion → Result Error (List DetectionSchemaVersion)
    none_missing [] = err schema_not_found
    none_missing (v ∷ vs) = ok (v ∷ vs)

    unfoldable pub get_schema_version_history :
        String → List SchemaRow → Result Error (List DetectionSchemaVersion)
    get_schema_version_history id rows =
        let found = select (has_id id) rows in
        none_missing (map (history_entry found) (newest_first found))

    module _ (ilike : Option String → String → Bool) where
      abbrev same_text : Option String → String → Bool
      same_text none s = false
      same_text (some t) s = str_eq t s

      -- The WHERE clause of `ListSchemas`.
      abbrev pub listed : ListSchemasRequest → SchemaRow → Bool
      listed req r =
          (req.include_disabled || not (is_some r.disabled_at))
          && (req.include_hidden || not (is_some r.hidden_at))
          && (str_eq req.id "" || str_eq r.id req.id)
          && (str_eq req.severity "" || same_text (text_at "severity" r.view) req.severity)
          && (str_eq req.title ""
              || ilike (text_at "title" r.view) (append "%" (append req.title "%")))

      -- COUNT(DISTINCT id)
      abbrev pub count_ids : List SchemaRow → ℕ
      count_ids [] = 0
      count_ids (r ∷ rs) =
          let rest = count_ids rs in if any (has_id r.id) rs then rest else suc rest

      -- All that a request for one page takes its rows from.
      abbrev pub listing : ListSchemasRequest → List SchemaRow → List DetectionSchema
      listing req rows =
          let found = select (listed req) rows in
          map (λ r. scanned (versions_of found r) r) (newest_first (latest found))

      unfoldable pub list_schemas :
          ListSchemasRequest → ℕ → ℕ → List SchemaRow → List DetectionSchema × ℕ
      list_schemas req page limit rows = (
        take limit (drop ((page - 1) * limit) (listing req rows)),
        count_ids (select (listed req) rows),
      )
