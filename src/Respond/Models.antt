-- ===== src/Respond/Models.antt =====
-- respond/internal/models/models.go and the rows of respond/migrations/001_init.up.sql.
use telhawk_stack.Prelude.{ℕ, ℤ, String, Bool, Option, List}
use telhawk_stack.Query.Json.{Members}

-- A row of detection_schemas, one for each version.
pub record SchemaRow : Type 0 where
  pub id : String
  pub version_id : String
  pub model : Members
  pub view : Members
  pub controller : Members
  pub active_parameter_set : Option String
  pub disabled_at : Option ℕ
  pub disabled_by : Option String
  pub hidden_at : Option ℕ
  pub hidden_by : Option String

-- `version` is calculated. A nil map is `none`.
pub record DetectionSchema : Type 0 where
  pub id : String
  pub version_id : String
  pub model : Option Members
  pub view : Option Members
  pub controller : Option Members
  pub created_by : String
  pub disabled_at : Option ℕ
  pub disabled_by : Option String
  pub hidden_at : Option ℕ
  pub hidden_by : Option String
  pub version : ℕ

pub record CreateSchemaRequest : Type 0 where
  pub id : String
  pub model : Option Members
  pub view : Option Members
  pub controller : Option Members

pub record UpdateSchemaRequest : Type 0 where
  pub model : Option Members
  pub view : Option Members
  pub controller : Option Members

pub record ListSchemasRequest : Type 0 where
  pub page : ℤ
  pub limit : ℤ
  pub severity : String
  pub title : String
  pub id : String
  pub include_disabled : Bool
  pub include_hidden : Bool

pub record DetectionSchemaVersion : Type 0 where
  pub version_id : String
  pub version : ℕ
  pub title : String
  pub created_by : String
  pub disabled_at : Option ℕ
  pub changes : String

pub record Pagination : Type 0 where
  pub page : ℕ
  pub limit : ℕ
  pub total : ℕ
  pub total_pages : ℕ

pub record ListSchemasResponse : Type 0 where
  pub schemas : List DetectionSchema
  pub pagination : Pagination

pub record VersionHistoryResponse : Type 0 where
  pub id : String
  pub title : String
  pub versions : List DetectionSchemaVersion

-- A row of cases; `alert_count` is calculated, and of no meaning in a row.
pub record Case : Type 0 where
  pub id : String
  pub title : String
  pub description : String
  pub severity : String
  pub status : String
  pub priority : String
  pub assignee_id : Option String
  pub created_by : String
  pub closed_at : Option ℕ
  pub closed_by : Option String
  pub alert_count : ℕ
  pub detection_schema_id : Option String
  pub detection_schema_version_id : Option String

-- A row of case_alerts.
pub record CaseAlert : Type 0 where
  pub id : String
  pub case_id : String
  pub alert_id : String
  pub detection_schema_id : String
  pub detection_schema_version_id : String
  pub added_by : String

pub record CreateCaseRequest : Type 0 where
  pub title : String
  pub description : String
  pub severity : String
  pub priority : String
  pub assignee_id : Option String
  pub alert_ids : List String

pub record UpdateCaseRequest : Type 0 where
  pub title : Option String
  pub description : Option String
  pub severity : Option String
  pub status : Option String
  pub priority : Option String
  pub assignee_id : Option String

pub record ListCasesRequest : Type 0 where
  pub page : ℤ
  pub limit : ℤ
  pub status : String
  pub severity : String
  pub priority : String
  pub assignee_id : String

pub record ListCasesResponse : Type 0 where
  pub cases : List Case
  pub pagination : Pagination

-- The errors of the repository and the service. `failed` is fmt.Errorf("failed to ...: %w").
pub data Error : Type 0 where
  schema_not_found case_not_found alert_not_in_case : Error
  constraint_violated syntax_error : Error
  outside : String → Error
  failed : String → Error → Error
