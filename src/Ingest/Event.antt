-- ===== src/Ingest/Event.antt =====
-- ingest/internal/models/event.go and the types that the service passes on. A nil map is `none`; a
-- request's context, whose deadlines belong to the packages called, is left out.
use telhawk_stack.Prelude.{ℕ, ℤ, String, Bool, Option, none, some, List}
use telhawk_stack.Query.Json.{Json, null, obj, Members}

-- `Time` is a float64, as its bit pattern.
pub record HecEvent : Type 0 where
  pub time : Option ℕ
  pub host : String
  pub source : String
  pub source_type : String
  pub index : String
  pub event : Json
  pub fields : Option Members

pub record Event : Type 0 where
  pub id : String
  pub timestamp : ℕ
  pub host : String
  pub source : String
  pub source_type : String
  pub source_ip : String
  pub index : String
  pub event : Json
  pub fields : Option Members
  pub raw : List ℕ
  pub hec_token_id : String
  pub client_id : String
  pub signature : String
  pub ack_id : String

pub record IngestionStats : Type 0 where
  pub total_events : ℤ
  pub total_bytes : ℤ
  pub successful_events : ℤ
  pub failed_events : ℤ
  pub last_event : ℕ

pub record RawEventEnvelope : Type 0 where
  pub id : String
  pub source : String
  pub source_type : String
  pub format : String
  pub payload : List ℕ
  pub attributes : List (String × String)
  pub received_at : ℕ

-- service.TokenInfo
pub record TokenInfo : Type 0 where
  pub token_id : String
  pub user_id : String
  pub client_id : String

-- storageclient.IngestResponse
pub record IngestResponse : Type 0 where
  pub indexed : ℤ
  pub failed : ℤ
  pub errors : List String

-- authclient.ValidateHECTokenResponse
pub record ValidateHecTokenResponse : Type 0 where
  pub valid : Bool
  pub token_id : String
  pub token_name : String
  pub user_id : String
  pub client_id : String

-- The errors of the service; `outside` is one of a package that it calls.
pub data Error : Type 0 where
  outside : String → Error
  normalization_failed conversion_failed storage_ingest_failed token_validation_failed :
      Error → Error
  nil_response queue_full auth_client_missing invalid_token : Error
  storage_failures : ℤ → List String → Error

-- A map in an interface: nil is written as null.
abbrev pub map_value : Option Members → Json
map_value none = null
map_value (some ms) = obj ms
