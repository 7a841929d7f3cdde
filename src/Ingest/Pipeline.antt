-- ===== src/Ingest/Pipeline.antt =====
-- ingest/internal/pipeline/pipeline.go with the registry of ingest/internal/normalizer/normalizer.go
-- and the chain of ingest/internal/validator. A nil pointer is `none`; contexts are left out.
use telhawk_stack.Prelude.{
  ℕ, ℤ, pos, eqb_ℤ, String, Bool, true, false, not, ◌&&◌, ◌==◌, Option, none, some, List, [], ◌∷◌,
  str_eq, if◌then◌else◌,
}
use telhawk_stack.Prelude.Result.{Result, ok, err, ◌>>=◌, ◌>>◌, fail_if, wrap}
use telhawk_stack.Ingest.Event.{RawEventEnvelope}
pub mod Accepted
mod Examples

pub data Error : Type 0 where
  pipeline_missing : Error
  normalizer_missing : String → String → Error
  normalize_failed validate_failed : Error → Error
  missing : String → Error
  outside : String → Error

abbrev pub Check : Type 0
Check = Result Error (Unit {0})

-- The fields of common/ocsf/event.go that the validators read.
pub record OcsfEvent : Type 0 where
  pub class : String
  pub class_uid : ℤ
  pub category : String
  pub time : ℕ
  pub product_name : String
  pub metadata_version : String

pub record Normalizer : Type 0 where
  pub normalize : RawEventEnvelope → Result Error OcsfEvent
  pub supports : String → String → Bool

pub record Validator : Type 0 where
  pub validate : OcsfEvent → Check
  pub supports : String → Bool

pub record Pipeline : Type 0 where
  pub normalizers : Option (List Normalizer)
  pub validators : Option (List Validator)

first_supporting : String → String → List Normalizer → Option Normalizer
first_supporting format source_type [] = none
first_supporting format source_type (n ∷ ns) =
    if n.supports format source_type then some n else first_supporting format source_type ns

-- Registry.Find
unfoldable pub find : Option (List Normalizer) → RawEventEnvelope → Option Normalizer
unfolding first_supporting
find none envelope = none
find (some items) envelope = first_supporting envelope.format envelope.source_type items

validate_each : List Validator → OcsfEvent → Check
validate_each [] event = ok tt
validate_each (v ∷ vs) event =
    let rest = validate_each vs event in
    if v.supports event.class then v.validate event >> rest else rest

-- Chain.Validate
unfoldable pub validate_chain : Option (List Validator) → OcsfEvent → Check
unfolding validate_each
validate_chain none event = ok tt
validate_chain (some validators) event = validate_each validators event

process_with : Pipeline → RawEventEnvelope → Option Normalizer → Result Error OcsfEvent
process_with p envelope none = err (normalizer_missing envelope.format envelope.source_type)
process_with p envelope (some n) = wrap normalize_failed (n.normalize envelope) >>= λ event.
    wrap validate_failed (validate_chain p.validators event) >>= λ done. ok event

unfoldable pub process : Option Pipeline → RawEventEnvelope → Result Error OcsfEvent
unfolding process_with
process none envelope = err pipeline_missing
process (some p) envelope = process_with p envelope (find p.normalizers envelope)

-- ingest/internal/validator/basic.go
unfoldable pub basic_validate : OcsfEvent → Check
basic_validate event = do
  fail_if (str_eq event.class "") (missing "class")
  fail_if (eqb_ℤ event.class_uid (pos 0) && not (str_eq event.class "base_event"))
      (missing "class_uid")
  fail_if (str_eq event.category "") (missing "category")
  fail_if (event.time == 0) (missing "time")
  fail_if (str_eq event.product_name "") (missing "metadata.product.name")
  fail_if (str_eq event.metadata_version "") (missing "metadata.version")

abbrev pub basic_validator : Validator
basic_validator = record { validate = basic_validate; supports = λ class. not (str_eq class "") }
