-- ===== src/Ingest/Pipeline/Examples.antt =====
-- Tests and examples of the pipeline.
use telhawk_stack.Prelude.{pos, true, some, [], ◌∷◌, str_eq, ◌≡◌, refl, ◌⊎◌, ◌↔◌}
use telhawk_stack.Prelude.Result.{ok, err}
use telhawk_stack.Ingest.Event.{RawEventEnvelope}
use telhawk_stack.Ingest.Pipeline.{
  validate_failed, missing, OcsfEvent, Normalizer, Pipeline, find, validate_chain, process,
  basic_validate, basic_validator,
}
use telhawk_stack.Ingest.Pipeline.Accepted.{Accepts, HasBasics, process_accepted, basic_chain_iff}

abbrev envelope : RawEventEnvelope
envelope = record {
  id = "e1";
  source = "auth";
  source_type = "ocsf:iam";
  format = "json";
  payload = [];
  attributes = [];
  received_at = 7;
}

abbrev login_event : OcsfEvent
login_event = record {
  class = "authentication";
  class_uid = pos 3002;
  category = "iam";
  time = 7;
  product_name = "TelHawk";
  metadata_version = "1.1.0";
}

abbrev normalizer : OcsfEvent → Normalizer
normalizer event = record {
  normalize = λ e. ok event;
  supports = λ format source_type. str_eq format "json";
}

abbrev pipeline : OcsfEvent → Pipeline
pipeline event = record {
  normalizers = some (normalizer event ∷ []);
  validators = some (basic_validator ∷ []);
}

process_test : process (some (pipeline login_event)) envelope ≡ ok login_event
unfolding process find validate_chain basic_validate
process_test = refl

untimed_test :
    process (some (pipeline (record login_event { time = 0 }))) envelope
    ≡ err (validate_failed (missing "time"))
unfolding process find validate_chain basic_validate
untimed_test = refl

-- An event without a class is not supported by the basic validator, and passes.
classless_test :
    validate_chain (some (basic_validator ∷ [])) (record login_event { class = ""; time = 0 })
    ≡ ok tt
unfolding validate_chain
classless_test = refl

process_accepted_example :
    (n : Normalizer) × (find (pipeline login_event).normalizers envelope ≡ some n)
    × (n.supports "json" "ocsf:iam" ≡ true)
    × (n.normalize envelope ≡ ok login_event)
    × Accepts (some (basic_validator ∷ [])) login_event
process_accepted_example = process_accepted (pipeline login_event) envelope login_event process_test

basic_chain_iff_example :
    (validate_chain (some (basic_validator ∷ [])) login_event ≡ ok tt)
    ↔ ((login_event.class ≡ "") ⊎ HasBasics login_event)
basic_chain_iff_example = basic_chain_iff login_event
