-- ===== src/Ingest/Pipeline/Accepted.antt =====
-- What is known of an event that the pipeline gives.
use telhawk_stack.Prelude.{
  ◌<◌, pos, String, true, false, Option, none, some, List, [], ◌∷◌, ◌≡◌, ap, ◌∙◌, ◌⊎◌, inl, inr,
  ◌↔◌, arith, eq_iff, subst, Option-cases,
}
use telhawk_stack.Prelude.{eqb_ℤ}
use telhawk_stack.Prelude.Result.{ok, Result-cases}
use telhawk_stack.Ingest.Event.{RawEventEnvelope}
use telhawk_stack.Ingest.Pipeline.{
  OcsfEvent, Normalizer, Validator, Pipeline, find, first_supporting, validate_chain, validate_each,
  process, basic_validate, basic_validator,
}

-- Every validator accepts the event or does not support its class.
abbrev pub AcceptsEach : List Validator → OcsfEvent → Type 0
AcceptsEach [] event = Unit {0}
AcceptsEach (v ∷ vs) event =
    ((v.supports event.class ≡ false) ⊎ (v.validate event ≡ ok tt)) × AcceptsEach vs event

abbrev pub Accepts : Option (List Validator) → OcsfEvent → Type 0
Accepts none event = Unit {0}
Accepts (some vs) event = AcceptsEach vs event

validate_each-AcceptsEach :
    (vs : List Validator) (event : OcsfEvent)
    → validate_each vs event ≡ ok tt
    → AcceptsEach vs event
unfolding validate_each
validate_each-AcceptsEach [] event e = tt
validate_each-AcceptsEach (v ∷ vs) event e =
    ground (arith, validate_each-AcceptsEach vs event, Result-cases (v.validate event))

validate_chain-Accepts :
    (c : Option (List Validator)) (event : OcsfEvent)
    → validate_chain c event ≡ ok tt
    → Accepts c event
unfolding validate_chain
validate_chain-Accepts none event e = tt
validate_chain-Accepts (some vs) event e = validate_each-AcceptsEach vs event e

first_supports :
    (format source_type : String) (ns : List Normalizer) (n : Normalizer)
    → first_supporting format source_type ns ≡ some n
    → n.supports format source_type ≡ true
unfolding first_supporting
first_supports format source_type [] n e = cc
first_supports format source_type (m ∷ ns) n e =
    ground (arith, first_supports format source_type ns n)

find_supports :
    (items : Option (List Normalizer)) (envelope : RawEventEnvelope) (n : Normalizer)
    → find items envelope ≡ some n
    → n.supports envelope.format envelope.source_type ≡ true
unfolding find
find_supports none envelope n e = cc
find_supports (some ns) envelope n e = first_supports envelope.format envelope.source_type ns n e

-- An event that the pipeline gives comes from a normalizer of the registry that supports the
-- envelope's format and source type, and each validator of the chain accepts it or does not support
-- its class.
pub process_accepted :
    (p : Pipeline) (envelope : RawEventEnvelope) (event : OcsfEvent)
    → process (some p) envelope ≡ ok event
    → (n : Normalizer) × (find p.normalizers envelope ≡ some n)
      × (n.supports envelope.format envelope.source_type ≡ true)
      × (n.normalize envelope ≡ ok event)
      × Accepts p.validators event
unfolding process
process_accepted p envelope event e = elim (Option-cases (find p.normalizers envelope)) [
  | inl n ↦ ground (arith, n)
  | inr q ↦ elim (Result-cases (q.0.normalize envelope)) [
    | inr r ↦ ground (arith, q.1, r.1)
    | inl r ↦ elim (Result-cases (validate_chain p.validators r.0)) [
      | inr v ↦ ground (arith, q.1, r.1, v.1)
      | inl v ↦
          let same : r.0 ≡ event = ground (arith, q.1, r.1, v.1) in
          (
            q.0,
            q.1,
            find_supports p.normalizers envelope q.0 q.1,
            r.1 ∙ ap ok same,
            subst (Accepts p.validators) same (validate_chain-Accepts p.validators r.0 v.1),
          )
    ]
  ]
]

-- What BasicValidator asks for.
abbrev pub HasBasics : OcsfEvent → Type 0
HasBasics event =
    ((¬ (eqb_ℤ event.class_uid (pos 0) ≡ true)) ⊎ (event.class ≡ "base_event"))
    × (¬ (event.category ≡ ""))
    × (0 < event.time)
    × (¬ (event.product_name ≡ ""))
    × (¬ (event.metadata_version ≡ ""))

-- A chain of BasicValidator alone accepts an event exactly if the event has no class at all, or has
-- a class id unless its class is base_event, a category, a time, a product name and a version.
pub basic_chain_iff :
    (event : OcsfEvent)
    → (validate_chain (some (basic_validator ∷ [])) event ≡ ok tt)
      ↔ ((event.class ≡ "") ⊎ HasBasics event)
unfolding validate_chain basic_validate
basic_chain_iff event = (
  λ e. ground (
    arith,
    eq_iff event.class "",
    eq_iff event.class "base_event",
    eq_iff event.category "",
    eq_iff event.product_name "",
    eq_iff event.metadata_version "",
  ),
  λ h. ground (
    arith,
    eq_iff event.class "",
    eq_iff event.class "base_event",
    eq_iff event.category "",
    eq_iff event.product_name "",
    eq_iff event.metadata_version "",
  ),
)
