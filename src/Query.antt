-- ===== src/Query.antt =====
-- Queries of the service `search`: the canonical form, its validation, and its translation to
-- OpenSearch's query language.
pub mod Json
pub mod Model
pub mod Validator
pub mod Translator
pub mod Safe
pub mod Meaning
pub mod Checked
mod Examples
