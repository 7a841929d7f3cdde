-- ===== src/Respond.antt =====
-- respond: detection schemas, cases and their alerts.
pub mod Models
pub mod Schemas
pub mod Cases
pub mod Service
mod Examples
