-- ===== src/Ingest.antt =====
-- ingest: the events on their way in.
pub mod Ack
pub mod Event
pub mod SourceType
pub mod Service
pub mod Pipeline
pub mod Limit
pub mod Hec
pub mod Http
pub mod Handler
mod Examples
