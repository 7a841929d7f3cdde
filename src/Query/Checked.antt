-- ===== src/Query/Checked.antt =====
-- What is known of a query that `Validate` accepts.
pub mod Depth
pub mod Mapped
pub mod Pages
