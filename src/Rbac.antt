-- ===== src/Rbac.antt =====
-- Users, roles and scopes of the service `authenticate`.
pub mod Role
pub mod User
mod Examples
