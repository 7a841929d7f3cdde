-- ===== src/Auth.antt =====
-- authenticate: sessions and tokens.
pub mod Session
pub mod Jwt
pub mod Repository
pub mod Service
pub mod Tokens
pub mod HecTokens
mod Examples
