-- ===== src/Auth/Session.antt =====
-- The sessions of authenticate/internal/models/user.go. A time of 0 is Go's zero time.
use telhawk_stack.Prelude.{
  ℕ, ℤ, String, Bool, false, not, ◌&&◌, Option, is_some, ltb, ◌==◌, if◌then◌else◌,
}

pub record Session : Type 0 where
  pub id : String
  pub user_id : String
  pub access_token : String
  pub refresh_token : String
  pub expires_at : ℕ
  pub revoked_at : Option ℕ
  pub revoked_by : Option String
  pub ip_address : Option String
  pub user_agent : Option String
  pub source_type : ℤ
  pub revoked_from_ip : Option String
  pub revoked_source_type : ℤ

-- Session.IsActive
unfoldable pub session_is_active : ℕ → Session → Bool
session_is_active now s =
    if s.expires_at == 0 then false else not (is_some s.revoked_at) && ltb now s.expires_at
