-- ===== src/Auth/Service.antt =====
-- authenticate/internal/service/auth_service.go: login, refresh, validation and revocation of tokens.
use telhawk_stack.Prelude.{
  ℕ, ◌+◌, ℤ, pos, eqb_ℤ, String, Bool, true, false, not, ◌||◌, Option, none, some, List, [], ◌∷◌,
  ◌++◌, str_eq, if◌then◌else◌,
}
use telhawk_stack.Prelude.Text.{contains}
use telhawk_stack.Prelude.Result.{Result, ok, err, ◌>>=◌, wrap}
use telhawk_stack.Rbac.User.{User, user_is_active}
use telhawk_stack.Auth.Jwt.{Claims, RegisteredClaims, generate_access_token, validate_access_token}
use telhawk_stack.Auth.Session.{Session, session_is_active}
use telhawk_stack.Auth.Repository.{
  Error, invalid_credentials, invalid_token, session_id_failed, permissions_version_failed,
  Repository, get_user_by_username, get_user_by_id, get_user_permissions_version, create_session,
  get_session, get_session_by_access_token, revoke_session,
}

pub record LoginRequest : Type 0 where
  pub username : String
  pub password : String

pub record LoginResponse : Type 0 where
  pub access_token : String
  pub refresh_token : String
  pub expires_in : ℤ
  pub token_type : String

pub record ValidateTokenResponse : Type 0 where
  pub valid : Bool
  pub user_id : String
  pub roles : List String
  pub permissions_version : ℤ
  pub permissions_stale : Bool
  pub organization_id : String
  pub client_id : String

-- An entry of the audit log about a login: who, which session, and why it failed ("" if it did not).
pub record LogEntry : Type 0 where
  pub actor_id : String
  pub actor_name : String
  pub session_id : String
  pub failure : String

pub record AuthService : Type 0 where
  pub repo : Repository
  pub audit_log : List LogEntry

abbrev pub string_or_empty : Option String → String
string_or_empty none = ""
string_or_empty (some s) = s

abbrev pub claims_of : User → Claims
claims_of user = record {
  user_id = user.id;
  roles = user.roles;
  permissions_version = user.permissions_version;
  organization_id = string_or_empty user.primary_organization_id;
  client_id = string_or_empty user.primary_client_id;
}

abbrev pub tokens_response : String → String → LoginResponse
tokens_response access_token refresh_token = record {
  access_token = access_token;
  refresh_token = refresh_token;
  expires_in = pos 900;
  token_type = "Bearer";
}

-- &models.ValidateTokenResponse{Valid: false}
abbrev pub invalid_response : ValidateTokenResponse
invalid_response = record {
  valid = false;
  user_id = "";
  roles = [];
  permissions_version = pos 0;
  permissions_stale = false;
  organization_id = "";
  client_id = "";
}

abbrev pub logged : String → String → String → String → AuthService → AuthService
logged actor_id actor_name session_id failure s = record s {
  audit_log =
      s.audit_log
      ++ record {
        actor_id = actor_id;
        actor_name = actor_name;
        session_id = session_id;
        failure = failure;
      }
        ∷ [];
}

-- What a login draws: tokens and ids, any of which may fail, and the times at which it makes the access
-- token and the session.
pub record LoginDraw : Type 0 where
  pub refresh_token : Result Error String
  pub session_id : Result Error String
  pub issued_at : ℕ
  pub now : ℕ

-- 7 * 24 * time.Hour
abbrev pub session_lifetime : ℕ
session_lifetime = 604800000000000

unfoldable pub infer_source_type : (String → String) → String → ℤ
infer_source_type to_lower user_agent =
    if str_eq user_agent ""
    then pos 0
    else if contains (to_lower user_agent) "thawk" || contains (to_lower user_agent) "telhawk-cli"
    then pos 2
    else pos 1

-- `to_lower` is strings.ToLower, `compare_hash` tells whether bcrypt accepts a password for a hash,
-- and the two others are the JWT library (Auth.Jwt).
module _ (to_lower : String → String) (compare_hash : String → String → Bool)
    (sign : RegisteredClaims → Result Error String)
    (parse : ℕ → String → Result Error RegisteredClaims) where
  module _ (ip_address user_agent : String) (draw : LoginDraw) where
    unfoldable pub new_session : User → String → String → String → Session
    unfolding infer_source_type
    new_session user access refresh id = record {
      id = id;
      user_id = user.id;
      access_token = access;
      refresh_token = refresh;
      expires_at = draw.now + session_lifetime;
      revoked_at = none;
      revoked_by = none;
      ip_address = some ip_address;
      user_agent = some user_agent;
      source_type = infer_source_type to_lower user_agent;
      revoked_from_ip = none;
      revoked_source_type = pos 0;
    }

    with_session_id :
        User
        → String
        → String
        → Result Error String
        → AuthService
        → Result Error LoginResponse × AuthService
    with_session_id user access refresh (err e) s = (err (session_id_failed e), s)
    with_session_id user access refresh (ok id) s = (
      ok (tokens_response access refresh),
      logged user.id user.username id ""
          (record s { repo = create_session (new_session user access refresh id) s.repo }),
    )

    with_refresh_token :
        User → String → Result Error String → AuthService → Result Error LoginResponse × AuthService
    unfolding with_session_id
    with_refresh_token user access (err e) s =
        (err e, logged user.id user.username "" "refresh token generation failed" s)
    with_refresh_token user access (ok refresh) s =
        with_session_id user access refresh draw.session_id s

    with_access :
        User → Result Error String → AuthService → Result Error LoginResponse × AuthService
    unfolding with_refresh_token
    with_access user (err e) s =
        (err e, logged user.id user.username "" "token generation failed" s)
    with_access user (ok access) s = with_refresh_token user access draw.refresh_token s

    as_user :
        LoginRequest → Result Error User → AuthService → Result Error LoginResponse × AuthService
    unfolding with_access
    as_user req (err e) s = (err invalid_credentials, logged "" req.username "" "user not found" s)
    as_user req (ok user) s =
        if not (user_is_active user)
        then (
          err invalid_credentials,
          logged user.id user.username "" "account disabled or deleted" s,
        )
        else if not (compare_hash user.password_hash req.password)
        then (err invalid_credentials, logged user.id user.username "" "invalid password" s)
        else with_access user (generate_access_token sign draw.issued_at (claims_of user)) s

    unfoldable pub login : LoginRequest → AuthService → Result Error LoginResponse × AuthService
    unfolding as_user
    login req s = as_user req (get_user_by_username req.username s.repo) s

  refreshed : String → ℕ → AuthService → Result Error Session → Result Error LoginResponse
  refreshed refresh_token now s (err e) = err invalid_token
  refreshed refresh_token now s (ok session) =
      if not (session_is_active now session)
      then err invalid_token
      else (get_user_by_id session.user_id s.repo >>= λ user.
          generate_access_token sign now (claims_of user) >>= λ access.
          ok (tokens_response access refresh_token))

  -- RefreshToken, which leaves the repository as it is.
  unfoldable pub refresh_token : String → ℕ → AuthService → Result Error LoginResponse
  unfolding refreshed
  refresh_token token now s = refreshed token now s (get_session token s.repo)

  validated_session :
      Claims → ℕ → AuthService → Result Error Session → Result Error ValidateTokenResponse
  validated_session claims now s (err e) = ok invalid_response
  validated_session claims now s (ok session) =
      if not (session_is_active now session)
      then ok invalid_response
      else (wrap permissions_version_failed (get_user_permissions_version claims.user_id s.repo)
          >>= λ version. ok (record {
            valid = true;
            user_id = claims.user_id;
            roles = claims.roles;
            permissions_version = version;
            permissions_stale = not (eqb_ℤ version claims.permissions_version);
            organization_id = claims.organization_id;
            client_id = claims.client_id;
          }))

  validated : String → ℕ → AuthService → Result Error Claims → Result Error ValidateTokenResponse
  unfolding validated_session
  validated token now s (err e) = ok invalid_response
  validated token now s (ok claims) =
      validated_session claims now s (get_session_by_access_token token s.repo)

  unfoldable pub validate_token : String → ℕ → AuthService → Result Error ValidateTokenResponse
  unfolding validated
  validate_token token now s = validated token now s (validate_access_token parse now token)

unfoldable pub revoke_token : String → ℕ → AuthService → Result Error (Unit {0}) × AuthService
revoke_token token now s = let r = revoke_session token now s.repo in (r.0, record s { repo = r.1 })
