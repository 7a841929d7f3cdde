-- ===== src/Auth/Examples.antt =====
-- Tests and examples of sessions and tokens.
use telhawk_stack.Prelude.{
  ℕ, ltb, pos, String, Bool, true, ◌&&◌, none, some, [], ◌∷◌, str_eq, if◌then◌else◌, ◌≡◌, refl,
}
use telhawk_stack.Prelude.Maps.{get}
use telhawk_stack.Prelude.Text.{contains}
use telhawk_stack.Prelude.Result.{Result, ok, err}
use telhawk_stack.Rbac.User.{User, user_is_active}
use telhawk_stack.Auth.Session.{Session, session_is_active}
use telhawk_stack.Auth.Repository.{
  Error, invalid_credentials, invalid_token, outside, create_user, create_session,
  with_access_token, revoke_session,
}
use telhawk_stack.Auth.Jwt.{
  Claims, RegisteredClaims, registered, generate_access_token, validate_access_token,
}
use telhawk_stack.Auth.Service.{
  LoginRequest, LoginResponse, AuthService, claims_of, tokens_response, LoginDraw, login,
  refresh_token, validate_token, revoke_token, infer_source_type, new_session,
}
use telhawk_stack.Auth.Tokens.{
  valid_answer, refresh_token-revoke_token, validate_token_valid, login_allowed,
}

abbrev alice : User
alice = record {
  id = "u1";
  version_id = "u1";
  username = "alice";
  email = "alice@example.com";
  password_hash = "hash of secret";
  roles = "viewer" ∷ [];
  primary_organization_id = some "o1";
  primary_client_id = none;
  created_by = none;
  updated_by = none;
  disabled_at = none;
  disabled_by = none;
  deleted_at = none;
  deleted_by = none;
  permissions_version = pos 3;
  user_roles = [];
  created_from_ip = none;
  created_source_type = pos 0;
  disabled_from_ip = none;
  disabled_source_type = pos 0;
  deleted_from_ip = none;
  deleted_source_type = pos 0;
}

abbrev no_one : AuthService
no_one = record { repo = record { users = []; users_by_name = []; sessions = [] }; audit_log = [] }

abbrev with_alice : AuthService
with_alice = record {
  repo = record {
    users = ("u1", alice) ∷ [];
    users_by_name = ("alice", alice) ∷ [];
    sessions = [];
  };
  audit_log = [];
}

create_user_test : (create_user alice no_one.repo).1 ≡ with_alice.repo
unfolding create_user
create_user_test = refl

create_user_again : (create_user alice with_alice.repo).0 ≡ err Error.user_exists
unfolding create_user
create_user_again = refl

abbrev lower : String → String
lower agent = agent

abbrev compare : String → String → Bool
compare hash password = str_eq hash "hash of secret" && str_eq password "secret"

abbrev generate : RegisteredClaims → Result Error String
generate claims = ok "token 1"

abbrev check : ℕ → String → Result Error RegisteredClaims
check now token =
    if str_eq token "forged"
    then err (outside "signature")
    else if ltb now 900000000000
    then ok (registered 900 (claims_of alice))
    else err (outside "token expired")

abbrev drawn : LoginDraw
drawn = record { refresh_token = ok "refresh 1"; session_id = ok "s1"; issued_at = 900; now = 1000 }

abbrev request : LoginRequest
request = record { username = "alice"; password = "secret" }

abbrev logged_alice : Result Error LoginResponse × AuthService
logged_alice = login lower compare generate check "10.0.0.2" "thawk/1.0" drawn request with_alice

wrong_password :
    (login lower compare generate check "10.0.0.2" "thawk/1.0" drawn
      (record { username = "alice"; password = "guess" })
      with_alice).0
    ≡ err invalid_credentials
unfolding login generate_access_token user_is_active
wrong_password = refl

cli_test : infer_source_type lower "thawk/1.0" ≡ pos 2
unfolding infer_source_type contains
cli_test = refl

abbrev session : Session
session = record {
  id = "s1";
  user_id = "u1";
  access_token = "token 1";
  refresh_token = "refresh 1";
  expires_at = 604800000001000;
  revoked_at = none;
  revoked_by = none;
  ip_address = some "10.0.0.2";
  user_agent = some "thawk/1.0";
  source_type = pos 2;
  revoked_from_ip = none;
  revoked_source_type = pos 0;
}

abbrev later_service : AuthService
later_service = record with_alice {
  repo = record with_alice.repo { sessions = ("refresh 1", session) ∷ [] };
}

stored_test : logged_alice.1.repo ≡ later_service.repo
unfolding login generate_access_token user_is_active create_session new_session infer_source_type
    contains
stored_test = refl

login_test : logged_alice.0 ≡ ok (tokens_response "token 1" "refresh 1")
unfolding login generate_access_token user_is_active
login_test = refl

login_allowed_example :
    (user : User) × (get "alice" with_alice.repo.users_by_name ≡ some user)
    × (user_is_active user ≡ true)
    × (compare user.password_hash "secret" ≡ true)
    × (generate_access_token generate 900 (claims_of user) ≡ ok "token 1")
login_allowed_example =
    login_allowed lower compare generate check "10.0.0.2" "thawk/1.0" drawn request with_alice
      (tokens_response "token 1" "refresh 1") login_test

revoked_test : (revoke_token "refresh 1" 1500 later_service).0 ≡ ok tt
unfolding revoke_token revoke_session
revoked_test = refl

refresh_token-revoke_token_example :
    refresh_token lower compare generate check "refresh 1" 1600
      (revoke_token "refresh 1" 1500 later_service).1
    ≡ err invalid_token
refresh_token-revoke_token_example =
    refresh_token-revoke_token lower compare generate check "refresh 1" 1500 1600 later_service
      revoked_test

valid_test :
    validate_token lower compare generate check "token 1" 2000 later_service
    ≡ ok (valid_answer alice)
unfolding validate_token validate_access_token session_is_active
valid_test = refl

validate_token_valid_example :
    (claims : Claims) × (x : Session) × (validate_access_token check 2000 "token 1" ≡ ok claims)
    × ("u1" ≡ claims.user_id)
    × (x.access_token ≡ "token 1")
    × (with_access_token "token 1" later_service.repo.sessions ≡ some x)
    × (session_is_active 2000 x ≡ true)
validate_token_valid_example =
    validate_token_valid lower compare generate check "token 1" 2000 later_service
      (valid_answer alice) valid_test refl
