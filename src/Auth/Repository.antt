-- ===== src/Auth/Repository.antt =====
-- The users and sessions of authenticate/internal/repository/memory.go. The maps hold pointers that
-- the flows modelled here only read, except where a session is revoked.
use telhawk_stack.Prelude.{
  ℕ, ℤ, String, Option, none, some, List, [], ◌∷◌, str_eq, if◌then◌else◌, is_some,
}
use telhawk_stack.Prelude.Maps.{get, put}
use telhawk_stack.Prelude.Result.{Result, ok, err}
use telhawk_stack.Rbac.User.{User}
use telhawk_stack.Auth.Session.{Session}

-- The errors of the repository and of the service; `outside` is one of a package they call.
pub data Error : Type 0 where
  user_exists user_not_found session_not_found invalid_credentials invalid_token : Error
  outside : String → Error
  session_id_failed permissions_version_failed : Error → Error

pub record Repository : Type 0 where
  pub users : List (String × User)
  pub users_by_name : List (String × User)
  pub sessions : List (String × Session)

abbrev found {ℓ} : {A : Type ℓ} → Error → Option A → Result Error A
found e none = err e
found e (some a) = ok a

unfoldable pub create_user : User → Repository → Result Error (Unit {0}) × Repository
create_user user r = if is_some (get user.username r.users_by_name) then (err user_exists, r) else (
  ok tt,
  record r {
    users = put user.id user r.users;
    users_by_name = put user.username user r.users_by_name;
  },
)

abbrev pub get_user_by_username : String → Repository → Result Error User
get_user_by_username username r = found user_not_found (get username r.users_by_name)

abbrev pub get_user_by_id : String → Repository → Result Error User
get_user_by_id id r = found user_not_found (get id r.users)

abbrev version_of : Option User → Result Error ℤ
version_of none = err user_not_found
version_of (some u) = ok u.permissions_version

abbrev pub get_user_permissions_version : String → Repository → Result Error ℤ
get_user_permissions_version user_id r = version_of (get user_id r.users)

unfoldable pub create_session : Session → Repository → Repository
create_session session r = record r { sessions = put session.refresh_token session r.sessions }

abbrev pub get_session : String → Repository → Result Error Session
get_session refresh_token r = found session_not_found (get refresh_token r.sessions)

-- The loop of `GetSessionByAccessToken`.
abbrev pub with_access_token : String → List (String × Session) → Option Session
with_access_token access_token [] = none
with_access_token access_token ((k, session) ∷ sessions) =
    if str_eq session.access_token access_token
    then some session
    else with_access_token access_token sessions

abbrev pub get_session_by_access_token : String → Repository → Result Error Session
get_session_by_access_token access_token r =
    found session_not_found (with_access_token access_token r.sessions)

revoke_found : String → ℕ → Option Session → Repository → Result Error (Unit {0}) × Repository
revoke_found refresh_token now none r = (err session_not_found, r)
revoke_found refresh_token now (some session) r = (
  ok tt,
  record r { sessions = put refresh_token (record session { revoked_at = some now }) r.sessions },
)

unfoldable pub revoke_session : String → ℕ → Repository → Result Error (Unit {0}) × Repository
unfolding revoke_found
revoke_session refresh_token now r = revoke_found refresh_token now (get refresh_token r.sessions) r
