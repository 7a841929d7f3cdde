-- ===== src/Auth/HecTokens.antt =====
-- The HEC tokens of authenticate: their type in internal/models/user.go, their map in
-- internal/repository/memory.go, and the methods of internal/service/auth_service.go on them.
use telhawk_stack.Prelude.{
  ℕ, ℤ, pos, String, Bool, true, false, not, ◌&&◌, ◌||◌, Option, none, some, List, [], ◌∷◌, ◌++◌,
  str_eq, ltb, is_some, if◌then◌else◌,
}
use telhawk_stack.Prelude.Maps.{get, put}
use telhawk_stack.Prelude.Result.{Result, ok, err}
use telhawk_stack.Auth.Service.{infer_source_type}
pub mod Validated
mod Examples

pub record HecToken : Type 0 where
  pub id : String
  pub token : String
  pub name : String
  pub user_id : String
  pub client_id : String
  pub created_by : String
  pub expires_at : Option ℕ
  pub disabled_at : Option ℕ
  pub disabled_by : Option String
  pub revoked_at : Option ℕ
  pub revoked_by : Option String
  pub created_from_ip : Option String
  pub created_source_type : ℤ

-- t.Before(now), where there is a time
abbrev pub is_past : ℕ → Option ℕ → Bool
is_past now none = false
is_past now (some t) = ltb t now

-- HECToken.IsActive
unfoldable pub hec_token_is_active : ℕ → HecToken → Bool
hec_token_is_active now t =
    if is_some t.disabled_at || is_some t.revoked_at then false else not (is_past now t.expires_at)

pub data HecError : Type 0 where
  hec_token_not_found invalid_token unauthorized client_id_required : HecError
  token_id_failed : String → HecError

-- An entry of the audit log: who, what, on which token, and why it failed ("" if it did not).
pub record HecLogEntry : Type 0 where
  pub actor_id : String
  pub action : String
  pub resource_id : String
  pub failure : String

-- The part of the service and its repository that the tokens are in.
pub record HecTokens : Type 0 where
  pub hec_tokens : List (String × HecToken)
  pub audit_log : List HecLogEntry

abbrev pub logged : String → String → String → String → HecTokens → HecTokens
logged actor_id action resource_id failure s = record s {
  audit_log =
      s.audit_log
      ++ record {
        actor_id = actor_id;
        action = action;
        resource_id = resource_id;
        failure = failure;
      }
        ∷ [];
}

abbrev found : Option HecToken → Result HecError HecToken
found none = err hec_token_not_found
found (some t) = ok t

-- The repository.
abbrev pub get_hec_token : String → HecTokens → Result HecError HecToken
get_hec_token token s = found (get token s.hec_tokens)

abbrev pub with_id : String → List (String × HecToken) → Option HecToken
with_id id [] = none
with_id id ((k, t) ∷ tokens) =
    let rest = with_id id tokens in if str_eq t.id id then some t else rest

abbrev pub get_hec_token_by_id : String → HecTokens → Result HecError HecToken
get_hec_token_by_id id s = found (with_id id s.hec_tokens)

abbrev of_user : String → List (String × HecToken) → List HecToken
of_user user_id [] = []
of_user user_id ((k, t) ∷ tokens) =
    let rest = of_user user_id tokens in if str_eq t.user_id user_id then t ∷ rest else rest

unfoldable pub list_hec_tokens_by_user : String → HecTokens → List HecToken
list_hec_tokens_by_user user_id s = of_user user_id s.hec_tokens

abbrev revoked : String → ℕ → HecTokens → Option HecToken → Result HecError (Unit {0}) × HecTokens
revoked token now s none = (err hec_token_not_found, s)
revoked token now s (some t) =
    (ok tt, record s { hec_tokens = put token (record t { revoked_at = some now }) s.hec_tokens })

unfoldable pub revoke_hec_token : String → ℕ → HecTokens → Result HecError (Unit {0}) × HecTokens
revoke_hec_token token now s = revoked token now s (get token s.hec_tokens)

-- The service.
abbrev validated : ℕ → HecTokens → Result HecError HecToken → Result HecError HecToken × HecTokens
validated now s (err e) = (err e, logged "" "validate" "" "token not found" s)
validated now s (ok t) =
    if not (hec_token_is_active now t)
    then (err invalid_token, logged t.user_id "validate" t.id "token disabled or revoked" s)
    else if is_past now t.expires_at
    then (err invalid_token, logged t.user_id "validate" t.id "token expired" s)
    else (ok t, logged t.user_id "validate" t.id "" s)

unfoldable pub validate_hec_token : String → ℕ → HecTokens → Result HecError HecToken × HecTokens
validate_hec_token token now s = validated now s (get_hec_token token s)

module _ (to_lower : String → String) where
  abbrev pub new_hec_token : String → String → String → String → String → String → String → HecToken
  new_hec_token id token user_id client_id name ip_address user_agent = record {
    id = id;
    token = token;
    name = name;
    user_id = user_id;
    client_id = client_id;
    created_by = user_id;
    expires_at = none;
    disabled_at = none;
    disabled_by = none;
    revoked_at = none;
    revoked_by = none;
    created_from_ip = some ip_address;
    created_source_type = infer_source_type to_lower user_agent;
  }

  abbrev stored : HecToken → HecTokens → Result HecError HecToken × HecTokens
  stored t s = (
    ok t,
    logged t.user_id "create" t.id "" (record s { hec_tokens = put t.token t s.hec_tokens }),
  )

  abbrev drawn :
      String
      → String
      → String
      → String
      → String
      → Result String String
      → Result String String
      → HecTokens
      → Result HecError HecToken × HecTokens
  drawn user_id client_id name ip_address user_agent (err e) id s = (err (token_id_failed e), s)
  drawn user_id client_id name ip_address user_agent (ok token) (err e) s =
      (err (token_id_failed e), s)
  drawn user_id client_id name ip_address user_agent (ok token) (ok id) s =
      stored (new_hec_token id token user_id client_id name ip_address user_agent) s

  -- `token_draw` and `id_draw` are the two UUIDs drawn.
  unfoldable pub create_hec_token :
      Result String String
      → Result String String
      → String
      → String
      → String
      → String
      → String
      → String
      → HecTokens
      → Result HecError HecToken × HecTokens
  create_hec_token token_draw id_draw user_id client_id name expires_in ip_address user_agent s =
      if str_eq client_id ""
      then (err client_id_required, s)
      else drawn user_id client_id name ip_address user_agent token_draw id_draw s

abbrev failure_of : Result HecError (Unit {0}) → String
failure_of (ok done) = ""
failure_of (err e) = "token not found"

abbrev revoked_by :
    String
    → HecToken
    → Result HecError (Unit {0}) × HecTokens
    → Result HecError (Unit {0}) × HecTokens
revoked_by user_id t (result, s) = (result, logged user_id "revoke" t.id (failure_of result) s)

abbrev revoke_own :
    String
    → String
    → ℕ
    → HecTokens
    → Result HecError HecToken
    → Result HecError (Unit {0}) × HecTokens
revoke_own token user_id now s (err e) = (err e, s)
revoke_own token user_id now s (ok t) =
    if not (str_eq t.user_id user_id)
    then (err unauthorized, s)
    else revoked_by user_id t (revoke_hec_token token now s)

unfoldable pub revoke_hec_token_by_user :
    String → String → ℕ → HecTokens → Result HecError (Unit {0}) × HecTokens
revoke_hec_token_by_user token user_id now s =
    revoke_own token user_id now s (get_hec_token token s)

abbrev revoke_found :
    String → ℕ → HecTokens → Result HecError HecToken → Result HecError (Unit {0}) × HecTokens
revoke_found user_id now s (err e) = (err e, s)
revoke_found user_id now s (ok t) = revoke_own t.token user_id now s (ok t)

unfoldable pub revoke_hec_token_by_id :
    String → String → ℕ → HecTokens → Result HecError (Unit {0}) × HecTokens
revoke_hec_token_by_id token_id user_id now s =
    revoke_found user_id now s (get_hec_token_by_id token_id s)
