-- ===== src/Auth/Tokens.antt =====
-- What login, refresh, validation and revocation of tokens mean for one another.
use telhawk_stack.Prelude.{
  ℕ, String, Bool, true, false, some, List, [], ◌∷◌, ◌≡◌, inl, inr, arith, eq_iff, Option-cases,
}
use telhawk_stack.Prelude.Maps.{get, get-put_same}
use telhawk_stack.Prelude.Result.{Result, ok, err, Result-cases}
use telhawk_stack.Rbac.User.{User, user_is_active}
use telhawk_stack.Auth.Session.{Session, session_is_active}
use telhawk_stack.Auth.Repository.{Error, invalid_token, with_access_token, revoke_session}
use telhawk_stack.Auth.Jwt.{Claims, RegisteredClaims, generate_access_token, validate_access_token}
use telhawk_stack.Auth.Service.{
  LoginRequest, LoginResponse, ValidateTokenResponse, AuthService, claims_of, LoginDraw, login,
  refresh_token, validate_token, revoke_token,
}

with_access_token_lem :
    (token : String) (x : Session) (m : List (String × Session))
    → with_access_token token m ≡ some x
    → x.access_token ≡ token
with_access_token_lem token x [] e = cc
with_access_token_lem token x ((j, y) ∷ m) e =
    ground (arith, eq_iff y.access_token token, with_access_token_lem token x m)

-- The answer for a user's own, current token.
abbrev pub valid_answer : User → ValidateTokenResponse
valid_answer user = record {
  valid = true;
  user_id = user.id;
  roles = user.roles;
  permissions_version = user.permissions_version;
  permissions_stale = false;
  organization_id = (claims_of user).organization_id;
  client_id = (claims_of user).client_id;
}

revoked_is_inactive :
    (now : ℕ) (t : ℕ) (x : Session)
    → session_is_active now (record x { revoked_at = some t }) ≡ false
unfolding session_is_active
revoked_is_inactive now t x = ground arith

module _ (to_lower : String → String) (compare_hash : String → String → Bool)
    (sign : RegisteredClaims → Result Error String)
    (parse : ℕ → String → Result Error RegisteredClaims) where
  -- A refresh token that was revoked no longer gives an access token.
  pub refresh_token-revoke_token :
      (token : String) (revoked later : ℕ) (s : AuthService)
      → (revoke_token token revoked s).0 ≡ ok tt
      → refresh_token to_lower compare_hash sign parse token later (revoke_token token revoked s).1
        ≡ err invalid_token
  unfolding refresh_token revoke_token revoke_session
  refresh_token-revoke_token token revoked later s e =
      elim (Option-cases (get token s.repo.sessions)) [
        | inl n ↦ ground (arith, n)
        | inr p ↦ ground (
          arith,
          p.1,
          revoked_is_inactive later revoked p.0,
          get-put_same token (record p.0 { revoked_at = some revoked }) s.repo.sessions,
        )
      ]

  -- A token that ValidateToken answers as valid is one that the JWT library accepts, for the same
  -- user, and the access token of a session that is neither revoked nor expired.
  pub validate_token_valid :
      (token : String) (now : ℕ) (s : AuthService) (answer : ValidateTokenResponse)
      → validate_token to_lower compare_hash sign parse token now s ≡ ok answer
      → answer.valid ≡ true
      → (claims : Claims) × (session : Session) × (validate_access_token parse now token
          ≡ ok claims)
        × (answer.user_id ≡ claims.user_id)
        × (session.access_token ≡ token)
        × (with_access_token token s.repo.sessions ≡ some session)
        × (session_is_active now session ≡ true)
  unfolding validate_token
  validate_token_valid token now s answer e v =
      elim (Result-cases (validate_access_token parse now token)) [
        | inr p ↦ ground (arith, p.1)
        | inl p ↦ elim (Option-cases (with_access_token token s.repo.sessions)) [
          | inl n ↦ ground (arith, p.1, n)
          | inr q ↦ (
            p.0,
            q.0,
            p.1,
            elim (Option-cases (get p.0.user_id s.repo.users)) [
              | inl n ↦ ground (arith, p.1, q.1, n)
              | inr u ↦ ground (arith, p.1, q.1, u.1)
            ],
            with_access_token_lem token q.0 s.repo.sessions q.1,
            q.1,
            ground (arith, p.1, q.1),
          )
        ]
      ]

  module _ (ip_address user_agent : String) (draw : LoginDraw) (req : LoginRequest)
      (s : AuthService) where
    abbrev pub logged_in : Result Error LoginResponse × AuthService
    logged_in = login to_lower compare_hash sign parse ip_address user_agent draw req s

    -- A login that succeeds is of a user that is stored under the name given, is neither disabled
    -- nor deleted, and whose password hash bcrypt accepts for the password given.
    pub login_allowed :
        (response : LoginResponse)
        → logged_in.0 ≡ ok response
        → (user : User) × (get req.username s.repo.users_by_name ≡ some user)
          × (user_is_active user ≡ true)
          × (compare_hash user.password_hash req.password ≡ true)
          × (generate_access_token sign draw.issued_at (claims_of user) ≡ ok response.access_token)
    unfolding login
    login_allowed response e = elim (Option-cases (get req.username s.repo.users_by_name)) [
      | inl n ↦ ground (arith, n)
      | inr p ↦ elim (Result-cases (generate_access_token sign draw.issued_at (claims_of p.0))) [
        | inr g ↦ ground (arith, p.1, g.1)
        | inl g ↦ (
          p.0,
          p.1,
          ground (arith, p.1, g.1),
          ground (arith, p.1, g.1),
          elim (Result-cases draw.refresh_token) [
            | inr r ↦ ground (arith, p.1, g.1, r.1)
            | inl r ↦ elim (Result-cases draw.session_id) [
              | inl i ↦ ground (arith, p.1, g.1, r.1, i.1)
              | inr i ↦ ground (arith, p.1, g.1, r.1, i.1)
            ]
          ],
        )
      ]
    ]
