-- ===== src/Auth/HecTokens/Validated.antt =====
-- Creating, validating and revoking HEC tokens.
use telhawk_stack.Prelude.{
  ℕ, is_some, String, true, some, str_eq, ◌≡◌, refl, sym, ap, ◌∙◌, inl, inr, arith, eq_iff,
  Bool-cases, Option-cases,
}
use telhawk_stack.Prelude.Maps.{get, put, get-put_same, get-put_other}
use telhawk_stack.Prelude.Result.{Result, ok, err}
use telhawk_stack.Auth.HecTokens.{
  HecToken, HecTokens, invalid_token, hec_token_is_active, is_past, new_hec_token, create_hec_token,
  validate_hec_token, revoke_hec_token, revoke_hec_token_by_user,
}

-- Where CreateHECToken gives a token, ValidateHECToken accepts it afterwards at every time, for the
-- user and the client it was made for, whatever lifetime was asked for.
pub validate-create_hec_token :
    (to_lower : String → String) (token_draw id_draw : Result String String)
    (user_id client_id name expires_in ip_address user_agent : String) (s : HecTokens)
    (t : HecToken)
    → (create_hec_token to_lower token_draw id_draw user_id client_id name expires_in ip_address
        user_agent s).0
      ≡ ok t
    → (now : ℕ)
    → ((validate_hec_token t.token now
          (create_hec_token to_lower token_draw id_draw user_id client_id name expires_in ip_address
            user_agent s).1).0
        ≡ ok t)
      × (t.user_id ≡ user_id)
      × (t.client_id ≡ client_id)
unfolding create_hec_token validate_hec_token hec_token_is_active
validate-create_hec_token to_lower (err e) id_draw user_id client_id name expires_in ip_address
      user_agent s t h now =
    ground (arith, h)
validate-create_hec_token to_lower (ok token) (err e) user_id client_id name expires_in ip_address
      user_agent s t h now =
    ground (arith, h)
validate-create_hec_token to_lower (ok token) (ok id) user_id client_id name expires_in ip_address
      user_agent s t h now =
    elim (Bool-cases (str_eq client_id "")) [
      | inl missing ↦ ground (arith, h, missing)
      | inr given ↦
          let made : HecToken =
            new_hec_token to_lower id token user_id client_id name ip_address user_agent in
          let same : made ≡ t = ground (arith, h, given) in
          rw given (rw (sym same) (rw (get-put_same token made s.hec_tokens) (refl, refl, refl)))
    ]

refused :
    (token : String) (now : ℕ) (t : HecToken) (s : HecTokens)
    → is_some t.revoked_at ≡ true
    → get token s.hec_tokens ≡ some t
    → (validate_hec_token token now s).0 ≡ err invalid_token
unfolding validate_hec_token hec_token_is_active
refused token now t s h there = ground (arith, h, there)

same_answer :
    (token : String) (now : ℕ) (s u : HecTokens)
    → get token s.hec_tokens ≡ get token u.hec_tokens
    → (validate_hec_token token now s).0 ≡ (validate_hec_token token now u).0
unfolding validate_hec_token
same_answer token now s u same = elim (Option-cases (get token u.hec_tokens)) [
  | inl missing ↦ rw same (rw missing refl)
  | inr (t, there) ↦ rw same (
      rw there (elim (Bool-cases (hec_token_is_active now t)) [
        | inr inactive ↦ rw inactive refl
        | inl active ↦ elim (Bool-cases (is_past now t.expires_at)) [
          | inl past ↦ rw active (rw past refl)
          | inr ahead ↦ rw active (rw ahead refl)
        ]
      ]))
]

-- Where a user revokes a token, it is theirs, it is no longer accepted at any time, and every other
-- token is answered as before.
pub validate-revoke_hec_token :
    (token user_id : String) (revoked_at : ℕ) (s : HecTokens)
    → (revoke_hec_token_by_user token user_id revoked_at s).0 ≡ ok tt
    → (now : ℕ) (other : String) → ¬ (token ≡ other)
    → ((t : HecToken) × (get token s.hec_tokens ≡ some t) × (t.user_id ≡ user_id))
      × ((validate_hec_token token now (revoke_hec_token_by_user token user_id revoked_at s).1).0
          ≡ err invalid_token)
      × ((validate_hec_token other now (revoke_hec_token_by_user token user_id revoked_at s).1).0
          ≡ (validate_hec_token other now s).0)
unfolding revoke_hec_token_by_user revoke_hec_token
validate-revoke_hec_token token user_id revoked_at s h now other n =
    elim (Option-cases (get token s.hec_tokens)) [
      | inl missing ↦ ground (arith, h, missing)
      | inr (t, there) ↦ elim (Bool-cases (str_eq t.user_id user_id)) [
        | inr foreign ↦ ground (arith, h, there, foreign)
        | inl own ↦
            let gone : HecToken = record t { revoked_at = some revoked_at } in
            let after : (revoke_hec_token_by_user token user_id revoked_at s).1.hec_tokens
                ≡ put token gone s.hec_tokens =
              ground (arith, there, own) in
            (
              (t, there, (eq_iff t.user_id user_id).0 own),
              refused token now gone (revoke_hec_token_by_user token user_id revoked_at s).1 refl
                  (ap (get token) after ∙ get-put_same token gone s.hec_tokens),
              same_answer other now (revoke_hec_token_by_user token user_id revoked_at s).1 s
                  (ap (get other) after ∙ get-put_other token other gone s.hec_tokens n),
            )
      ]
    ]
