-- ===== src/Auth/HecTokens/Examples.antt =====
-- A token that is created and revoked.
use telhawk_stack.Prelude.{String, some, [], ◌∷◌, ◌≡◌, refl, ap, arith, eq_iff}
use telhawk_stack.Prelude.Maps.{get}
use telhawk_stack.Prelude.Result.{Result, ok, err}
use telhawk_stack.Auth.HecTokens.{
  HecToken, HecTokens, HecError, unauthorized, invalid_token, new_hec_token, create_hec_token,
  validate_hec_token, revoke_hec_token, revoke_hec_token_by_user, revoke_hec_token_by_id,
  list_hec_tokens_by_user,
}
use telhawk_stack.Auth.HecTokens.Validated.{validate-create_hec_token, validate-revoke_hec_token}

abbrev same : String → String
same s = s

abbrev nothing : HecTokens
nothing = record { hec_tokens = []; audit_log = [] }

abbrev made : HecToken
made = new_hec_token same "i1" "k1" "u1" "c1" "collector" "10.0.0.1" ""

abbrev one_token : HecTokens
one_token = record {
  hec_tokens = ("k1", made) ∷ [];
  audit_log = record { actor_id = "u1"; action = "create"; resource_id = "i1"; failure = "" } ∷ [];
}

create_test :
    create_hec_token same (ok "k1") (ok "i1") "u1" "c1" "collector" "24h" "10.0.0.1" "" nothing
    ≡ (ok made, one_token)
unfolding create_hec_token
create_test = refl

-- A day was asked for, and a year later the token is accepted.
validate-create_hec_token_example :
    ((validate_hec_token "k1" 31536000000000000
        (create_hec_token same
          (ok "k1")
          (ok "i1")
          "u1"
          "c1"
          "collector"
          "24h"
          "10.0.0.1"
          ""
          nothing).1).0
      ≡ ok made)
    × (made.user_id ≡ "u1")
    × (made.client_id ≡ "c1")
validate-create_hec_token_example =
    validate-create_hec_token same (ok "k1") (ok "i1") "u1" "c1" "collector" "24h" "10.0.0.1" ""
      nothing made (ap (λ (r : Result HecError HecToken × HecTokens). r.0) create_test)
      31536000000000000

revoked : (revoke_hec_token_by_user "k1" "u1" 5 one_token).0 ≡ ok tt
unfolding revoke_hec_token_by_user revoke_hec_token
revoked = refl

by_id_test : (revoke_hec_token_by_id "i1" "u2" 5 one_token).0 ≡ err unauthorized
unfolding revoke_hec_token_by_id
by_id_test = refl

validate-revoke_hec_token_example :
    ((t : HecToken) × (get "k1" one_token.hec_tokens ≡ some t) × (t.user_id ≡ "u1"))
    × ((validate_hec_token "k1" 9 (revoke_hec_token_by_user "k1" "u1" 5 one_token).1).0
        ≡ err invalid_token)
    × ((validate_hec_token "k2" 9 (revoke_hec_token_by_user "k1" "u1" 5 one_token).1).0
        ≡ (validate_hec_token "k2" 9 one_token).0)
validate-revoke_hec_token_example =
    validate-revoke_hec_token "k1" "u1" 5 one_token revoked 9 "k2"
      (λ e. ground (arith, e, eq_iff "k1" "k2"))

list_test : list_hec_tokens_by_user "u1" one_token ≡ made ∷ []
unfolding list_hec_tokens_by_user
list_test = refl
