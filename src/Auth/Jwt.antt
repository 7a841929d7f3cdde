-- ===== src/Auth/Jwt.antt =====
-- authenticate/pkg/tokens/jwt.go. `sign` stands for the JWT library's SignedString with the secret of
-- the service, and `parse` for its ParseWithClaims with that secret, at the time at which it runs: it
-- checks the signature and the registered claims. Times are nanoseconds.
use telhawk_stack.Prelude.{ℕ, ◌+◌, ◌*◌, ◌/◌, ℤ, String, List}
use telhawk_stack.Prelude.Result.{Result, ok, ◌>>=◌}
use telhawk_stack.Auth.Repository.{Error}

-- tokens.Claims, less the registered claims.
pub record Claims : Type 0 where
  pub user_id : String
  pub roles : List String
  pub permissions_version : ℤ
  pub organization_id : String
  pub client_id : String

-- The claims with jwt.RegisteredClaims.
pub record RegisteredClaims : Type 0 where
  pub claims : Claims
  pub expires_at : ℕ
  pub issued_at : ℕ
  pub not_before : ℕ
  pub issuer : String

-- 15 * time.Minute
abbrev pub access_ttl : ℕ
access_ttl = 900000000000

-- jwt.NewNumericDate: the time in whole seconds.
abbrev pub numeric_date : ℕ → ℕ
numeric_date t = t / 1000000000 * 1000000000

abbrev pub registered : ℕ → Claims → RegisteredClaims
registered now claims = record {
  claims = claims;
  expires_at = numeric_date (now + access_ttl);
  issued_at = numeric_date now;
  not_before = numeric_date now;
  issuer = "telhawk-auth";
}

-- GenerateAccessToken
unfoldable pub generate_access_token :
    (RegisteredClaims → Result Error String) → ℕ → Claims → Result Error String
generate_access_token sign now claims = sign (registered now claims)

-- ValidateAccessToken
unfoldable pub validate_access_token :
    (ℕ → String → Result Error RegisteredClaims) → ℕ → String → Result Error Claims
validate_access_token parse now token = parse now token >>= λ r. ok r.claims
