-- ===== src/Ingest/Hec.antt =====
-- ingest/pkg/hec/validator.go: the token of a request, and the errors of the protocol.
-- `to_lower` is strings.ToLower.
use telhawk_stack.Prelude.{
  ℕ, String, Bool, true, false, Option, none, some, str_eq, if◌then◌else◌, ◌≡◌, sym, ap, ◌↔◌, ◌||◌,
  arith, eq_iff, inl, inr, Option-cases, Bool-cases,
}
use telhawk_stack.Prelude.Text.{cut, ◌++◌}
use telhawk_stack.Prelude.Text.Cut.{Lacks, cut_at-append, cut_at-eq-some}

pub record HecError : Type 0 where
  pub code : ℕ
  pub text : String

abbrev pub err_invalid_event : HecError
err_invalid_event = record { code = 6; text = "Invalid data format" }

abbrev pub err_no_data : HecError
err_no_data = record { code = 5; text = "No data" }

abbrev pub err_unauthorized : HecError
err_unauthorized = record { code = 4; text = "Invalid authorization" }

abbrev pub err_server_busy : HecError
err_server_busy = record { code = 9; text = "Server is busy" }

abbrev pub is_scheme : String → Bool
is_scheme scheme = str_eq scheme "splunk" || (str_eq scheme "telhawk" || str_eq scheme "bearer")

module _ (to_lower : String → String) where
  abbrev token_part : Option (String × String) → String
  token_part none = ""
  token_part (some (scheme, token)) = if is_scheme (to_lower scheme) then token else ""

  unfoldable pub extract_token : String → String
  extract_token auth_header =
      if str_eq auth_header "" then "" else token_part (cut b' ' auth_header)

  -- ExtractToken finds a token that is not empty exactly when the header is a scheme without a space,
  -- which is one of the three in lower case, a space and that token.
  pub extract_token_lem :
      (auth_header token : String)
      → ¬ (token ≡ "")
      → extract_token auth_header ≡ token
        ↔ (scheme : String) × Lacks b' ' scheme
          × (is_scheme (to_lower scheme) ≡ true)
          × (auth_header ≡ scheme ++ (" " ++ token))
  unfolding extract_token cut
  extract_token_lem auth_header token n = (found, made)
    where
      found :
          extract_token auth_header ≡ token
          → (scheme : String) × Lacks b' ' scheme
            × (is_scheme (to_lower scheme) ≡ true)
            × (auth_header ≡ scheme ++ (" " ++ token))
      found h = elim (Option-cases (cut b' ' auth_header)) [
        | inl n0 ↦ ground (arith, h, n0, n)
        | inr ((scheme, part), f) ↦ elim (Bool-cases (is_scheme (to_lower scheme))) [
          | inr bad ↦ ground (arith, h, f, bad, n)
          | inl good ↦
              let parts = cut_at-eq-some " " auth_header scheme part f in
              let same : part ≡ token = ground (arith, h, f, good, n) in
              (scheme, parts.1, good, rw (sym same) (parts.0))
        ]
      ]

      made :
          (scheme : String) × Lacks b' ' scheme
            × (is_scheme (to_lower scheme) ≡ true)
            × (auth_header ≡ scheme ++ (" " ++ token))
          → extract_token auth_header ≡ token
      made (scheme, l, s, e) =
          let split : cut b' ' auth_header ≡ some (scheme, token) =
            rw e (cut_at-append " " scheme token l) in
          let nonempty : str_eq auth_header "" ≡ false = elim (Bool-cases (str_eq auth_header "")) [
            | inr q ↦ q
            | inl q ↦
                let gone : cut b' ' auth_header ≡ none =
                  ap (cut b' ') ((eq_iff auth_header "").0 q) in
                ground (arith, gone, split)
          ] in
          ground (arith, split, s, nonempty)
