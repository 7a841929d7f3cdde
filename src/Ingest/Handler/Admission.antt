-- ===== src/Ingest/Handler/Admission.antt =====
-- What a request passes before the service is called.
use telhawk_stack.Prelude.{
  ℕ, String, Bool, true, false, not, Option, none, some, List, ◌≡◌, refl, ap, ◌∙◌, ◌⊎◌, inl, inr,
  arith, eq_iff,
}
use telhawk_stack.Prelude.Text.{◌++◌ as append}
use telhawk_stack.Prelude.Result.{Result, ok, err}
use telhawk_stack.Ingest.Event.{TokenInfo, Error}
use telhawk_stack.Ingest.Service.{Draw}
use telhawk_stack.Ingest.Hec.{
  extract_token, err_invalid_event, err_unauthorized, err_server_busy, err_no_data,
}
use telhawk_stack.Ingest.Handler.{
  Request, Response, Backend, send_error, State, Part, ◌>>=◌, require, read, limited, limited_by,
  verdict, is_present, is_empty, with_body, read_body, limited_by_token, validated, authenticated,
  limited_by_ip, admitted, ingest_events, parse_events, handle_event, response, ingest_raw_body,
  handle_raw,
}

module _ (backend : Backend) where
  abbrev pub Same : State backend → State backend → Type 0
  Same u s = (u.service ≡ s.service) × (u.recorded ≡ s.recorded)

  -- A part leaves the service and the statistics alone, and either answers with another status than
  -- 200, or goes on with a value of which P holds.
  abbrev pub Passes : {A : Type 0} → Part (State backend) A → State backend → (A → Type 0) → Type 0
  Passes {A} m s P =
      (u : State backend) × Same u s
      × (((q : Response) × (m s ≡ (err q, u)) × (¬ (q.status ≡ 200)))
          ⊎ ((a : A) × (m s ≡ (ok a, u)) × P a))

  bind-Passes :
      {A B : Type 0} (P : A → Type 0) (Q : B → Type 0) (m : Part (State backend) A)
      (f : A → Part (State backend) B) (s : State backend)
      → Passes m s P
      → ((a : A) (u : State backend) → P a → Passes (f a) u Q)
      → Passes (m >>= f) s Q
  bind-Passes P Q m f s (u, same, inl (q, e, other)) next = (u, same, inl (q, rw e refl, other))
  bind-Passes P Q m f s (u, same, inr (a, e, p)) next =
      let r = next a u p in (r.0, (r.1.0 ∙ same.0, r.1.1 ∙ same.1), rw e r.2)

  require-Passes :
      (b : Bool) (q : Response) (s : State backend)
      → ¬ (q.status ≡ 200)
      → Passes (require b q) s (λ done. b ≡ true)
  require-Passes true q s other = (s, (refl, refl), inr (tt, refl, refl))
  require-Passes false q s other = (s, (refl, refl), inl (q, refl, other))

  read-Passes :
      {A : Type 0} (value : Result Error A) (q : Response) (s : State backend)
      → ¬ (q.status ≡ 200)
      → Passes (read value q) s (λ a. value ≡ ok a)
  read-Passes (ok a) q s other = (s, (refl, refl), inr (a, refl, refl))
  read-Passes (err e) q s other = (s, (refl, refl), inl (q, refl, other))

  -- What an error of the limiter is answered with, if it is answered.
  abbrev pub IsRefusal : Option Response → Type 0
  IsRefusal none = Unit {0}
  IsRefusal (some q) = ¬ (q.status ≡ 200)

  verdict-cases :
      (on_error : Option Response) (allowed : Result Error Bool)
      → IsRefusal on_error
      → ((q : Response) × (verdict backend on_error allowed ≡ err q) × (¬ (q.status ≡ 200)))
        ⊎ (verdict backend on_error allowed ≡ ok tt)
  verdict-cases on_error (ok true) other = inr refl
  verdict-cases on_error (ok false) other =
      inl (send_error err_server_busy 429, refl, (λ e. omega (arith, e)))
  verdict-cases none (err e) other = inr refl
  verdict-cases (some q) (err e) other = inl (q, refl, other)

  limited_by-Passes :
      (on_error : Option Response) (key : String) (s : State backend) (l : Option backend.Limiter)
      → IsRefusal on_error
      → Passes (λ t. limited_by backend on_error key t l) s (λ done. Unit {0})
  limited_by-Passes on_error key s none other = (s, (refl, refl), inr (tt, refl, tt))
  limited_by-Passes on_error key s (some l) other =
      let u : State backend = record s { limiter = some (backend.allow key l).1 } in
      elim (verdict-cases on_error (backend.allow key l).0 other) [
        | inl (q, e, refused) ↦ (u, (refl, refl), inl (q, ap (λ r. (r, u)) e, refused))
        | inr e ↦ (u, (refl, refl), inr (tt, ap (λ r. (r, u)) e, tt))
      ]

  limited-Passes :
      (on_error : Option Response) (key : String) (s : State backend)
      → IsRefusal on_error
      → Passes (limited backend on_error key) s (λ done. Unit {0})
  unfolding limited
  limited-Passes on_error key s other = limited_by-Passes on_error key s s.limiter other

  abbrev pub token_of : Request → String
  token_of r = extract_token backend.to_lower (r.header "Authorization")

  -- The request is posted, its header has a token that is validated, and it has a body.
  abbrev pub IsAuthorized : Request → TokenInfo × List ℕ → Type 0
  IsAuthorized r (token_info, body) =
      (r.is_post ≡ true)
      × (¬ (token_of r ≡ ""))
      × (backend.validate_hec_token (token_of r) ≡ ok token_info)
      × (r.body ≡ ok body)

  read_body-Passes :
      (r : Request) (token_info : TokenInfo) (s : State backend)
      → ((body : List ℕ) → r.body ≡ ok body → IsAuthorized r (token_info, body))
      → Passes (read_body backend r token_info) s (IsAuthorized r)
  read_body-Passes r token_info s authorized =
      bind-Passes (λ body. r.body ≡ ok body) (IsAuthorized r)
        (read r.body (send_error err_invalid_event 400)) (with_body backend token_info) s
        (read-Passes r.body (send_error err_invalid_event 400) s (λ e. omega (arith, e)))
        (λ body u there.
          bind-Passes (λ done. not (is_empty body) ≡ true) (IsAuthorized r)
            (require (not (is_empty body)) (send_error err_no_data 400))
            (λ filled t. (ok (token_info, body), t)) u
            (require-Passes (not (is_empty body)) (send_error err_no_data 400) u
              (λ e. omega (arith, e)))
            (λ done t filled.
              (t, (refl, refl), inr ((token_info, body), refl, authorized body there))))

  authenticated-Passes :
      (on_error : Option Response) (r : Request) (s : State backend)
      → IsRefusal on_error
      → r.is_post ≡ true
      → Passes (authenticated backend on_error r (token_of r)) s (IsAuthorized r)
  authenticated-Passes on_error r s other posted =
      bind-Passes (λ done. is_present (token_of r) ≡ true) (IsAuthorized r)
        (require (is_present (token_of r)) (send_error err_unauthorized 401))
        (λ given. validated backend on_error r (token_of r)) s
        (require-Passes (is_present (token_of r)) (send_error err_unauthorized 401) s
          (λ e. omega (arith, e)))
        (λ a1 s1 given.
          bind-Passes (λ info. backend.validate_hec_token (token_of r) ≡ ok info) (IsAuthorized r)
            (read (backend.validate_hec_token (token_of r)) (send_error err_unauthorized 401))
            (limited_by_token backend on_error r (token_of r)) s1
            (read-Passes (backend.validate_hec_token (token_of r)) (send_error err_unauthorized 401)
              s1 (λ e. omega (arith, e)))
            (λ info s2 valid.
              bind-Passes (λ done. Unit {0}) (IsAuthorized r)
                (limited backend on_error (append "token:" (token_of r)))
                (λ passed. read_body backend r info) s2
                (limited-Passes on_error (append "token:" (token_of r)) s2 other)
                (λ a3 s3 passed. read_body-Passes r info s3 (λ body there.
                  (posted, ground (arith, given, eq_iff (token_of r) ""), valid, there)))))

  pub admitted-Passes :
      (on_error : Option Response) (r : Request) (s : State backend)
      → IsRefusal on_error
      → Passes (admitted backend on_error r) s (IsAuthorized r)
  unfolding admitted
  admitted-Passes on_error r s other =
      bind-Passes (λ done. r.is_post ≡ true) (IsAuthorized r)
        (require r.is_post (send_error err_invalid_event 405))
        (λ posted. limited_by_ip backend on_error r) s
        (require-Passes r.is_post (send_error err_invalid_event 405) s (λ e. omega (arith, e)))
        (λ a1 s1 posted.
          bind-Passes (λ done. Unit {0}) (IsAuthorized r)
            (limited backend on_error (append "ip:" r.client_ip))
            (λ passed. authenticated backend on_error r (token_of r)) s1
            (limited-Passes on_error (append "ip:" r.client_ip) s1 other)
            (λ a2 s2 passed. authenticated-Passes on_error r s2 other posted))

  -- The answer is another one than 200, and the service and the statistics are as they were.
  abbrev pub Refuses : State backend → Response × State backend → Type 0
  Refuses s (q, t) = (¬ (q.status ≡ 200)) × Same t s

  refused-events :
      (on_error : Option Response) (r : Request) (s : State backend)
      (f : TokenInfo × List ℕ → Part (State backend) Response)
      → IsRefusal on_error
      → ((got : TokenInfo × List ℕ) → ¬ IsAuthorized r got)
      → Refuses s (response backend ((admitted backend on_error r >>= f) s))
  refused-events on_error r s f other unauthorized =
      let (u, same, out) = admitted-Passes on_error r s other in
      elim out [
        | inl (q, e, refused) ↦ rw e (refused, same)
        | inr (got, e, authorized) ↦ elim (unauthorized got authorized) [ ]
      ]

  -- A request that is not posted, that has no token, whose token is not validated, or whose body cannot
  -- be read, is refused by both endpoints: the answer has another status than 200, nothing is
  -- ingested, and no statistics are recorded.
  pub handle-unauthorized :
      (r : Request) (draws : ℕ → Draw) (draw : Draw) (s : State backend)
      → ((got : TokenInfo × List ℕ) → ¬ IsAuthorized r got)
      → Refuses s (handle_event backend r draws s) × Refuses s (handle_raw backend r draw s)
  unfolding handle_event handle_raw
  handle-unauthorized r draws draw s unauthorized = (
    refused-events (some (send_error err_server_busy 503)) r s
        (λ got. ingest_events backend r draws got.0 (parse_events backend got.1))
        (λ e. omega (arith, e)) unauthorized,
    refused-events none r s (λ got. ingest_raw_body backend r draw got) tt unauthorized,
  )
