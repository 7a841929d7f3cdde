-- ===== src/Query/Meaning/Operators.antt =====
-- A property of every operator: a case for each operator that the validator knows, and one for all
-- other names.
use telhawk_stack.Prelude.{String, false, any, Any, str_eq, ◌≡◌, subst, inl, inr, Bool-cases}
use telhawk_stack.Prelude.Keys.{any-In}
use telhawk_stack.Query.Validator.Path.{valid_operators, is_valid_operator}

module _ (P : String → Type 0) (eq : P "eq") (ne : P "ne") (gt : P "gt") (gte : P "gte")
    (lt : P "lt") (lte : P "lte") (in_ : P "in") (contains : P "contains") (starts : P "startsWith")
    (ends : P "endsWith") (regex : P "regex") (exists : P "exists") (cidr : P "cidr") where
  known : (op : String) → Any (λ x. x ≡ op) valid_operators → P op
  known op (inl e) = subst P e eq
  known op (inr (inl e)) = subst P e ne
  known op (inr (inr (inl e))) = subst P e gt
  known op (inr (inr (inr (inl e)))) = subst P e gte
  known op (inr (inr (inr (inr (inl e))))) = subst P e lt
  known op (inr (inr (inr (inr (inr (inl e)))))) = subst P e lte
  known op (inr (inr (inr (inr (inr (inr (inl e))))))) = subst P e in_
  known op (inr (inr (inr (inr (inr (inr (inr (inl e)))))))) = subst P e contains
  known op (inr (inr (inr (inr (inr (inr (inr (inr (inl e))))))))) = subst P e starts
  known op (inr (inr (inr (inr (inr (inr (inr (inr (inr (inl e)))))))))) = subst P e ends
  known op (inr (inr (inr (inr (inr (inr (inr (inr (inr (inr (inl e))))))))))) = subst P e regex
  known op (inr (inr (inr (inr (inr (inr (inr (inr (inr (inr (inr (inl e)))))))))))) =
      subst P e exists
  known op (inr (inr (inr (inr (inr (inr (inr (inr (inr (inr (inr (inr (inl e))))))))))))) =
      subst P e cidr
  known op (inr (inr (inr (inr (inr (inr (inr (inr (inr (inr (inr (inr (inr h))))))))))))) =
      elim h [ ]

  pub operator_cases : ((op : String) → is_valid_operator op ≡ false → P op) → (op : String) → P op
  unfolding is_valid_operator
  operator_cases other op = elim (Bool-cases (any (str_eq op) valid_operators)) [
    | inl e ↦ known op (any-In op valid_operators e)
    | inr e ↦ other op e
  ]
