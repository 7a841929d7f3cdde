-- ===== src/Query/Checked/Depth.antt =====
-- The nesting of an accepted filter is bounded.
use Prim.Native.Nat.{max}
use telhawk_stack.Prelude.{
  ℕ, suc, ◌+◌, ◌≤◌, String, Bool, false, ◌||◌, str_eq, if◌then◌else◌, ◌≡◌, refl, arith,
}
use telhawk_stack.Prelude.Result.{ok, IsOk, IsOk-of_eq, IsOk-seq, IsOk-wrap}
use telhawk_stack.Query.Model.{
  FilterExpr, expr, Filters, MaybeFilter, absent, present, is_simple_condition,
}
use telhawk_stack.Query.Validator.Path.{is_valid_compound_type}
use telhawk_stack.Query.Validator.Limits.{QueryValidator}
use telhawk_stack.Query.Validator.Filters.{
  validate_filter_with_depth, validate_conditions, validate_condition, validate_filter, no_filters,
}

-- How many compound conditions lie around the innermost condition.
unfoldable mutual
  pub height : FilterExpr → ℕ
  height (expr c conditions condition) =
      let many = suc (height_all conditions) in
      let one = suc (height_maybe condition) in
      if is_simple_condition c
      then 0
      else if str_eq c.kind "and" || str_eq c.kind "or"
      then many
      else one

  pub height_all : Filters → ℕ
  height_all Filters.nil = 0
  height_all (Filters.cons f fs) = max (height f) (height_all fs)

  pub height_maybe : MaybeFilter → ℕ
  height_maybe absent = 0
  height_maybe (present f) = height f

module _ (compiles : String → Bool) (v : QueryValidator) where
  mutual
    unfolding validate_filter_with_depth height is_valid_compound_type

    height_le :
        (f : FilterExpr) (depth : ℕ)
        → IsOk (validate_filter_with_depth compiles v f depth)
        → depth + height f ≤ v.max_filter_depth
    height_le (expr c conditions condition) depth h =
        ground
          (arith, height_all_le conditions 0 (depth + 1), height_maybe_le condition (depth + 1))

    height_all_le :
        (fs : Filters) (i depth : ℕ)
        → IsOk (validate_conditions compiles v fs i depth)
        → no_filters fs ≡ false
        → depth + height_all fs ≤ v.max_filter_depth
    height_all_le Filters.nil i depth h n = cc
    height_all_le (Filters.cons f Filters.nil) i depth h n = ground (arith, height_le f depth)
    height_all_le (Filters.cons f (Filters.cons g gs)) i depth h n =
        let (first, rest) =
          IsOk-seq _ (validate_conditions compiles v (Filters.cons g gs) (i + 1) depth) h in
        omega (
          arith,
          height_le f depth (IsOk-wrap _ _ first),
          height_all_le (Filters.cons g gs) (i + 1) depth rest refl,
        )

    height_maybe_le :
        (m : MaybeFilter) (depth : ℕ)
        → IsOk (validate_condition compiles v m depth)
        → depth + height_maybe m ≤ v.max_filter_depth
    height_maybe_le absent depth h = elim h [ ]
    height_maybe_le (present f) depth h = ground (arith, height_le f depth)

  -- In an accepted filter at most `max_filter_depth` compound conditions lie around a condition.
  pub height-validate_filter :
      (f : FilterExpr) → validate_filter compiles v f ≡ ok tt → height f ≤ v.max_filter_depth
  unfolding validate_filter
  height-validate_filter f h = omega (arith, height_le f 0 (IsOk-of_eq _ _ h))
