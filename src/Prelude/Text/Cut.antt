-- ===== src/Prelude/Text/Cut.antt =====
-- `cut` undoes joining by its separator.
use Prim.Native.Nat.{ℕ}
use Prim.Native.Char.{Char, code}
use Prim.Native.String.{String, [], ◌∷◌}
use mathlib.Core.Path.{◌≡◌, ap, sym, ◌∙◌}
use mathlib.Core.Logic.{◌≢◌}
use mathlib.Core.Logic.{inl, inr}
use mathlib.Core.Option.{some}
use native.Mathlib.Omega.{arith}
use text.Mathlib.TextEquality.{Char-path}
use text.Mathlib.TextLemmas.{nil-append, cons-append}
use telhawk_stack.Prelude.Tests.{◌==◌, Bool-cases, Option-cases}
use telhawk_stack.Prelude.Text.{cut, ◌++◌}

-- No character with that code.
abbrev pub Lacks : ℕ → String → Type 0
Lacks n [] = Unit {0}
Lacks n (c ∷ s) = (code c ≢ n) × Lacks n s

abbrev pub NoColon : String → Type 0
NoColon s = Lacks b':' s

module _ (sep : Char) where
  pub cut_at-append :
      (a b : String) → Lacks (code sep) a → cut (code sep) (a ++ ((sep ∷ []) ++ b)) ≡ some (a, b)
  unfolding cut
  cut_at-append [] b h = rw (nil-append, cons-append, nil-append) (ground arith)
  cut_at-append (c ∷ a) b h =
      rw (cons-append c a ((sep ∷ []) ++ b)) (ground (arith, cut_at-append a b h.1))

  first_sep : (c : Char) (s : String) → code c ≡ code sep → [] ++ ((sep ∷ []) ++ s) ≡ c ∷ s
  first_sep c s h =
      rw (nil-append, cons-append, nil-append) (ap (λ (d : Char). d ∷ s) (Char-path _ c (sym h)))

  pub cut_at-eq-some :
      (s a b : String)
      → cut (code sep) s ≡ some (a, b)
      → (s ≡ a ++ ((sep ∷ []) ++ b)) × Lacks (code sep) a
  unfolding cut
  cut_at-eq-some [] a b h = cc
  cut_at-eq-some (c ∷ s) a b h = elim (Bool-cases (code c == code sep)) [
    | inl e ↦
        let same : (a ≡ []) × (b ≡ s) = (ground (arith, h, e), ground (arith, h, e)) in
        rw same.0 (rw same.1 (sym (first_sep c s (ground (arith, e))), tt))
    | inr e ↦ elim (Option-cases (cut (code sep) s)) [
      | inl n ↦ ground arith
      | inr ((a', b'), f) ↦
          let same : (a ≡ c ∷ a') × (b ≡ b') = (ground (arith, h, e, f), ground (arith, h, e, f)) in
          let rest = cut_at-eq-some s a' b' f in
          rw same.0 (
            rw same.1 (
              ap (λ t. c ∷ t) rest.0 ∙ sym (cons-append c a' ((sep ∷ []) ++ b')),
              (ground (arith, e), rest.1),
            ))
    ]
  ]

pub cut-append : (a b : String) → NoColon a → cut b':' (a ++ (":" ++ b)) ≡ some (a, b)
cut-append a b h = cut_at-append ":" a b h

pub cut-eq-some : (s a b : String) → cut b':' s ≡ some (a, b) → s ≡ a ++ (":" ++ b)
cut-eq-some s a b h = (cut_at-eq-some ":" s a b h).0
