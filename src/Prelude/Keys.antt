-- ===== src/Prelude/Keys.antt =====
-- Texts in a list, and lists without repetition.
use mathlib.Core.Path.{◌≡◌, refl, sym}
use mathlib.Core.Logic.{◌⊎◌, inl, inr}
use mathlib.Core.Bool.{Bool, true}
use mathlib.Core.List.{List, [], ◌∷◌, ◌++◌}
use Prim.Native.String.{String}
use native.Mathlib.Omega.{arith}
use text.Mathlib.Text.{◌==◌ as str_eq}
use text.Mathlib.TextEquality.{eq_iff}
use Prim.Native.Nat.{ℕ, suc, ◌+◌, ◌≤◌}
use telhawk_stack.Prelude.Tests.{if◌then◌else◌, leb, Bool-cases}
use telhawk_stack.Prelude.Lists.{any, all, Any}

abbrev pub In : String → List String → Type 0
In k l = Any (λ x. x ≡ k) l

-- No text stands twice in the list.
abbrev pub IsDistinct : List String → Type 0
IsDistinct [] = Unit {0}
IsDistinct (x ∷ xs) = (¬ In x xs) × IsDistinct xs

pub In-append_left : (k : String) (xs ys : List String) → In k xs → In k (xs ++ ys)
In-append_left k [] ys h = elim h [ ]
In-append_left k (x ∷ xs) ys (inl e) = inl e
In-append_left k (x ∷ xs) ys (inr h) = inr (In-append_left k xs ys h)

pub In-append_right : (k : String) (xs : List String) → In k (xs ++ k ∷ [])
In-append_right k [] = inl refl
In-append_right k (x ∷ xs) = inr (In-append_right k xs)

pub In-append_cases : (k y : String) (xs : List String) → In k (xs ++ y ∷ []) → In k xs ⊎ (y ≡ k)
In-append_cases k y [] (inl e) = inr e
In-append_cases k y [] (inr h) = elim h [ ]
In-append_cases k y (x ∷ xs) (inl e) = inl (inl e)
In-append_cases k y (x ∷ xs) (inr h) = ground (arith, In-append_cases k y xs h)

pub any-In : (k : String) (xs : List String) → any (str_eq k) xs ≡ true → In k xs
any-In k [] h = cc
any-In k (x ∷ xs) h = ground (arith, eq_iff k x, any-In k xs)

pub In-any : (k : String) (xs : List String) → In k xs → any (str_eq k) xs ≡ true
In-any k (x ∷ xs) (inl e) = ground (arith, eq_iff k x)
In-any k (x ∷ xs) (inr h) = ground (arith, In-any k xs h)
In-any k [] h = elim h [ ]

pub IsDistinct-append :
    (k : String) (xs : List String) → IsDistinct xs → ¬ In k xs → IsDistinct (xs ++ k ∷ [])
IsDistinct-append k [] d h = (λ n. elim n [ ], tt)
IsDistinct-append k (x ∷ xs) d h = (
  λ n. elim (In-append_cases x k xs n) [ inl m ↦ d.0 m | inr e ↦ h (inl (sym e)) ],
  IsDistinct-append k xs d.1 (λ m. h (inr m)),
)

pub all-any :
    (p : String → Bool) (k : String) (xs : List String)
    → all p xs ≡ true
    → any (str_eq k) xs ≡ true
    → p k ≡ true
all-any p k [] a h = cc
all-any p k (x ∷ xs) a h = ground (arith, eq_iff k x, all-any p k xs)

-- How often a text stands in the list.
abbrev pub times : String → List String → ℕ
times k [] = 0
times k (x ∷ xs) = if str_eq k x then suc (times k xs) else times k xs

pub times-append : (k : String) (xs ys : List String) → times k (xs ++ ys) ≡ times k xs + times k ys
times-append k [] ys = omega arith
times-append k (x ∷ xs) ys = ground (arith, times-append k xs ys)

pub times-In : (k : String) (xs : List String) → In k xs → 1 ≤ times k xs
times-In k [] h = elim h [ ]
times-In k (x ∷ xs) (inl e) = ground (arith, eq_iff k x)
times-In k (x ∷ xs) (inr h) = ground (arith, times-In k xs h)

pub In-times : (k : String) (xs : List String) → 1 ≤ times k xs → In k xs
In-times k [] h = absurd (omega arith)
In-times k (x ∷ xs) h = elim (Bool-cases (str_eq k x)) [
  | inl here ↦ inl (sym ((eq_iff k x).0 here))
  | inr there ↦ inr (In-times k xs (ground (arith, h, there)))
]

pub times-IsDistinct : (k : String) (xs : List String) → IsDistinct xs → times k xs ≤ 1
times-IsDistinct k [] d = omega arith
times-IsDistinct k (x ∷ xs) d = elim (Bool-cases (str_eq k x)) [
  | inl here ↦
      let absent : times k xs ≡ 0 = elim (Bool-cases (leb 1 (times k xs))) [
        | inl some_there ↦
            absurd (d.0 (In-times x xs (ground (arith, some_there, here, eq_iff k x))))
        | inr none_there ↦ ground (arith, none_there)
      ] in
      rw here (omega (arith, absent))
  | inr there ↦ rw there (times-IsDistinct k xs d.1)
]

pub IsDistinct-times : (xs : List String) → ((k : String) → times k xs ≤ 1) → IsDistinct xs
IsDistinct-times [] h = tt
IsDistinct-times (x ∷ xs) h = (
  λ i. absurd (ground (arith, h x, times-In x xs i, eq_iff x x)),
  IsDistinct-times xs (λ k. ground (arith, h k)),
)
