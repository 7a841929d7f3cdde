-- ===== src/Prelude/Result.antt =====
-- Go's pair of a value and an error, of which one is set.
use mathlib.Core.Path.{◌≡◌, refl}
use mathlib.Core.Logic.{◌⊎◌, inl, inr}
use mathlib.Core.Bool.{Bool, true, false}

pub data Result {ℓ κ} (E : Type ℓ) (A : Type κ) : Type (ℓ ⊔ κ) where
  ok : A → Result E A
  err : E → Result E A

infixl 5 ◌>>=◌ ◌>>◌
abbrev pub ◌>>=◌ {ℓ κ ι} :
    {E : Type ℓ} {A : Type κ} {B : Type ι} → Result E A → (A → Result E B) → Result E B
ok a >>= f = f a
err e >>= f = err e

abbrev pub ◌>>◌ {ℓ κ ι} :
    {E : Type ℓ} {A : Type κ} {B : Type ι} → Result E A → Result E B → Result E B
ok a >> k = k
err e >> k = err e

-- `if bad { return e }`
abbrev pub fail_if {ℓ} : {E : Type ℓ} → Bool → E → Result E (Unit {0})
fail_if true e = err e
fail_if false e = ok tt

-- fmt.Errorf("...: %w", err)
abbrev pub wrap {ℓ κ} : {E : Type ℓ} {A : Type κ} → (E → E) → Result E A → Result E A
wrap w (ok a) = ok a
wrap w (err e) = err (w e)

abbrev pub IsOk {ℓ κ} : {E : Type ℓ} {A : Type κ} → Result E A → Type 0
IsOk (ok a) = Unit {0}
IsOk (err e) = ⊥

pub IsOk-value {ℓ κ} : {E : Type ℓ} {A : Type κ} (r : Result E A) → IsOk r → (a : A) × (r ≡ ok a)
IsOk-value (ok a) h = (a, refl)
IsOk-value (err e) h = elim h [ ]

pub IsOk-of_eq {ℓ κ} : {E : Type ℓ} {A : Type κ} (r : Result E A) (a : A) → r ≡ ok a → IsOk r
IsOk-of_eq (ok b) a h = tt
IsOk-of_eq (err e) a h = cc

module _ {ℓ κ ι} {E : Type ℓ} {A : Type κ} {B : Type ι} where
  pub IsOk-bind :
      (m : Result E A) (f : A → Result E B) → IsOk m → ((a : A) → IsOk (f a)) → IsOk (m >>= f)
  IsOk-bind (ok a) f h k = k a
  IsOk-bind (err e) f h k = elim h [ ]

  pub IsOk-seq : (m : Result E A) (k : Result E B) → IsOk (m >> k) → IsOk m × IsOk k
  IsOk-seq (ok a) k h = (tt, h)
  IsOk-seq (err e) k h = elim h [ ]

pub IsOk-wrap {ℓ κ} :
    {E : Type ℓ} {A : Type κ} (w : E → E) (m : Result E A) → IsOk (wrap w m) → IsOk m
IsOk-wrap w (ok a) h = tt
IsOk-wrap w (err e) h = elim h [ ]

pub Result-cases {ℓ κ} :
    {E : Type ℓ} {A : Type κ} (r : Result E A) → ((a : A) × (r ≡ ok a)) ⊎ ((e : E) × (r ≡ err e))
Result-cases (ok a) = inl (a, refl)
Result-cases (err e) = inr (e, refl)
