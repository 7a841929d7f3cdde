-- ===== src/Prelude/Maps.antt =====
-- Maps from texts, as lists of their entries.
use mathlib.Core.Path.{◌≡◌, refl}
use mathlib.Core.Logic.{◌⊎◌}
use mathlib.Core.Option.{Option, none, some}
use mathlib.Core.List.{List, [], ◌∷◌}
use Prim.Native.String.{String}
use native.Mathlib.Omega.{arith}
use text.Mathlib.Text.{◌==◌ as str_eq}
use text.Mathlib.TextEquality.{eq_iff}
use telhawk_stack.Prelude.Tests.{if◌then◌else◌}
use telhawk_stack.Prelude.Keys.{In, IsDistinct}

module _ {ℓ} {A : Type ℓ} where
  -- m[key], `none` where the key is missing
  abbrev pub get : String → List (String × A) → Option A
  get key [] = none
  get key ((k, a) ∷ m) = if str_eq k key then some a else get key m

  -- m[key] = value
  abbrev pub put : String → A → List (String × A) → List (String × A)
  put key value [] = (key, value) ∷ []
  put key value ((k, a) ∷ m) = if str_eq k key then (key, value) ∷ m else (k, a) ∷ put key value m

  abbrev pub keys : List (String × A) → List String
  keys [] = []
  keys ((k, a) ∷ m) = k ∷ keys m

  pub get-put_same :
      (key : String) (value : A) (m : List (String × A)) → get key (put key value m) ≡ some value
  get-put_same key value [] = ground (arith, eq_iff key key)
  get-put_same key value ((k, a) ∷ m) =
      ground (arith, eq_iff k key, eq_iff key key, get-put_same key value m)

  pub get-put_other :
      (key other : String) (value : A) (m : List (String × A))
      → ¬ (key ≡ other)
      → get other (put key value m) ≡ get other m
  get-put_other key other value [] n = ground (arith, eq_iff key other)
  get-put_other key other value ((k, a) ∷ m) n =
      ground (arith, eq_iff k key, eq_iff key other, get-put_other key other value m n)

  pub In-keys-put :
      (x key : String) (value : A) (m : List (String × A))
      → In x (keys (put key value m))
      → (x ≡ key) ⊎ In x (keys m)
  In-keys-put x key value [] h = ground arith
  In-keys-put x key value ((k, a) ∷ m) h = ground (arith, eq_iff k key, In-keys-put x key value m)

  pub IsDistinct-put :
      (key : String) (value : A) (m : List (String × A))
      → IsDistinct (keys m)
      → IsDistinct (keys (put key value m))
  IsDistinct-put key value [] d = ground arith
  IsDistinct-put key value ((k, a) ∷ m) d =
      ground (arith, eq_iff k key, In-keys-put k key value m, IsDistinct-put key value m d.1)

  pub get-missing : (key : String) (m : List (String × A)) → ¬ In key (keys m) → get key m ≡ none
  get-missing key [] n = refl
  get-missing key ((k, a) ∷ m) n = ground (arith, eq_iff k key, get-missing key m)
