-- ===== src/Prelude/Text.antt =====
-- The operations of Go's package `strings` that the program calls, over the native texts. Go counts
-- bytes: on valid UTF-8 a prefix, a suffix or an infix of characters is one of bytes.
pub mod Cut
use Prim.Native.Nat.{ℕ}
use Prim.Native.Char.{code}
use Prim.Native.String
use Prim.Native.String.{String, [], ◌∷◌}
use mathlib.Core.Path.{◌≡◌, refl}
use mathlib.Core.Bool.{Bool, true, false, ◌&&◌, ◌||◌}
use mathlib.Core.Option.{Option, none, some}
use text.Mathlib.Text.{◌==◌ as str_eq}
use telhawk_stack.Prelude.Tests.{◌==◌, if◌then◌else◌}

-- strings.HasPrefix
unfoldable pub has_prefix : String → String → Bool
has_prefix s [] = true
has_prefix [] (c ∷ p) = false
has_prefix (a ∷ s) (c ∷ p) = code a == code c && has_prefix s p

-- strings.HasSuffix
unfoldable pub has_suffix : String → String → Bool
has_suffix [] p = str_eq [] p
has_suffix (a ∷ s) p = str_eq (a ∷ s) p || has_suffix s p

-- strings.Contains
unfoldable pub contains : String → String → Bool
unfolding has_prefix
contains [] p = has_prefix [] p
contains (a ∷ s) p = has_prefix (a ∷ s) p || contains s p

-- s[1:], where the caller has seen a first byte of ASCII
unfoldable pub tail : String → String
tail [] = []
tail (c ∷ s) = s

infixl 65 ◌++◌
abbrev pub ◌++◌ : String → String → String
s ++ t = String.◌++◌ s t

-- The parts before and after the first `sep` (an ASCII byte); `none` without one.
unfoldable pub cut : ℕ → String → Option (String × String)
cut sep [] = none
cut sep (c ∷ s) =
    let rest = cut sep s in
    if code c == sep
    then some ([], s)
    else elim rest [ none ↦ none | some (a, b) ↦ some (c ∷ a, b) ]

cut_test : cut b':' "users:update:x" ≡ some ("users", "update:x")
unfolding cut
cut_test = refl

contains_test :
    contains "a_uid.x" "_uid" && has_suffix "src.ip" ".ip" && has_prefix ".time" "." ≡ true
unfolding contains has_suffix
contains_test = refl
