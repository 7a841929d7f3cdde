-- ===== src/Query/Safe/Chain.antt =====
-- Switches that are written as a chain of tests.
use telhawk_stack.Prelude.{Bool, true, false, ◌||◌, if◌then◌else◌, ◌≡◌}
use telhawk_stack.Prelude.Result.{Result, ok, IsOk}

-- The result is a value. (A family, so that a goal shows the chain that it is about.)
pub data Succeeds {E A : Type 0} : Result E A → Type 0 where
  returns : (a : A) → Succeeds (ok a)

pub Succeeds-IsOk : {E A : Type 0} (r : Result E A) → Succeeds r → IsOk r
Succeeds-IsOk r (returns a) = tt

-- A chain of tests one of which holds, and whose branches do not fail, does not fail.
pub pick :
    {E A : Type 0} (b rest : Bool) (a : A) (y : Result E A)
    → (rest ≡ true → Succeeds y)
    → (b || rest) ≡ true
    → Succeeds (if b then ok a else y)
pick true rest a y py h = returns a
pick false rest a y py h = py h

pub never : {E A : Type 0} (y : Result E A) → false ≡ true → Succeeds y
never y h = cc

-- A chain of tests none of which holds gives its last branch.
pub skip :
    {R : Type 0} (b rest : Bool) (x y r : R)
    → (rest ≡ false → y ≡ r)
    → (b || rest) ≡ false
    → (if b then x else y) ≡ r
skip true rest x y r py h = cc
skip false rest x y r py h = py h
