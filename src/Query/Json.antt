-- ===== src/Query/Json.antt =====
-- Go's `interface{}` as `encoding/json` fills it, and as the translator builds it. A float64 is its
-- bit pattern, an object the list of its members.
use telhawk_stack.Prelude.{ℕ, ℤ, String, Bool, List, [], ◌∷◌, str_eq, if◌then◌else◌}

mutual
  pub data Json : Type 0 where
    null : Json
    bool : Bool → Json
    int : ℤ → Json
    float : ℕ → Json
    text : String → Json
    arr : Items → Json
    obj : Members → Json

  pub data Items : Type 0 where
    nil : Items
    cons : Json → Items → Items

  pub data Members : Type 0 where
    end : Members
    member : String → Json → Members → Members

-- The literal `map[string]interface{}{key: value}`.
abbrev pub single : String → Json → Json
single key value = obj (member key value end)

-- m[key] = value
unfoldable pub put : String → Json → Members → Members
put key value end = member key value end
put key value (member k v ms) =
    if str_eq k key then member key value ms else member k v (put key value ms)

abbrev pub texts : List String → Items
texts [] = nil
texts (s ∷ ss) = cons (text s) (texts ss)
