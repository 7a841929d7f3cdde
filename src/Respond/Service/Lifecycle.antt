-- ===== src/Respond/Service/Lifecycle.antt =====
-- What closing and reopening a case, one after the other, leave of it and of the other cases.
use telhawk_stack.Prelude.{ℕ, String, true, not, ◌≡◌, All}
use telhawk_stack.Prelude.Select.{select, update_where}
use telhawk_stack.Prelude.Result.{Result, ok}
use telhawk_stack.Respond.Models.{Case, Error}
use telhawk_stack.Respond.Cases
use telhawk_stack.Respond.Cases.{Tables, is_case, is_valid_priority, get_case_by_id, with_count}
use telhawk_stack.Respond.Service.{Stateful, close_case}

-- The priorities of all cases are ones that the schema allows.
abbrev pub HasPriorities : Tables → Type 0
HasPriorities t = All (λ (c : Case). is_valid_priority c.priority ≡ true) t.cases

-- What a write on a case promises: the answer is the case as the write makes it, with its alerts
-- counted; the other cases and all alerts are as they were.
abbrev pub Writes : String → (Case → Case) → Case → Tables → Result Error Case × Tables → Type 0
Writes id f c t (answer, after) =
    (answer ≡ ok (with_count t (f c)))
    × (get_case_by_id id after ≡ ok (with_count t (f c)))
    × (select (λ d. not (is_case id d)) after.cases ≡ select (λ d. not (is_case id d)) t.cases)
    × (after.case_alerts ≡ t.case_alerts)

abbrev updated : String → (Case → Case) → Tables → Tables
updated id f t = record t { cases = update_where (is_case id) f t.cases }

module _ (id user_id : String) (now : ℕ) (c : Case) (t : Tables) where
  abbrev pub closed : Stateful Tables Case
  closed = close_case id user_id now t
