-- ===== src/Respond/Service/Listed.antt =====
-- Tests on rows that are updated, ranked and listed.
use telhawk_stack.Prelude.{
  String, Bool, true, not, ◌&&◌, ◌||◌, Option, is_some, List, [], ◌∷◌, map, any, all, ◌≡◌, refl,
  arith,
}
use telhawk_stack.Prelude.Select.{select, update_where}
use telhawk_stack.Query.Json.{Json}
use telhawk_stack.Respond.Models.{SchemaRow}
use telhawk_stack.Respond.Schemas.{has_version_id, newest_first, insert_by_version, listed}
use telhawk_stack.Respond.Service.Scheduler.{all_active}

pub any_select {ℓ} :
    {A : Type ℓ} (p q : A → Bool) (xs : List A)
    → any (λ x. p x && q x) xs ≡ true
    → any q (select p xs) ≡ true
any_select p q [] h = h
any_select p q (x ∷ xs) h = ground (arith, any_select p q xs)

pub any-map {ℓ κ} :
    {A : Type ℓ} {B : Type κ} (f : A → B) (q : B → Bool) (xs : List A)
    → any (λ x. q (f x)) xs ≡ true
    → any q (map f xs) ≡ true
any-map f q [] h = h
any-map f q (x ∷ xs) h = ground (arith, any-map f q xs)

-- A row that the update leaves alone still passes the test.
pub any_update {ℓ} :
    {A : Type ℓ} (p q : A → Bool) (f : A → A) (xs : List A)
    → any (λ x. not (p x) && q x) xs ≡ true
    → any q (update_where p f xs) ≡ true
any_update p q f [] h = h
any_update p q f (x ∷ xs) h = ground (arith, any_update p q f xs)

pub any_mono {ℓ} :
    {A : Type ℓ} (p q : A → Bool) (xs : List A)
    → ((x : A) → p x ≡ true → q x ≡ true)
    → any p xs ≡ true
    → any q xs ≡ true
any_mono p q [] m h = h
any_mono p q (x ∷ xs) m h = ground (arith, m x, any_mono p q xs m)

pub all-select {ℓ} :
    {A : Type ℓ} (p q : A → Bool) (xs : List A) → all q xs ≡ true → all q (select p xs) ≡ true
all-select p q [] h = h
all-select p q (x ∷ xs) h = ground (arith, h, all-select p q xs)

pub all-map {ℓ κ} :
    {A : Type ℓ} {B : Type κ} (f : A → B) (q : B → Bool) (xs : List A)
    → all (λ x. q (f x)) xs ≡ true
    → all q (map f xs) ≡ true
all-map f q [] h = h
all-map f q (x ∷ xs) h = ground (arith, h, all-map f q xs)

pub any_both {ℓ} :
    {A : Type ℓ} (p q : A → Bool) (xs : List A)
    → any p xs ≡ true
    → all q xs ≡ true
    → any (λ x. p x && q x) xs ≡ true
any_both p q [] h k = h
any_both p q (x ∷ xs) h k = ground (arith, h, k, any_both p q xs)

module _ (before : String → String → Bool) where
  all-insert :
      (q : SchemaRow → Bool) (r : SchemaRow) (rs : List SchemaRow)
      → all q (insert_by_version before r rs) ≡ (q r && all q rs)
  unfolding insert_by_version
  all-insert q r [] = refl
  all-insert q r (s ∷ rs) = ground (arith, all-insert q r rs)

  pub all-newest_first :
      (q : SchemaRow → Bool) (rs : List SchemaRow)
      → all q rs ≡ true
      → all q (newest_first before rs) ≡ true
  unfolding newest_first
  all-newest_first q [] h = h
  all-newest_first q (r ∷ rs) h =
      ground (arith, h, all-insert q r (newest_first before rs), all-newest_first q rs)

  pub all-listed :
      (as_text : Json → Option String) (ilike : Option String → String → Bool) (v : String)
      (rows : List SchemaRow)
      → all (λ r. not (has_version_id v r) || is_some r.disabled_at) rows ≡ true
      → all (λ r. not (has_version_id v r)) (select (listed before as_text ilike all_active) rows)
        ≡ true
  all-listed as_text ilike v [] h = refl
  all-listed as_text ilike v (r ∷ rows) h = ground (arith, h, all-listed as_text ilike v rows)

  any-insert :
      (q : SchemaRow → Bool) (r : SchemaRow) (rs : List SchemaRow)
      → any q (insert_by_version before r rs) ≡ (q r || any q rs)
  unfolding insert_by_version
  any-insert q r [] = refl
  any-insert q r (s ∷ rs) = ground (arith, any-insert q r rs)

  pub any-newest_first :
      (q : SchemaRow → Bool) (rs : List SchemaRow) → any q (newest_first before rs) ≡ any q rs
  unfolding newest_first
  any-newest_first q [] = refl
  any-newest_first q (r ∷ rs) =
      ground (arith, any-insert q r (newest_first before rs), any-newest_first q rs)
