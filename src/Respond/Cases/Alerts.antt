-- ===== src/Respond/Cases/Alerts.antt =====
-- The alerts of cases: AddAlertsToCase and RemoveAlertFromCase.
use telhawk_stack.Prelude.{
  ◌≤◌, String, Bool, true, false, not, ◌&&◌, ◌||◌, List, [], ◌∷◌, any, str_eq, ◌≡◌, refl, inl, inr,
  arith, eq_iff, Bool-cases,
}
use telhawk_stack.Prelude.Select.{select, count, count-append, any-append}
use telhawk_stack.Prelude.Result.{Result, ok, Result-cases}
use telhawk_stack.Respond.Models.{CaseAlert, Error}
use telhawk_stack.Respond.Cases.{
  Tables, is_case, is_alert, insert_alert, as_row, add_each, row_id, add_alerts_to_case,
  remove_alert_from_case,
}

-- Whether a row is there after an insertion that succeeds.
any-insert_alert :
    (c a : String) (new : CaseAlert) (old kept : List CaseAlert)
    → insert_alert new old ≡ ok kept
    → any (is_alert c a) kept ≡ (any (is_alert c a) old || is_alert c a new)
any-insert_alert c a new old kept h = ground (
  arith,
  h,
  eq_iff new.case_id c,
  eq_iff new.alert_id a,
  any-append (is_alert c a) old (new ∷ []),
)

pub count_none {ℓ} : {A : Type ℓ} (p : A → Bool) (xs : List A) → any p xs ≡ false → count p xs ≡ 0
count_none p [] h = refl
count_none p (x ∷ xs) h = ground (arith, count_none p xs)

-- Each alert is linked to a case once at most.
abbrev pub IsLinkedOnce : List CaseAlert → Type 0
IsLinkedOnce alerts = (c a : String) → count (is_alert c a) alerts ≤ 1

insert_alert-IsLinkedOnce :
    (new : CaseAlert) (old kept : List CaseAlert)
    → insert_alert new old ≡ ok kept
    → IsLinkedOnce old
    → IsLinkedOnce kept
insert_alert-IsLinkedOnce new old kept h once c a = ground (
  arith,
  h,
  once c a,
  eq_iff new.case_id c,
  eq_iff new.alert_id a,
  count_none (is_alert c a) old,
  count-append (is_alert c a) old (new ∷ []),
)

module _ (case_id user_id : String) where
  -- What one alert leaves, by what its insertion gives.
  abbrev row : CaseAlert → String → CaseAlert
  row a id = as_row case_id user_id id a

  any-add_each :
      (c a : String) (drawn : List (CaseAlert × Result Error String)) (alerts : List CaseAlert)
      → (add_each case_id user_id drawn alerts).0 ≡ ok tt
      → any (is_alert c a) (add_each case_id user_id drawn alerts).1 ≡ (
          any (is_alert c a) alerts || (str_eq case_id c && any (λ d. str_eq d.0.alert_id a) drawn))
  any-add_each c a [] alerts h = ground arith
  any-add_each c a ((given, draw) ∷ drawn) alerts h = elim (Result-cases (row_id (given, draw))) [
    | inr (e, failed_draw) ↦ ground (arith, failed_draw, h)
    | inl (id, drew) ↦ elim (Result-cases (insert_alert (row given id) alerts)) [
      | inr (e, failed_insert) ↦ ground (arith, drew, failed_insert, h)
      | inl (kept, inserted) ↦ ground (
        arith,
        drew,
        inserted,
        h,
        any-insert_alert c a (row given id) alerts kept inserted,
        any-add_each c a drawn kept,
      )
    ]
  ]

  add_each-IsLinkedOnce :
      (drawn : List (CaseAlert × Result Error String)) (alerts : List CaseAlert)
      → IsLinkedOnce alerts
      → IsLinkedOnce (add_each case_id user_id drawn alerts).1
  add_each-IsLinkedOnce [] alerts once = once
  add_each-IsLinkedOnce ((given, draw) ∷ drawn) alerts once =
      elim (Result-cases (row_id (given, draw))) [
        | inr (e, failed_draw) ↦ rw failed_draw once
        | inl (id, drew) ↦ elim (Result-cases (insert_alert (row given id) alerts)) [
          | inr (e, failed_insert) ↦ rw drew (rw failed_insert once)
          | inl (kept, inserted) ↦ rw drew (
              rw inserted (
                add_each-IsLinkedOnce drawn kept
                  (insert_alert-IsLinkedOnce (row given id) alerts kept inserted once)))
        ]
      ]

  -- Where AddAlertsToCase answers without an error, an alert is linked to a case afterwards exactly
  -- when it was before, or the case is the one given and the alert is among those given.
  pub any-add_alerts_to_case :
      (c a : String) (drawn : List (CaseAlert × Result Error String)) (t : Tables)
      → (add_alerts_to_case case_id drawn user_id t).0 ≡ ok tt
      → any (is_alert c a) (add_alerts_to_case case_id drawn user_id t).1.case_alerts ≡ (
          any (is_alert c a) t.case_alerts
          || (str_eq case_id c && any (λ d. str_eq d.0.alert_id a) drawn))
  unfolding add_alerts_to_case
  any-add_alerts_to_case c a drawn t h = ground (arith, h, any-add_each c a drawn t.case_alerts)

  pub add_alerts_to_case-IsLinkedOnce :
      (drawn : List (CaseAlert × Result Error String)) (t : Tables)
      → IsLinkedOnce t.case_alerts
      → IsLinkedOnce (add_alerts_to_case case_id drawn user_id t).1.case_alerts
  unfolding add_alerts_to_case
  add_alerts_to_case-IsLinkedOnce drawn t once = elim (Bool-cases (any (is_case case_id) t.cases)) [
    | inl there ↦ rw there (add_each-IsLinkedOnce drawn t.case_alerts once)
    | inr missing ↦ rw missing once
  ]

count-select_le {ℓ} :
    {A : Type ℓ} (p q : A → Bool) (xs : List A) → count p (select q xs) ≤ count p xs
count-select_le p q [] = ground arith
count-select_le p q (x ∷ xs) = ground (arith, count-select_le p q xs)

pub remove_alert_from_case-IsLinkedOnce :
    (case_id alert_id : String) (t u : Tables)
    → remove_alert_from_case case_id alert_id t ≡ ok u
    → IsLinkedOnce t.case_alerts
    → IsLinkedOnce u.case_alerts
unfolding remove_alert_from_case
remove_alert_from_case-IsLinkedOnce case_id alert_id t u h once c a = ground (
  arith,
  h,
  once c a,
  count-select_le (is_alert c a) (λ b. not (is_alert case_id alert_id b)) t.case_alerts,
)

any-select_not {ℓ} :
    {A : Type ℓ} (p q : A → Bool) (xs : List A)
    → ((x : A) → p x ≡ true → q x ≡ true)
    → any p (select (λ x. not (q x)) xs) ≡ false
any-select_not p q [] h = refl
any-select_not p q (x ∷ xs) h = ground (arith, h x, any-select_not p q xs h)

any-select_other {ℓ} :
    {A : Type ℓ} (p q : A → Bool) (xs : List A)
    → ((x : A) → p x ≡ true → q x ≡ false)
    → any p (select (λ x. not (q x)) xs) ≡ any p xs
any-select_other p q [] h = refl
any-select_other p q (x ∷ xs) h = ground (arith, h x, any-select_other p q xs h)

-- RemoveAlertFromCase, where it answers without an error, takes that alert from that case, and
-- leaves every other alert of every case as it was linked.
pub any-remove_alert_from_case :
    (case_id alert_id c a : String) (t u : Tables)
    → remove_alert_from_case case_id alert_id t ≡ ok u
    → any (is_alert c a) u.case_alerts
      ≡ (any (is_alert c a) t.case_alerts && not (str_eq case_id c && str_eq alert_id a))
unfolding remove_alert_from_case
any-remove_alert_from_case case_id alert_id c a t u h =
    elim (Bool-cases (str_eq case_id c && str_eq alert_id a)) [
      | inl same ↦ ground (
        arith,
        h,
        same,
        eq_iff case_id c,
        eq_iff alert_id a,
        any-select_not (is_alert c a) (is_alert case_id alert_id) t.case_alerts
            (λ x e. ground (arith, e, same, eq_iff case_id c, eq_iff alert_id a)),
      )
      | inr other ↦ ground (
        arith,
        h,
        other,
        any-select_other (is_alert c a) (is_alert case_id alert_id) t.case_alerts (λ x e. ground (
          arith,
          e,
          other,
          eq_iff x.case_id c,
          eq_iff x.alert_id a,
          eq_iff x.case_id case_id,
          eq_iff x.alert_id alert_id,
          eq_iff case_id c,
          eq_iff alert_id a,
        )),
      )
    ]
