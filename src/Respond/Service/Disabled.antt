-- ===== src/Respond/Service/Disabled.antt =====
-- What is listed after a schema is disabled.
use telhawk_stack.Prelude.{
  ℕ, is_some, String, Bool, true, false, not, ◌&&◌, ◌||◌, Option, some, List, [], ◌∷◌, any, all,
  length, ◌==◌, str_eq, ◌≡◌, refl, inl, inr, arith, eq_iff, Any, Bool-cases,
}
use telhawk_stack.Prelude.Select.{select, count, update_where}
use telhawk_stack.Prelude.Result.{ok}
use telhawk_stack.Query.Json.{Json}
use telhawk_stack.Respond.Models.{SchemaRow, DetectionSchema}
use telhawk_stack.Respond.Schemas.{
  has_id, has_version_id, scanned, row_number_desc, versions_of, get_latest_schema_by_id,
  get_schema_by_version_id, latest, newest_first, insert_by_version, listed, listing,
}
use telhawk_stack.Respond.Schemas
use telhawk_stack.Respond.Service.{disable_schema}
use telhawk_stack.Respond.Service.Listed.{
  any_select, any-map, any_update, any_mono, all-select, all-map, any_both, all-newest_first,
  all-listed, any-newest_first,
}
use telhawk_stack.Respond.Service.Scheduler.{all_active, is_active}

-- The rows after the update: those with another version id as they were, that with this one
-- disabled.
abbrev pub IsDisabled : String → List SchemaRow → List SchemaRow → Type 0
IsDisabled v rows after =
    (select (λ r. not (has_version_id v r)) after ≡ select (λ r. not (has_version_id v r)) rows)
    × (all (λ r. not (has_version_id v r) || is_some r.disabled_at) after ≡ true)
    × (length after ≡ length rows)

module _ (before : String → String → Bool) where
  module _ (irreflexive : (v : String) → before v v ≡ false)
      (transitive : (u v w : String) → before u v ≡ true → before v w ≡ true → before u w ≡ true)
      (id : String) where
    -- No row of the schema in the list is later.
    abbrev IsLast : SchemaRow → List SchemaRow → Type 0
    IsLast m [] = Unit {0}
    IsLast m (q ∷ qs) = ((has_id id q && before m.version_id q.version_id) ≡ false) × IsLast m qs

    IsLast-trans :
        (m n : SchemaRow) (qs : List SchemaRow)
        → before m.version_id n.version_id ≡ true
        → IsLast m qs
        → IsLast n qs
    IsLast-trans m n [] e h = tt
    IsLast-trans m n (q ∷ qs) e h = (
      ground (arith, e, h.0, transitive m.version_id n.version_id q.version_id),
      IsLast-trans m n qs e h.1,
    )

    none-IsLast : (m : SchemaRow) (qs : List SchemaRow) → any (has_id id) qs ≡ false → IsLast m qs
    none-IsLast m [] h = tt
    none-IsLast m (q ∷ qs) h = (ground (arith, h), none-IsLast m qs (ground (arith, h)))

    abbrev HasLast : List SchemaRow → Type 0
    HasLast qs = (m : SchemaRow) × Any (λ r. r ≡ m) qs × (has_id id m ≡ true) × IsLast m qs

    last_exists : (qs : List SchemaRow) → any (has_id id) qs ≡ true → HasLast qs
    last_exists [] h = cc
    last_exists (q ∷ qs) h = elim (Bool-cases (any (has_id id) qs)) [
      | inr none_there ↦ (
        q,
        inl refl,
        ground (arith, h, none_there),
        (ground (arith, irreflexive q.version_id), none-IsLast q qs none_there),
      )
      | inl there ↦
          let rest : HasLast qs = last_exists qs there in
          elim (Bool-cases (has_id id q && before rest.0.version_id q.version_id)) [
            | inl later ↦ (
              q,
              inl refl,
              ground (arith, later),
              (
                ground (arith, irreflexive q.version_id),
                IsLast-trans rest.0 q qs (ground (arith, later)) rest.3,
              ),
            )
            | inr not_later ↦ (rest.0, inr rest.1, rest.2, (not_later, rest.3))
          ]
    ]

    count_last :
        (m : SchemaRow) (qs : List SchemaRow)
        → m.id ≡ id
        → IsLast m qs
        → count (λ q. has_id m.id q && before m.version_id q.version_id) qs ≡ 0
    count_last m [] e h = refl
    count_last m (q ∷ qs) e h = ground (arith, e, h.0, count_last m qs e h.1)

    any_of :
        (p : SchemaRow → Bool) (m : SchemaRow) (qs : List SchemaRow)
        → Any (λ r. r ≡ m) qs
        → p m ≡ true
        → any p qs ≡ true
    any_of p m (q ∷ qs) (inl e) h = rw e (rw h refl)
    any_of p m (q ∷ qs) (inr i) h = ground (arith, any_of p m qs i h)
    any_of p m [] i h = elim i [ ]

    any-latest :
        (qs : List SchemaRow)
        → any (has_id id) qs ≡ true
        → any (has_id id) (latest before qs) ≡ true
    any-latest qs h =
        let m = last_exists qs h in
        any_select (λ r. row_number_desc before qs r == 1) (has_id id) qs
          (any_of (λ r. (row_number_desc before qs r == 1) && has_id id r) m.0 qs m.1
            (ground (arith, m.2, count_last m.0 qs ((eq_iff m.0.id id).0 m.2) m.3)))

    module _ (as_text : Json → Option String) (ilike : Option String → String → Bool) where
      any-listing :
          (rows : List SchemaRow)
          → any (λ r. is_active r && has_id id r) rows ≡ true
          → any
              (λ (s : DetectionSchema). str_eq s.id id)
              (listing before as_text ilike all_active rows)
            ≡ true
      any-listing rows h =
          let found = select (listed before as_text ilike all_active) rows in
          any-map (scanned_in found) (λ (s : DetectionSchema). str_eq s.id id)
            (newest_first before (latest before found))
            (rw (any-newest_first before (has_id id) (latest before found)) (
              any-latest found (
                any_select (listed before as_text ilike all_active) (has_id id) rows (
                  any_mono (λ r. is_active r && has_id id r)
                    (λ r. listed before as_text ilike all_active r && has_id id r) rows
                    (λ r e. ground (arith, e)) h))))
        where
          scanned_in : List SchemaRow → SchemaRow → DetectionSchema
          scanned_in found r = scanned (versions_of before found r) r

      abbrev to_disable : String → SchemaRow → Bool
      to_disable v r = has_version_id v r && not (is_some r.disabled_at)

      abbrev disabled_row : String → ℕ → SchemaRow → SchemaRow
      disabled_row user_id now r = record r { disabled_at = some now; disabled_by = some user_id }

      updated-IsDisabled :
          (v user_id : String) (now : ℕ) (rows : List SchemaRow)
          → IsDisabled v rows (update_where (to_disable v) (disabled_row user_id now) rows)
      updated-IsDisabled v user_id now [] = (refl, refl, refl)
      updated-IsDisabled v user_id now (r ∷ rows) =
          let rest = updated-IsDisabled v user_id now rows in
          (ground (arith, rest.0), ground (arith, rest.1), omega (arith, rest.2))

      all-listing :
          (v : String) (rows : List SchemaRow)
          → all (λ r. not (has_version_id v r) || is_some r.disabled_at) rows ≡ true
          → all
              (λ (s : DetectionSchema). not (str_eq s.version_id v))
              (listing before as_text ilike all_active rows)
            ≡ true
      all-listing v rows h =
          let found = select (listed before as_text ilike all_active) rows in
          all-map (λ r. scanned (versions_of before found r) r)
            (λ (s : DetectionSchema). not (str_eq s.version_id v))
            (newest_first before (latest before found))
            (all-newest_first before (λ r. not (has_version_id v r)) (latest before found)
              (all-select (λ r. row_number_desc before found r == 1) (λ r. not (has_version_id v r))
                found (all-listed before as_text ilike v rows h)))

      -- DisableSchema disables the row of the latest version and leaves all other rows as they are.
      -- Where one of these, of the same schema, is neither disabled nor hidden, the schema stays in
      -- the list of active schemas, which the correlation scheduler takes its rules from, by
      -- another version than the one disabled. UUIDs are ordered strictly.
      pub listing-disable_schema :
          (user_id : String) (now : ℕ) (rows : List SchemaRow) (newest disabled : DetectionSchema)
          → get_latest_schema_by_id before id rows ≡ ok newest
          → (disable_schema before id user_id now rows).0 ≡ ok disabled
          → IsDisabled newest.version_id rows (disable_schema before id user_id now rows).1
            × (any
                    (λ r. not (has_version_id newest.version_id r) && (is_active r && has_id id r))
                    rows
                  ≡ true
                → any
                    (λ (s : DetectionSchema).
                      str_eq s.id id && not (str_eq s.version_id newest.version_id))
                    (listing before as_text ilike all_active
                      (disable_schema before id user_id now rows).1)
                  ≡ true)
      unfolding disable_schema Schemas.disable_schema
      listing-disable_schema user_id now rows newest disabled found done =
          elim (Bool-cases (any (to_disable newest.version_id) rows)) [
            | inl some_there ↦
                let after =
                  update_where (to_disable newest.version_id) (disabled_row user_id now) rows in
                let held = updated-IsDisabled newest.version_id user_id now rows in
                rw found (
                  rw some_there (
                    held,
                    λ older.
                        any_both (λ (s : DetectionSchema). str_eq s.id id)
                          (λ (s : DetectionSchema). not (str_eq s.version_id newest.version_id))
                          (listing before as_text ilike all_active after)
                          (any-listing after (
                            any_update (to_disable newest.version_id)
                              (λ r. is_active r && has_id id r) (disabled_row user_id now) rows
                              (any_mono
                                (λ r.
                                  not (has_version_id newest.version_id r)
                                  && (is_active r && has_id id r))
                                (λ r.
                                  not (to_disable newest.version_id r)
                                  && (is_active r && has_id id r))
                                rows (λ r e. ground (arith, e)) older)))
                          (all-listing newest.version_id after held.1),
                  ))
            | inr none_there ↦ absurd (ground (arith, found, none_there, done))
          ]
