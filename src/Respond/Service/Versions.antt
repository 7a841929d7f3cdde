-- ===== src/Respond/Service/Versions.antt =====
-- Versions of a detection schema: what creating and updating leave.
use telhawk_stack.Prelude.{
  suc, String, Bool, true, false, ◌&&◌, none, some, List, [], ◌∷◌, ◌++◌, any, all, ◌==◌, str_eq,
  if◌then◌else◌, ◌≡◌, refl, sym, ap, arith, eq_iff, All, subst,
}
use telhawk_stack.Prelude.Select.{
  select, count, count-append, select-append, count-select, All-select, first_of-append,
  select_none,
}
use telhawk_stack.Prelude.Result.{Result, ok}
use telhawk_stack.Query.Json.{Members}
use telhawk_stack.Respond.Models.{SchemaRow, DetectionSchema, Error}
use telhawk_stack.Respond.Schemas.{
  has_id, has_version_id, scanned, row_number_desc, versions_of, get_latest_schema_by_id,
  get_schema_by_version_id,
}
use telhawk_stack.Respond.Schemas
use telhawk_stack.Respond.Service.{Draw, create_schema, update_schema, get_schema}

-- The row that is written for a version.
abbrev pub row_for : String → String → Members → Members → Members → SchemaRow
row_for id version_id model view controller = record {
  id = id;
  version_id = version_id;
  model = model;
  view = view;
  controller = controller;
  active_parameter_set = none;
  disabled_at = none;
  disabled_by = none;
  hidden_at = none;
  hidden_by = none;
}

module _ (before : String → String → Bool) where
  -- The new version is later than the row, and not the other way round.
  abbrev pub IsOlder : String → SchemaRow → Type 0
  IsOlder version_id r =
      (before r.version_id version_id ≡ true) × (before version_id r.version_id ≡ false)

  count_later_none :
      (r : SchemaRow) (rows : List SchemaRow)
      → All (IsOlder r.version_id) rows
      → count (λ q. has_id r.id q && before r.version_id q.version_id) rows ≡ 0
  count_later_none r [] h = refl
  count_later_none r (q ∷ qs) h = ground (arith, count_later_none r qs h.1)

  module _ (id : String) (rows : List SchemaRow) (new : SchemaRow) (same : new.id ≡ id)
      (older : All (λ r. has_id id r ≡ true → IsOlder new.version_id r) rows)
      (irreflexive : before new.version_id new.version_id ≡ false) where
    abbrev old : List SchemaRow
    old = select (has_id id) rows

    old_IsOlder : All (IsOlder new.version_id) old
    old_IsOlder = All-select (IsOlder new.version_id) (has_id id) rows older

    has_id_old : All (λ r. has_id id r ≡ true) old
    has_id_old = All-select (λ r. has_id id r ≡ true) (has_id id) rows (each rows)
      where
        each : (rs : List SchemaRow) → All (λ r. has_id id r ≡ true → has_id id r ≡ true) rs
        each [] = tt
        each (r ∷ rs) = ((λ e. e), each rs)

    found_append : select (has_id id) (rows ++ new ∷ []) ≡ old ++ new ∷ []
    found_append = ground (arith, select-append (has_id id) rows (new ∷ []), eq_iff new.id id)

    not_first :
        (all rs : List SchemaRow)
        → All (IsOlder new.version_id) rs
        → All (λ r. has_id id r ≡ true) rs
        → All (λ r. (row_number_desc before (all ++ new ∷ []) r == 1) ≡ false) rs
    not_first all [] h i = tt
    not_first all (r ∷ rs) h i = (
      ground (
        arith,
        h.0,
        i.0,
        eq_iff r.id id,
        eq_iff new.id r.id,
        count-append (λ q. has_id r.id q && before r.version_id q.version_id) all (new ∷ []),
      ),
      not_first all rs h.1 i.1,
    )

    new_first : (row_number_desc before (old ++ new ∷ []) new == 1) ≡ true
    new_first = ground (
      arith,
      irreflexive,
      count_later_none new old old_IsOlder,
      count-append (λ q. has_id new.id q && before new.version_id q.version_id) old (new ∷ []),
    )

    versions_append : count (has_id new.id) (old ++ new ∷ []) ≡ suc (count (has_id id) rows)
    versions_append = rw same (
        ground (
          arith,
          count-append (has_id id) old (new ∷ []),
          count-select (has_id id) rows,
          eq_iff new.id id,
        ))

    pub get_latest-append :
        get_latest_schema_by_id before id (rows ++ new ∷ [])
        ≡ ok (scanned (suc (count (has_id id) rows)) new)
    unfolding get_latest_schema_by_id
    get_latest-append = rw found_append (
        rw
          (first_of-append (λ r. row_number_desc before (old ++ new ∷ []) r == 1) old new
            (not_first old old old_IsOlder has_id_old) new_first)
          (ap (λ version. ok (scanned version new)) versions_append))

  -- One row is added, which `get_schema` then finds; the call itself answers with version 1.
  abbrev pub Stores :
      String → SchemaRow → List SchemaRow → Result Error DetectionSchema × List SchemaRow → Type 0
  Stores id row rows result =
      (result.1 ≡ rows ++ row ∷ [])
      × (get_schema before id result.1 ≡ ok (scanned (suc (count (has_id id) rows)) row))
      × (result.0 ≡ ok (scanned 1 row))

  module _ (draw : Draw) (id version_id : String) (model view controller : Members)
      (rows : List SchemaRow) (drawn : draw.version_id ≡ ok version_id)
      (named : (¬ (id ≡ "")) × (¬ (version_id ≡ "")))
      (fresh : any (has_version_id version_id) rows ≡ false)
      (older : All (λ r. has_id id r ≡ true → IsOlder version_id r) rows)
      (irreflexive : before version_id version_id ≡ false) where
    abbrev new_row : SchemaRow
    new_row = row_for id version_id model view controller

    by_version_id :
        get_schema_by_version_id before version_id (rows ++ new_row ∷ []) ≡ ok (scanned 1 new_row)
    unfolding get_schema_by_version_id
    by_version_id = ground (
      arith,
      select-append (has_version_id version_id) rows (new_row ∷ []),
      irreflexive,
      select_none (has_version_id version_id) rows fresh,
      eq_iff version_id version_id,
      eq_iff id id,
    )

    stores : Stores id new_row rows (ok (scanned 1 new_row), rows ++ new_row ∷ [])
    unfolding get_schema
    stores = (refl, rw (get_latest-append id rows new_row refl older irreflexive) refl, refl)

    -- UpdateSchema of a schema that exists, with a version id that is new and later than those of
    -- the schema's rows, adds one row and leaves the others: GetSchema then gives the new content,
    -- with the number of versions as its version. The schema that UpdateSchema itself returns says
    -- version 1, whatever that number.
    pub update_schema_lem :
        (existing : DetectionSchema)
        → get_latest_schema_by_id before id rows ≡ ok existing
        → Stores id new_row rows (
            update_schema before draw id
              (record { model = some model; view = some view; controller = some controller })
              rows)
    unfolding update_schema Schemas.create_schema
    update_schema_lem existing found =
        subst (Stores id new_row rows)
          (sym (
            ground (arith, found, drawn, fresh, by_version_id, eq_iff id "", eq_iff version_id "")))
          stores

    -- CreateSchema with an id that is given or drawn, and a version id that is new and later than
    -- those of rows with that id, stores what GetSchema then gives back: the model, the view and
    -- the controller of the request.
    pub get_schema-create_schema :
        (given : String)
        → (if str_eq given "" then draw.id else ok given) ≡ ok id
        → Stores id new_row rows (
            create_schema before draw
              (record {
                id = given;
                model = some model;
                view = some view;
                controller = some controller;
              })
              rows)
    unfolding create_schema Schemas.create_schema
    get_schema-create_schema given chosen =
        subst (Stores id new_row rows)
          (sym (
            ground (
              arith,
              chosen,
              drawn,
              fresh,
              by_version_id,
              eq_iff given "",
              eq_iff id "",
              eq_iff version_id "",
            )))
          stores
