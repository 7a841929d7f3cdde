-- ===== src/Query/Translator/Aggs.antt =====
-- The translation of aggregations and of sort specifications.
use telhawk_stack.Prelude.{pos, eqb_ℤ, String, List, [], ◌∷◌, str_eq, if◌then◌else◌}
use telhawk_stack.Prelude.Result.{Result, ok, err, ◌>>=◌}
use telhawk_stack.Query.Json.{Json, int, text, arr, obj, Items, Members, member, single, put}
use telhawk_stack.Query.Model.{SortSpec, AggSpec, Aggregation, agg, Aggregations}
use telhawk_stack.Query.Translator.Names.{translate_field_path, ensure_keyword_field}
use telhawk_stack.Query.Translator.Filters.{Error, unsupported_aggregation}

-- {field: {"order": order}}
abbrev pub sort_entry : String → String → Json
sort_entry field order = single field (single "order" (text order))

abbrev pub order_or_desc : String → String
order_or_desc order = if str_eq order "" then "desc" else order

unfoldable pub translate_sorts : List SortSpec → Items
translate_sorts [] = Items.nil
translate_sorts (s ∷ ss) =
    Items.cons (sort_entry (translate_field_path s.field) (order_or_desc s.order))
      (translate_sorts ss)

-- The sort of a query or of a top_hits body: by time, the latest first, where none is given.
unfoldable pub sort_or_default : List SortSpec → Json
unfolding translate_sorts
sort_or_default [] = arr (Items.cons (sort_entry "time" "desc") Items.nil)
sort_or_default (s ∷ ss) = arr (translate_sorts (s ∷ ss))

abbrev pub order_members : List (String × String) → Members
order_members [] = Members.end
order_members ((key, direction) ∷ rest) = member key (text direction) (order_members rest)

-- `termsBody["order"] = agg.Order`, if there is any.
abbrev order_part : List (String × String) → Members
order_part [] = Members.end
order_part (entry ∷ rest) = member "order" (obj (order_members (entry ∷ rest))) Members.end

-- {kind: {"field": field}}
abbrev on_field : String → String → Members
on_field kind field = member kind (single "field" (text field)) Members.end

-- The switch on the type, at the translated field.
unfoldable pub aggregation_body : AggSpec → Result Error Members
unfolding sort_or_default
aggregation_body a =
    let field = translate_field_path a.field in
    if str_eq a.kind "terms"
    then ok (
        member "terms"
          (obj (
            member "field" (text (ensure_keyword_field field))
              (member "size" (int a.size) (order_part a.order))))
          Members.end)
    else if str_eq a.kind "date_histogram"
    then ok (
        member "date_histogram"
          (obj (member "field" (text field) (member "interval" (text a.interval) Members.end)))
          Members.end)
    else if str_eq a.kind "avg"
    then ok (on_field "avg" field)
    else if str_eq a.kind "sum"
    then ok (on_field "sum" field)
    else if str_eq a.kind "min"
    then ok (on_field "min" field)
    else if str_eq a.kind "max"
    then ok (on_field "max" field)
    else if str_eq a.kind "stats"
    then ok (on_field "stats" field)
    else if str_eq a.kind "cardinality"
    then ok (on_field "cardinality" (ensure_keyword_field field))
    else if str_eq a.kind "top_hits"
    then ok (
        member "top_hits"
          (obj (
            member "size" (int (if eqb_ℤ a.top_hits_size (pos 0) then pos 1 else a.top_hits_size))
              (member "sort" (sort_or_default a.top_hits_sort) Members.end)))
          Members.end)
    else err (unsupported_aggregation a.kind)

abbrev pub agg_name : Aggregation → String
agg_name (agg a nested) = a.name

-- `aggBody["aggs"] = nestedAggs`, if there are nested aggregations.
abbrev with_nested : Aggregations → Result Error Members → Members → Result Error Members
with_nested Aggregations.nil results body = ok body
with_nested (Aggregations.cons a as') results body =
    results >>= λ aggs. ok (put "aggs" (obj aggs) body)

-- `buildAggregations` is the loop over the list, from the members that it has filled already.
unfoldable mutual
  pub translate_aggregation : Aggregation → Result Error Members
  translate_aggregation (agg a nested) =
      let results = build_aggregations nested Members.end in
      aggregation_body a >>= λ body. with_nested nested results body

  pub build_aggregations : Aggregations → Members → Result Error Members
  build_aggregations Aggregations.nil result = ok result
  build_aggregations (Aggregations.cons a as') result = translate_aggregation a >>= λ body.
      build_aggregations as' (put (agg_name a) (obj body) result)
