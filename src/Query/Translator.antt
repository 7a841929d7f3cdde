-- ===== src/Query/Translator.antt =====
-- search/internal/translator/opensearch.go: the translation of a query to OpenSearch's language.
-- `sprint` stands for `fmt.Sprintf("%v", ·)` and `now` for `time.Now()`.
pub mod Names
pub mod Filters
pub mod Aggs
use telhawk_stack.Prelude.{
  ℕ, ◌/◌, ℤ, pos, sub_ℕ, ltb_ℤ, String, not, ◌&&◌, Option, none, some, List, [], ◌∷◌, is_some,
  str_eq, if◌then◌else◌,
}
use telhawk_stack.Prelude.Text.{◌++◌}
use telhawk_stack.Prelude.Result.{Result, ok, err, ◌>>=◌, wrap}
use telhawk_stack.Query.Json.{Json, int, text, arr, obj, Items, Members, member, single, texts}
use telhawk_stack.Query.Model.{MaybeFilter, absent, present, TimeRangeDef, Aggregations, Query}
use Names.{translate_field_path}
use Filters.{Error, bool_query_failed, aggregations_failed, translate_filter}
use Aggs.{sort_or_default, build_aggregations}

-- t.Unix(): seconds since 1970, of nanoseconds since the start of year 1.
abbrev pub unix : ℕ → ℤ
unix t = sub_ℕ (t / 1000000000) 62135596800

abbrev range_on_time : Members → Option Json
range_on_time bounds = some (single "range" (single "time" (obj bounds)))

-- The bounds of an absolute range: `none` where `rangeQuery` stays empty.
unfoldable pub absolute_range : ℕ → Option ℕ → Option ℕ → Option Json
absolute_range now none none = none
absolute_range now none (some e) = range_on_time (member "lte" (int (unix e)) Members.end)
absolute_range now (some s) none =
    range_on_time (member "gte" (int (unix s)) (member "lte" (int (unix now)) Members.end))
absolute_range now (some s) (some e) =
    range_on_time (member "gte" (int (unix s)) (member "lte" (int (unix e)) Members.end))

-- It never fails.
unfoldable pub build_time_range_filter : ℕ → TimeRangeDef → Option Json
unfolding absolute_range
build_time_range_filter now tr =
    if str_eq tr.last ""
    then absolute_range now tr.start tr.end
    else range_on_time
        (member "gte" (text ("now-" ++ tr.last)) (member "lte" (text "now") Members.end))

abbrev time_filter : ℕ → Option TimeRangeDef → Option Json
time_filter now none = none
time_filter now (some tr) = build_time_range_filter now tr

-- `must = append(must, q)` where there is a query.
abbrev optional_item : Option Json → Items → Items
optional_item none rest = rest
optional_item (some q) rest = Items.cons q rest

abbrev must_part : Items → Members
must_part Items.nil = Members.end
must_part (Items.cons q qs) = member "must" (arr (Items.cons q qs)) Members.end

module _ (sprint : Json → String) (now : ℕ) where
  abbrev pub maybe_filter : MaybeFilter → Result Error (Option Json)
  maybe_filter absent = ok none
  maybe_filter (present f) = translate_filter sprint f >>= λ q. ok (some q)

  unfoldable pub build_bool_query : MaybeFilter → Option TimeRangeDef → Result Error Members
  build_bool_query filter time_range = maybe_filter filter >>= λ q.
      ok (must_part (optional_item q (optional_item (time_filter now time_range) Items.nil)))

  abbrev match_all : Json
  match_all = single "match_all" (obj Members.end)

  abbrev pub query_part : MaybeFilter → Option TimeRangeDef → Result Error Json
  query_part absent none = ok match_all
  query_part filter time_range =
      wrap bool_query_failed
        (build_bool_query filter time_range >>= λ b. ok (single "bool" (obj b)))

  abbrev translate_paths : List String → List String
  translate_paths [] = []
  translate_paths (field ∷ fields) = translate_field_path field ∷ translate_paths fields

  abbrev pub source_part : List String → Members → Members
  source_part [] rest = rest
  source_part (field ∷ fields) rest =
      member "_source" (arr (texts (translate_paths (field ∷ fields)))) rest

  abbrev pub page_size : ℤ → ℤ
  page_size limit = if ltb_ℤ (pos 0) limit then limit else pos 100

  abbrev pub from_part : ℤ → Members → Members
  from_part offset rest = if ltb_ℤ (pos 0) offset then member "from" (int offset) rest else rest

  abbrev pub aggs_part : Aggregations → Result Error Members
  aggs_part Aggregations.nil = ok Members.end
  aggs_part (Aggregations.cons a as') = wrap aggregations_failed (
      build_aggregations (Aggregations.cons a as') Members.end >>= λ aggs.
      ok (member "aggs" (obj aggs) Members.end))

  -- The members "query", "_source", "sort", "size", "from" and "aggs", in this order.
  unfoldable pub translate : Query → Result Error Members
  unfolding sort_or_default
  translate q = query_part q.filter q.time_range >>= λ query. aggs_part q.aggregations >>= λ aggs.
      ok (
        member "query" query (
          source_part q.select (
            member "sort" (sort_or_default q.sort)
              (member "size" (int (page_size q.limit)) (from_part q.offset aggs)))))
