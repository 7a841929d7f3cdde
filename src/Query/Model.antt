-- ===== src/Query/Model.antt =====
-- search/pkg/model/query.go: the canonical query. A struct that holds itself is a constructor over
-- a record of its plain fields and the lists of its parts.
use telhawk_stack.Prelude.{ℕ, ℤ, String, Bool, not, ◌&&◌, Option, List, str_eq}
use telhawk_stack.Query.Json.{Json}

-- The fields of a `FilterExpr` but `Conditions` and `Condition`.
pub record Condition : Type 0 where
  pub field : String
  pub operator : String
  pub value : Json
  pub kind : String  -- `Type`

mutual
  pub data FilterExpr : Type 0 where
    expr : Condition → Filters → MaybeFilter → FilterExpr

  pub data Filters : Type 0 where
    nil : Filters
    cons : FilterExpr → Filters → Filters

  pub data MaybeFilter : Type 0 where
    absent : MaybeFilter
    present : FilterExpr → MaybeFilter

pub record TimeRangeDef : Type 0 where
  pub start : Option ℕ
  pub end : Option ℕ
  pub last : String

pub record SortSpec : Type 0 where
  pub field : String
  pub order : String

-- The fields of an `Aggregation` but `Aggregations`. `order` holds the map's entries in the order in
-- which the program meets them.
pub record AggSpec : Type 0 where
  pub kind : String  -- `Type`
  pub field : String
  pub name : String
  pub size : ℤ
  pub interval : String
  pub order : List (String × String)
  pub top_hits_size : ℤ
  pub top_hits_sort : List SortSpec

mutual
  pub data Aggregation : Type 0 where
    agg : AggSpec → Aggregations → Aggregation

  pub data Aggregations : Type 0 where
    nil : Aggregations
    cons : Aggregation → Aggregations → Aggregations

pub record Query : Type 0 where
  pub select : List String
  pub filter : MaybeFilter
  pub time_range : Option TimeRangeDef
  pub aggregations : Aggregations
  pub sort : List SortSpec
  pub limit : ℤ
  pub offset : ℤ
  pub cursor : String

abbrev pub is_simple_condition : Condition → Bool
is_simple_condition c = str_eq c.kind "" && not (str_eq c.field "")

abbrev pub is_compound_condition : Condition → Bool
is_compound_condition c = not (str_eq c.kind "")
