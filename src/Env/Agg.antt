-- ===== src/Env/Agg.antt =====
-- The aggregates of a dataset (pkg/env/agg.go). Floating point numbers, `convert.ToFloat` and the
-- equality of map keys are the fields of `Values`; the key of a byte slice is its text. A value that is
-- no key of a map, such as a slice or a map, makes `aggDistinct` panic, which is `none`.
pub mod Bounds
pub mod Keys
use edg.Prelude.{
  ℕ, zero, suc, ◌+◌, String, List, [], ◌∷◌, Option, none, some, Bool, true, false, if◌then◌else◌,
  ◌||◌, ◌==◌, length,
}
use edg.Env.Ref.{Datasets, get_dataset}

pub record Values : Type 1 where
  pub Value : Type 0
  pub Float : Type 0
  pub to_float : Value → Option Float
  pub same_key : Value → Value → Bool
  -- whether a value, or its text if it is a byte slice, can be a key of a map
  pub hashable : Value → Bool
  pub less : Float → Float → Bool
  pub plus : Float → Float → Float
  pub divide : Float → Float → Float
  pub of_int : ℕ → Float
  pub zero_float : Float
  pub infinity : Float
  pub neg_infinity : Float

module _ (v : Values) where
  -- A row, with nil for a missing field.
  abbrev pub Row : Type 0
  Row = String → v.Value

  -- The loops pass over values that are not numbers.
  pub sum_from : String → v.Float → List Row → v.Float
  sum_from field total [] = total
  sum_from field total (row ∷ rows) = elim (v.to_float (row field)) [
    | none ↦ sum_from field total rows
    | some x ↦ sum_from field (v.plus total x) rows
  ]

  pub lower : Option v.Float → v.Float → v.Float
  lower none result = result
  lower (some x) result = if v.less x result then x else result

  pub higher : Option v.Float → v.Float → v.Float
  higher none result = result
  higher (some x) result = if v.less result x then x else result

  pub min_from : String → v.Float → List Row → v.Float
  unfolding lower
  min_from field result [] = result
  min_from field result (row ∷ rows) = min_from field (lower (v.to_float (row field)) result) rows

  pub max_from : String → v.Float → List Row → v.Float
  unfolding higher
  max_from field result [] = result
  max_from field result (row ∷ rows) = max_from field (higher (v.to_float (row field)) result) rows

  pub seen_key : v.Value → List v.Value → Bool
  seen_key x [] = false
  seen_key x (y ∷ seen) = v.same_key x y || seen_key x seen

  -- The number of keys in the set, which grows by each new one.
  pub distinct_from : String → List v.Value → List Row → Option ℕ
  unfolding seen_key
  distinct_from field seen [] = some (length seen)
  distinct_from field seen (row ∷ rows) =
      let rest =
        distinct_from field (if seen_key (row field) seen then seen else row field ∷ seen) rows in
      if v.hashable (row field) then rest else none

  pub agg_sum : Datasets Row → String → String → v.Float
  unfolding get_dataset sum_from
  agg_sum e name field = elim (get_dataset e name) [
    | none ↦ v.zero_float
    | some rows ↦ sum_from field v.zero_float rows
  ]

  pub agg_count : Datasets Row → String → ℕ
  unfolding get_dataset
  agg_count e name = elim (get_dataset e name) [ none ↦ 0 | some rows ↦ length rows ]

  pub agg_avg : Datasets Row → String → String → v.Float
  unfolding agg_sum agg_count
  agg_avg e name field =
      if agg_count e name == 0
      then v.zero_float
      else v.divide (agg_sum e name field) (v.of_int (agg_count e name))

  pub agg_min : Datasets Row → String → String → v.Float
  unfolding get_dataset min_from
  agg_min e name field = elim (get_dataset e name) [
    | none ↦ v.zero_float
    | some rows ↦ min_from field v.infinity rows
  ]

  pub agg_max : Datasets Row → String → String → v.Float
  unfolding get_dataset max_from
  agg_max e name field = elim (get_dataset e name) [
    | none ↦ v.zero_float
    | some rows ↦ max_from field v.neg_infinity rows
  ]

  pub agg_distinct : Datasets Row → String → String → Option ℕ
  unfolding get_dataset distinct_from
  agg_distinct e name field = elim (get_dataset e name) [
    | none ↦ some 0
    | some rows ↦ distinct_from field [] rows
  ]
