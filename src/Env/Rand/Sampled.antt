-- ===== src/Env/Rand/Sampled.antt =====
-- `weightedSampleN` (pkg/env/rand.go). A row is of any type, with `cell` for its value of a name.
pub mod Rows
use edg.Prelude.{
  ℕ, zero, suc, ◌+◌, String, List, [], ◌∷◌, Option, none, some, Bool, true, false, get_elem?,
  length, Result, ok, err, if◌then◌else◌, ◌==◌,
}
use edg.Prelude.Int.{ℤ, pos, negsuc, ltb_ℤ, same_ℤ, wrap_64}
use edg.Prelude.Random.{Rng}
use edg.Prelude.Steps.{Steps, ◌>>=◌, return, lift}
use edg.Prelude.Text.{Bytes, join}
use edg.Convert.{Value, Formats, not_an_integer, to_int_value}
use edg.Env.Weighted.{Panic, index_out_of_range, WeightedItem, total_weight, choose}
use edg.Env.Ref.{Datasets, get_dataset}
use edg.Env.Rand.{
  RandError, not_int, weight_not_int, panicked, Draws, unique, joined, int_arg, draw_count,
}

-- `min(a, b)`
abbrev pub min_ℤ : ℤ → ℤ → ℤ
min_ℤ a b = if ltb_ℤ b a then b else a

module _ {A F I O : Type 0} (formats : Formats F I O) (cell : String → A → Value F I O) where
  pub add_item :
      ℕ
      → Value F I O
      → Result RandError (List (WeightedItem ℕ))
      → Result RandError (List (WeightedItem ℕ))
  add_item i raw rest = elim (to_int_value formats raw) [
    | err e ↦ err (weight_not_int i e)
    | ok w ↦ elim rest [ err e ↦ err e | ok items ↦ ok (record { value = i; weight = w } ∷ items) ]
  ]

  -- `items`, from an index
  pub weigh : String → ℕ → List A → Result RandError (List (WeightedItem ℕ))
  unfolding add_item
  weigh weight_field i [] = ok []
  weigh weight_field i (row ∷ rows) =
      add_item i (cell weight_field row) (weigh weight_field (i + 1) rows)

module _ (g : Rng) where
  pub index_chosen :
      Result Panic (Option ℕ) × g.State → List (ℤ × ℤ) → Result RandError ℕ × Draws g.State
  index_chosen (ok (some i), s) m = (ok i, record { nurand_c = m; rng = s })
  index_chosen (ok none, s) m = (err (not_int not_an_integer), record { nurand_c = m; rng = s })
  index_chosen (err p, s) m = (err (panicked p), record { nurand_c = m; rng = s })

  -- `convert.ToInt(wi.choose())`
  unfoldable pub choose_index : List (WeightedItem ℕ) → Steps RandError (Draws g.State) ℕ
  unfolding index_chosen choose
  choose_index items d = index_chosen (choose g items d.rng) d.nurand_c

module _ {A F I O : Type 0} (g : Rng) (formats : Formats F I O) (sprint : Value F I O → Bytes)
    (cell : String → A → Value F I O) where
  -- `fmt.Sprint(data[idx][field])`
  unfoldable pub printed : List A → String → ℕ → Result RandError Bytes
  printed rows field i = elim (get_elem? rows i) [
    | none ↦ err (panicked index_out_of_range)
    | some row ↦ ok (sprint (cell field row))
  ]

  -- The sample, once the size is drawn and the weights are known.
  unfoldable pub sample_items :
      List A
      → String
      → ℤ
      → List (WeightedItem ℕ)
      → Steps RandError (Draws g.State) (List (ℕ × Bytes))
  unfolding total_weight unique choose_index printed
  sample_items rows field n items = elim (same_ℤ (total_weight (pos 0) items) (pos 0)) [
    | true ↦ return []
    | false ↦ unique ◌==◌ (printed rows field) (choose_index g items) n
  ]

  unfoldable pub sample_rows :
      List A → String → String → ℤ → ℤ → Steps RandError (Draws g.State) (List (ℕ × Bytes))
  unfolding draw_count weigh sample_items
  sample_rows rows field weight_field lo hi = do
    n ← draw_count g lo hi
    items ← lift (weigh formats cell weight_field 0 rows)
    sample_items rows field (min_ℤ n (pos (length rows))) items

  unfoldable pub weighted_sample_n :
      Datasets A
      → String
      → String
      → String
      → Value F I O
      → Value F I O
      → Steps RandError (Draws g.State) Bytes
  unfolding get_dataset int_arg sample_rows
  weighted_sample_n e name field weight_field raw_lo raw_hi = elim (get_dataset e name) [
    | none ↦ return []
    | some rows ↦ do
      lo ← int_arg g formats raw_lo
      hi ← int_arg g formats raw_hi
      entries ← sample_rows rows field weight_field lo hi
      return (joined entries)
  ]
