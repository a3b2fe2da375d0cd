-- ===== src/Env/Ref.antt =====
-- Rows taken from a dataset without repetition: `refDiff` (pkg/env/ref.go), with
-- `getDataset` (pkg/env/agg.go). A dataset is a list of rows of any type. The mutex of `refDiff` is
-- not modelled: the calls of one worker follow each other.
pub mod Distinct
pub mod Cached
pub mod Sample
use edg.Prelude.{
  ℕ, zero, suc, ◌+◌, ◌-◌, String, List, [], ◌∷◌, ◌++◌, Option, none, some, Bool, true, false,
  str_eq, if◌then◌else◌, leb, get_elem?, set, length, Result, ok, err,
}
use edg.Prelude.Random.{Rng}
use edg.Env.Weighted.{Panic, bad_argument, index_out_of_range}

-- `xs[i], xs[j] = xs[j], xs[i]`, with none for an index out of range.
pub swapped {ℓ} : {A : Type ℓ} → List A → ℕ → ℕ → Option (List A)
swapped xs i j = elim (get_elem? xs i) [
  | none ↦ none
  | some x ↦ elim (get_elem? xs j) [ none ↦ none | some y ↦ some (set (set xs i y) j x) ]
]

-- `Rng.IntN(n - from)` and the offset, for `n - from` as a Go `int`.
pub draw_from : (g : Rng) → ℕ → ℕ → g.State → Result Panic ℕ × g.State
draw_from g n from s =
    if leb n from
    then (err bad_argument, s)
    else (let (k, s') = g.int_n (n - from) s in (ok (k + from), s'))

-- The datasets of the environment, and `uniqIndex`.
pub record Datasets (A : Type 0) : Type 0 where
  pub env : String → Option (List A)
  pub uniq_index : ℕ

module _ {A : Type 0} where
  -- The element that is at `at` after a swap.
  pub take_swapped : Option (List A) → ℕ → Result Panic (A × List A)
  take_swapped none at = err index_out_of_range
  take_swapped (some xs) at = elim (get_elem? xs at) [
    | none ↦ err index_out_of_range
    | some x ↦ ok (x, xs)
  ]

  -- `getDataset`
  unfoldable pub get_dataset : Datasets A → String → Option (List A)
  get_dataset e name = elim (e.env name) [
    | none ↦ none
    | some [] ↦ none
    | some (x ∷ xs) ↦ some (x ∷ xs)
  ]

  abbrev pub put : (String → Option (List A)) → String → List A → String → Option (List A)
  put env name rows n = if str_eq n name then some rows else env n

  -- The dataset shares its array with the environment, so the swap stays there.
  pub store :
      {S : Type 0}
      → Datasets A
      → String
      → Result Panic (A × List A)
      → S
      → Result Panic (Option A) × Datasets A × S
  store e name (err p) s = (err p, e, s)
  store e name (ok (x, rows)) s =
      (ok (some x), record { env = put e.env name rows; uniq_index = e.uniq_index + 1 }, s)

  pub diff_at :
      {S : Type 0}
      → Datasets A
      → String
      → List A
      → Result Panic ℕ × S
      → Result Panic (Option A) × Datasets A × S
  unfolding store take_swapped swapped
  diff_at e name rows (err p, s) = (err p, e, s)
  diff_at e name rows (ok i, s) =
      store e name (take_swapped (swapped rows i e.uniq_index) e.uniq_index) s

  -- `refDiff`; none is Go's nil.
  unfoldable pub ref_diff :
      (g : Rng) → Datasets A → String → g.State → Result Panic (Option A) × Datasets A × g.State
  unfolding diff_at get_dataset draw_from
  ref_diff g e name s = elim (get_dataset e name) [
    | none ↦ (ok none, e, s)
    | some rows ↦ diff_at e name rows (draw_from g (length rows) e.uniq_index s)
  ]

  abbrev pub prepend :
      {S : Type 0}
      → Option A
      → Result Panic (List (Option A)) × Datasets A × S
      → Result Panic (List (Option A)) × Datasets A × S
  prepend x (err p, e, s) = (err p, e, s)
  prepend x (ok xs, e, s) = (ok (x ∷ xs), e, s)

  abbrev pub and_then :
      {S : Type 0}
      → (Datasets A → S → Result Panic (List (Option A)) × Datasets A × S)
      → Result Panic (Option A) × Datasets A × S
      → Result Panic (List (Option A)) × Datasets A × S
  and_then f (err p, e, s) = (err p, e, s)
  and_then f (ok x, e, s) = prepend x (f e s)

  -- The rows that a number of calls return in turn.
  unfoldable pub ref_diffs :
      (g : Rng)
      → ℕ
      → Datasets A
      → String
      → g.State
      → Result Panic (List (Option A)) × Datasets A × g.State
  unfolding ref_diff
  ref_diffs g zero e name s = (ok [], e, s)
  ref_diffs g (suc n) e name s = and_then (λ e' s'. ref_diffs g n e' name s') (ref_diff g e name s)
