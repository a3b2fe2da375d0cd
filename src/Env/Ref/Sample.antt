-- ===== src/Env/Ref/Sample.antt =====
-- A sample of the rows of a dataset by a partial shuffle of their indices: `fisherYates`
-- (pkg/env/ref.go). A dataset is a list of rows of any type, and `sprint` stands for
-- `fmt.Sprint(row[field])`.
pub mod Rows
use edg.Prelude.{
  ℕ, zero, suc, ◌+◌, String, List, [], ◌∷◌, none, some, get_elem?, length, Result, ok, err,
}
use edg.Prelude.Random.{Rng}
use edg.Env.Weighted.{Panic, index_out_of_range}
use edg.Env.Ref.{swapped, draw_from, take_swapped}

-- `for i := range indices { indices[i] = i }`, from an index on.
abbrev pub indices_from : ℕ → ℕ → List ℕ
indices_from i zero = []
indices_from i (suc n) = i ∷ indices_from (suc i) n

abbrev pub prepend {ℓ} :
    {S : Type ℓ} → String → Result Panic (List String) × S → Result Panic (List String) × S
prepend part (err p, s) = (err p, s)
prepend part (ok parts, s) = (ok (part ∷ parts), s)

abbrev pub and_then {ℓ} :
    {S : Type ℓ}
    → (List ℕ → S → Result Panic (List String) × S)
    → Result Panic (String × List ℕ) × S
    → Result Panic (List String) × S
and_then f (err p, s) = (err p, s)
and_then f (ok (part, indices), s) = prepend part (f indices s)

module _ {A : Type 0} (sprint : A → String → String) where
  -- The cell of the row that the index at the front of the swap names.
  pub cell : List A → String → Result Panic (ℕ × List ℕ) → Result Panic (String × List ℕ)
  cell rows field (err p) = err p
  cell rows field (ok (k, indices)) = elim (get_elem? rows k) [
    | none ↦ err index_out_of_range
    | some x ↦ ok (sprint x field, indices)
  ]

  -- The swap of `indices[i]` with the index drawn, and `parts[i]`.
  pub part_at :
      {S : Type 0}
      → List A
      → String
      → List ℕ
      → ℕ
      → Result Panic ℕ × S
      → Result Panic (String × List ℕ) × S
  unfolding cell swapped take_swapped
  part_at rows field indices i (err p, s) = (err p, s)
  part_at rows field indices i (ok j, s) =
      (cell rows field (take_swapped (swapped indices j i) i), s)

  -- The loop, for the number of parts that are left.
  pub shuffle_from :
      (g : Rng) → ℕ → List A → String → List ℕ → ℕ → g.State → Result Panic (List String) × g.State
  unfolding part_at draw_from
  shuffle_from g zero rows field indices i s = (ok [], s)
  shuffle_from g (suc n) rows field indices i s =
      and_then (λ indices' s'. shuffle_from g n rows field indices' (i + 1) s')
        (part_at rows field indices i (draw_from g (length indices) i s))

  -- `fisherYates`
  unfoldable pub fisher_yates :
      (g : Rng) → List A → String → ℕ → g.State → Result Panic (List String) × g.State
  unfolding shuffle_from
  fisher_yates g rows field n s = shuffle_from g n rows field (indices_from 0 (length rows)) 0 s
