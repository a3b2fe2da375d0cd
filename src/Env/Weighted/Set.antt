-- ===== src/Env/Weighted/Set.antt =====
-- `setRand` and `pickFromSet` (pkg/env/set.go). The conversion of a weight (`convert.ToInt`) and the
-- index of a distribution are parameters.
pub mod Picks
use edg.Prelude.{
  ℕ, zero, suc, ◌+◌, List, [], ◌∷◌, Option, none, some, Bool, true, false, if◌then◌else◌, ◌==◌,
  get_elem?, length, Result, ok, err, ◌>>=◌,
}
use edg.Prelude.Int.{ℤ, pos, negsuc, ◌-ℤ◌}
use edg.Prelude.Random.{Rng}
use edg.Env.Weighted.{Panic, index_out_of_range, WeightedItem, choose, draw}

pub data SetError (E : Type 0) : Type 0 where
  no_values : SetError E
  length_mismatch : ℕ → ℕ → SetError E
  bad_weight : ℕ → E → SetError E
  bad_index : E → SetError E
  panicked : Panic → SetError E

module _ {V E : Type 0} where
  -- The loop that converts the weights, from an index.
  unfoldable pub int_weights : (V → Result E ℤ) → ℕ → List V → Result (SetError E) (List ℤ)
  int_weights to_int i [] = ok []
  int_weights to_int i (w ∷ ws) =
      let rest = int_weights to_int (i + 1) ws in
      elim (to_int w) [ err e ↦ err (bad_weight i e) | ok n ↦ do ns ← rest; ok (n ∷ ns) ]

module _ {A E : Type 0} where
  -- `buildWeightedItems`; `weights[i]` panics for a list that is too short.
  unfoldable pub build : List A → List ℤ → Result (SetError E) (List (WeightedItem A))
  build [] ns = ok []
  build (v ∷ vs) [] = err (panicked index_out_of_range)
  build (v ∷ vs) (n ∷ ns) = do items ← build vs ns; ok (record { value = v; weight = n } ∷ items)

  abbrev pub lift : Result Panic (Option A) → Result (SetError E) (Option A)
  lift (ok a) = ok a
  lift (err p) = err (panicked p)

  abbrev pub at_index : List A → Result Panic ℕ → Result (SetError E) (Option A)
  at_index values (err p) = err (panicked p)
  at_index values (ok i) = elim (get_elem? values i) [
    | none ↦ err (panicked index_out_of_range)
    | some v ↦ ok (some v)
  ]

  unfoldable pub choose_from :
      (g : Rng)
      → Result (SetError E) (List (WeightedItem A))
      → g.State
      → Result (SetError E) (Option A) × g.State
  choose_from g (err e) s = (err e, s)
  choose_from g (ok items) s = let (r, s') = choose g items s in (lift r, s')

  -- `pickFromSet`, whose index function gets the greatest index.
  unfoldable pub pick_from_set :
      {S : Type 0} → List A → (ℕ → S → Result E ℤ × S) → S → Result (SetError E) (Option A) × S
  pick_from_set [] index s = (err no_values, s)
  pick_from_set (v ∷ []) index s = (ok (some v), s)
  pick_from_set (v ∷ w ∷ values) index s =
      let (r, s') = index (length (w ∷ values)) s in
      elim r [
        | err e ↦ (err (bad_index e), s')
        | ok (pos i) ↦ (at_index (v ∷ w ∷ values) (ok i), s')
        | ok (negsuc i) ↦ (err (panicked index_out_of_range), s')
      ]

module _ {A V E : Type 0} where
  -- `setRand`; none is Go's nil.
  unfoldable pub set_rand :
      (g : Rng)
      → (V → Result E ℤ)
      → List A
      → List V
      → g.State
      → Result (SetError E) (Option A) × g.State
  unfolding int_weights build choose_from draw
  set_rand g to_int [] weights s = (err no_values, s)
  set_rand g to_int (v ∷ values) [] s =
      let (r, s') = draw g (pos (length (v ∷ values))) s in (at_index (v ∷ values) r, s')
  set_rand g to_int (v ∷ values) (w ∷ weights) s =
      if length (w ∷ weights) == length (v ∷ values)
      then choose_from g (do ns ← int_weights to_int 0 (w ∷ weights); build (v ∷ values) ns) s
      else (err (length_mismatch (length (v ∷ values)) (length (w ∷ weights))), s)
