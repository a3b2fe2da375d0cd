-- ===== src/Env/Weighted.antt =====
-- Weighted choice: `pickWeighted` (pkg/env/env_worker.go) over run items, and `weightedItems`
-- (pkg/env/set.go) over values. Weights are Go `int`s; `none` is Go's nil.
pub mod Spread
pub mod Set
use edg.Prelude.{
  ℕ, zero, suc, ◌+◌, String, List, [], ◌∷◌, ◌++◌, map, Option, none, some, Bool, true, false,
  str_eq, if◌then◌else◌, ◌==◌, get_elem?, length, Result, ok, err, ◌>>=◌,
}
use edg.Prelude.Int.{ℤ, pos, negsuc, ◌+ℤ◌, ◌-ℤ◌, ltb_ℤ, leb_ℤ, wrap_64}
use edg.Prelude.Random.{Rng}
use edg.Config.{RunItem, Request, item_name}

-- A lookup in a Go map.
unfoldable pub lookup {ℓ} : {V : Type ℓ} → String → List (String × V) → Option V
lookup k [] = none
lookup k ((j, v) ∷ m) = if str_eq k j then some v else lookup k m

pub record Entry : Type 0 where
  pub item : RunItem
  pub cumulative : ℤ

-- The loop over `e.request.Run` that accumulates the weights of the listed items.
pub entries_from : List (String × ℤ) → ℤ → List RunItem → List Entry × ℤ
unfolding lookup item_name ◌+ℤ◌ wrap_64
entries_from weights total [] = ([], total)
entries_from weights total (item ∷ items) = elim (lookup (item_name item) weights) [
  | none ↦ entries_from weights total items
  | some w ↦
      let total' = wrap_64 (total +ℤ w) in
      let rest = entries_from weights total' items in
      (record { item = item; cumulative = total' } ∷ (rest.0), rest.1)
]

-- The first entry whose cumulative weight is above the draw; the last one if there is none.
pub pick_at : ℕ → List Entry → Option RunItem
pick_at r [] = none
pick_at r (e ∷ []) = some e.item
pick_at r (e ∷ f ∷ es) =
    let rest = pick_at r (f ∷ es) in if ltb_ℤ (pos r) e.cumulative then some e.item else rest

-- `IntN` of an argument that is not positive panics.
pub data Panic : Type 0 where
  bad_argument index_out_of_range : Panic

unfoldable pub draw : (g : Rng) → ℤ → g.State → Result Panic ℕ × g.State
draw g (pos zero) s = (err bad_argument, s)
draw g (pos (suc n)) s = let (r, s') = g.int_n (suc n) s in (ok r, s')
draw g (negsuc n) s = (err bad_argument, s)

abbrev map_ok : {E : Type 0} {A B : Type 0} → (A → B) → Result E A → Result E B
map_ok f (ok a) = ok (f a)
map_ok f (err e) = err e

-- The end of `pickWeighted`: nothing without a positive total, or a draw below it.
pub pick_from : (g : Rng) → List Entry → ℤ → g.State → Result Panic (Option RunItem) × g.State
unfolding pick_at draw
pick_from g entries (pos zero) s = (ok none, s)
pick_from g entries total s =
    let (d, s') = draw g total s in (map_ok (λ k. pick_at k entries) d, s')

-- `pickWeighted`
unfoldable pub pick_weighted :
    (g : Rng) → Request → g.State → Result Panic (Option RunItem) × g.State
unfolding entries_from pick_from
pick_weighted g r s =
    let (entries, total) = entries_from r.run_weights (pos 0) r.run in pick_from g entries total s

pub record WeightedItem (A : Type 0) : Type 0 where
  pub value : A
  pub weight : ℤ

module _ {A : Type 0} where
  -- The sum of `makeWeightedItems`, from an accumulator.
  unfoldable pub total_weight : ℤ → List (WeightedItem A) → ℤ
  unfolding ◌+ℤ◌ wrap_64
  total_weight acc [] = acc
  total_weight acc (i ∷ items) = total_weight (wrap_64 (acc +ℤ i.weight)) items

  -- The loop of `choose`: `r -= item.Weight; if r <= 0 { return item.Value }`.
  pub choose_at : ℤ → List (WeightedItem A) → Option A
  unfolding ◌-ℤ◌ wrap_64
  choose_at r [] = none
  choose_at r (i ∷ items) =
      let r' = wrap_64 (r -ℤ i.weight) in
      let rest = choose_at r' items in if leb_ℤ r' (pos 0) then some i.value else rest

  -- `choose`
  unfoldable pub choose :
      (g : Rng) → List (WeightedItem A) → g.State → Result Panic (Option A) × g.State
  unfolding total_weight choose_at draw
  choose g items s =
      let (d, s') = draw g (total_weight (pos 0) items) s in
      (map_ok (λ k. choose_at (pos (k + 1)) items) d, s')
