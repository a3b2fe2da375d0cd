-- ===== src/Env/Rand/Sampled/Rows.antt =====
-- The proofs on `weightedSampleN` (pkg/env/rand.go).
use edg.Prelude.{
  ℕ, zero, suc, ◌+◌, ◌-◌, ◌^◌, ◌≤◌, ◌<◌, String, List, [], ◌∷◌, some, false, ltb, ◌==◌,
  if◌then◌else◌, get_elem?, length, All, ok, err, ◌≡◌, refl, ap, ◌∙◌, arith, Bool-cases, inl, inr,
  ◌⊎◌,
}
use edg.Prelude.Int.{pos, same_ℤ}
use edg.Prelude.Random.{Rng}
use edg.Prelude.Text.{Bytes}
use edg.Convert.{Value, Formats, to_int_value}
use edg.Env.Args.Uniq.Distinct.{AllDistinct}
use edg.Env.Weighted.{total_weight}
use edg.Env.Weighted.Spread.{
  Weighted, weighted_items, sum_weights, spread, choose-spread, get_elem?-replicate,
  total_weight-sum,
}
use edg.Env.Rand.{exhausted, Draws, keys, unique, draw_count}
use edg.Env.Rand.Sampled.{
  min_ℤ, add_item, weigh, index_chosen, choose_index, printed, sample_items, sample_rows,
}
use edg.Env.Rand.Unique.{unique-IsGood}
use edg.Env.Rand.Nurand.{draw_count-Between}

-- The places of a list of weights, from `i`.
abbrev pub indexed : ℕ → List ℕ → Weighted ℕ
indexed i [] = []
indexed i (w ∷ ws) = (i, w) ∷ indexed (i + 1) ws

abbrev pub sum : List ℕ → ℕ
sum [] = 0
sum (w ∷ ws) = w + sum ws

sum_weights-indexed : (i : ℕ) (ws : List ℕ) → sum_weights (indexed i ws) ≡ sum ws
sum_weights-indexed i [] = refl
sum_weights-indexed i (w ∷ ws) = ap (λ n. w + n) (sum_weights-indexed (i + 1) ws)

-- What is at a place of the spread weights is the place of a weight that is not zero.
spread-indexed :
    (i : ℕ) (ws : List ℕ) (r : ℕ)
    → r < sum ws
    → (k : ℕ) × (w : ℕ) × (get_elem? (spread (indexed i ws)) r ≡ some (i + k))
      × (get_elem? ws k ≡ some w)
      × (0 < w)
unfolding spread
spread-indexed i [] r h = absurd (omega arith)
spread-indexed i (w ∷ ws) r h = elim (Bool-cases (ltb r w)) [
  | inl here ↦ (
    0,
    w,
    get_elem?-replicate w i (spread (indexed (i + 1) ws)) r ∙ rw here (ap some (omega arith)),
    refl,
    (let z = here in ground arith),
  )
  | inr later ↦
      let (k, w', found, weight, positive) =
        spread-indexed (i + 1) ws (r - w) (let z = later in ground arith) in
      (
        suc k,
        w',
        get_elem?-replicate w i (spread (indexed (i + 1) ws)) r
            ∙ rw later (found ∙ ap some (omega arith)),
        weight,
        positive,
      )
]

get_elem?-within :
    {A B : Type 0} (xs : List A) (ys : List B) (k : ℕ) (x : A)
    → length xs ≡ length ys
    → get_elem? xs k ≡ some x
    → (y : B) × (get_elem? ys k ≡ some y)
get_elem?-within [] ys k x h e = cc
get_elem?-within (u ∷ xs) [] k x h e = absurd (omega arith)
get_elem?-within (u ∷ xs) (y ∷ ys) zero x h e = (y, refl)
get_elem?-within (u ∷ xs) (y ∷ ys) (suc k) x h e = get_elem?-within xs ys k x (omega arith) e

module _ {A F I O : Type 0} (formats : Formats F I O) (cell : String → A → Value F I O)
    (weight_field : String) where
  -- The rows have these weights.
  abbrev pub HasWeights : List A → List ℕ → Type 0
  HasWeights [] [] = Unit
  HasWeights [] (w ∷ ws) = ⊥
  HasWeights (row ∷ rows) [] = ⊥
  HasWeights (row ∷ rows) (w ∷ ws) =
      (to_int_value formats (cell weight_field row) ≡ ok (pos w)) × HasWeights rows ws

  length-HasWeights : (rows : List A) (ws : List ℕ) → HasWeights rows ws → length ws ≡ length rows
  length-HasWeights [] [] h = refl
  length-HasWeights [] (w ∷ ws) h = absurd h
  length-HasWeights (row ∷ rows) [] h = absurd h
  length-HasWeights (row ∷ rows) (w ∷ ws) h = ap suc (length-HasWeights rows ws h.1)

  weigh-indexed :
      (i : ℕ) (rows : List A) (ws : List ℕ)
      → HasWeights rows ws
      → weigh formats cell weight_field i rows ≡ ok (weighted_items (indexed i ws))
  unfolding weigh add_item
  weigh-indexed i [] [] h = refl
  weigh-indexed i [] (w ∷ ws) h = absurd h
  weigh-indexed i (row ∷ rows) [] h = absurd h
  weigh-indexed i (row ∷ rows) (w ∷ ws) h =
      rw (weigh-indexed (i + 1) rows ws h.1, weigh) (rw (h.0, add_item) refl)

-- The place of a row whose weight is not zero.
abbrev pub IsPicked : List ℕ → ℕ → Type 0
IsPicked ws k = (w : ℕ) × (get_elem? ws k ≡ some w) × (0 < w)

module _ (g : Rng) (ws : List ℕ) (positive : 0 < sum ws) (small : sum ws < 2 ^ 63) where
  choose_index-IsPicked :
      (d : Draws g.State)
      → Unit {0}
      → (k : ℕ) × (d' : Draws g.State) × (choose_index g (weighted_items (indexed 0 ws)) d
          ≡ (ok k, d'))
        × Unit {0}
        × IsPicked ws k
  unfolding choose_index index_chosen
  choose_index-IsPicked d u =
      let same_sum = sum_weights-indexed 0 ws in
      let n = sum_weights (indexed 0 ws) in
      let below = g.int_n_lt n d.rng (omega arith) in
      let (k, w, found, weight, not_zero) = spread-indexed 0 ws (g.int_n n d.rng).0 (omega arith) in
      (
        k,
        record { nurand_c = d.nurand_c; rng = (g.int_n n d.rng).1 },
        rw (choose-spread g (indexed 0 ws) d.rng (omega arith) (omega arith), choose_index)
            (rw (found ∙ ap some {y = k} (omega arith)) refl),
        tt,
        (w, weight, not_zero),
      )

  total_not_zero : same_ℤ (total_weight (pos 0) (weighted_items (indexed 0 ws))) (pos 0) ≡ false
  total_not_zero =
      let same_sum = sum_weights-indexed 0 ws in
      let total = total_weight-sum (indexed 0 ws) 0 (omega arith) in
      let positive_sum : 0 < 0 + sum_weights (indexed 0 ws) = omega arith in rw total (ground arith)

module _ {A F I O : Type 0} (g : Rng) (formats : Formats F I O) (sprint : Value F I O → Bytes)
    (cell : String → A → Value F I O) (field weight_field : String) where
  printed-IsPicked :
      (rows : List A) (ws : List ℕ)
      → HasWeights formats cell weight_field rows ws
      → (k : ℕ) → IsPicked ws k
      → (p : Bytes) × (printed g formats sprint cell rows field k ≡ ok p)
  unfolding printed
  printed-IsPicked rows ws h k (w, weight, positive) =
      let (row, found) =
        get_elem?-within ws rows k w (length-HasWeights formats cell weight_field rows ws h)
          weight in
      (sprint (cell field row), rw (found, printed) refl)

  module _ (rows : List A) (ws : List ℕ) (has : HasWeights formats cell weight_field rows ws) where
    module _ (positive : 0 < sum ws) (small : sum ws < 2 ^ 63) (size : length rows < 2 ^ 61) where
      sampled : ℕ → ℕ
      sampled n = if ltb (length rows) n then length rows else n

      min_ℤ-sampled : (n : ℕ) → min_ℤ (pos n) (pos (length rows)) ≡ pos (sampled n)
      unfolding sampled
      min_ℤ-sampled n = ground arith

      sample_rows-unique :
          (lo hi n : ℕ) (d : Draws g.State) (s : g.State)
          → draw_count g (pos lo) (pos hi) d
            ≡ (ok (pos n), record { nurand_c = d.nurand_c; rng = s })
          → sample_rows g formats sprint cell rows field weight_field (pos lo) (pos hi) d
            ≡ unique ◌==◌
                (printed g formats sprint cell rows field)
                (choose_index g (weighted_items (indexed 0 ws)))
                (pos (sampled n))
                (record { nurand_c = d.nurand_c; rng = s })
      unfolding sample_rows sample_items
      sample_rows-unique lo hi n d s counted =
          rw (counted, sample_rows)
            (rw (weigh-indexed formats cell weight_field 0 rows ws has)
              (rw (total_not_zero g ws positive small, sample_items) (rw (min_ℤ-sampled n) refl)))

      -- For fewer than 2^61 rows whose weights are natural numbers with a positive sum below 2^63, and
      -- for bounds 0 <= `minN` <= `maxN` < 2^61: `weightedSampleN` draws a number `n` between `minN` and
      -- `maxN`, and then either returns exactly `n` entries, or as many as there are rows if these are
      -- fewer, or gives up after `MaxIter` rounds; it fails in no other way. The entries stand for
      -- different rows, none of which has weight zero, and each is the printed field of its row.
      pub sample_rows-AllDistinct :
          (lo hi : ℕ) (d : Draws g.State)
          → lo ≤ hi
          → hi < 2 ^ 61
          → (n : ℕ) × (lo ≤ n)
            × (n ≤ hi)
            × (d' : Draws g.State) × ((sample_rows g formats sprint cell rows field weight_field
                    (pos lo)
                    (pos hi)
                    d
                  ≡ (err exhausted, d'))
                ⊎ ((result : List (ℕ × Bytes)) × (sample_rows g formats sprint cell rows field
                        weight_field
                        (pos lo)
                        (pos hi)
                        d
                      ≡ (ok result, d'))
                    × (length result ≡ (if ltb (length rows) n then length rows else n))
                    × AllDistinct (keys result)
                    × All
                        (λ (e : ℕ × Bytes).
                          IsPicked ws (e.0)
                          × (printed g formats sprint cell rows field (e.0) ≡ ok (e.1)))
                        result))
      unfolding sampled
      sample_rows-AllDistinct lo hi d lo_hi small_hi =
          let (n, s, counted, lower, upper) = draw_count-Between g lo hi d lo_hi small_hi in
          let same_call = sample_rows-unique lo hi n d s counted in
          let (d', valid, outcome) =
            unique-IsGood ◌==◌ (printed g formats sprint cell rows field)
              (choose_index g (weighted_items (indexed 0 ws))) (λ d. Unit {0}) (IsPicked ws)
              (λ k. ground arith) (choose_index-IsPicked g ws positive small)
              (printed-IsPicked rows ws has) (sampled n) (record { nurand_c = d.nurand_c; rng = s })
              tt in
          (
            n,
            lower,
            upper,
            d',
            elim outcome [
              | inl gives_up ↦ inl (same_call ∙ gives_up)
              | inr (result, returned, count, good) ↦
                  inr (result, same_call ∙ returned, count, good.1, good.2)
            ],
          )
