-- ===== src/Env/Rand/Distribute.antt =====
-- `distributeSum` (pkg/env/rand.go). The operations on floats are parameters, also those that
-- `Floats` does not have; `sort.Float64s` keeps the number of its elements.
pub mod Parts
use edg.Prelude.{
  ℕ, zero, suc, ◌+◌, ◌-◌, ◌^◌, ◌≤◌, ◌<◌, List, [], ◌∷◌, ◌++◌, map, Option, none, some, Bool, true,
  false, length, length-append, if◌then◌else◌, Result, ok, err, ◌≡◌, refl, sym, ap, ◌∙◌, arith,
  Bool-cases, inl, inr,
}
use edg.Prelude.Int.{ℤ, pos, negsuc, ◌-ℤ◌, ◌+ℤ◌, ltb_ℤ, same_ℤ, wrap_64, wrap_64-add}
use edg.Prelude.Random.{Rng}
use edg.Prelude.Steps.{Steps, ◌>>=◌, return, lift}
use edg.Prelude.Text.{Bytes, join}
use edg.Convert.{Value, Formats}
use edg.Env.Rand.{
  RandError, too_few_parts, bad_part_range, not_positive, panicked, Draws, int_arg, int_n, drawn,
  draw_count,
}
use edg.Env.Weighted.{bad_argument}
use edg.Env.Rand.Norm.{float_arg}
use edg.Gen.Random.{Floats}

pub record Sums (F : Type 0) : Type 0 where
  pub floats : Floats F
  pub nothing : F
  pub sub : F → F → F
  pub sort : List F → List F
  pub length-sort : (xs : List F) → length (sort xs) ≡ length xs
  -- `fmt.Sprintf("%.<p>f", f)`
  pub print : ℤ → F → Bytes

module _ {F : Type 0} (o : Sums F) where
  -- `math.Round(f*shift) / shift`
  abbrev pub rounded : F → F → F
  rounded shift f = o.floats.div (o.floats.round (o.floats.mul f shift)) shift

  -- The differences between consecutive breakpoints, up to the total.
  unfoldable pub differences : F → F → F → List F → List F
  differences shift total prev [] = rounded shift (o.sub total prev) ∷ []
  differences shift total prev (b ∷ breaks) =
      rounded shift (o.sub b prev) ∷ differences shift total b breaks

  unfoldable pub sum_from : F → List F → F
  sum_from acc [] = acc
  sum_from acc (v ∷ vs) = sum_from (o.floats.add acc v) vs

  -- `parts[n-1] += residual`
  unfoldable pub add_to_last : F → List F → List F
  add_to_last r [] = []
  add_to_last r (v ∷ []) = o.floats.add v r ∷ []
  add_to_last r (v ∷ w ∷ vs) = v ∷ add_to_last r (w ∷ vs)

  unfoldable pub corrected : F → F → List F → List F
  unfolding sum_from add_to_last
  corrected shift total parts =
      add_to_last (rounded shift (o.sub total (sum_from o.nothing parts))) parts

  module _ {S : Type 0} (uniform : S → F × S) where
    -- `breaks[i] = random.Rng.Float64() * total`
    unfoldable pub draw_breaks : F → ℕ → S → List F × S
    draw_breaks total zero s = ([], s)
    draw_breaks total (suc n) s =
        let (u, s') = uniform s in
        let (bs, s'') = draw_breaks total n s' in (o.floats.mul u total ∷ bs, s'')

  module _ (g : Rng) (uniform : g.State → F × g.State) where
    unfoldable pub draw_parts : F → F → ℕ → Steps RandError (Draws g.State) (List F)
    unfolding draw_breaks differences corrected
    draw_parts shift total zero d = (ok [], d)
    draw_parts shift total (suc zero) d = (ok (rounded shift total ∷ []), d)
    draw_parts shift total (suc (suc n)) d =
        let (breaks, s) = draw_breaks uniform total (suc n) d.rng in
        (
          ok (corrected shift total (differences shift total o.nothing (o.sort breaks))),
          record d { rng = s },
        )

    pub parts_of : F → F → ℤ → Steps RandError (Draws g.State) (List F)
    unfolding draw_parts
    parts_of shift total (pos n) = draw_parts shift total n
    parts_of shift total (negsuc n) = lift (err (panicked bad_argument))

    -- `distributeSum` for converted arguments: the parts before they are printed.
    unfoldable pub distributed_parts : F → ℤ → ℤ → ℤ → Steps RandError (Draws g.State) (List F)
    unfolding draw_count parts_of
    distributed_parts total lo hi precision d = elim (ltb_ℤ lo (pos 1)) [
      | true ↦ (err too_few_parts, d)
      | false ↦ elim (ltb_ℤ hi lo) [
        | true ↦ (err bad_part_range, d)
        | false ↦ elim (o.floats.at_most total o.nothing) [
          | true ↦ (err not_positive, d)
          | false ↦ elim (ltb_ℤ lo hi) [
            | true ↦ (draw_count g lo hi >>= parts_of (o.floats.power_of_ten precision) total) d
            | false ↦ parts_of (o.floats.power_of_ten precision) total lo d
          ]
        ]
      ]
    ]

    unfoldable pub distribute_sum :
        {I O : Type 0}
        → Formats F I O
        → Value F I O
        → Value F I O
        → Value F I O
        → Value F I O
        → Steps RandError (Draws g.State) Bytes
    unfolding float_arg int_arg distributed_parts
    distribute_sum formats raw_total raw_lo raw_hi raw_precision = do
      total ← float_arg g formats raw_total
      lo ← int_arg g formats raw_lo
      hi ← int_arg g formats raw_hi
      p ← int_arg g formats raw_precision
      parts ← distributed_parts total lo hi p
      return (join (map (o.print p) parts) (b',' ∷ []))
