-- ===== src/Env/Rand/Distribute/Parts.antt =====
-- The proofs on `distributeSum` (pkg/env/rand.go).
use edg.Prelude.{
  ℕ, zero, suc, ◌^◌, ◌≤◌, ◌<◌, List, [], ◌∷◌, false, length, ok, ◌≡◌, refl, ap, ◌∙◌, arith,
  Bool-cases, inl, inr,
}
use edg.Prelude.Int.{ℤ, pos, ltb_ℤ}
use edg.Prelude.Random.{Rng}
use edg.Env.Rand.{Draws}
use edg.Env.Rand.Distribute.{
  Sums, rounded, differences, add_to_last, corrected, draw_breaks, draw_parts, parts_of,
  distributed_parts,
}
use edg.Env.Rand.Nurand.{draw_count-Between}

module _ {F : Type 0} (o : Sums F) where
  length-differences :
      (shift total prev : F) (bs : List F)
      → length (differences o shift total prev bs) ≡ suc (length bs)
  unfolding differences
  length-differences shift total prev [] = refl
  length-differences shift total prev (b ∷ bs) = ap suc (length-differences shift total b bs)

  length-add_to_last : (r : F) (xs : List F) → length (add_to_last o r xs) ≡ length xs
  unfolding add_to_last
  length-add_to_last r [] = refl
  length-add_to_last r (v ∷ []) = refl
  length-add_to_last r (v ∷ w ∷ vs) = ap suc (length-add_to_last r (w ∷ vs))

module _ {F : Type 0} (o : Sums F) (g : Rng) (uniform : g.State → F × g.State) where
  length-draw_breaks :
      (total : F) (n : ℕ) (s : g.State) → length (draw_breaks o uniform total n s).0 ≡ n
  unfolding draw_breaks
  length-draw_breaks total zero s = refl
  length-draw_breaks total (suc n) s = ap suc (length-draw_breaks total n (uniform s).1)

  draw_parts-length :
      (shift total : F) (n : ℕ) (d : Draws g.State)
      → (parts : List F) × (d' : Draws g.State) × (draw_parts o g uniform shift total n d
          ≡ (ok parts, d'))
        × (length parts ≡ n)
  unfolding draw_parts corrected
  draw_parts-length shift total zero d = ([], d, refl, refl)
  draw_parts-length shift total (suc zero) d = (rounded o shift total ∷ [], d, refl, refl)
  draw_parts-length shift total (suc (suc n)) d =
      let (breaks, s) = draw_breaks o uniform total (suc n) d.rng in
      let parts = differences o shift total o.nothing (o.sort breaks) in
      (
        corrected o shift total parts,
        record d { rng = s },
        refl,
        length-add_to_last o _ parts
            ∙ length-differences o shift total o.nothing (o.sort breaks)
            ∙ ap suc (o.length-sort breaks ∙ length-draw_breaks total (suc n) d.rng),
      )

  -- For a positive total and 1 <= minN <= maxN < 2^61, `distributeSum` does not fail, and the number
  -- of its parts is between minN and maxN.
  pub distributed_parts-length :
      (total : F) (lo hi : ℕ) (precision : ℤ) (d : Draws g.State)
      → o.floats.at_most total o.nothing ≡ false
      → 1 ≤ lo
      → lo ≤ hi
      → hi < 2 ^ 61
      → (parts : List F) × (d' : Draws g.State) × (distributed_parts o g uniform total
            (pos lo)
            (pos hi)
            precision
            d
          ≡ (ok parts, d'))
        × (lo ≤ length parts)
        × (length parts ≤ hi)
  unfolding distributed_parts parts_of
  distributed_parts-length total lo hi precision d positive one lo_hi small =
      let shift = o.floats.power_of_ten precision in
      let enough : ltb_ℤ (pos lo) (pos 1) ≡ false = ground arith in
      let ordered : ltb_ℤ (pos hi) (pos lo) ≡ false = ground arith in
      elim (Bool-cases (ltb_ℤ (pos lo) (pos hi))) [
        | inl wide ↦
            let (n, s, counted, lower, upper) = draw_count-Between g lo hi d lo_hi small in
            let (parts, d', made, size) =
              draw_parts-length shift total n (record { nurand_c = d.nurand_c; rng = s }) in
            (
              parts,
              d',
              rw (enough, distributed_parts) (rw ordered (rw positive (rw wide (rw counted made)))),
              omega arith,
              omega arith,
            )
        | inr narrow ↦
            let (parts, d', made, size) = draw_parts-length shift total lo d in
            (
              parts,
              d',
              rw (enough, distributed_parts) (rw ordered (rw positive (rw narrow made))),
              omega arith,
              omega arith,
            )
      ]
