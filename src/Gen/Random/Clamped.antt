-- ===== src/Gen/Random/Clamped.antt =====
-- The proofs on `clampedSample` (pkg/random/random.go).
use edg.Prelude.{
  ℕ, zero, suc, List, [], ◌∷◌, Option, none, some, ◌&&◌, if◌then◌else◌, ◌≡◌, refl, Bool-cases, inl,
  inr,
}
use edg.Prelude.Int.{ℤ}
use edg.Gen.Random.{Floats, clamped, clamped_sample, max_iter}

module _ {F S : Type 0} (f : Floats F) (shift : F) (sample : S → F × S) where
  -- The first `n` samples, rounded.
  unfoldable pub samples : ℕ → S → List F
  samples zero s = []
  samples (suc n) s = let (v, s') = sample s in f.div (f.round (f.mul v shift)) shift ∷ samples n s'

abbrev pub first_within : {F : Type 0} → Floats F → F → F → List F → Option F
first_within f lo hi [] = none
first_within f lo hi (v ∷ vs) =
    if f.at_most lo v && f.at_most v hi then some v else first_within f lo hi vs

module _ {F S : Type 0} (f : Floats F) (lo hi shift : F) (sample : S → F × S) where
  clamped-first :
      (n : ℕ) (s : S)
      → (clamped f n lo hi shift sample s).0 ≡ first_within f lo hi (samples f shift sample n s)
  unfolding clamped samples
  clamped-first zero s = refl
  clamped-first (suc n) s =
      let (v, s') = sample s in
      let rounded = f.div (f.round (f.mul v shift)) shift in
      elim (Bool-cases (f.at_most lo rounded && f.at_most rounded hi)) [
        | inl within ↦ rw (within, clamped) refl
        | inr beyond ↦ rw (beyond, clamped) (clamped-first n s')
      ]

-- A clamped sample is the first of `MaxIter` samples that lies between the bounds once it is rounded,
-- and an error if none of them does.
pub clamped_sample-first :
    {F S : Type 0} (f : Floats F) (lo hi : F) (precision : ℤ) (sample : S → F × S) (s : S)
    → (clamped_sample f lo hi precision sample s).0
      ≡ first_within f lo hi (samples f (f.power_of_ten precision) sample max_iter s)
unfolding clamped_sample
clamped_sample-first f lo hi precision sample s =
    clamped-first f lo hi (f.power_of_ten precision) sample max_iter s
