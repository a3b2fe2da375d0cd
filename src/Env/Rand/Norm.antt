-- ===== src/Env/Rand/Norm.antt =====
-- `normRand`, `normRandF` and `normRandN` (pkg/env/rand.go).
use edg.Prelude.{[], ◌∷◌, none, some, ok, err}
use edg.Prelude.Int.{ℤ, pos}
use edg.Prelude.Random.{Rng}
use edg.Prelude.Steps.{Steps, ◌>>=◌, return, lift}
use edg.Prelude.Text.{Bytes}
use edg.Convert.{Value, int, Formats, to_float_value}
use edg.Env.Rand.{RandError, not_float, out_of_range, Draws, unique, joined, int_arg, draw_count}
use edg.Gen.Random.{Floats, norm}

module _ {F I O : Type 0} (g : Rng) (formats : Formats F I O) where
  unfoldable pub float_arg : Value F I O → Steps RandError (Draws g.State) F
  float_arg v = lift (elim (to_float_value formats v) [ ok f ↦ ok f | err e ↦ err (not_float e) ])

  module _ (floats : Floats F) (normal : g.State → F × g.State) where
    -- `random.Norm`
    pub clamped_norm : F → F → F → F → ℤ → Steps RandError (Draws g.State) F
    unfolding norm
    clamped_norm mean stddev lo hi precision d =
        let (found, s) = norm floats normal mean stddev lo hi (precision ∷ []) d.rng in
        (elim found [ none ↦ err out_of_range | some f ↦ ok f ], record d { rng = s })

    unfoldable pub norm_rand_f :
        Value F I O
        → Value F I O
        → Value F I O
        → Value F I O
        → Value F I O
        → Steps RandError (Draws g.State) F
    unfolding float_arg int_arg clamped_norm
    norm_rand_f raw_mean raw_stddev raw_lo raw_hi raw_precision = do
      mean ← float_arg raw_mean
      stddev ← float_arg raw_stddev
      lo ← float_arg raw_lo
      hi ← float_arg raw_hi
      precision ← int_arg g formats raw_precision
      clamped_norm mean stddev lo hi precision

    unfoldable pub norm_rand :
        Value F I O → Value F I O → Value F I O → Value F I O → Steps RandError (Draws g.State) F
    unfolding norm_rand_f
    norm_rand raw_mean raw_stddev raw_lo raw_hi =
        norm_rand_f raw_mean raw_stddev raw_lo raw_hi (int (pos 0))

    -- `normRandN`, with the printing of a float by `%g`
    unfoldable pub norm_rand_n :
        (F → Bytes)
        → Value F I O
        → Value F I O
        → Value F I O
        → Value F I O
        → Value F I O
        → Value F I O
        → Steps RandError (Draws g.State) Bytes
    unfolding int_arg draw_count unique norm_rand
    norm_rand_n print raw_mean raw_stddev raw_lo raw_hi raw_min_n raw_max_n = do
      min_n ← int_arg g formats raw_min_n
      max_n ← int_arg g formats raw_max_n
      n ← draw_count g min_n max_n
      entries ←
          unique formats.same_float (λ v. ok (print v))
            (norm_rand raw_mean raw_stddev raw_lo raw_hi) n
      return (joined entries)
