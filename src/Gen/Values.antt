-- ===== src/Gen/Values.antt =====
-- pkg/gen/gen.go: the functions of expressions that convert their arguments and draw random values.
-- Parsing and printing of times and durations are parameters.
pub mod Ltree
use edg.Prelude.{
  ℕ, zero, suc, ◌+◌, List, [], ◌∷◌, ◌++◌, map, Option, none, some, Bool, true, false, ◌&&◌, ◌||◌,
  leb, ltb, ◌==◌, if◌then◌else◌, Result, ok, err,
}
use edg.Prelude.Int.{ℤ, pos, negsuc, ◌+ℤ◌, ◌-ℤ◌, wrap_64}
use edg.Prelude.Random.{Rng}
use edg.Prelude.Steps.{Steps, ◌>>=◌, return, lift}
use edg.Prelude.Text.{Bytes, codes, join}
use edg.Convert.{Value, int, nil, Formats, ConvertError, to_int_value, to_float_value, wrap_braces}
use edg.Env.Weighted.{Panic, bad_argument, draw}
use edg.Gen.Random.{
  bytes, blob, bit, var_bit, duration, Time, timestamp, Clock, TimeError, time_of_day, Floats,
  exponential, log_norm,
}

pub data GenError : Type 0 where
  not_int not_float : ConvertError → GenError
  panicked : Panic → GenError
  bad_time : TimeError → GenError
  -- the errors of `random.Exp` and `random.LogNorm`
  out_of_range : GenError
  bad_bound no_parts : GenError

module _ {S A : Type 0} where
  pub or_panic : (S → Result Panic A × S) → Steps GenError S A
  or_panic f s = let (r, s') = f s in (elim r [ ok a ↦ ok a | err p ↦ err (panicked p) ], s')

  pub or_out_of_range : (S → Option A × S) → Steps GenError S A
  or_out_of_range f s =
      let (r, s') = f s in (elim r [ some a ↦ ok a | none ↦ err out_of_range ], s')

  pub or_bad_time : (S → Result TimeError A × S) → Steps GenError S A
  or_bad_time f s = let (r, s') = f s in (elim r [ ok a ↦ ok a | err e ↦ err (bad_time e) ], s')

module _ {F I O : Type 0} (formats : Formats F I O) where
  pub int_of : Value F I O → Result GenError ℤ
  int_of v = elim (to_int_value formats v) [ ok i ↦ ok i | err e ↦ err (not_int e) ]

  pub float_of : Value F I O → Result GenError F
  float_of v = elim (to_float_value formats v) [ ok f ↦ ok f | err e ↦ err (not_float e) ]

  module _ (g : Rng) where
    unfoldable pub gen_bytes : Value F I O → Steps GenError g.State Bytes
    unfolding int_of or_panic bytes
    gen_bytes raw_n = do n ← lift (int_of raw_n); or_panic (bytes g n)

    unfoldable pub gen_blob : Value F I O → Steps GenError g.State Bytes
    unfolding int_of or_panic blob
    gen_blob raw_n = do n ← lift (int_of raw_n); or_panic (blob g n)

    unfoldable pub gen_bit : Value F I O → Steps GenError g.State Bytes
    unfolding int_of or_panic bit
    gen_bit raw_n = do n ← lift (int_of raw_n); or_panic (bit g n)

    unfoldable pub gen_var_bit : Value F I O → Steps GenError g.State Bytes
    unfolding int_of or_panic var_bit
    gen_var_bit raw_n = do n ← lift (int_of raw_n); or_panic (var_bit g n)

  module _ {S : Type 0} (floats : Floats F) where
    -- `ExpRandF`, with `Rng.ExpFloat64`
    unfoldable pub exp_rand_f :
        (S → F × S) → Value F I O → Value F I O → Value F I O → Value F I O → Steps GenError S F
    unfolding float_of int_of or_out_of_range exponential
    exp_rand_f draw_exp raw_rate raw_min raw_max raw_precision = do
      rate ← lift (float_of raw_rate)
      lo ← lift (float_of raw_min)
      hi ← lift (float_of raw_max)
      p ← lift (int_of raw_precision)
      or_out_of_range (exponential floats draw_exp rate lo hi (p ∷ []))

    unfoldable pub exp_rand :
        (S → F × S) → Value F I O → Value F I O → Value F I O → Steps GenError S F
    unfolding exp_rand_f
    exp_rand draw_exp raw_rate raw_min raw_max =
        exp_rand_f draw_exp raw_rate raw_min raw_max (int (pos 0))

    -- `LognormRandF`, with `Rng.NormFloat64`
    unfoldable pub lognorm_rand_f :
        (S → F × S)
        → Value F I O
        → Value F I O
        → Value F I O
        → Value F I O
        → Value F I O
        → Steps GenError S F
    unfolding float_of int_of or_out_of_range log_norm
    lognorm_rand_f normal raw_mu raw_sigma raw_min raw_max raw_precision = do
      mu ← lift (float_of raw_mu)
      sigma ← lift (float_of raw_sigma)
      lo ← lift (float_of raw_min)
      hi ← lift (float_of raw_max)
      p ← lift (int_of raw_precision)
      or_out_of_range (log_norm floats normal mu sigma lo hi (p ∷ []))

    unfoldable pub lognorm_rand :
        (S → F × S) → Value F I O → Value F I O → Value F I O → Value F I O → Steps GenError S F
    unfolding lognorm_rand_f
    lognorm_rand normal raw_mu raw_sigma raw_min raw_max =
        lognorm_rand_f normal raw_mu raw_sigma raw_min raw_max (int (pos 0))

pub parsed : {A : Type 0} → Option A → Result GenError A
parsed none = err bad_bound
parsed (some a) = ok a

-- `RandDuration`, with `time.ParseDuration` and `Duration.String`
unfoldable pub rand_duration :
    (g : Rng) → (Bytes → Option ℤ) → (ℤ → Bytes) → Bytes → Bytes → Steps GenError g.State Bytes
unfolding parsed or_panic duration
rand_duration g parse show min_text max_text = do
  lo ← lift (parsed (parse min_text))
  hi ← lift (parsed (parse max_text))
  d ← or_panic (duration g lo hi)
  return (show d)

-- `DateRand`, with `time.Parse` and `UTC().Format(format)`
unfoldable pub date_rand :
    (g : Rng)
    → (Bytes → Option Time)
    → (Time → Bytes)
    → Bytes
    → Bytes
    → Steps GenError g.State Bytes
unfolding parsed or_panic timestamp
date_rand g parse show min_text max_text = do
  lo ← lift (parsed (parse min_text))
  hi ← lift (parsed (parse max_text))
  t ← or_panic (timestamp g lo hi)
  return (show t)

unfoldable pub gen_time : Clock → (g : Rng) → Bytes → Bytes → Steps GenError g.State Bytes
unfolding or_bad_time time_of_day
gen_time clock g min_text max_text = or_bad_time (time_of_day clock g min_text max_text)

unfoldable pub gen_timez : Clock → (g : Rng) → Bytes → Bytes → Steps GenError g.State Bytes
unfolding gen_time
gen_timez clock g min_text max_text = do
  t ← gen_time clock g min_text max_text
  return (t ++ codes "+00:00")

-- `GenLtree`: `[^A-Za-z0-9_.]`
abbrev pub is_ltree : ℕ → Bool
is_ltree c =
    (leb b'A' c && leb c b'Z')
    || ((leb b'a' c && leb c b'z') || ((leb b'0' c && leb c b'9') || ((c == b'_') || (c == b'.'))))

unfoldable pub sanitize : Bytes → Bytes
sanitize [] = []
sanitize (c ∷ s) = (if is_ltree c then c else b'_') ∷ sanitize s

module _ {F I O : Type 0} (sprint : Value F I O → Bytes) where
  add_segment : Bytes → List Bytes → List Bytes
  add_segment [] segments = segments
  add_segment (c ∷ s) segments = (c ∷ s) ∷ segments

  unfoldable pub segments : List (Value F I O) → List Bytes
  unfolding add_segment
  segments [] = []
  segments (nil ∷ parts) = segments parts
  segments (p ∷ parts) = add_segment (sprint p) (segments parts)

pub ltree_path : List Bytes → Result GenError Bytes
unfolding sanitize join
ltree_path [] = err no_parts
ltree_path (s ∷ ss) = ok (sanitize (join (s ∷ ss) (b'.' ∷ [])))

unfoldable pub gen_ltree :
    {F I O : Type 0} → (Value F I O → Bytes) → List (Value F I O) → Result GenError Bytes
unfolding segments ltree_path
gen_ltree sprint parts = ltree_path (segments sprint parts)
