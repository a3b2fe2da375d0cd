-- ===== src/Gen/Random.antt =====
-- pkg/random/random.go: the samples between bounds. The random generator is a parameter, and the
-- operations on floating point numbers are the fields of `Floats`.
pub mod Bits
pub mod DayTimes
pub mod Times
pub mod Clamped
use edg.Prelude.{
  ℕ, zero, suc, ◌+◌, ◌-◌, ◌*◌, ◌/◌, ◌%◌, List, [], ◌∷◌, ◌++◌, Option, none, some, Bool, true, false,
  ◌&&◌, ◌||◌, ltb, ◌==◌, ◌<◌, if◌then◌else◌, map, Result, ok, err, ◌≡◌,
}
use edg.Prelude.Int.{ℤ, pos, negsuc, ◌+ℤ◌, ◌-ℤ◌, ltb_ℤ, same_ℤ, wrap_64}
use edg.Prelude.Random.{Rng}
use edg.Prelude.Text.{Bytes, show_nat}
use edg.Convert.Encoding.{encode_hex}
use edg.Env.Weighted.{Panic, bad_argument, draw}

abbrev pub max_iter : ℕ
max_iter = 10_000

abbrev pub bit_char : ℕ → ℕ
bit_char b = b'0' + b

-- The loops that fill a slice of `n` elements; `make` panics for a negative `n`.
module _ (g : Rng) where
  unfoldable pub draws : ℕ → ℕ → g.State → List ℕ × g.State
  draws bound zero s = ([], s)
  draws bound (suc n) s =
      let (b, s') = g.int_n bound s in let (bs, s'') = draws bound n s' in (b ∷ bs, s'')

  -- `Blob`
  unfoldable pub blob : ℤ → g.State → Result Panic Bytes × g.State
  unfolding draws
  blob (negsuc n) s = (err bad_argument, s)
  blob (pos n) s = let (bs, s') = draws 256 n s in (ok bs, s')

  -- `Bytes`
  unfoldable pub bytes : ℤ → g.State → Result Panic Bytes × g.State
  unfolding draws
  bytes (negsuc n) s = (err bad_argument, s)
  bytes (pos n) s = let (bs, s') = draws 256 n s in (ok (b'\\' ∷ b'x' ∷ encode_hex bs), s')

  -- `Bit`
  unfoldable pub bit : ℤ → g.State → Result Panic Bytes × g.State
  unfolding draws
  bit (negsuc n) s = (err bad_argument, s)
  bit (pos n) s = let (bs, s') = draws 2 n s in (ok (map bit_char bs), s')

  -- `VarBit`
  unfoldable pub var_bit : ℤ → g.State → Result Panic Bytes × g.State
  unfolding bit
  var_bit (pos (suc n)) s = let (k, s') = g.int_n (suc n) s in bit (pos (1 + k)) s'
  var_bit n s = (ok [], s)

  unfoldable pub duration_between : ℤ → ℤ → g.State → Result Panic ℤ × g.State
  unfolding draw
  duration_between lo hi s =
      let (r, s') = draw g (wrap_64 (hi -ℤ lo)) s in
      (elim r [ ok d ↦ ok (wrap_64 (lo +ℤ pos d)) | err p ↦ err p ], s')

  -- `Duration`, of `int64` nanoseconds
  unfoldable pub duration : ℤ → ℤ → g.State → Result Panic ℤ × g.State
  unfolding duration_between
  duration lo hi s =
      if same_ℤ lo hi
      then (ok lo, s)
      else duration_between (if ltb_ℤ hi lo then hi else lo) (if ltb_ℤ hi lo then lo else hi) s

-- A `time.Time`: the seconds of `Unix()`, and the nanoseconds after them.
pub record Time : Type 0 where
  pub unix : ℤ
  pub nanos : ℕ

-- `t.Equal(u)` and `t.After(u)`
abbrev pub equal : Time → Time → Bool
equal t u = same_ℤ t.unix u.unix && (t.nanos == u.nanos)

abbrev pub is_after : Time → Time → Bool
is_after t u = ltb_ℤ u.unix t.unix || (same_ℤ t.unix u.unix && ltb u.nanos t.nanos)

module _ (g : Rng) where
  unfoldable pub timestamp_between : Time → Time → g.State → Result Panic Time × g.State
  unfolding draw
  timestamp_between lo hi s =
      let (r, s') = draw g (wrap_64 (hi.unix -ℤ lo.unix)) s in
      (
        elim r [
          | ok d ↦ ok (record { unix = wrap_64 (lo.unix +ℤ pos d); nanos = 0 })
          | err p ↦ err p
        ],
        s',
      )

  -- `Timestamp`
  unfoldable pub timestamp : Time → Time → g.State → Result Panic Time × g.State
  unfolding timestamp_between
  timestamp lo hi s =
      if equal lo hi
      then (ok lo, s)
      else timestamp_between (if is_after lo hi then hi else lo) (if is_after lo hi then lo else hi)
          s

-- `time.Parse("15:04:05", s)`: the hour, the minute and the second of a text in that format.
pub record Clock : Type 0 where
  pub parse : Bytes → Option (ℕ × ℕ × ℕ)
  pub parse_within :
      (s : Bytes) (h m z : ℕ) → parse s ≡ some (h, m, z) → (h < 24) × (m < 60) × (z < 60)

pub data TimeError : Type 0 where
  bad_min bad_max : TimeError

-- `%02d`
unfoldable pub two_digits : ℕ → Bytes
two_digits n = if ltb n 10 then b'0' ∷ show_nat n else show_nat n

unfoldable pub show_time : ℕ → Bytes
unfolding two_digits
show_time n =
    two_digits (n / 3600) ++ b':' ∷ (two_digits (n % 3600 / 60) ++ b':' ∷ two_digits (n % 60))

unfoldable pub parse_time_of_day : Clock → Bytes → Option ℕ
parse_time_of_day clock s = elim (clock.parse s) [
  | none ↦ none
  | some (h, m, z) ↦ some (h * 3600 + m * 60 + z)
]

unfoldable pub second_between : (g : Rng) → ℕ → ℕ → g.State → ℕ × g.State
second_between g lo hi s =
    let (d, s') = g.int_n (hi - lo + 1) s in if ltb lo hi then (lo + d, s') else (lo, s)

-- `TimeOfDay`
unfoldable pub time_of_day :
    Clock → (g : Rng) → Bytes → Bytes → g.State → Result TimeError Bytes × g.State
unfolding parse_time_of_day second_between show_time
time_of_day clock g min_text max_text s = elim (parse_time_of_day clock min_text) [
  | none ↦ (err bad_min, s)
  | some lo ↦ elim (parse_time_of_day clock max_text) [
    | none ↦ (err bad_max, s)
    | some hi ↦
        let (z, s') =
          second_between g (if ltb hi lo then hi else lo) (if ltb hi lo then lo else hi) s in
        (ok (show_time z), s')
  ]
]

unfoldable pub opt_precision : List ℤ → ℤ
opt_precision [] = pos 0
opt_precision (p ∷ ps) = p

-- The operations on floats that a clamped sample uses.
pub record Floats (F : Type 0) : Type 0 where
  pub add : F → F → F
  pub mul : F → F → F
  pub div : F → F → F
  pub round : F → F
  -- `math.Exp`
  pub exp : F → F
  -- `math.Pow(10, float64(i))`
  pub power_of_ten : ℤ → F
  pub at_most : F → F → Bool

module _ {F S : Type 0} (f : Floats F) where
  open f use {add, mul, div, round, exp, power_of_ten, at_most}

  -- The rounds of `clampedSample`: none once they have run out.
  unfoldable pub clamped : ℕ → F → F → F → (S → F × S) → S → Option F × S
  clamped zero lo hi shift sample s = (none, s)
  clamped (suc n) lo hi shift sample s =
      let (v, s') = sample s in
      let rounded = div (round (mul v shift)) shift in
      elim (at_most lo rounded && at_most rounded hi) [
        | true ↦ (some rounded, s')
        | false ↦ clamped n lo hi shift sample s'
      ]

  unfoldable pub clamped_sample : F → F → ℤ → (S → F × S) → S → Option F × S
  unfolding clamped
  clamped_sample lo hi precision sample s = clamped max_iter lo hi (power_of_ten precision) sample s

  -- `Norm`, with `Rng.NormFloat64`
  unfoldable pub norm : (S → F × S) → F → F → F → F → List ℤ → S → Option F × S
  unfolding opt_precision clamped_sample
  norm normal mean stddev lo hi precision =
      clamped_sample lo hi (opt_precision precision)
        (λ s. let (z, s') = normal s in (add mean (mul stddev z), s'))

  -- `Exp`, with `Rng.ExpFloat64`
  unfoldable pub exponential : (S → F × S) → F → F → F → List ℤ → S → Option F × S
  unfolding opt_precision clamped_sample
  exponential draw_exp rate lo hi precision =
      clamped_sample lo hi (opt_precision precision)
        (λ s. let (z, s') = draw_exp s in (div z rate, s'))

  -- `LogNorm`
  unfoldable pub log_norm : (S → F × S) → F → F → F → F → List ℤ → S → Option F × S
  unfolding opt_precision clamped_sample
  log_norm normal mu sigma lo hi precision =
      clamped_sample lo hi (opt_precision precision)
        (λ s. let (z, s') = normal s in (exp (add mu (mul sigma z)), s'))
