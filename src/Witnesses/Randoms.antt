-- ===== src/Witnesses/Randoms.antt =====
-- The theorems on random values at concrete inputs.
use edg.Prelude.{
  ℕ, ◌+◌, ◌≤◌, ◌<◌, String, List, [], ◌∷◌, Option, none, some, true, false, ltb, ◌&&◌,
  if◌then◌else◌, length, All, ok, err, ◌≡◌, refl, arith, ◌⊎◌,
}
use edg.Prelude.Int.{ℤ, pos, ◌≤ℤ◌, ltb_ℤ, same_ℤ, ◌+ℤ◌, ◌*ℤ◌, quot_ℤ, leb_ℤ}
use edg.Prelude.Random.{counting}
use edg.Prelude.Text.{Bytes, codes, show_int}
use edg.Convert.{Value, int, to_int_value}
use edg.Env.Args.Uniq.Distinct.{AllDistinct}
use edg.Env.Rand.{Draws, exhausted, keys, nu_rands}
use edg.Env.Rand.Nurand.{Between, IsTable, nu_rands-AllDistinct}
use edg.Env.Rand.Sampled.{sample_rows, printed}
use edg.Env.Rand.Sampled.Rows.{IsPicked, sample_rows-AllDistinct}
use edg.Env.Weighted.{bad_argument}
use edg.Gen.Random.{
  Time, equal, timestamp, Clock, parse_time_of_day, time_of_day, Floats, clamped_sample, max_iter,
}
use edg.Gen.Random.DayTimes.{digit_pair, read_time, time_of_day-between}
use edg.Gen.Random.Times.{timestamp-between}
use edg.Gen.Random.Clamped.{samples, first_within, clamped_sample-first}
use edg.Witnesses.Queries.{plain}

abbrev fresh : Draws ℕ
fresh = record { nurand_c = []; rng = 5 }

nu_rands-AllDistinct_example :
    (n : ℕ) × (2 ≤ n)
    × (n ≤ 3)
    × (d' : Draws ℕ) × IsTable d'.nurand_c
    × ((nu_rands counting (pos 255) (pos 1) (pos 9) (pos 2) (pos 3) fresh ≡ (err exhausted, d'))
        ⊎ ((result : List (ℤ × Bytes)) × (nu_rands counting
                (pos 255)
                (pos 1)
                (pos 9)
                (pos 2)
                (pos 3)
                fresh
              ≡ (ok result, d'))
            × (length result ≡ n)
            × AllDistinct (keys result)
            × All (λ (e : ℤ × Bytes). Between 1 9 (e.0) × (e.1 ≡ show_int (e.0))) result))
nu_rands-AllDistinct_example =
    nu_rands-AllDistinct counting 255 1 9 (omega arith) (omega arith) (omega arith) 2 3
      (omega arith) (omega arith) fresh tt

-- A row is its weight.
abbrev weight_cell : String → ℕ → Value ℤ Bytes Bytes
weight_cell name row = int (pos row)

abbrev print_nothing : Value ℤ Bytes Bytes → Bytes
print_nothing v = []

sample_rows-AllDistinct_example :
    (n : ℕ) × (1 ≤ n)
    × (n ≤ 2)
    × (d' : Draws ℕ) × ((sample_rows counting plain print_nothing weight_cell
            (0 ∷ 3 ∷ 1 ∷ [])
            "id"
            "weight"
            (pos 1)
            (pos 2)
            fresh
          ≡ (err exhausted, d'))
        ⊎ ((result : List (ℕ × Bytes)) × (sample_rows counting plain print_nothing weight_cell
                (0 ∷ 3 ∷ 1 ∷ [])
                "id"
                "weight"
                (pos 1)
                (pos 2)
                fresh
              ≡ (ok result, d'))
            × (length result ≡ (if ltb 3 n then 3 else n))
            × AllDistinct (keys result)
            × All
                (λ (e : ℕ × Bytes).
                  IsPicked (0 ∷ 3 ∷ 1 ∷ []) (e.0)
                  × (printed counting plain print_nothing weight_cell (0 ∷ 3 ∷ 1 ∷ []) "id" (e.0)
                      ≡ ok (e.1)))
                result))
unfolding to_int_value
sample_rows-AllDistinct_example =
    sample_rows-AllDistinct counting plain print_nothing weight_cell "id" "weight" (0 ∷ 3 ∷ 1 ∷ [])
      (0 ∷ 3 ∷ 1 ∷ []) (refl, (refl, (refl, tt))) (omega arith) (omega arith) (omega arith) 1 2
      fresh (omega arith) (omega arith)

abbrev checked : Option (ℕ × ℕ × ℕ) → Option (ℕ × ℕ × ℕ)
checked none = none
checked (some (h, m, z)) = if ltb h 24 && (ltb m 60 && ltb z 60) then some (h, m, z) else none

checked_within :
    (o : Option (ℕ × ℕ × ℕ)) (h m z : ℕ)
    → checked o ≡ some (h, m, z)
    → (h < 24) × (m < 60) × (z < 60)
checked_within none h m z e = cc
checked_within (some (a, b, c)) h m z e = ground arith

abbrev fields : Bytes → Option (ℕ × ℕ × ℕ)
fields (a ∷ b ∷ c ∷ d ∷ e ∷ f ∷ g ∷ h ∷ []) = some (digit_pair a b, digit_pair d e, digit_pair g h)
fields s = none

abbrev wall_clock : Clock
wall_clock = record {
  parse = λ s. checked (fields s);
  parse_within = λ s h m z e. checked_within (fields s) h m z e;
}

time_of_day-between_example :
    (t : Bytes) × (n : ℕ) × (s' : ℕ) × (time_of_day wall_clock counting
        (codes "17:30:00")
        (codes "09:00:00")
        7
      ≡ (ok t, s'))
    × (read_time t ≡ some n)
    × (((63000 ≤ n) × (n ≤ 32400)) ⊎ ((32400 ≤ n) × (n ≤ 63000)))
unfolding parse_time_of_day
time_of_day-between_example =
    time_of_day-between wall_clock counting (codes "17:30:00") (codes "09:00:00") 63000 32400 7 refl
      refl

abbrev noon : Time
noon = record { unix = pos 43200; nanos = 500 }

abbrev evening : Time
evening = record { unix = pos 64800; nanos = 0 }

timestamp-between_example :
    ((equal evening noon ≡ true) × (timestamp counting evening noon 9 ≡ (ok evening, 9)))
    ⊎ (((equal evening noon ≡ false)
          × (same_ℤ evening.unix noon.unix ≡ true)
          × (timestamp counting evening noon 9 ≡ (err bad_argument, 9)))
        ⊎ ((t : Time) × (s' : ℕ) × (timestamp counting evening noon 9 ≡ (ok t, s'))
            × (t.nanos ≡ 0)
            × (((evening.unix ≤ℤ t.unix) × (ltb_ℤ t.unix noon.unix ≡ true))
                ⊎ ((noon.unix ≤ℤ t.unix) × (ltb_ℤ t.unix evening.unix ≡ true)))))
timestamp-between_example =
    timestamp-between counting evening noon 9 (omega arith, omega arith) (omega arith, omega arith)

-- Whole numbers for floats.
abbrev whole : Floats ℤ
whole = record {
  add = ◌+ℤ◌;
  mul = ◌*ℤ◌;
  div = quot_ℤ;
  round = λ z. z;
  exp = λ z. z;
  power_of_ten = λ p. pos 1;
  at_most = leb_ℤ;
}

abbrev count_up : ℕ → ℤ × ℕ
count_up s = (pos s, s + 1)

clamped_sample-first_example :
    (clamped_sample whole (pos 3) (pos 5) (pos 0) count_up 0).0
    ≡ first_within whole (pos 3) (pos 5) (samples whole (pos 1) count_up max_iter 0)
clamped_sample-first_example = clamped_sample-first whole (pos 3) (pos 5) (pos 0) count_up 0
