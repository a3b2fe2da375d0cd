-- ===== src/Gen/Random/DayTimes.antt =====
-- The proofs on `TimeOfDay` (pkg/random/random.go).
use edg.Prelude.{
  ℕ, zero, suc, ◌+◌, ◌-◌, ◌*◌, ◌/◌, ◌%◌, ◌≤◌, ◌<◌, [], ◌∷◌, Option, none, some, true, false, ltb,
  ◌==◌, ◌&&◌, if◌then◌else◌, ok, ◌≡◌, refl, sym, ap, ◌∙◌, arith, Bool-cases, Option-cases, inl, inr,
  ◌⊎◌,
}
use edg.Prelude.Random.{Rng}
use edg.Prelude.Text.{Bytes, show_nat, digits}
use edg.Gen.Random.{Clock, two_digits, show_time, parse_time_of_day, second_between, time_of_day}

-- The seconds of a text HH:MM:SS.
abbrev pub digit_pair : ℕ → ℕ → ℕ
digit_pair a b = (a - b'0') * 10 + (b - b'0')

abbrev pub read_time : Bytes → Option ℕ
read_time (a ∷ b ∷ c ∷ d ∷ e ∷ f ∷ g ∷ h ∷ []) =
    if (c == b':') && (f == b':')
    then some (digit_pair a b * 3600 + digit_pair d e * 60 + digit_pair g h)
    else none
read_time s = none

digits-one : (fuel n : ℕ) (out : Bytes) → n < 10 → digits fuel n out ≡ (b'0' + n) ∷ out
unfolding digits
digits-one zero n out h = ap (λ k. (b'0' + k) ∷ out) (omega arith)
digits-one (suc fuel) n out h = (let small : ltb n 10 ≡ true = ground arith in rw small refl)

show_nat-two :
    (n : ℕ) → n < 100 → ltb n 10 ≡ false → show_nat n ≡ (b'0' + n / 10) ∷ (b'0' + n % 10) ∷ []
unfolding show_nat digits
show_nat-two zero h k = cc
show_nat-two (suc n) h k =
    rw (k, show_nat) (digits-one n (suc n / 10) ((b'0' + suc n % 10) ∷ []) (omega arith))

two_digits-pair : (n : ℕ) → n < 100 → two_digits n ≡ (b'0' + n / 10) ∷ (b'0' + n % 10) ∷ []
unfolding two_digits show_nat
two_digits-pair n h = elim (Bool-cases (ltb n 10)) [
  | inl one ↦
      rw (one, two_digits)
        (ap (λ s. b'0' ∷ s) (digits-one n n [] (let k = one in ground arith))
          ∙ (let k = one in
              let tens : 0 ≡ n / 10 = ground arith in
              let units : n ≡ n % 10 = ground arith in
              ap (λ (p : ℕ × ℕ). (b'0' + p.0) ∷ (b'0' + p.1) ∷ []) (λ i. (tens i, units i))))
  | inr two ↦ rw (two, two_digits) (show_nat-two n h two)
]

read_time-show_time : (n : ℕ) → n < 86400 → read_time (show_time n) ≡ some n
unfolding show_time
read_time-show_time n h =
    rw
      (
        two_digits-pair (n / 3600) (omega arith),
        two_digits-pair (n % 3600 / 60) (omega arith),
        two_digits-pair (n % 60) (omega arith),
      )
      (ap some (omega arith))

module _ (clock : Clock) (g : Rng) where
  parse_time_of_day-lt : (t : Bytes) (n : ℕ) → parse_time_of_day clock t ≡ some n → n < 86400
  unfolding parse_time_of_day
  parse_time_of_day-lt t n h = elim (Option-cases (clock.parse t)) [
    | inl bad ↦
        (let wrong : ◌≡◌ {A = Option ℕ} none (some n) =
            sym (rw (bad, parse_time_of_day) refl) ∙ h in
          cc)
    | inr ((hour, minute, second), good) ↦
        let (hours, minutes, seconds) = clock.parse_within t hour minute second good in
        let value : ◌≡◌ {A = Option ℕ} (some (hour * 3600 + minute * 60 + second)) (some n) =
          sym (rw (good, parse_time_of_day) refl) ∙ h in
        let sum : hour * 3600 + minute * 60 + second ≡ n = cc in omega arith
  ]

  second_between-le :
      (lo hi : ℕ) (s : g.State)
      → lo ≤ hi
      → (lo ≤ (second_between g lo hi s).0) × ((second_between g lo hi s).0 ≤ hi)
  unfolding second_between
  second_between-le lo hi s h = let below = g.int_n_lt (hi - lo + 1) s (omega arith) in ground arith

  -- For two texts that are times of a day, in either order, `TimeOfDay` returns a text HH:MM:SS of a
  -- second that lies between them, both ends included.
  pub time_of_day-between :
      (min_text max_text : Bytes) (lo hi : ℕ) (s : g.State)
      → parse_time_of_day clock min_text ≡ some lo
      → parse_time_of_day clock max_text ≡ some hi
      → (t : Bytes) × (n : ℕ) × (s' : g.State) × (time_of_day clock g min_text max_text s
          ≡ (ok t, s'))
        × (read_time t ≡ some n)
        × (((lo ≤ n) × (n ≤ hi)) ⊎ ((hi ≤ n) × (n ≤ lo)))
  unfolding time_of_day
  time_of_day-between min_text max_text lo hi s a b =
      let lo_small = parse_time_of_day-lt min_text lo a in
      let hi_small = parse_time_of_day-lt max_text hi b in
      let low = if ltb hi lo then hi else lo in
      let high = if ltb hi lo then lo else hi in
      let (lower, upper) = second_between-le low high s (ground arith) in
      let n = (second_between g low high s).0 in
      (
        show_time n,
        n,
        (second_between g low high s).1,
        rw (a, time_of_day) (rw b refl),
        read_time-show_time n (ground arith),
        ground arith,
      )
