-- ===== src/Gen/Random/Times.antt =====
-- The proofs on times, durations and clamped samples (pkg/random/random.go).
use edg.Prelude.{
  ℕ, suc, ◌+◌, ◌-◌, ◌^◌, ◌<◌, Bool, true, false, if◌then◌else◌, ok, err, ◌≡◌, refl, ap, ◌∙◌, arith,
  Bool-cases, inl, inr, ◌⊎◌,
}
use edg.Prelude.Int.{ℤ, pos, ◌+ℤ◌, ◌-ℤ◌, ◌≤ℤ◌, same_ℤ, ltb_ℤ, wrap_64, pos_part, neg_part}
use edg.Prelude.Random.{Rng}
use edg.Env.Weighted.{bad_argument, draw}
use edg.Gen.Random.{duration, duration_between, Time, equal, is_after, timestamp_between, timestamp}

-- Integers that are far enough from the ends of an `int64`.
abbrev pub IsSmall : ℤ → Type 0
IsSmall a = (pos_part a < 2 ^ 62) × (neg_part a < 2 ^ 62)

ltb_ℤ-sub :
    (a b : ℤ)
    → IsSmall a
    → IsSmall b
    → ltb_ℤ a b ≡ true
    → (m : ℕ) × (wrap_64 (b -ℤ a) ≡ pos (suc m))
      × (pos_part b + neg_part a ≡ pos_part a + neg_part b + suc m)
unfolding wrap_64 ◌-ℤ◌
ltb_ℤ-sub a b h k less =
    (pos_part b + neg_part a - (pos_part a + neg_part b) - 1, ground arith, ground arith)

add-between :
    (a b : ℤ) (m k : ℕ)
    → IsSmall a
    → IsSmall b
    → pos_part b + neg_part a ≡ pos_part a + neg_part b + suc m
    → k < suc m
    → (a ≤ℤ wrap_64 (a +ℤ pos k)) × (ltb_ℤ (wrap_64 (a +ℤ pos k)) b ≡ true)
unfolding wrap_64 ◌+ℤ◌
add-between a b m k h l gap below = (ground arith, ground arith)

module _ (g : Rng) where
  -- What both a duration and a timestamp do with ordered bounds.
  draw-between :
      (a b : ℤ) (s : g.State)
      → IsSmall a
      → IsSmall b
      → ltb_ℤ a b ≡ true
      → (k : ℕ) × (s' : g.State) × (draw g (wrap_64 (b -ℤ a)) s ≡ (ok k, s'))
        × (a ≤ℤ wrap_64 (a +ℤ pos k))
        × (ltb_ℤ (wrap_64 (a +ℤ pos k)) b ≡ true)
  unfolding draw
  draw-between a b s h k less =
      let (m, is_m, gap) = ltb_ℤ-sub a b h k less in
      let (d, s') = g.int_n (suc m) s in
      let (lower, upper) = add-between a b m d h k gap (g.int_n_lt (suc m) s (omega arith)) in
      (d, s', rw is_m refl, lower, upper)

  duration_between-lt :
      (a b : ℤ) (s : g.State)
      → IsSmall a
      → IsSmall b
      → ltb_ℤ a b ≡ true
      → (v : ℤ) × (s' : g.State) × (duration_between g a b s ≡ (ok v, s')) × (a ≤ℤ v) × (v ≤ℤ b)
  unfolding duration_between
  duration_between-lt a b s h k less =
      let (d, s', drawn, lower, upper) = draw-between a b s h k less in
      (
        wrap_64 (a +ℤ pos d),
        s',
        rw (drawn, duration_between) refl,
        lower,
        (let z = upper in ground arith),
      )

  duration-ordered :
      (lo hi : ℤ) (s : g.State) (b : Bool)
      → same_ℤ lo hi ≡ false
      → ltb_ℤ hi lo ≡ b
      → duration g lo hi s ≡ duration_between g (if b then hi else lo) (if b then lo else hi) s
  unfolding duration
  duration-ordered lo hi s b two e =
      rw (two, duration)
        (ap (λ b. duration_between g (if b then hi else lo) (if b then lo else hi) s) e)

  -- `Duration` of any two bounds, in either order, returns a duration that lies between them, both
  -- ends included, and does not panic. (For bounds between -2^62 and 2^62.)
  pub duration-between :
      (lo hi : ℤ) (s : g.State)
      → IsSmall lo
      → IsSmall hi
      → (v : ℤ) × (s' : g.State) × (duration g lo hi s ≡ (ok v, s'))
        × (((lo ≤ℤ v) × (v ≤ℤ hi)) ⊎ ((hi ≤ℤ v) × (v ≤ℤ lo)))
  unfolding duration
  duration-between lo hi s h k = elim (Bool-cases (same_ℤ lo hi)) [
    | inl one ↦ (lo, s, rw (one, duration) refl, ground arith)
    | inr two ↦ elim (Bool-cases (ltb_ℤ hi lo)) [
      | inl swapped ↦
          let (v, s', drawn, lower, upper) = duration_between-lt hi lo s k h swapped in
          (v, s', duration-ordered lo hi s true two swapped ∙ drawn, inr (lower, upper))
      | inr ordered ↦
          let less : ltb_ℤ lo hi ≡ true = ground arith in
          let (v, s', drawn, lower, upper) = duration_between-lt lo hi s h k less in
          (v, s', duration-ordered lo hi s false two ordered ∙ drawn, inl (lower, upper))
    ]
  ]

  timestamp_between-second :
      (lo hi : Time) (s : g.State)
      → IsSmall lo.unix
      → IsSmall hi.unix
      → ltb_ℤ lo.unix hi.unix ≡ true
      → (t : Time) × (s' : g.State) × (timestamp_between g lo hi s ≡ (ok t, s'))
        × (t.nanos ≡ 0)
        × (lo.unix ≤ℤ t.unix)
        × (ltb_ℤ t.unix hi.unix ≡ true)
  unfolding timestamp_between
  timestamp_between-second lo hi s h k less =
      let (d, s', drawn, lower, upper) = draw-between lo.unix hi.unix s h k less in
      (
        record { unix = wrap_64 (lo.unix +ℤ pos d); nanos = 0 },
        s',
        rw (drawn, timestamp_between) refl,
        refl,
        lower,
        upper,
      )

  timestamp_between-panics :
      (lo hi : Time) (s : g.State)
      → same_ℤ lo.unix hi.unix ≡ true
      → timestamp_between g lo hi s ≡ (err bad_argument, s)
  unfolding timestamp_between draw wrap_64 ◌-ℤ◌
  timestamp_between-panics lo hi s h =
      let no_difference : wrap_64 (hi.unix -ℤ lo.unix) ≡ pos 0 = ground arith in
      rw no_difference refl

  timestamp-ordered :
      (lo hi : Time) (s : g.State) (b : Bool)
      → equal lo hi ≡ false
      → is_after lo hi ≡ b
      → timestamp g lo hi s ≡ timestamp_between g (if b then hi else lo) (if b then lo else hi) s
  unfolding timestamp
  timestamp-ordered lo hi s b two e =
      rw (two, timestamp)
        (ap (λ b. timestamp_between g (if b then hi else lo) (if b then lo else hi) s) e)

  -- `Timestamp` of two equal times is the first; of two times in different seconds it is a whole
  -- second that is not before the earlier second and is before the later one, whichever of the times
  -- comes first; and of two different times in the same second it panics. (For seconds between -2^62
  -- and 2^62.)
  pub timestamp-between :
      (lo hi : Time) (s : g.State)
      → IsSmall lo.unix
      → IsSmall hi.unix
      → ((equal lo hi ≡ true) × (timestamp g lo hi s ≡ (ok lo, s)))
        ⊎ (((equal lo hi ≡ false)
              × (same_ℤ lo.unix hi.unix ≡ true)
              × (timestamp g lo hi s ≡ (err bad_argument, s)))
            ⊎ ((t : Time) × (s' : g.State) × (timestamp g lo hi s ≡ (ok t, s'))
                × (t.nanos ≡ 0)
                × (((lo.unix ≤ℤ t.unix) × (ltb_ℤ t.unix hi.unix ≡ true))
                    ⊎ ((hi.unix ≤ℤ t.unix) × (ltb_ℤ t.unix lo.unix ≡ true)))))
  unfolding timestamp
  timestamp-between lo hi s h k = elim (Bool-cases (equal lo hi)) [
    | inl one ↦ inl (one, rw (one, timestamp) refl)
    | inr two ↦ elim (Bool-cases (same_ℤ lo.unix hi.unix)) [
      | inl second ↦
          let flipped : same_ℤ hi.unix lo.unix ≡ true = ground arith in
          inr (
            inl (
              two,
              second,
              elim (Bool-cases (is_after lo hi)) [
                | inl after ↦
                    timestamp-ordered lo hi s true two after
                    ∙ timestamp_between-panics hi lo s flipped
                | inr before ↦
                    timestamp-ordered lo hi s false two before
                    ∙ timestamp_between-panics lo hi s second
              ],
            ))
      | inr seconds ↦ elim (Bool-cases (is_after lo hi)) [
        | inl after ↦
            let less : ltb_ℤ hi.unix lo.unix ≡ true = ground arith in
            let (t, s', drawn, whole, lower, upper) = timestamp_between-second hi lo s k h less in
            inr (
              inr (
                t,
                s',
                timestamp-ordered lo hi s true two after ∙ drawn,
                whole,
                inr (lower, upper),
              ))
        | inr before ↦
            let less : ltb_ℤ lo.unix hi.unix ≡ true = ground arith in
            let (t, s', drawn, whole, lower, upper) = timestamp_between-second lo hi s h k less in
            inr (
              inr (
                t,
                s',
                timestamp-ordered lo hi s false two before ∙ drawn,
                whole,
                inl (lower, upper),
              ))
      ]
    ]
  ]
