-- ===== src/Env/Rand/Nurand.antt =====
-- The proofs on `nuRand` and `nuRandN` (pkg/env/rand.go).
use Prim.Native.Nat.{two, max, digits, bit_or, bit_or-bitwise}
use edg.Prelude.{
  ℕ, zero, suc, ◌+◌, ◌-◌, ◌/◌, ◌%◌, ◌^◌, ◌≤◌, ◌<◌, List, [], ◌∷◌, Option, some, true, length, All,
  ok, err, ◌≡◌, refl, sym, ap, ◌∙◌, arith, Bool-cases, Option-cases, inl, inr, ◌⊎◌,
}
use mathlib.Core.Path.{subst}
use edg.Prelude.Int.{ℤ, pos, ◌+ℤ◌, ◌-ℤ◌, ◌≤ℤ◌, same_ℤ, wrap_64, wrap_64-add, eq_of_parts}
use edg.Prelude.Random.{Rng}
use edg.Prelude.Text.{Bytes, show_int}
use edg.Env.Args.Uniq.Distinct.{AllDistinct, All-map}
use edg.Env.Rand.{
  exhausted, keys, or_ℤ, Draws, find, drawn, keep_c, get_nurand_c, nurand_value, nu_rand_int,
  draw_count, nu_rands,
}
use edg.Env.Rand.Unique.{unique-IsGood}

digits-max : (n a b : ℕ) → digits (λ z. z) max n a b ≤ a + b
digits-max zero a b = omega arith
digits-max (suc n) zero b = omega arith
digits-max (suc n) (suc a) b = omega (arith, digits-max n (suc a / two) (b / two))

bit_or_sum : (a b : ℕ) → bit_or a b ≤ a + b
bit_or_sum a b =
    let digitwise : bit_or a b ≡ digits (λ z. z) max a a b = bit_or-bitwise a b in
    omega (arith, digits-max a a b)

or_ℤ-pos :
    (r j : ℕ) → r < 2 ^ 61 → j < 2 ^ 61 → (m : ℕ) × (or_ℤ (pos r) (pos j) ≡ pos m) × (m < 2 ^ 62)
unfolding or_ℤ wrap_64
or_ℤ-pos r j h k =
    let below = bit_or_sum (r % 2 ^ 64) (j % 2 ^ 64) in
    (bit_or (r % 2 ^ 64) (j % 2 ^ 64), ground arith, omega arith)

width_eq :
    (x y : ℕ) → x ≤ y → y < 2 ^ 61 → wrap_64 (wrap_64 (pos y -ℤ pos x) +ℤ pos 1) ≡ pos (suc (y - x))
unfolding wrap_64 ◌-ℤ◌ ◌+ℤ◌
width_eq x y h k = ground arith

-- An integer between two natural numbers.
abbrev pub Between : ℕ → ℕ → ℤ → Type 0
Between x y v = (k : ℕ) × (v ≡ pos k) × (x ≤ k) × (k ≤ y)

nurand_value-Between :
    (x y c r k : ℕ)
    → x ≤ y
    → y < 2 ^ 61
    → c < 2 ^ 61
    → r < 2 ^ 61
    → k < suc (y - x)
    → Between x y (nurand_value (pos x) (pos y) (pos (suc (y - x))) (pos c) r k)
unfolding nurand_value
nurand_value-Between x y c r k xy yb cb rb kb =
    let (m, is_m, small) = or_ℤ-pos r (k + x) rb (omega arith) in
    (
      (m + c) % suc (y - x) + x,
      rw (wrap_64-add k x (omega arith), nurand_value)
          (rw is_m (
            rw (wrap_64-add m c (omega arith))
              (wrap_64-add ((m + c) % suc (y - x)) x (omega arith)))),
      omega arith,
      omega arith,
    )

-- Each remembered constant lies between 0 and its `A`.
abbrev pub IsTable : List (ℤ × ℤ) → Type 0
IsTable m = All (λ (e : ℤ × ℤ). (c : ℕ) × (e.1 ≡ pos c) × (pos c ≤ℤ e.0)) m

find-IsTable :
    (a : ℕ) (m : List (ℤ × ℤ)) (c : ℤ) → IsTable m → find (pos a) m ≡ some c → Between 0 a c
unfolding find
find-IsTable a [] c h k = cc
find-IsTable a ((b, c') ∷ m) c h k = elim (Bool-cases (same_ℤ b (pos a))) [
  | inl hit ↦
      let found : ◌≡◌ {A = Option ℤ} (some c') (some c) = sym (rw (hit, find) refl) ∙ k in
      let (n, is_n, small) = h.0 in
      let is_a : b ≡ pos a = eq_of_parts b (pos a) (let z = hit in ground arith) in
      let small_a = subst (λ z. pos n ≤ℤ z) is_a small in
      (n, (let y = found in let z = is_n in cc), omega arith, omega arith)
  | inr miss ↦ find-IsTable a m c h.1 (sym (rw (miss, find) refl) ∙ k)
]

next_pos : (a : ℕ) → a < 2 ^ 61 → wrap_64 (pos a +ℤ pos 1) ≡ pos (suc a)
next_pos a h = wrap_64-add a 1 (omega arith) ∙ ap pos (omega arith)

pub draw_count-Between :
    (g : Rng) (lo hi : ℕ) (d : Draws g.State)
    → lo ≤ hi
    → hi < 2 ^ 61
    → (n : ℕ) × (s : g.State) × (draw_count g (pos lo) (pos hi) d
        ≡ (ok (pos n), record { nurand_c = d.nurand_c; rng = s }))
      × (lo ≤ n)
      × (n ≤ hi)
unfolding draw_count drawn
draw_count-Between g lo hi d lo_hi small_hi =
    let (k, s) = g.int_n (suc (hi - lo)) d.rng in
    let below = g.int_n_lt (suc (hi - lo)) d.rng (omega arith) in
    (
      lo + k,
      s,
      rw (width_eq lo hi lo_hi small_hi, draw_count) (rw (wrap_64-add lo k (omega arith)) refl),
      omega arith,
      omega arith,
    )

module _ (g : Rng) where
  -- The constant of a call, which the table holds after it.
  pub get_nurand_c-Between :
      (a : ℕ) (d : Draws g.State)
      → a < 2 ^ 61
      → IsTable d.nurand_c
      → (c : ℤ) × (d' : Draws g.State) × (get_nurand_c g (pos a) d ≡ (ok c, d'))
        × Between 0 a c
        × IsTable d'.nurand_c
        × (find (pos a) d'.nurand_c ≡ some c)
  unfolding get_nurand_c keep_c find drawn
  get_nurand_c-Between a d h table = elim (Option-cases (find (pos a) d.nurand_c)) [
    | inr (c, known) ↦
        (c, d, rw (known, get_nurand_c) refl, find-IsTable a d.nurand_c c table known, table, known)
    | inl unknown ↦
        let (k, s) = g.int_n (suc a) d.rng in
        let below = g.int_n_lt (suc a) d.rng (omega arith) in
        (
          pos k,
          record { nurand_c = (pos a, pos k) ∷ d.nurand_c; rng = s },
          rw (unknown, get_nurand_c) (rw (next_pos a h) refl),
          (k, refl, omega arith, omega arith),
          ((k, refl, omega arith), table),
          (let same_a : same_ℤ (pos a) (pos a) ≡ true = ground arith in rw same_a refl),
        )
  ]

  module _ (a x y : ℕ) (small_a : a < 2 ^ 61) (small_y : y < 2 ^ 61) (xy : x ≤ y) where
    nu_rand_int-Between :
        (d : Draws g.State)
        → IsTable d.nurand_c
        → (v : ℤ) × (d' : Draws g.State) × (nu_rand_int g (pos a) (pos x) (pos y) d ≡ (ok v, d'))
          × IsTable d'.nurand_c
          × Between x y v
    unfolding nu_rand_int drawn
    nu_rand_int-Between d table =
        let (c, d1, got, (n, is_n, n0, na), table1, held) =
          get_nurand_c-Between a d small_a table in
        let (r, s2) = g.int_n (suc a) d1.rng in
        let r_below = g.int_n_lt (suc a) d1.rng (omega arith) in
        let (k, s3) = g.int_n (suc (y - x)) s2 in
        let k_below = g.int_n_lt (suc (y - x)) s2 (omega arith) in
        (
          nurand_value (pos x) (pos y) (pos (suc (y - x))) (pos n) r k,
          record { nurand_c = d1.nurand_c; rng = s3 },
          rw (got, nu_rand_int)
              (rw is_n (rw (next_pos a small_a) (rw (width_eq x y xy small_y) refl))),
          table1,
          nurand_value-Between x y n r k xy small_y (omega arith) (omega arith) k_below,
        )

    module _ (lo hi : ℕ) (lo_hi : lo ≤ hi) (small_hi : hi < 2 ^ 61) where
      -- `nuRandN` draws a number `n` between `minN` and `maxN`, and then either returns exactly `n`
      -- different values, each between `x` and `y` and printed as a decimal number, or gives up after
      -- `MaxIter` rounds. It fails in no other way, and the constants that it remembers stay between 0
      -- and their `A`. (For natural numbers below 2^61, x <= y and minN <= maxN.)
      pub nu_rands-AllDistinct :
          (d : Draws g.State)
          → IsTable d.nurand_c
          → (n : ℕ) × (lo ≤ n)
            × (n ≤ hi)
            × (d' : Draws g.State) × IsTable d'.nurand_c
            × ((nu_rands g (pos a) (pos x) (pos y) (pos lo) (pos hi) d ≡ (err exhausted, d'))
                ⊎ ((result : List (ℤ × Bytes)) × (nu_rands g
                        (pos a)
                        (pos x)
                        (pos y)
                        (pos lo)
                        (pos hi)
                        d
                      ≡ (ok result, d'))
                    × (length result ≡ n)
                    × AllDistinct (keys result)
                    × All (λ (e : ℤ × Bytes). Between x y (e.0) × (e.1 ≡ show_int (e.0))) result))
      unfolding nu_rands
      nu_rands-AllDistinct d table =
          let (n, s, counted, lower, upper) = draw_count-Between g lo hi d lo_hi small_hi in
          let (d', table', outcome) =
            unique-IsGood same_ℤ (λ v. ok (show_int v)) (nu_rand_int g (pos a) (pos x) (pos y))
              (λ d. IsTable d.nurand_c) (Between x y) (λ k. ground arith) nu_rand_int-Between
              (λ v q. (show_int v, refl)) n (record { nurand_c = d.nurand_c; rng = s }) table in
          (
            n,
            lower,
            upper,
            d',
            table',
            elim outcome [
              | inl gives_up ↦ inl (rw (counted, nu_rands) gives_up)
              | inr (result, returned, size, good) ↦ inr (
                result,
                rw (counted, nu_rands) returned,
                size,
                good.1,
                All-map result (λ e h. (h.0, (let k = h.1 in cc))) good.2,
              )
            ],
          )
