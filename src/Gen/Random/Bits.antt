-- ===== src/Gen/Random/Bits.antt =====
-- The proofs on `Bit` and `VarBit` (pkg/random/random.go).
use edg.Prelude.{
  ℕ, zero, suc, ◌+◌, ◌≤◌, ◌<◌, List, [], ◌∷◌, map, length, length-map, All, ok, ◌≡◌, refl, ap, ◌∙◌,
  arith, inl, inr, ◌⊎◌,
}
use edg.Prelude.Int.{pos}
use edg.Prelude.Random.{Rng}
use edg.Prelude.Text.{Bytes}
use edg.Gen.Random.{draws, bit_char, bit, var_bit}

module _ (g : Rng) where
  draws-length : (bound n : ℕ) (s : g.State) → length (draws g bound n s).0 ≡ n
  unfolding draws
  draws-length bound zero s = refl
  draws-length bound (suc n) s = ap suc (draws-length bound n (g.int_n bound s).1)

  draws-All : (bound n : ℕ) (s : g.State) → 0 < bound → All (λ b. b < bound) (draws g bound n s).0
  unfolding draws
  draws-All bound zero s h = tt
  draws-All bound (suc n) s h = (g.int_n_lt bound s h, draws-All bound n (g.int_n bound s).1 h)

-- A text of zeros and ones.
abbrev pub IsBits : Bytes → Type 0
IsBits s = All (λ c. (c ≡ b'0') ⊎ (c ≡ b'1')) s

bit_chars-IsBits : (bs : List ℕ) → All (λ b. b < 2) bs → IsBits (map bit_char bs)
bit_chars-IsBits [] h = tt
bit_chars-IsBits (b ∷ bs) h = (zero_or_one b h.0, bit_chars-IsBits bs h.1)
  where
    zero_or_one : (b : ℕ) → b < 2 → (bit_char b ≡ b'0') ⊎ (bit_char b ≡ b'1')
    zero_or_one zero h = inl refl
    zero_or_one (suc zero) h = inr refl
    zero_or_one (suc (suc b)) h = absurd (omega arith)

module _ (g : Rng) where
  bit-IsBits :
      (n : ℕ) (s : g.State)
      → (t : Bytes) × (s' : g.State) × (bit g (pos n) s ≡ (ok t, s')) × IsBits t × (length t ≡ n)
  unfolding bit
  bit-IsBits n s =
      let bs = draws g 2 n s in
      (
        map bit_char bs.0,
        bs.1,
        refl,
        bit_chars-IsBits bs.0 (draws-All g 2 n s (omega arith)),
        length-map bs.0 bit_char ∙ draws-length g 2 n s,
      )

  pub var_bit-IsBits :
      (n : ℕ) (s : g.State)
      → 0 < n
      → (t : Bytes) × (s' : g.State) × (var_bit g (pos n) s ≡ (ok t, s'))
        × IsBits t
        × (0 < length t)
        × (length t ≤ n)
  unfolding var_bit
  var_bit-IsBits zero s h = absurd (omega arith)
  var_bit-IsBits (suc n) s h =
      let (k, s1) = g.int_n (suc n) s in
      let below = g.int_n_lt (suc n) s h in
      let (t, s', drawn, bits, size) = bit-IsBits (1 + k) s1 in
      (t, s', drawn, bits, omega arith, omega arith)
