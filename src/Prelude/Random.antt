-- ===== src/Prelude/Random.antt =====
-- The generator of random numbers that the program takes from its library: `IntN(n)` for a positive
-- `n` is below `n`. (For any other `n` it panics; the callers' models write that out.)
use Prim.Native.Nat.{ℕ, ◌+◌, ◌%◌, ◌<◌}
use native.Mathlib.Omega.{arith}

pub record Rng : Type 1 where
  pub State : Type 0
  pub int_n : ℕ → State → ℕ × State
  pub int_n_lt : (n : ℕ) (s : State) → 0 < n → (int_n n s).0 < n

-- A generator that counts, which shows that the law can hold.
abbrev pub counting : Rng
counting = record { State = ℕ; int_n = λ n s. (s % n, s + 1); int_n_lt = λ n s h. omega arith }
