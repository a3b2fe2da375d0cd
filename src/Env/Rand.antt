-- ===== src/Env/Rand.antt =====
-- pkg/env/rand.go: `getNurandC`, `nuRand` and the functions that join unique draws, `nuRandN`,
-- `normRandN` and `weightedSampleN`. The random generator is a parameter. Where Go's `make` gets a
-- negative capacity it panics.
pub mod Unique
pub mod Nurand
pub mod Norm
pub mod Distribute
pub mod Sequences
pub mod Sampled
use Prim.Native.Nat.{bit_or}
use edg.Prelude.{
  ℕ, zero, suc, ◌+◌, ◌-◌, ◌%◌, ◌^◌, String, List, [], ◌∷◌, ◌++◌, map, Option, none, some, Bool,
  true, false, ltb, leb, ◌==◌, if◌then◌else◌, get_elem?, length, Result, ok, err,
}
use edg.Prelude.Int.{ℤ, pos, negsuc, ◌+ℤ◌, ◌-ℤ◌, leb_ℤ, sub_ℕ, same_ℤ, wrap_64}
use edg.Prelude.Random.{Rng}
use edg.Prelude.Steps.{Steps, ◌>>=◌, return, lift}
use edg.Prelude.Text.{Bytes, join, show_int}
use edg.Convert.{Value, int, nil, Formats, ConvertError, to_int_value, to_float_value}
use edg.Env.Weighted.{Panic, bad_argument, draw}
use edg.Env.Args.Uniq.{seen?}
use edg.Gen.Random.{max_iter}

pub data RandError : Type 0 where
  not_int not_float : ConvertError → RandError
  weight_not_int : ℕ → ConvertError → RandError
  panicked : Panic → RandError
  -- no new value in `MaxIter` rounds
  exhausted : RandError
  -- the error of `random.Norm`
  out_of_range : RandError
  -- `distributeSum` refuses minN < 1, maxN < minN and a total that is not positive
  too_few_parts bad_part_range not_positive : RandError

-- The loop of unique draws: the keys of its entries are `seen`, and what is printed for them `parts`.
abbrev pub keys : {K P : Type 0} → List (K × P) → List K
keys entries = map (λ e. e.0) entries

module _ {K P : Type 0} (same : K → K → Bool) (part : K → Result RandError P) where
  -- `if !seen[v] { seen[v] = true; parts = append(parts, ...) }`
  pub added : K → List (K × P) → Result RandError (List (K × P))
  unfolding seen?
  added v entries =
      if seen? same v (keys entries)
      then ok entries
      else (elim (part v) [ ok p ↦ ok (entries ++ (v, p) ∷ []) | err e ↦ err e ])

  module _ {S : Type 0} (next : Steps RandError S K) where
    pub collect : ℕ → ℕ → List (K × P) → Steps RandError S (List (K × P))
    unfolding added
    collect zero n entries = return entries
    collect (suc rounds) n entries = elim (leb n (length entries)) [
      | true ↦ return entries
      | false ↦ do v ← next; more ← lift (added v entries); collect rounds n more
    ]

    enough : ℕ → List (K × P) → Result RandError (List (K × P))
    enough n entries = if ltb (length entries) n then err exhausted else ok entries

    unfoldable pub unique : ℤ → Steps RandError S (List (K × P))
    unfolding collect enough
    unique (negsuc n) = lift (err (panicked bad_argument))
    unique (pos n) = do entries ← collect max_iter n []; lift (enough n entries)

abbrev pub joined : {K : Type 0} → List (K × Bytes) → Bytes
joined entries = join (map (λ e. e.1) entries) (b',' ∷ [])

-- `|` on an `int`, and Go's `%` for a divisor that is not zero.
abbrev pub bits : ℤ → ℕ
bits (pos n) = n % 2 ^ 64
bits (negsuc n) = 2 ^ 64 - 1 - n

unfoldable pub or_ℤ : ℤ → ℤ → ℤ
unfolding wrap_64
or_ℤ a b = wrap_64 (pos (bit_or (bits a) (bits b)))

abbrev pub rem_ℤ : ℤ → ℤ → ℤ
rem_ℤ (pos a) (pos b) = pos (a % b)
rem_ℤ (pos a) (negsuc b) = pos (a % suc b)
rem_ℤ (negsuc a) (pos b) = sub_ℕ 0 (suc a % b)
rem_ℤ (negsuc a) (negsuc b) = sub_ℕ 0 (suc a % suc b)

-- `(((random(0, A) | random(x, y)) + C) % (y - x + 1)) + x`
unfoldable pub nurand_value : ℤ → ℤ → ℤ → ℤ → ℕ → ℕ → ℤ
unfolding or_ℤ
nurand_value x y width c r k =
    wrap_64 (rem_ℤ (wrap_64 (or_ℤ (pos r) (wrap_64 (pos k +ℤ x)) +ℤ c)) width +ℤ x)

-- `nurandC` and the state of the generator.
pub record Draws (S : Type 0) : Type 0 where
  pub nurand_c : List (ℤ × ℤ)
  pub rng : S

unfoldable pub find : ℤ → List (ℤ × ℤ) → Option ℤ
find a [] = none
find a ((b, c) ∷ m) = if same_ℤ b a then some c else find a m

module _ (g : Rng) where
  -- `random.Rng.IntN`
  pub drawn : Result Panic ℕ × g.State → List (ℤ × ℤ) → Result RandError ℕ × Draws g.State
  drawn (ok k, s) m = (ok k, record { nurand_c = m; rng = s })
  drawn (err p, s) m = (err (panicked p), record { nurand_c = m; rng = s })

  unfoldable pub int_n : ℤ → Steps RandError (Draws g.State) ℕ
  unfolding draw drawn
  int_n n d = drawn (draw g n d.rng) d.nurand_c

  pub keep_c : ℤ → ℕ → Steps RandError (Draws g.State) ℤ
  keep_c a c d = (ok (pos c), record d { nurand_c = (a, pos c) ∷ d.nurand_c })

  unfoldable pub get_nurand_c : ℤ → Steps RandError (Draws g.State) ℤ
  unfolding find int_n keep_c
  get_nurand_c a d = elim (find a d.nurand_c) [
    | some c ↦ (ok c, d)
    | none ↦ (int_n (wrap_64 (a +ℤ pos 1)) >>= keep_c a) d
  ]

  unfoldable pub nu_rand_int : ℤ → ℤ → ℤ → Steps RandError (Draws g.State) ℤ
  unfolding get_nurand_c int_n nurand_value
  nu_rand_int a x y = do
    c ← get_nurand_c a
    r ← int_n (wrap_64 (a +ℤ pos 1))
    k ← int_n (wrap_64 (wrap_64 (y -ℤ x) +ℤ pos 1))
    return (nurand_value x y (wrap_64 (wrap_64 (y -ℤ x) +ℤ pos 1)) c r k)

  -- `minN + random.Rng.IntN(maxN-minN+1)`
  unfoldable pub draw_count : ℤ → ℤ → Steps RandError (Draws g.State) ℤ
  unfolding int_n
  draw_count lo hi = do
    k ← int_n (wrap_64 (wrap_64 (hi -ℤ lo) +ℤ pos 1))
    return (wrap_64 (lo +ℤ pos k))

  -- `nuRandN` for converted arguments: the unique values with their text.
  unfoldable pub nu_rands : ℤ → ℤ → ℤ → ℤ → ℤ → Steps RandError (Draws g.State) (List (ℤ × Bytes))
  unfolding draw_count unique nu_rand_int
  nu_rands a x y lo hi = do
    n ← draw_count lo hi
    unique same_ℤ (λ v. ok (show_int v)) (nu_rand_int a x y) n

  module _ {F I O : Type 0} (formats : Formats F I O) where
    unfoldable pub int_arg : Value F I O → Steps RandError (Draws g.State) ℤ
    int_arg v = lift (elim (to_int_value formats v) [ ok i ↦ ok i | err e ↦ err (not_int e) ])

    unfoldable pub nu_rand :
        Value F I O → Value F I O → Value F I O → Steps RandError (Draws g.State) ℤ
    unfolding int_arg nu_rand_int
    nu_rand raw_a raw_x raw_y = do
      a ← int_arg raw_a
      x ← int_arg raw_x
      y ← int_arg raw_y
      nu_rand_int a x y

    unfoldable pub nu_rand_n :
        Value F I O
        → Value F I O
        → Value F I O
        → Value F I O
        → Value F I O
        → Steps RandError (Draws g.State) Bytes
    unfolding int_arg nu_rands
    nu_rand_n raw_a raw_x raw_y raw_lo raw_hi = do
      a ← int_arg raw_a
      x ← int_arg raw_x
      y ← int_arg raw_y
      lo ← int_arg raw_lo
      hi ← int_arg raw_hi
      entries ← nu_rands a x y lo hi
      return (joined entries)
