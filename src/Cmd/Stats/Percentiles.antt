-- ===== src/Cmd/Stats/Percentiles.antt =====
-- The proofs on `percentiles` (cmd/edg/stats.go).
use mathlib.Core.Path.{subst}
use mathlib.Core.Option.{some-injective}
use edg.Prelude.{
  ℕ, zero, suc, ◌*◌, ◌/◌, ◌≤◌, ◌<◌, List, [], ◌∷◌, Option, some, ◌≡◌, refl, arith, length,
  get_elem?, All,
}
use edg.Prelude.Int.{ℤ, pos, ◌≤ℤ◌}
use edg.Cmd.Stats.{i_99, all_read, percentiles}

-- Each is at most every later one.
abbrev pub Ascends : List ℤ → Type 0
Ascends [] = Unit
Ascends (x ∷ xs) = All (λ y. x ≤ℤ y) xs × Ascends xs

i_99_at_most : (n : ℕ) → i_99 (suc n) < suc n
unfolding i_99
i_99_at_most n = ground arith

i_95_i_99 : (n : ℕ) → n * 95 / 100 ≤ i_99 n
unfolding i_99
i_95_i_99 n = ground arith

get_elem?-found : (xs : List ℤ) (i : ℕ) → i < length xs → (x : ℤ) × (get_elem? xs i ≡ some x)
get_elem?-found [] i h = absurd (omega arith)
get_elem?-found (x ∷ xs) zero h = (x, refl)
get_elem?-found (x ∷ xs) (suc i) h = get_elem?-found xs i (omega arith)

All-get_elem? :
    (P : ℤ → Type 0) (xs : List ℤ) (i : ℕ) (x : ℤ) → All P xs → get_elem? xs i ≡ some x → P x
All-get_elem? P [] i x h e = absurd (grind arith)
All-get_elem? P (y ∷ xs) zero x h e = subst P (some-injective _ _ e) h.0
All-get_elem? P (y ∷ xs) (suc i) x h e = All-get_elem? P xs i x h.1 e

Ascends-get_elem? :
    (xs : List ℤ) (i j : ℕ) (x y : ℤ)
    → Ascends xs
    → i ≤ j
    → get_elem? xs i ≡ some x
    → get_elem? xs j ≡ some y
    → x ≤ℤ y
Ascends-get_elem? [] i j x y h le e k = absurd (grind arith)
Ascends-get_elem? (z ∷ xs) zero zero x y h le e k =
    ground (arith, some-injective _ _ e, some-injective _ _ k)
Ascends-get_elem? (z ∷ xs) zero (suc j) x y h le e k =
    subst (λ w. w ≤ℤ y) (some-injective _ _ e) (All-get_elem? (λ w. z ≤ℤ w) xs j y h.0 k)
Ascends-get_elem? (z ∷ xs) (suc i) zero x y h le e k = absurd (omega arith)
Ascends-get_elem? (z ∷ xs) (suc i) (suc j) x y h le e k =
    Ascends-get_elem? xs i j x y h.1 (omega arith) e k

all_read-found :
    (a b c : Option ℤ) (x y z : ℤ)
    → a ≡ some x
    → b ≡ some y
    → c ≡ some z
    → all_read a b c ≡ some (x, y, z)
unfolding all_read
all_read-found a b c x y z e f g = rw (e, f, g) refl

module _ (sort : List ℤ → List ℤ) where
  percentiles-found :
      (x : ℤ) (xs : List ℤ) (p_50 p_95 p_99 : ℤ)
      → get_elem? (sort (x ∷ xs)) (length (x ∷ xs) * 50 / 100) ≡ some p_50
      → get_elem? (sort (x ∷ xs)) (length (x ∷ xs) * 95 / 100) ≡ some p_95
      → get_elem? (sort (x ∷ xs)) (i_99 (length (x ∷ xs))) ≡ some p_99
      → percentiles sort (x ∷ xs) ≡ some (p_50, p_95, p_99)
  unfolding percentiles all_read
  percentiles-found x xs p_50 p_95 p_99 e_50 e_95 e_99 = all_read-found _ _ _ _ _ _ e_50 e_95 e_99

  module _ (length-sort : (xs : List ℤ) → length (sort xs) ≡ length xs)
      (sort-Ascends : (xs : List ℤ) → Ascends (sort xs)) where
    -- With a sort that keeps the number of elements and puts them in ascending order, `percentiles`
    -- reads no index out of bounds, and what it returns ascends: p50 ≤ p95 ≤ p99.
    pub percentiles-ascend :
        (xs : List ℤ)
        → (p_50 p_95 p_99 : ℤ) × (percentiles sort xs ≡ some (p_50, p_95, p_99))
          × (p_50 ≤ℤ p_95)
          × (p_95 ≤ℤ p_99)
    unfolding percentiles
    percentiles-ascend [] = (pos 0, pos 0, pos 0, refl, omega arith, omega arith)
    percentiles-ascend (x ∷ xs) =
        let sorted = sort (x ∷ xs) in
        let n = length (x ∷ xs) in
        let size = length-sort (x ∷ xs) in
        let (p_50, e_50) = get_elem?-found sorted (n * 50 / 100) (rw size (omega arith)) in
        let (p_95, e_95) = get_elem?-found sorted (n * 95 / 100) (rw size (omega arith)) in
        let (p_99, e_99) = get_elem?-found sorted (i_99 n) (rw size (i_99_at_most (length xs))) in
        let ordered = sort-Ascends (x ∷ xs) in
        (
          p_50,
          p_95,
          p_99,
          percentiles-found x xs p_50 p_95 p_99 e_50 e_95 e_99,
          Ascends-get_elem? sorted _ _ p_50 p_95 ordered (omega arith) e_50 e_95,
          Ascends-get_elem? sorted _ _ p_95 p_99 ordered (i_95_i_99 n) e_95 e_99,
        )
