-- ===== src/Env/Args/Batch/Covers.antt =====
-- The proofs on the batch sizes (pkg/env/env_args.go, pkg/gen/gen.go).
use native.Mathlib.Nat.{div-mul-le_self, lt-div-mul-add, div-eq_of_lt, mul-le-mul_right}
use edg.Prelude.{
  ℕ, zero, suc, ◌+◌, ◌-◌, ◌*◌, ◌/◌, ◌^◌, ◌≤◌, ◌<◌, List, [], ◌∷◌, map, length, ◌≡◌, refl, ◌∙◌, ap,
  arith, ok, err, ltb, if◌then◌else◌, ◌⊎◌, inl, inr,
}
use edg.Prelude.Int.{ℤ, pos, negsuc, ◌≤ℤ◌}
use edg.Env.Args.Batch.{
  divide_by_zero, effective_size, batch_count, batch_size, sizes_from, sizes_of, plan,
}

abbrev pub sum : List ℕ → ℕ
sum [] = 0
sum (n ∷ ns) = n + sum ns

-- Every size is positive and at most `s`.
abbrev pub Within : ℕ → List ℕ → Type 0
Within s [] = Unit
Within s (n ∷ ns) = (0 < n) × (n ≤ s) × Within s ns

-- The number of batches, `⌈c / s⌉`.
abbrev pub ceil_div : ℕ → ℕ → ℕ
ceil_div c s = (c + s - 1) / s

pub batch_size_pos :
    (c s b : ℕ)
    → c < 2 ^ 62
    → s < 2 ^ 62
    → b * s < c
    → batch_size (pos c) (pos s) b ≡ pos (if ltb (c - b * s) s then c - b * s else s)
unfolding batch_size
batch_size_pos c s b hc hs h = ground arith

pub batch_count_pos :
    (c s : ℕ)
    → c < 2 ^ 62
    → s < 2 ^ 62
    → 0 < s
    → batch_count (pos c) (pos s) ≡ ok (pos ((c + s - 1) / s))
unfolding batch_count
batch_count_pos c zero hc hs h = absurd (omega arith)
batch_count_pos c (suc s) hc hs h = ground arith

-- The sizes from the `b`th batch on, over the naturals.
unfoldable pub chunks : ℕ → ℕ → ℕ → ℕ → List ℕ
chunks c s b zero = []
chunks c s b (suc k) = (if ltb (c - b * s) s then c - b * s else s) ∷ chunks c s (b + 1) k

pub before_end : (c s b : ℕ) → 0 < s → b < ceil_div c s → b * s < c
before_end c s b hs h = omega (arith, div-mul-le_self (c + s - 1) s, mul-le-mul_right s h)

reaches_end : (c s : ℕ) → 0 < s → c ≤ ceil_div c s * s
reaches_end c s hs = omega (arith, lt-div-mul-add {a = c + s - 1} hs)

sizes_from-chunks :
    (c s b k : ℕ)
    → c < 2 ^ 62
    → s < 2 ^ 62
    → 0 < s
    → b + k ≡ ceil_div c s
    → sizes_from (pos c) (pos s) b k ≡ map pos (chunks c s b k)
unfolding sizes_from chunks
sizes_from-chunks c s b zero hc hs h e = refl
sizes_from-chunks c s b (suc k) hc hs h e =
    rw (batch_size_pos c s b hc hs (before_end c s b h (omega arith)))
      (rw (sizes_from-chunks c s (b + 1) k hc hs h (omega arith)))

pub sum-chunks : (c s b k : ℕ) → 0 < s → b + k ≡ ceil_div c s → sum (chunks c s b k) ≡ c - b * s
unfolding chunks
sum-chunks c s b zero h e =
    let e' : b ≡ ceil_div c s = omega arith in
    let stop : c ≤ b * s = rw e' (reaches_end c s h) in omega arith
sum-chunks c s b (suc k) h e =
    ground (arith, sum-chunks c s (b + 1) k h (omega arith), before_end c s b h (omega arith))

pub Within-chunks : (c s b k : ℕ) → 0 < s → b + k ≡ ceil_div c s → Within s (chunks c s b k)
unfolding chunks
Within-chunks c s b zero h e = tt
Within-chunks c s b (suc k) h e =
    ground (arith, before_end c s b h (omega arith), Within-chunks c s (b + 1) k h (omega arith))

length-chunks : (c s b k : ℕ) → length (chunks c s b k) ≡ k
unfolding chunks
length-chunks c s b zero = refl
length-chunks c s b (suc k) = ap suc (length-chunks c s (b + 1) k)

-- The number of rows that a full batch has: the requested size if it is positive, or all rows.
abbrev pub rows_per_batch : ℕ → ℤ → ℕ
rows_per_batch c (pos zero) = c
rows_per_batch c (pos (suc s)) = suc s
rows_per_batch c (negsuc s) = c

pub effective_size-rows_per_batch :
    (c : ℕ) (size : ℤ) → effective_size (pos c) size ≡ pos (rows_per_batch c size)
unfolding effective_size
effective_size-rows_per_batch c (pos zero) = refl
effective_size-rows_per_batch c (pos (suc s)) = ground arith
effective_size-rows_per_batch c (negsuc s) = ground arith

plan-chunks :
    (c : ℕ) (size : ℤ)
    → c < 2 ^ 62
    → rows_per_batch c size < 2 ^ 62
    → 0 < rows_per_batch c size
    → plan (pos c) size
      ≡ ok (map pos (chunks c (rows_per_batch c size) 0 (ceil_div c (rows_per_batch c size))))
unfolding plan sizes_of
plan-chunks c size hc hs h =
    rw (effective_size-rows_per_batch c size, batch_count_pos c (rows_per_batch c size) hc hs h)
      (ap ok (sizes_from-chunks c (rows_per_batch c size) 0 _ hc hs h (omega arith)))

pub rows_per_batch_pos : (c : ℕ) (size : ℤ) → 0 < c → 0 < rows_per_batch c size
rows_per_batch_pos c (pos zero) h = h
rows_per_batch_pos c (pos (suc s)) h = omega arith
rows_per_batch_pos c (negsuc s) h = h

pub rows_per_batch_bound :
    (c : ℕ) (size : ℤ) → c < 2 ^ 62 → size ≤ℤ pos (2 ^ 62 - 1) → rows_per_batch c size < 2 ^ 62
rows_per_batch_bound c (pos zero) h hs = h
rows_per_batch_bound c (pos (suc s)) h hs = omega arith
rows_per_batch_bound c (negsuc s) h hs = h

-- For a positive count and any requested size, both below 2^62, the plan does not panic. It is a
-- list of sizes that add up to the count, each of them positive and at most the rows of a full batch
-- (the requested size if that is positive, the count if not), and their number is the count divided
-- by the rows of a full batch, rounded up.
pub plan_covers :
    (c : ℕ) (size : ℤ)
    → 0 < c
    → c < 2 ^ 62
    → size ≤ℤ pos (2 ^ 62 - 1)
    → (ns : List ℕ) × (plan (pos c) size ≡ ok (map pos ns))
      × (sum ns ≡ c)
      × Within (rows_per_batch c size) ns
      × (length ns ≡ ceil_div c (rows_per_batch c size))
plan_covers c size h hc hs =
    let s = rows_per_batch c size in
    let positive = rows_per_batch_pos c size h in
    let total = sum-chunks c s 0 (ceil_div c s) positive (omega arith) in
    (
      chunks c s 0 (ceil_div c s),
      plan-chunks c size hc (rows_per_batch_bound c size hc hs) positive,
      omega (arith, total),
      Within-chunks c s 0 (ceil_div c s) positive (omega arith),
      length-chunks c s 0 (ceil_div c s),
    )

-- With no rows to make, and a size below 2^62, the plan is empty if the size is positive and divides
-- by zero, a panic, if it is not, as when no size is given.
pub plan-zero :
    (size : ℤ)
    → size ≤ℤ pos (2 ^ 62 - 1)
    → ((plan (pos 0) size ≡ ok []) × (pos 1 ≤ℤ size))
      ⊎ ((plan (pos 0) size ≡ err divide_by_zero) × (size ≤ℤ pos 0))
unfolding plan effective_size batch_count chunks
plan-zero (pos zero) h = inr (ground arith, omega arith)
plan-zero (negsuc s) h = inr (ground arith, omega arith)
plan-zero (pos (suc s)) h =
    let none_left : ceil_div 0 (suc s) ≡ 0 = div-eq_of_lt (omega arith) in
    inl (
      plan-chunks 0 (pos (suc s)) (omega arith) (omega arith) (omega arith) ∙ rw none_left,
      omega arith,
    )
