-- ===== src/Env/Args/Product.antt =====
-- The expansion of batch arguments in `GenerateArgs` (pkg/env/env_args.go): every `[][]any` argument
-- contributes one of its rows to each argument set, chosen by a stride and a remainder.
-- The products of lengths are `int`s that wrap around. `none` is a panic: an index out of range, a
-- division by zero, a slice of negative length; one whose length exceeds the address space is left
-- out.
pub mod Enumerates
use edg.Prelude.{
  ℕ, zero, suc, ◌+◌, ◌*◌, ◌/◌, ◌%◌, List, [], ◌∷◌, ◌++◌, map, Option, none, some, ◌==◌, Bool, true,
  false, get_elem?, length, if◌then◌else◌, ◌≡◌, refl,
}
use edg.Prelude.Int.{ℤ, pos, negsuc, ◌*ℤ◌, wrap_64}

-- An evaluated argument, by the type assertion `arg.([][]any)`.
pub data Arg (A : Type 0) : Type 0 where
  scalar : A → Arg A
  batch : List (List A) → Arg A

infixl 5 ◌>>=◌
abbrev pub ◌>>=◌ {ℓ κ} : {A : Type ℓ} {B : Type κ} → Option A → (A → Option B) → Option B
none >>= f = none
some a >>= f = f a

pub record BatchArg (A : Type 0) : Type 0 where
  pub pos : ℕ
  pub rows : List (List A)

module _ {A : Type 0} where
  -- `for i, arg := range completeArgs { if b, ok := arg.([][]any); ok { … } }`
  pub batches_from : ℕ → List (Arg A) → List (BatchArg A)
  batches_from i [] = []
  batches_from i (scalar a ∷ args) = batches_from (i + 1) args
  batches_from i (batch rows ∷ args) = record { pos = i; rows = rows } ∷ batches_from (i + 1) args

  -- The product of the lengths, from an accumulator: `totalRows` and `stride`.
  pub times_lengths : ℤ → List (BatchArg A) → ℤ
  times_lengths acc [] = acc
  times_lengths acc (b ∷ bs) = times_lengths (wrap_64 (acc *ℤ pos (length b.rows))) bs

  -- The guard `bi < len(batches) && batches[bi].pos == i`; the list of batches is `batches[bi:]`.
  pub due : ℕ → List (BatchArg A) → Option (BatchArg A × List (BatchArg A))
  due i [] = none
  due i (b ∷ bs) = if b.pos == i then some (b, bs) else none

  -- `rows[(idx / stride) % len(rows)]`; for a negative stride neither the quotient nor the remainder
  -- is positive.
  pub at_stride : ℕ → ℤ → List (List A) → Option (List A)
  at_stride idx (pos zero) rows = none
  at_stride idx (pos (suc n)) rows = get_elem? rows ((idx / suc n) % length rows)
  at_stride idx (negsuc n) rows =
      if (idx / suc n) % length rows == 0 then get_elem? rows 0 else none

  -- The row of the batch `batches[bi]`, with the stride of the batches after it.
  pub chosen_row : ℕ → BatchArg A → List (BatchArg A) → Option (List A)
  unfolding times_lengths at_stride
  chosen_row idx b bs = at_stride idx (times_lengths (pos 1) bs) b.rows

  -- The inner loop over `completeArgs`, which builds one argument set.
  pub fill : ℕ → ℕ → List (Arg A) → List (BatchArg A) → List (Arg A) → Option (List (Arg A))
  unfolding due chosen_row
  fill idx i [] bs row = some row
  fill idx i (arg ∷ args) bs row = elim (due i bs) [
    | none ↦ fill idx (i + 1) args bs (row ++ arg ∷ [])
    | some (b, rest) ↦ do
      part ← chosen_row idx b rest
      fill idx (i + 1) args rest (row ++ map scalar part)
  ]

  -- `for idx := range totalRows`, from an index and with the number of rounds left.
  pub rows_from : (ℕ → Option (List (Arg A))) → ℕ → ℕ → Option (List (List (Arg A)))
  rows_from f idx zero = some []
  rows_from f idx (suc n) = do row ← f idx; rest ← rows_from f (idx + 1) n; some (row ∷ rest)

  -- `make([][]any, totalRows)` and the loop that fills it
  pub filled : (ℕ → Option (List (Arg A))) → ℤ → Option (List (List (Arg A)))
  unfolding rows_from
  filled f (pos n) = rows_from f 0 n
  filled f (negsuc n) = none

  -- The argument sets of the evaluated arguments, and whether batch expansion occurred.
  unfoldable pub expand : List (Arg A) → Option (List (List (Arg A)) × Bool)
  unfolding batches_from fill filled times_lengths
  expand args = elim (batches_from 0 args) [
    | [] ↦ some (args ∷ [], false)
    | b ∷ bs ↦ do
      result ← filled (λ idx. fill idx 0 args (b ∷ bs) []) (times_lengths (pos 1) (b ∷ bs))
      some (result, true)
  ]
