-- ===== src/Env/Args/Product/Enumerates.antt =====
-- The cartesian product, and the proofs on the expansion in `GenerateArgs` (pkg/env/env_args.go).
use native.Mathlib.Nat.{mul-add-div_right, mul-add-mod_self_right, mod-eq_of_lt, div-eq_of_lt}
use mathlib.Core.List.{flat_map}
use mathlib.Core.Path.{fun_ext}
use edg.Prelude.{
  ℕ, zero, suc, ◌+◌, ◌*◌, ◌/◌, ◌%◌, ◌-◌, ◌<◌, List, [], ◌∷◌, ◌++◌, map, Option, none, some, Bool,
  true, false, get_elem?, length, length-append, ◌≡◌, refl, sym, ap, ◌∙◌, arith, length-map,
  append_assoc, append-nil, ◌^◌,
}
use edg.Prelude.Int.{pos, ◌*ℤ◌, wrap_64, wrap_64_id}
use edg.Env.Args.Product.{
  Arg, scalar, batch, BatchArg, ◌>>=◌, batches_from, times_lengths, due, fill, rows_from, expand,
  at_stride, chosen_row, filled,
}

product_pos : (a b : ℕ) → pos a *ℤ pos b ≡ pos (a * b)
unfolding ◌*ℤ◌
product_pos a b = ground arith

below : (a c : ℕ) → 0 < c → a * c < 2 ^ 63 → a < 2 ^ 63
below a zero h k = absurd (omega arith)
below a (suc c) h k = let e : a * suc c ≡ a + a * c = grind arith in omega arith

wrapped_product : (a b : ℕ) → a * b < 2 ^ 63 → wrap_64 (pos a *ℤ pos b) ≡ pos (a * b)
wrapped_product a b h = ap wrap_64 (product_pos a b) ∙ wrap_64_id (pos (a * b)) h

div_lem : (q m t : ℕ) → t < m → (q * m + t) / m ≡ q
div_lem q m t h = rw (mul-add-div_right {m = m} (omega arith) q t) (omega (arith, div-eq_of_lt h))

mod_lem : (q k r : ℕ) → r < k → (q * k + r) % k ≡ r
mod_lem q k r h = mul-add-mod_self_right q k r ∙ mod-eq_of_lt h

>>=_assoc :
    {A B C : Type 0} (m : Option A) (f : A → Option B) (g : B → Option C)
    → ((m >>= f) >>= g) ≡ (m >>= λ a. (f a >>= g))
>>=_assoc none f g = refl
>>=_assoc (some a) f g = refl

bind_some : {A : Type 0} (m : Option A) → (m >>= λ a. some a) ≡ m
bind_some none = refl
bind_some (some a) = refl

module _ {A : Type 0} where
  -- The number of argument sets.
  pub size : List (Arg A) → ℕ
  size [] = 1
  size (scalar a ∷ args) = size args
  size (batch rows ∷ args) = length rows * size args

  -- The cartesian product, by recursion on the arguments.
  pub product : List (Arg A) → List (List (Arg A))
  unfolding flat_map
  product [] = [] ∷ []
  product (scalar a ∷ args) = map (λ set. scalar a ∷ set) (product args)
  product (batch rows ∷ args) =
      flat_map (λ row. map (λ set. map scalar row ++ set) (product args)) rows

  -- The argument set at an index, with no positions and no accumulator.
  pick : ℕ → List (Arg A) → Option (List (Arg A))
  unfolding size at_stride
  pick idx [] = some []
  pick idx (scalar a ∷ args) = do set ← pick idx args; some (scalar a ∷ set)
  pick idx (batch rows ∷ args) = do
    part ← at_stride idx (pos (size args)) rows
    set ← pick idx args
    some (map scalar part ++ set)

  -- The product of the lengths with an empty batch counted as one row.
  abbrev pub cap : List (Arg A) → ℕ
  cap [] = 1
  cap (scalar a ∷ args) = cap args
  cap (batch [] ∷ args) = cap args
  cap (batch (row ∷ rows) ∷ args) = suc (length rows) * cap args

  cap_positive : (args : List (Arg A)) → 0 < cap args
  cap_positive [] = omega arith
  cap_positive (scalar a ∷ args) = cap_positive args
  cap_positive (batch [] ∷ args) = cap_positive args
  cap_positive (batch (row ∷ rows) ∷ args) = grind (arith, cap_positive args)

  times_lengths-size :
      (acc i : ℕ) (args : List (Arg A))
      → acc * cap args < 2 ^ 63
      → times_lengths (pos acc) (batches_from i args) ≡ pos (acc * size args)
  unfolding times_lengths batches_from size
  times_lengths-size acc i [] h = ap pos (omega arith)
  times_lengths-size acc i (scalar a ∷ args) h = times_lengths-size acc (i + 1) args h
  times_lengths-size acc i (batch [] ∷ args) h =
      let same : wrap_64 (pos acc *ℤ pos 0) ≡ pos 0 =
        wrapped_product acc 0 (omega arith) ∙ ap pos (omega arith) in
      ap (λ z. times_lengths z (batches_from (i + 1) args)) same
      ∙ times_lengths-size 0 (i + 1) args (omega arith)
      ∙ ap pos (grind arith)
  times_lengths-size acc i (batch (row ∷ rows) ∷ args) h =
      let len = suc (length rows) in
      let whole : acc * len * cap args < 2 ^ 63 = grind arith in
      let small : acc * len < 2 ^ 63 = below (acc * len) (cap args) (cap_positive args) whole in
      ap (λ z. times_lengths z (batches_from (i + 1) args)) (wrapped_product acc len small)
      ∙ times_lengths-size (acc * len) (i + 1) args whole
      ∙ ap pos (grind arith)

  times_lengths_one :
      (i : ℕ) (args : List (Arg A))
      → cap args < 2 ^ 63
      → times_lengths (pos 1) (batches_from i args) ≡ pos (size args)
  times_lengths_one i args h = times_lengths-size 1 i args (omega arith) ∙ ap pos (omega arith)

  cap_later :
      (rows : List (List A)) (args : List (Arg A))
      → cap (batch rows ∷ args) < 2 ^ 63
      → cap args < 2 ^ 63
  cap_later [] args h = h
  cap_later (row ∷ rows) args h = grind (arith, cap_positive args)

  due_later : (i j : ℕ) (args : List (Arg A)) → i < j → due i (batches_from j args) ≡ none
  unfolding due batches_from
  due_later i j [] h = refl
  due_later i j (scalar a ∷ args) h = due_later i (j + 1) args (omega arith)
  due_later i j (batch rows ∷ args) h = ground arith

  due_now :
      (i : ℕ) (rows : List (List A)) (args : List (Arg A))
      → due i (batches_from i (batch rows ∷ args))
        ≡ some (record { pos = i; rows = rows }, batches_from (i + 1) args)
  unfolding due batches_from
  due_now i rows args = ground arith

  fill_part :
      (idx i : ℕ) (args : List (Arg A)) (row : List (Arg A)) (part? : Option (List A))
      → ((part : List A)
          → fill idx i args (batches_from i args) (row ++ map scalar part)
            ≡ (pick idx args >>= λ set. some ((row ++ map scalar part) ++ set)))
      → (part? >>= λ part. fill idx i args (batches_from i args) (row ++ map scalar part)) ≡ (
          (part? >>= λ part. (pick idx args >>= λ set. some (map scalar part ++ set))) >>= λ set.
          some (row ++ set))
  fill_part idx i args row none ih = refl
  fill_part idx i args row (some part) ih = simp (ih part, >>=_assoc, append_assoc)

  fill-pick :
      (idx i : ℕ) (args : List (Arg A)) (row : List (Arg A))
      → cap args < 2 ^ 63
      → fill idx i args (batches_from i args) row ≡ (pick idx args >>= λ set. some (row ++ set))
  unfolding fill pick batches_from chosen_row
  fill-pick idx i [] row h = rw append-nil
  fill-pick idx i (scalar a ∷ args) row h =
      rw (due_later i (i + 1) args (omega arith), fill)
        (simp (fill-pick idx (i + 1) args (row ++ scalar a ∷ []) h, >>=_assoc, append_assoc))
  fill-pick idx i (batch rows ∷ args) row h =
      let below = cap_later rows args h in
      rw (due_now i rows args, fill)
        (rw (times_lengths_one (i + 1) args below) (
          fill_part idx (i + 1) args row (at_stride idx (pos (size args)) rows)
            (λ part. fill-pick idx (i + 1) args (row ++ map scalar part) below)))

  rows_from-map :
      (f g : ℕ → Option (List (Arg A))) (h : List (Arg A) → List (Arg A)) (i n : ℕ)
      → ((t : ℕ) → i < t + 1 → t < i + n → f t ≡ (g t >>= λ set. some (h set)))
      → rows_from f i n ≡ (rows_from g i n >>= λ sets. some (map h sets))
  unfolding rows_from
  rows_from-map f g h i zero e = refl
  rows_from-map f g h i (suc n) e = ground (
    arith,
    e i (omega arith) (omega arith),
    rows_from-map f g h (i + 1) n (λ t a b. e t (omega arith) (omega arith)),
  )

  rows_from-append :
      (f : ℕ → Option (List (Arg A))) (i n m : ℕ)
      → rows_from f i (n + m)
        ≡ (rows_from f i n >>= λ a. (rows_from f (i + n) m >>= λ b. some (a ++ b)))
  unfolding rows_from
  rows_from-append f i zero m =
      let e : i + 0 ≡ i = omega arith in
      let e' : 0 + m ≡ m = omega arith in rw (e, e') (sym (bind_some _))
  rows_from-append f i (suc n) m =
      let e : suc n + m ≡ suc (n + m) = omega arith in
      let e' : i + suc n ≡ i + 1 + n = omega arith in
      rw (e, e', rows_from) (simp (rows_from-append f (i + 1) n m, >>=_assoc))

  get_elem?-append :
      (xs : List (List A)) (x : List A) (ys : List (List A))
      → get_elem? (xs ++ x ∷ ys) (length xs) ≡ some x
  get_elem?-append [] x ys = refl
  get_elem?-append (y ∷ xs) x ys = get_elem?-append xs x ys

  -- The row that the stride and the remainder choose, at an index inside its block.
  chosen_in_block :
      (rows before : List (List A)) (x : List A) (rest : List (List A)) (q m t u : ℕ)
      → rows ≡ before ++ x ∷ rest
      → t ≡ (q * length rows + length before) * m + u
      → u < m
      → at_stride t (pos m) rows ≡ some x
  unfolding at_stride
  chosen_in_block rows before x rest q zero t u e et h = absurd (omega arith)
  chosen_in_block rows before x rest q (suc k) t u e et h =
      let m = suc k in
      let len : length rows ≡ length before + suc (length rest) =
        ap length e ∙ length-append before (x ∷ rest) in
      rw (et, div_lem (q * length rows + length before) m u h)
        (rw (mod_lem q (length rows) (length before) (omega arith))
          (rw e (get_elem?-append before x rest)))

  -- The blocks of the rows from one row on, from the first index that takes it.
  rows_from-blocks :
      (args : List (Arg A)) (rows : List (List A)) (q : ℕ)
      → ((p i : ℕ)
          → i ≡ p * size args
          → rows_from (λ idx. pick idx args) i (size args) ≡ some (product args))
      → (before rest : List (List A)) (i : ℕ) → rows ≡ before ++ rest
      → i ≡ (q * length rows + length before) * size args
      → rows_from (λ idx. pick idx (batch rows ∷ args)) i (length rest * size args)
        ≡ some (flat_map (λ row. map (λ set. map scalar row ++ set) (product args)) rest)
  unfolding flat_map rows_from
  rows_from-blocks args rows q ih before [] i cut e =
      let none_left : length {A = List A} [] * size args ≡ 0 = omega arith in rw none_left
  rows_from-blocks args rows q ih before (x ∷ rest) i cut e =
      let m = size args in
      let first =
        rows_from-map (λ idx. pick idx (batch rows ∷ args)) (λ idx. pick idx args)
          (λ set. map scalar x ++ set) i m
          (λ t a b.
            unfold pick in
            rw
              (chosen_in_block rows before x rest q m t (t - i) cut (omega arith) (omega arith))) in
      let later =
        rows_from-blocks args rows q ih (before ++ x ∷ []) rest (i + m) (rw append_assoc cut)
          (rw (length-append before (x ∷ [])) (omega (arith, e))) in
      let more : suc (length rest) * m ≡ m + length rest * m = omega arith in
      rw (more, rows_from-append) (rw (first, ih (q * length rows + length before) i e) (rw later))

  -- Every run of `size args` indices from a multiple of it gives the whole product.
  rows_from-pick :
      (args : List (Arg A)) (q i : ℕ)
      → i ≡ q * size args
      → rows_from (λ idx. pick idx args) i (size args) ≡ some (product args)
  unfolding rows_from pick size product
  rows_from-pick [] q i e = refl
  rows_from-pick (scalar a ∷ args) q i e =
      rows_from-map (λ idx. pick idx (scalar a ∷ args)) (λ idx. pick idx args)
        (λ set. scalar a ∷ set) i (size args) (λ t _ _. refl)
      ∙ rw (rows_from-pick args q i e)
  rows_from-pick (batch rows ∷ args) q i e =
      rows_from-blocks args rows q (rows_from-pick args) [] rows i refl (grind arith)

  -- Whether some argument is a batch.
  pub has_batch : List (Arg A) → Bool
  has_batch [] = false
  has_batch (scalar a ∷ args) = has_batch args
  has_batch (batch rows ∷ args) = true

  product-no_batch :
      (args : List (Arg A)) (i : ℕ)
      → batches_from i args ≡ []
      → (product args ≡ args ∷ []) × (has_batch args ≡ false)
  unfolding batches_from product has_batch
  product-no_batch [] i e = (refl, refl)
  product-no_batch (scalar a ∷ args) i e = let (p, h) = product-no_batch args (i + 1) e in (rw p, h)
  product-no_batch (batch rows ∷ args) i e = cc

  has_batch_some :
      (args : List (Arg A)) (i : ℕ) {b : BatchArg A} {bs : List (BatchArg A)}
      → batches_from i args ≡ b ∷ bs
      → has_batch args ≡ true
  unfolding batches_from has_batch
  has_batch_some [] i e = cc
  has_batch_some (scalar a ∷ args) i e = has_batch_some args (i + 1) e
  has_batch_some (batch rows ∷ args) i e = refl

  fill_all :
      (args : List (Arg A)) (idx : ℕ)
      → cap args < 2 ^ 63
      → fill idx 0 args (batches_from 0 args) [] ≡ pick idx args
  fill_all args idx h = fill-pick idx 0 args [] h ∙ bind_some (pick idx args)

  expand_cases :
      (args : List (Arg A)) (bs : List (BatchArg A))
      → cap args < 2 ^ 63
      → batches_from 0 args ≡ bs
      → expand args ≡ some (product args, has_batch args)
  unfolding expand filled
  expand_cases args [] h e = let (p, h) = product-no_batch args 0 e in rw (e, expand) (rw (p, h))
  expand_cases args (b ∷ bs) h e =
      let count = ap (times_lengths (pos 1)) (sym e) ∙ times_lengths_one 0 args h in
      let each = λ (idx : ℕ). ap (λ bs. fill idx 0 args bs []) (sym e) ∙ fill_all args idx h in
      rw (e, expand)
        (rw (count, fun_ext each)
          (rw (rows_from-pick args 0 0 (omega arith), has_batch_some args 0 e)))

  -- For evaluated arguments whose batches' lengths, an empty one counted as 1, have a product below
  -- 2^43 (so that no `int` overflows and the slice of argument sets can be made): the expansion does not
  -- panic (no index is out of range and no remainder is by zero). Its argument sets are the cartesian
  -- product of the batches' rows with the scalars in their places, each combination once, in order,
  -- the last batch varying fastest; and it reports expansion exactly if some argument is a batch.
  pub expand-product :
      (args : List (Arg A)) → cap args < 2 ^ 43 → expand args ≡ some (product args, has_batch args)
  expand-product args h = expand_cases args (batches_from 0 args) (omega arith) refl

  length-flat_map_rows :
      (sets : List (List (Arg A))) (rows : List (List A))
      → length (flat_map (λ row. map (λ set. map scalar row ++ set) sets) rows)
        ≡ length rows * length sets
  unfolding flat_map
  length-flat_map_rows sets [] = omega arith
  length-flat_map_rows sets (row ∷ rows) =
      rw
        (
          length-append,
          length-map sets (λ set. map scalar row ++ set),
          length-flat_map_rows sets rows,
        )
        (omega arith)

  -- The number of argument sets is the product of the batches' lengths.
  pub length-product : (args : List (Arg A)) → length (product args) ≡ size args
  unfolding product size
  length-product [] = refl
  length-product (scalar a ∷ args) = length-map (product args) _ ∙ length-product args
  length-product (batch rows ∷ args) =
      rw (length-flat_map_rows (product args) rows, length-product args)
