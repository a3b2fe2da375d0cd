-- ===== src/Env/Args/Generate/Rows.antt =====
-- The proofs on `generateBatchArgs` (pkg/env/env_args.go).
use edg.Prelude.{
  ℕ, zero, suc, ◌+◌, ◌-◌, ◌*◌, ◌^◌, ◌<◌, List, [], ◌∷◌, ◌++◌, map, length, take, drop, ok, err,
  Result, ◌≡◌, refl, sym, ap, ◌∙◌, arith, ltb, if◌then◌else◌, inl, inr, Bool-cases,
}
use edg.Prelude.Int.{ℤ, pos, ◌*ℤ◌, ◌≤ℤ◌, wrap_64, wrap_64-add}
use edg.Prelude.Slices.{drop-append}
use edg.Prelude.Steps.{after, return, after-after, after-return, after-cong, after-ok}
use edg.Convert.{Value}
use edg.Env.Args.Batch.{batch_size}
use edg.Env.Args.Batch.Covers.{
  sum, Within, ceil_div, rows_per_batch, chunks, batch_size_pos, batch_count_pos, before_end,
  sum-chunks, Within-chunks, effective_size-rows_per_batch, rows_per_batch_pos,
  rows_per_batch_bound,
}
use edg.Env.Args.Generate.{
  BatchQuery, Vars, Evaluator, GenerateError, count_failed, count_not_int, size_failed,
  size_not_int, eval_row, eval_rows, batch_args, rows_of, eval_batches, eval_number, faulted,
  batches_of, start_batches, generate_batch_args,
}

-- Consecutive groups of the given sizes.
abbrev pub cut {ℓ} : {A : Type ℓ} → List ℕ → List A → List (List A)
cut [] xs = []
cut (n ∷ ns) xs = take n xs ∷ cut ns (drop n xs)

take_all-append : {A : Type 0} (n : ℕ) (xs ys : List A) → n ≡ length xs → take n (xs ++ ys) ≡ xs
take_all-append zero [] ys h = refl
take_all-append zero (x ∷ xs) ys h = absurd (omega arith)
take_all-append (suc n) [] ys h = absurd (omega arith)
take_all-append (suc n) (x ∷ xs) ys h = ap (λ zs. x ∷ zs) (take_all-append n xs ys (omega arith))

module _ {E G F I O W : Type 0} (e : Evaluator E G F I O W) (q : BatchQuery G) where
  eval_rows-suc :
      (r n : ℕ) (s : Vars F I O W)
      → r + 1 < 2 ^ 63
      → eval_rows e q (pos r) (suc n) s
        ≡ after
            (eval_row e q (pos r) s)
            (λ vs s'. after (eval_rows e q (pos (r + 1)) n s') (λ rest. return (vs ∷ rest)))
  unfolding eval_rows
  eval_rows-suc r n s h = rw (wrap_64-add r 1 h) refl

  -- The number of rows of a result, 0 for an error.
  measured : Result (GenerateError E) (List (List (Value F I O))) → ℕ
  measured (ok rows) = length rows
  measured (err x) = 0

  -- The rows that come after those evaluated already.
  append_rows :
      ℕ
      → ℕ
      → List (List (Value F I O))
      → Vars F I O W
      → Result (GenerateError E) (List (List (Value F I O))) × Vars F I O W
  append_rows r n xs s = after (eval_rows e q (pos r) n s) (λ ys. return (xs ++ ys))

  cons_row :
      List (Value F I O)
      → List (List (Value F I O))
      → Vars F I O W
      → Result (GenerateError E) (List (List (Value F I O))) × Vars F I O W
  cons_row vs rest = return (vs ∷ rest)

  append_rows-cons :
      (p : Result (GenerateError E) (List (List (Value F I O))) × Vars F I O W)
      (vs : List (Value F I O)) (r n : ℕ)
      → after (after p (append_rows r n)) (cons_row vs)
        ≡ after (after p (cons_row vs)) (append_rows r n)
  unfolding append_rows cons_row
  append_rows-cons (err x, s) vs r n = refl
  append_rows-cons (ok xs, s) vs r n = after-after (eval_rows e q (pos r) n s) _ _

  -- Rows that are evaluated in two parts.
  eval_rows-add :
      (r m n : ℕ) (s : Vars F I O W)
      → r + m < 2 ^ 63
      → eval_rows e q (pos r) (m + n) s ≡ after (eval_rows e q (pos r) m s) (append_rows (r + m) n)
  unfolding eval_rows append_rows cons_row
  eval_rows-add r zero n s h =
      let same : 0 + n ≡ n = omega arith in
      let from : r + 0 ≡ r = omega arith in
      rw (same, from) (sym (after-return (eval_rows e q (pos r) n s)))
  eval_rows-add r (suc m) n s h =
      let first = eval_row e q (pos r) s in
      let same : suc m + n ≡ suc (m + n) = omega arith in
      let from : r + 1 + m ≡ r + suc m = omega arith in
      rw same (eval_rows-suc r (m + n) s (omega arith))
      ∙ after-cong first _ _ (λ vs s' _.
        ap (λ p. after p (cons_row vs)) (eval_rows-add (r + 1) m n s' (omega arith))
        ∙ append_rows-cons (eval_rows e q (pos (r + 1)) m s') vs (r + 1 + m) n)
      ∙ sym (after-after first _ _)
      ∙ ap (λ p. after p (append_rows (r + 1 + m) n)) (sym (eval_rows-suc r m s (omega arith)))
      ∙ ap (λ k. after (eval_rows e q (pos r) (suc m) s) (append_rows k n)) from

  pub length-eval_rows :
      (r n : ℕ) (s s' : Vars F I O W) (rows : List (List (Value F I O)))
      → r + n < 2 ^ 63
      → eval_rows e q (pos r) n s ≡ (ok rows, s')
      → n ≡ length rows
  unfolding eval_rows measured cons_row
  length-eval_rows r zero s s' rows h k = ap (λ (p : _ × _). measured p.0) k
  length-eval_rows r (suc n) s s' rows h k =
      let (vs, s1, _, more) =
        after-ok (eval_row e q (pos r) s)
          (λ vs s1. after (eval_rows e q (pos (r + 1)) n s1) (cons_row vs)) rows s'
          (sym (eval_rows-suc r n s (omega arith)) ∙ k) in
      let (rest, s2, later, done) =
        after-ok (eval_rows e q (pos (r + 1)) n s1) (cons_row vs) rows s' more in
      ap suc (length-eval_rows (r + 1) n s1 s2 rest (omega arith) later)
      ∙ ap (λ (p : _ × _). measured p.0) done

  grouped :
      List ℕ
      → List (List (Value F I O))
      → Vars F I O W
      → Result (GenerateError E) (List (List (Value F I O))) × Vars F I O W
  grouped ns rows = return (map (batch_args e q) (cut ns rows))

  -- The next batch, and the batches after it.
  grouped-cons :
      (p : Result (GenerateError E) (List (List (Value F I O))) × Vars F I O W) (n : ℕ)
      (ns : List ℕ) (xs : List (List (Value F I O)))
      → n ≡ length xs
      → after (after p (grouped ns)) (λ rest. return (batch_args e q xs ∷ rest))
        ≡ after (after p (λ ys. return (xs ++ ys))) (grouped (n ∷ ns))
  unfolding grouped
  grouped-cons (err x, s) n ns xs h = refl
  grouped-cons (ok ys, s) n ns xs h = rw (take_all-append n xs ys h, drop-append n xs ys h) refl

  -- The first row of the next batch, where there is one.
  next_row :
      (c s b k : ℕ) (st : Vars F I O W)
      → 0 < s
      → b + suc k ≡ ceil_div c s
      → eval_rows e q (pos ((b + 1) * s)) (sum (chunks c s (b + 1) k)) st
        ≡ eval_rows e q
            (pos (b * s + (if ltb (c - b * s) s then c - b * s else s)))
            (sum (chunks c s (b + 1) k))
            st
  unfolding eval_rows
  next_row c s b k st h eq = elim (Bool-cases (ltb (c - b * s) s)) [
    | inl last ↦
        let none_left : sum (chunks c s (b + 1) k) ≡ 0 =
          ground (arith, sum-chunks c s (b + 1) k h (omega arith)) in
        rw none_left refl
    | inr more ↦ rw more (let at : (b + 1) * s ≡ b * s + s = grind arith in rw at refl)
  ]

  first_row : (b s : ℕ) → b * s < 2 ^ 62 → wrap_64 (pos b *ℤ pos s) ≡ pos (b * s)
  unfolding wrap_64 ◌*ℤ◌
  first_row b s h = ground arith

  -- One round of the loop over the batches, once the size of the batch is known.
  eval_batches-suc :
      (c s b k n : ℕ) (st : Vars F I O W)
      → batch_size (pos c) (pos s) b ≡ pos n
      → b * s < 2 ^ 62
      → eval_batches e q (pos c) (pos s) b (suc k) st
        ≡ after (eval_rows e q (pos (b * s)) n st) (λ xs st'.
          after
            (eval_batches e q (pos c) (pos s) (b + 1) k st')
            (λ rest. return (batch_args e q xs ∷ rest)))
  unfolding eval_batches rows_of
  eval_batches-suc c s b k n st size h = rw (size, first_row b s h) refl

  eval_batches-rows :
      (c s b k : ℕ) (st : Vars F I O W)
      → 0 < s
      → c < 2 ^ 62
      → s < 2 ^ 62
      → b + k ≡ ceil_div c s
      → eval_batches e q (pos c) (pos s) b k st
        ≡ after (eval_rows e q (pos (b * s)) (sum (chunks c s b k)) st) (grouped (chunks c s b k))
  unfolding eval_batches grouped eval_rows chunks append_rows
  eval_batches-rows c s b zero st h hc hs eq = refl
  eval_batches-rows c s b (suc k) st h hc hs eq =
      let n = if ltb (c - b * s) s then c - b * s else s in
      let ns = chunks c s (b + 1) k in
      let inside : b * s < c = before_end c s b h (omega arith) in
      let small : b * s + n < 2 ^ 63 = ground arith in
      eval_batches-suc c s b k n st (batch_size_pos c s b hc hs inside) (omega arith)
      ∙ after-cong (eval_rows e q (pos (b * s)) n st) _ _ (λ xs st' run.
        ap (λ p. after p (λ rest. return (batch_args e q xs ∷ rest)))
          (eval_batches-rows c s (b + 1) k st' h hc hs (omega arith)
            ∙ ap (λ p. after p (grouped ns)) (next_row c s b k st' h eq))
        ∙ grouped-cons (eval_rows e q (pos (b * s + n)) (sum ns) st') n ns xs
            (length-eval_rows (b * s) n st st' xs small run))
      ∙ sym (after-after (eval_rows e q (pos (b * s)) n st) (append_rows (b * s + n) (sum ns)) _)
      ∙ ap (λ p. after p (grouped (n ∷ ns))) (sym (eval_rows-add (b * s) n (sum ns) st small))

  -- If the count is positive and it and the size are below 2^62, then the batches are evaluated like
  -- all rows in one run: the same values in the same order, the same error, and the same state after
  -- it, captured rows included. The argument sets are those of consecutive groups of the rows,
  -- whose sizes are positive, at most the rows of a full batch, and add up to the count.
  pub generate_batch_args-rows :
      (c : ℕ) (size : ℤ) (s s1 s2 : Vars F I O W)
      → eval_number e count_failed count_not_int (pos 1) q.count s ≡ (ok (pos c), s1)
      → eval_number e size_failed size_not_int (pos c) q.size s1 ≡ (ok size, s2)
      → 0 < c
      → c < 2 ^ 62
      → size ≤ℤ pos (2 ^ 62 - 1)
      → (ns : List ℕ) × (sum ns ≡ c)
        × Within (rows_per_batch c size) ns
        × (generate_batch_args e q s
            ≡ after
                (eval_rows e q (pos 0) c (start_batches e q s2))
                (λ rows. return (map (batch_args e q) (cut ns rows))))
  unfolding generate_batch_args faulted batches_of grouped
  generate_batch_args-rows c size s s1 s2 counted sized h hc hs =
      let n = rows_per_batch c size in
      let positive = rows_per_batch_pos c size h in
      let bound = rows_per_batch_bound c size hc hs in
      let start : 0 * n ≡ 0 = omega arith in
      let total : sum (chunks c n 0 (ceil_div c n)) ≡ c =
        omega (arith, sum-chunks c n 0 (ceil_div c n) positive (omega arith)) in
      (
        chunks c n 0 (ceil_div c n),
        total,
        Within-chunks c n 0 (ceil_div c n) positive (omega arith),
        rw (counted, generate_batch_args)
            (rw sized (
              rw (effective_size-rows_per_batch c size, batch_count_pos c n hc bound positive)
                (eval_batches-rows c n 0 (ceil_div c n) (start_batches e q s2) positive hc bound
                    (omega arith)
                  ∙ rw (start, total) refl))),
      )
