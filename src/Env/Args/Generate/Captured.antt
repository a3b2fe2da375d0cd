-- ===== src/Env/Args/Generate/Captured.antt =====
-- The proofs on the rows that `generateBatchArgs` (pkg/env/env_args.go) captures, and on `arg`.
use edg.Prelude.{
  ℕ, zero, suc, ◌+◌, ◌-◌, ◌<◌, ◌^◌, String, List, [], ◌∷◌, ◌++◌, map, length, Option, Bool, false,
  if◌then◌else◌, str_eq, Result, ok, err, ◌≡◌, refl, sym, ap, ◌∙◌, arith, append_assoc, append-nil,
}
use edg.Prelude.Int.{ℤ, pos, ◌+ℤ◌, ◌≤ℤ◌, wrap_64}
use edg.Prelude.Steps.{◌>>=◌, ◌>>◌, return, change, after-ok, return-ok}
use edg.Convert.{Value}
use edg.Env.Ref.Cached.{Cached}
use edg.Env.Args.Batch.Covers.{sum, Within, rows_per_batch}
use edg.Env.Args.Generate.{
  Row, BatchQuery, Vars, Evaluator, GenerateError, arg_failed, count_failed, count_not_int,
  size_failed, size_not_int, cells, unwrap, eval, push, eval_args, start_row, capture, eval_row,
  eval_rows, batch_args, eval_number, start_batches, generate_batch_args,
}
use edg.Env.Args.Generate.Cells.{value_of, find-cells}
use edg.Env.Args.Uniq.{find}
use edg.Env.Args.Generate.Rows.{cut, generate_batch_args-rows, length-eval_rows}

module _ {E G F I O W : Type 0} (e : Evaluator E G F I O W) where
  unwrap-keeps :
      (wrong : E → GenerateError E) (s : Vars F I O W)
      (t : Result E (Value F I O) × (String → Option (Cached (Row F I O))) × W)
      → ((unwrap e wrong s t).1.computed_args ≡ s.computed_args)
        × ((unwrap e wrong s t).1.captured_rows ≡ s.captured_rows)
  unfolding unwrap
  unwrap-keeps wrong s (ok v, c, w) = (refl, refl)
  unwrap-keeps wrong s (err x, c, w) = (refl, refl)

  -- What an evaluation leaves as it is.
  eval-keeps :
      (wrong : E → GenerateError E) (p : G) (s s' : Vars F I O W) (v : Value F I O)
      → eval e wrong p s ≡ (ok v, s')
      → (s'.computed_args ≡ s.computed_args) × (s'.captured_rows ≡ s.captured_rows)
  unfolding eval
  eval-keeps wrong p s s' v h =
      let (computed, captured) =
        unwrap-keeps wrong s (e.run p s.arg_names s.computed_args s.one_cache s.world) in
      (
        ap (λ (r : _ × Vars F I O W). r.1.computed_args) (sym h) ∙ computed,
        ap (λ (r : _ × Vars F I O W). r.1.captured_rows) (sym h) ∙ captured,
      )

  -- The arguments computed so far are those of the row, in order.
  eval_args-computed :
      (row : ℤ) (i : ℕ) (ps : List G) (s s' : Vars F I O W) (vs : List (Value F I O))
      → eval_args e row i ps s ≡ (ok vs, s')
      → (s'.computed_args ≡ s.computed_args ++ vs) × (s'.captured_rows ≡ s.captured_rows)
  unfolding eval_args push
  eval_args-computed row i [] s s' vs h =
      let (values, states) = return-ok [] vs s s' h in
      (
        ap (λ (r : Vars F I O W). r.computed_args) (sym states)
            ∙ sym (append-nil s.computed_args)
            ∙ ap (λ z. s.computed_args ++ z) values,
        ap (λ (r : Vars F I O W). r.captured_rows) (sym states),
      )
  eval_args-computed row i (p ∷ ps) s s' vs h =
      let (v, s1, evaluated, more) =
        after-ok (eval e (arg_failed i row) p s)
          (λ v. change (push e v) >> (eval_args e row (i + 1) ps >>= λ rest. return (v ∷ rest))) vs
          s' h in
      let (rest, s2, later, done) =
        after-ok (eval_args e row (i + 1) ps (push e v s1)) (λ rest. return (v ∷ rest)) vs s'
          more in
      let (computed, captured) = eval-keeps (arg_failed i row) p s s1 v evaluated in
      let (computed', captured') = eval_args-computed row (i + 1) ps (push e v s1) s2 rest later in
      let (values, states) = return-ok (v ∷ rest) vs s2 s' done in
      (
        ap (λ (r : Vars F I O W). r.computed_args) (sym states)
            ∙ computed'
            ∙ append_assoc s1.computed_args (v ∷ []) rest
            ∙ ap (λ z. z ++ v ∷ rest) computed
            ∙ ap (λ z. s.computed_args ++ z) values,
        ap (λ (r : Vars F I O W). r.captured_rows) (sym states) ∙ captured' ∙ captured,
      )

  module _ (q : BatchQuery G) (named : str_eq q.name "" ≡ false) where
    -- The row that is captured for the values of a row.
    abbrev pub captured_row : List (Value F I O) → Row F I O
    captured_row vs = cells q.columns vs []

    capture-named :
        (s : Vars F I O W)
        → (capture e q s).captured_rows ≡ s.captured_rows ++ captured_row s.computed_args ∷ []
    unfolding capture
    capture-named s = rw named refl

    eval_row-captured :
        (row : ℤ) (s s' : Vars F I O W) (vs : List (Value F I O))
        → eval_row e q row s ≡ (ok vs, s')
        → s'.captured_rows ≡ s.captured_rows ++ captured_row vs ∷ []
    unfolding eval_row start_row
    eval_row-captured row s s' vs h =
        let (ws, s1, evaluated, done) =
          after-ok (eval_args e row 0 q.args (start_row e s))
            (λ ws. change (capture e q) >> return ws) vs s' h in
        let (computed, captured) =
          eval_args-computed row 0 q.args (start_row e s) s1 ws evaluated in
        let (values, states) = return-ok ws vs (capture e q s1) s' done in
        ap (λ (r : Vars F I O W). r.captured_rows) (sym states)
        ∙ capture-named s1
        ∙ ap (λ z. z ++ captured_row s1.computed_args ∷ []) captured
        ∙ ap (λ z. s.captured_rows ++ captured_row z ∷ []) (computed ∙ values)

    eval_rows-captured :
        (row : ℤ) (n : ℕ) (s s' : Vars F I O W) (rows : List (List (Value F I O)))
        → eval_rows e q row n s ≡ (ok rows, s')
        → s'.captured_rows ≡ s.captured_rows ++ map captured_row rows
    unfolding eval_rows
    eval_rows-captured row zero s s' rows h =
        let (values, states) = return-ok [] rows s s' h in
        ap (λ (r : Vars F I O W). r.captured_rows) (sym states)
        ∙ sym (append-nil s.captured_rows)
        ∙ ap (λ z. s.captured_rows ++ map captured_row z) values
    eval_rows-captured row (suc n) s s' rows h =
        let later_row = wrap_64 (row +ℤ pos 1) in
        let (vs, s1, first, more) =
          after-ok (eval_row e q row s)
            (λ vs. eval_rows e q later_row n >>= λ rest. return (vs ∷ rest)) rows s' h in
        let (rest, s2, later, done) =
          after-ok (eval_rows e q later_row n s1) (λ rest. return (vs ∷ rest)) rows s' more in
        let (values, states) = return-ok (vs ∷ rest) rows s2 s' done in
        ap (λ (r : Vars F I O W). r.captured_rows) (sym states)
        ∙ eval_rows-captured later_row n s1 s2 rest later
        ∙ ap (λ z. z ++ map captured_row rest) (eval_row-captured row s s1 vs first)
        ∙ append_assoc s.captured_rows (captured_row vs ∷ []) (map captured_row rest)
        ∙ ap (λ z. s.captured_rows ++ map captured_row z) values

    -- If a named query's batches succeed, for a count that is positive and below 2^62 and a size
    -- below 2^62, the captured rows are, in order, those of all rows that the argument sets are made
    -- of. Each holds under a name the value of the row at the last of the query's columns with that
    -- name, and nothing under other names.
    pub generate_batch_args-captures :
        (c : ℕ) (size : ℤ) (s s1 s2 s' : Vars F I O W) (sets : List (List (Value F I O)))
        → eval_number e count_failed count_not_int (pos 1) q.count s ≡ (ok (pos c), s1)
        → eval_number e size_failed size_not_int (pos c) q.size s1 ≡ (ok size, s2)
        → 0 < c
        → c < 2 ^ 62
        → size ≤ℤ pos (2 ^ 62 - 1)
        → generate_batch_args e q s ≡ (ok sets, s')
        → (ns : List ℕ) × (rows : List (List (Value F I O))) × (sum ns ≡ c)
          × Within (rows_per_batch c size) ns
          × (length rows ≡ c)
          × (sets ≡ map (batch_args e q) (cut ns rows))
          × (s'.captured_rows ≡ map captured_row rows)
          × ((vs : List (Value F I O)) (name : String)
              → find name (captured_row vs) ≡ value_of name q.columns vs)
    unfolding start_batches
    generate_batch_args-captures c size s s1 s2 s' sets counted sized h hc hs run =
        let (ns, total, within, equal) =
          generate_batch_args-rows e q c size s s1 s2 counted sized h hc hs in
        let (rows, s3, evaluated, done) =
          after-ok (eval_rows e q (pos 0) c (start_batches e q s2))
            (λ rows. return (map (batch_args e q) (cut ns rows))) sets s' (sym equal ∙ run) in
        let (values, states) = return-ok (map (batch_args e q) (cut ns rows)) sets s3 s' done in
        (
          ns,
          rows,
          total,
          within,
          sym (length-eval_rows e q 0 c (start_batches e q s2) s3 rows (omega arith) evaluated),
          sym values,
          ap (λ (r : Vars F I O W). r.captured_rows) (sym states)
              ∙ eval_rows-captured (pos 0) c (start_batches e q s2) s3 rows evaluated
              ∙ ap (λ (b : Bool). (if b then s2.captured_rows else []) ++ map captured_row rows)
                  named,
          λ vs name. find-cells name q.columns vs,
        )
