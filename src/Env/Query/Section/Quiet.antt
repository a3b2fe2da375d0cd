-- ===== src/Env/Query/Section/Quiet.antt =====
-- The calls of `runSection` that send no result.
use edg.Prelude.{
  ℕ, List, [], ◌∷◌, Option, none, some, Bool, true, false, Result, ok, err, ◌≡◌, refl, arith,
  Option-cases, inl, inr,
}
use edg.Convert.{Value}
use edg.Env.Query.Inline.{translate_placeholders}
use edg.Env.Query.Section.{
  Stmt, Backend, State, call, run_query, run_query_prepared, run_args, inlined, cached, store_stmt,
  prepare_with, get_or_prepare,
}
use edg.Env.Query.Section.Run.{with_stmt}

module _ {E P F I O W : Type 0} (b : Backend E P F I O W) where
  -- The results are as before.
  abbrev pub Quiet : {A : Type 0} → State E P W → Result E A × State E P W → Type 0
  Quiet s p = p.1.results ≡ s.results

  pub Quiet-call : {A : Type 0} (f : W → Result E A × W) (s : State E P W) → Quiet s (call b f s)
  unfolding call
  Quiet-call f s = refl

  pub Quiet-run_query :
      (q : Stmt) (args : List (Value F I O)) (s : State E P W) → Quiet s (run_query b q args s)
  unfolding run_query
  Quiet-run_query q args s =
      ground (arith, Quiet-call (b.exec q args) s, Quiet-call (b.query q args) s)

  pub Quiet-run_query_prepared :
      (stmt : P) (q : Stmt) (args : List (Value F I O)) (s : State E P W)
      → Quiet s (run_query_prepared b stmt q args s)
  unfolding run_query_prepared
  Quiet-run_query_prepared stmt q args s = ground (
    arith,
    Quiet-call (b.exec_prepared stmt q args) s,
    Quiet-call (b.query_prepared stmt q args) s,
  )

  pub Quiet-run_args :
      (q : Stmt) (stmt : Option P) (inline : Bool) (args : List (Value F I O)) (s : State E P W)
      → Quiet s (run_args b q stmt inline args s)
  unfolding run_args
  Quiet-run_args q none true (a ∷ args) s = Quiet-run_query (inlined b q (a ∷ args)) [] s
  Quiet-run_args q (some stmt) true (a ∷ args) s = Quiet-run_query (inlined b q (a ∷ args)) [] s
  Quiet-run_args q none true [] s = Quiet-run_query q [] s
  Quiet-run_args q (some stmt) true [] s = Quiet-run_query_prepared stmt q [] s
  Quiet-run_args q none false args s = Quiet-run_query q args s
  Quiet-run_args q (some stmt) false args s = Quiet-run_query_prepared stmt q args s

  pub Quiet-store_stmt :
      (id : ℕ) (s : State E P W) (p : Result E P × State E P W)
      → Quiet s p
      → Quiet s (store_stmt b id p)
  unfolding store_stmt
  Quiet-store_stmt id s (err e, s') h = h
  Quiet-store_stmt id s (ok p, s') h = h

  pub Quiet-prepare_with :
      (id : ℕ) (o : Option _) (sql : Option _) (s : State E P W)
      → Quiet s (prepare_with b id o sql s)
  unfolding prepare_with
  Quiet-prepare_with id none sql s = refl
  Quiet-prepare_with id (some prepare) none s = refl
  Quiet-prepare_with id (some prepare) (some sql) s =
      Quiet-store_stmt id s (call b (prepare sql) s) (Quiet-call (prepare sql) s)

  pub Quiet-get_or_prepare : (q : Stmt) (s : State E P W) → Quiet s (get_or_prepare b q s)
  unfolding get_or_prepare
  Quiet-get_or_prepare q s = elim (Option-cases (cached b q.id s.stmt_cache)) [
    | inl e ↦
        rw (e, get_or_prepare)
          (Quiet-prepare_with q.id b.prepare (translate_placeholders q.sql b.driver) s)
    | inr (p, e) ↦ rw (e, get_or_prepare) refl
  ]

  pub Quiet-with_stmt :
      (s : State E P W) (p : Result E P × State E P W) → Quiet s p → Quiet s (with_stmt b p)
  unfolding with_stmt
  Quiet-with_stmt s (err e, s') h = h
  Quiet-with_stmt s (ok p, s') h = h
