-- ===== src/Env/Query/Section/Run.antt =====
-- `runSection` (pkg/env/env_query.go): the loop over a section's queries, with what it reports and
-- what a query leaves for later ones.
use edg.Prelude.{
  ℕ, ◌+◌, String, List, [], ◌∷◌, Option, none, some, Bool, not, ◌&&◌, ◌||◌, ◌==◌, if◌then◌else◌,
  str_eq, Result, ok, err, length,
}
use edg.Prelude.Int.{pos, ltb_ℤ}
use edg.Prelude.Text.{codes, contains}
use edg.Config.{Section, seed, run}
use edg.Convert.{Value}
use edg.Env.Query.Section.{
  Stmt, QueryResult, Rows, Backend, State, is_batch, call, send_result, run_args, get_or_prepare,
}

abbrev pub failure : {E : Type 0} → Stmt → Section → E → ℕ → QueryResult E
failure q section e count = record {
  name = q.name;
  section = section;
  error = some e;
  count = count;
  print_aggs = [];
}

abbrev pub success : {E : Type 0} → Stmt → Section → ℕ → QueryResult E
success q section count = record {
  name = q.name;
  section = section;
  error = none;
  count = count;
  print_aggs = q.aggs;
}

module _ {E P F I O W : Type 0} (b : Backend E P F I O W) where
  -- `e.sendResult(…Err: err…); return err`
  unfoldable pub fail_with :
      Stmt → Section → E → ℕ → State E P W → Result E (Unit {0}) × State E P W
  unfolding send_result
  fail_with q section e count s = (err e, send_result b (failure q section e count) s)

  unfoldable pub run_sets :
      Stmt
      → Section
      → Option P
      → Bool
      → ℕ
      → List (List (Value F I O))
      → State E P W
      → Result E (Unit {0}) × State E P W
  unfolding run_args fail_with
  run_sets q section stmt inline i [] s = (ok tt, s)
  run_sets q section stmt inline i (args ∷ sets) s =
      let (r, s') = run_args b q stmt inline args s in
      elim r [
        | err e ↦ fail_with q section e i s'
        | ok _ ↦ run_sets q section stmt inline (i + 1) sets s'
      ]

  zip_row : List String → List (Value F I O) → List (String × Value F I O)
  zip_row [] args = []
  zip_row (c ∷ cs) [] = []
  zip_row (c ∷ cs) (a ∷ args) = (c, a) ∷ zip_row cs args

  seed_rows : List String → List (List (Value F I O)) → Rows F I O
  unfolding zip_row
  seed_rows columns [] = []
  seed_rows columns ([] ∷ sets) = seed_rows columns sets
  seed_rows columns ((a ∷ args) ∷ sets) = zip_row columns (a ∷ args) ∷ seed_rows columns sets

  set_rows : String → Rows F I O → W → W
  set_rows name [] w = w
  set_rows name (r ∷ rows) w = b.set_env name (r ∷ rows) w

  set_captured : String → Rows F I O → W → W
  set_captured name [] w = w
  set_captured name (r ∷ rows) w = b.clear_captured (b.set_env name (r ∷ rows) w)

  keep_rows : Stmt → List (List (Value F I O)) → W → W
  unfolding is_batch seed_rows set_rows set_captured
  keep_rows q sets w =
      if str_eq q.name "" || q.compiled_args == 0 || str_eq q.type "query_batch"
      then w
      else if is_batch q
      then set_captured q.name (b.captured_rows w) w
      else set_rows q.name (seed_rows q.columns sets) w

  -- what a query of the section `seed` leaves for the arguments of later ones
  unfoldable pub after_seed : Section → Stmt → List (List (Value F I O)) → State E P W → State E P W
  unfolding keep_rows
  after_seed seed q sets s = record s { world = keep_rows q sets s.world }
  after_seed section q sets s = s

  unfoldable pub paused : Option E × W → State E P W → Result E (Unit {0}) × State E P W
  paused (none, w) s = (ok tt, record s { world = w })
  paused (some e, w) s = (err e, record s { world = w })

  -- the wait after a query of the section `run`
  unfoldable pub wait_after : Section → Stmt → State E P W → Result E (Unit {0}) × State E P W
  unfolding paused
  wait_after run q s =
      if ltb_ℤ (pos 0) q.wait && not b.no_wait
      then paused (b.pause q.wait s.world) s
      else (ok tt, s)
  wait_after section q s = (ok tt, s)

  unfoldable pub run_with_stmt :
      Stmt
      → Section
      → List (List (Value F I O))
      → Bool
      → Result E (Option P) × State E P W
      → Result E (Unit {0}) × State E P W
  unfolding fail_with run_sets after_seed send_result
  run_with_stmt q section sets inline (err e, s) = fail_with q section e 0 s
  run_with_stmt q section sets inline (ok stmt, s) =
      let (r, s') = run_sets q section stmt inline 0 sets s in
      elim r [
        | err e ↦ (err e, s')
        | ok _ ↦
            wait_after section q
              (send_result b (success q section (length sets)) (after_seed section q sets s'))
      ]

  unfoldable pub with_stmt : Result E P × State E P W → Result E (Option P) × State E P W
  with_stmt (err e, s) = (err e, s)
  with_stmt (ok p, s) = (ok (some p), s)

  unfoldable pub run_with_args :
      Stmt
      → Section
      → Result E (List (List (Value F I O)) × Bool) × State E P W
      → Result E (Unit {0}) × State E P W
  unfolding fail_with run_with_stmt get_or_prepare with_stmt is_batch
  run_with_args q section (err e, s) = fail_with q section e 0 s
  run_with_args q section (ok (sets, expanded), s) =
      let use_prepared = q.prepared && not (is_batch q) && not expanded in
      let inline = not use_prepared && (expanded || contains q.sql (codes "$1")) in
      run_with_stmt q section sets inline
        (if use_prepared then with_stmt (get_or_prepare b q s) else (ok none, s))

  unfoldable pub run_stmt :
      Option (Stmt → Section → W → Result E (Unit {0}) × W)
      → Section
      → Stmt
      → State E P W
      → Result E (Unit {0}) × State E P W
  unfolding call run_with_args
  run_stmt (some capture) section q s = call b (capture q section) s
  run_stmt none section q s = run_with_args q section (call b (b.generate_args q) s)

  unfoldable pub run_section : List Stmt → Section → State E P W → Result E (Unit {0}) × State E P W
  unfolding run_stmt
  run_section [] section s = (ok tt, s)
  run_section (q ∷ qs) section s =
      let (r, s') = run_stmt b.capture_output section q s in
      elim r [ err e ↦ (err e, s') | ok _ ↦ run_section qs section s' ]
