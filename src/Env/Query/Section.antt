-- ===== src/Env/Query/Section.antt =====
-- `runSection`, `RunQuery`, `RunQueryPrepared`, `getOrPrepare`, `sendResult` (pkg/env/env_query.go)
-- and the sections of pkg/env/env_lifecycle.go. A query has an `id` for its address, the key of the
-- statement cache. The database, the argument generator and the output are the fields of
-- `Backend`; each may change the world `W` and fail. Latencies, printed values and log
-- lines are left out.
pub mod Run
pub mod Quiet
pub mod Reports
pub mod Cache
use edg.Prelude.{
  ℕ, zero, suc, ◌+◌, String, List, [], ◌∷◌, ◌++◌, Option, none, some, Bool, true, false, not, ◌&&◌,
  ◌||◌, ◌==◌, leb, ltb, if◌then◌else◌, str_eq, Result, ok, err, length, get_elem?,
}
use edg.Prelude.Int.{ℤ, pos, ltb_ℤ}
use edg.Prelude.Text.{Bytes, codes, contains}
use edg.Config.{Section, seed, run}
use edg.Convert.{Value, Formats, raw_sql}
use edg.Env.Query.Inline.{inline_section_args, translate_placeholders}

pub record Stmt : Type 0 where
  pub id : ℕ
  pub name : String
  pub type : String
  pub prepared : Bool
  pub wait : ℤ
  pub sql : Bytes
  pub compiled_args : ℕ
  pub aggs : List String
  -- `output.ExtractColumns(q)`
  pub columns : List String

pub record QueryResult (E : Type 0) : Type 0 where
  pub name : String
  pub section : Section
  pub error : Option E
  pub count : ℕ
  pub print_aggs : List String

-- `IsBatch`
unfoldable pub is_batch : Stmt → Bool
is_batch q = str_eq q.type "query_batch" || str_eq q.type "exec_batch"

abbrev pub Rows : Type 0 → Type 0 → Type 0 → Type 0
Rows F I O = List (List (String × Value F I O))

pub record Backend (E P F I O W : Type 0) : Type 0 where
  pub formats : Formats F I O
  pub driver : String
  -- `GenerateArgs`
  pub generate_args : Stmt → W → Result E (List (List (Value F I O)) × Bool) × W
  -- `captureOutput`, where `e.Output` is set
  pub capture_output : Option (Stmt → Section → W → Result E (Unit {0}) × W)
  -- `e.Exec` and `e.Query`; then with a prepared statement
  pub exec : Stmt → List (Value F I O) → W → Result E (Unit {0}) × W
  pub query : Stmt → List (Value F I O) → W → Result E (Unit {0}) × W
  pub exec_prepared : P → Stmt → List (Value F I O) → W → Result E (Unit {0}) × W
  pub query_prepared : P → Stmt → List (Value F I O) → W → Result E (Unit {0}) × W
  -- `PrepareContext`, where the connection is a `db.Preparer`
  pub prepare : Option (Bytes → W → Result E P × W)
  pub not_a_preparer : E
  -- the loop of `translatePlaceholders` has not ended
  pub not_translated : E
  -- `valuesTokenRe.ReplaceAllLiteralString`
  pub replace_values : Bytes → Bytes → Bytes
  -- `SetEnv`, and `capturedRows`
  pub set_env : String → Rows F I O → W → W
  pub captured_rows : W → Rows F I O
  pub clear_captured : W → W
  -- a wait, and `ctx.Err()` when it ends early
  pub no_wait : Bool
  pub pause : ℤ → W → Option E × W
  -- whether `e.Results` is set
  pub has_results : Bool

pub record State (E P W : Type 0) : Type 0 where
  pub world : W
  pub results : List (QueryResult E)
  pub stmt_cache : List (ℕ × P)

module _ {E P F I O W : Type 0} (b : Backend E P F I O W) where
  -- A call of the backend.
  unfoldable pub call : {A : Type 0} → (W → Result E A × W) → State E P W → Result E A × State E P W
  call f s = let (r, w) = f s.world in (r, record s { world = w })

  unfoldable pub send_result : QueryResult E → State E P W → State E P W
  send_result r s = if b.has_results then record s { results = s.results ++ r ∷ [] } else s

  unfoldable pub run_query :
      Stmt → List (Value F I O) → State E P W → Result E (Unit {0}) × State E P W
  unfolding call
  run_query q args s =
      if str_eq q.type "exec" || str_eq q.type "exec_batch"
      then call (b.exec q args) s
      else if str_eq q.type "query" || str_eq q.type "query_batch" || str_eq q.type ""
      then call (b.query q args) s
      else (ok tt, s)

  unfoldable pub run_query_prepared :
      P → Stmt → List (Value F I O) → State E P W → Result E (Unit {0}) × State E P W
  unfolding call
  run_query_prepared stmt q args s =
      if str_eq q.type "exec"
      then call (b.exec_prepared stmt q args) s
      else if str_eq q.type "query" || str_eq q.type ""
      then call (b.query_prepared stmt q args) s
      else (ok tt, s)

  unfoldable pub cached : ℕ → List (ℕ × P) → Option P
  cached id [] = none
  cached id ((k, p) ∷ m) = if k == id then some p else cached id m

  -- `e.stmtCache[q] = stmt`, after a miss
  unfoldable pub store_stmt : ℕ → Result E P × State E P W → Result E P × State E P W
  store_stmt id (err e, s) = (err e, s)
  store_stmt id (ok p, s) = (ok p, record s { stmt_cache = (id, p) ∷ s.stmt_cache })

  unfoldable pub prepare_with :
      ℕ
      → Option (Bytes → W → Result E P × W)
      → Option Bytes
      → State E P W
      → Result E P × State E P W
  unfolding call store_stmt
  prepare_with id none sql s = (err b.not_a_preparer, s)
  prepare_with id (some prepare) none s = (err b.not_translated, s)
  prepare_with id (some prepare) (some sql) s = store_stmt id (call (prepare sql) s)

  unfoldable pub get_or_prepare : Stmt → State E P W → Result E P × State E P W
  unfolding cached prepare_with
  get_or_prepare q s = elim (cached q.id s.stmt_cache) [
    | some p ↦ (ok p, s)
    | none ↦ prepare_with q.id b.prepare (translate_placeholders q.sql b.driver) s
  ]

  -- The text that is run in place of the query's.
  replace_raw : List (Value F I O) → Bytes → Bytes
  replace_raw (raw_sql raw ∷ args) sql = b.replace_values sql raw
  replace_raw args sql = sql

  unfoldable pub inlined : Stmt → List (Value F I O) → Stmt
  unfolding replace_raw
  inlined q args = record {
    id = q.id;
    name = q.name;
    type = q.type;
    prepared = false;
    wait = pos 0;
    sql = replace_raw args (inline_section_args b.formats q.sql args b.driver);
    compiled_args = 0;
    aggs = [];
    columns = [];
  }

  -- One argument set: inlined, with a prepared statement, or with native parameters.
  unfoldable pub run_args :
      Stmt → Option P → Bool → List (Value F I O) → State E P W → Result E (Unit {0}) × State E P W
  unfolding run_query run_query_prepared inlined
  run_args q none true (a ∷ args) s = run_query (inlined q (a ∷ args)) [] s
  run_args q (some stmt) true (a ∷ args) s = run_query (inlined q (a ∷ args)) [] s
  run_args q (some stmt) inline args s = run_query_prepared stmt q args s
  run_args q none inline args s = run_query q args s
