-- ===== src/Env/Output.antt =====
-- `captureOutput` and `captureOutputBatch` (pkg/env/env_output.go), by which `edg stage` writes the
-- rows of a query instead of sending it. The writer is a parameter, such as those of Output; the
-- argument sets of a query that is not a batch come from `generate_args`. What is deferred to the
-- end of a batch (the reset of the unique index and the printed values) is left out, but for the
-- cache of `ref_same`.
pub mod Staged
use edg.Prelude.{
  ℕ, zero, suc, String, List, [], ◌∷◌, ◌++◌, map, Option, none, some, Bool, true, false, Result, ok,
  err, length, if◌then◌else◌,
}
use edg.Prelude.Int.{ℤ, pos, negsuc, ◌+ℤ◌, wrap_64}
use edg.Prelude.Text.{Bytes, codes}
use edg.Prelude.Steps.{Steps, ◌>>=◌, ◌>>◌, return, lift, change}
use edg.Convert.{Value}
use edg.Env.Args.Batch.{negative_length}
use edg.Env.Args.Generate.{
  Row, BatchQuery, Vars, Evaluator, GenerateError, count_failed, count_not_int, fault, cells,
  eval_args, eval_number, start_row,
}
use edg.Env.Args.Uniq.{put}
use edg.Env.Query.Inline.{inline_args}
use edg.Output.{WriteRow}

pub data StageError (E : Type 0) : Type 0 where
  not_generated : GenerateError E → StageError E
  no_arguments not_written : E → StageError E

-- `QueryResult`, as it is sent here
pub record Sent : Type 0 where
  pub name : String
  pub section : String
  pub count : ℤ

pub record Stage (F I O W X : Type 0) : Type 0 where
  pub vars : Vars F I O W
  pub out : X
  -- the datasets of `SetEnv`
  pub datasets : List (String × List (Row F I O))
  pub sent : List Sent

pub record Stager (E G F I O W X : Type 0) : Type 0 where
  pub evaluator : Evaluator E G F I O W
  -- `e.Output.Add`
  pub add : WriteRow F I O → X → Result E (Unit {0}) × X
  -- `GenerateArgs`
  pub generate_args :
      BatchQuery G → Vars F I O W → Result E (List (List (Value F I O))) × Vars F I O W
  -- whether `e.Results` is set
  pub has_results : Bool

module _ {E G F I O W X : Type 0} (e : Stager E G F I O W X) where
  open e use {evaluator, add, generate_args, has_results}

  abbrev Staging : Type 0 → Type 0
  Staging R = Steps (StageError E) (Stage F I O W X) R

  widen :
      {R E' : Type 0}
      → (E' → StageError E)
      → Stage F I O W X
      → Result E' R × Vars F I O W
      → Result (StageError E) R × Stage F I O W X
  widen wrong s (ok r, v) = (ok r, record s { vars = v })
  widen wrong s (err x, v) = (err (wrong x), record s { vars = v })

  -- A call that reads and changes the variables only.
  pub within : {R E' : Type 0} → (E' → StageError E) → Steps E' (Vars F I O W) R → Staging R
  unfolding widen
  within wrong m s = widen wrong s (m s.vars)

  written :
      Stage F I O W X → Result E (Unit {0}) × X → Result (StageError E) (Unit {0}) × Stage F I O W X
  written s (ok u, x) = (ok tt, record s { out = x })
  written s (err z, x) = (err (not_written z), record s { out = x })

  pub write : WriteRow F I O → Staging (Unit {0})
  unfolding written
  write r s = written s (add r s.out)

  set_env : String → List (Row F I O) → Stage F I O W X → Stage F I O W X
  set_env name [] s = s
  set_env name (row ∷ rows) s = record s { datasets = put name (row ∷ rows) s.datasets }

  send_result : Sent → Stage F I O W X → Stage F I O W X
  send_result r s = if has_results then record s { sent = s.sent ++ r ∷ [] } else s

  -- `SetEnv`, where there are rows, and `sendResult`.
  pub finish : String → String → ℤ → List (Row F I O) → Stage F I O W X → Stage F I O W X
  unfolding set_env send_result
  finish name section count rows s =
      send_result (record { name = name; section = section; count = count }) (set_env name rows s)

  -- The row that a batch writes, with the query as it is.
  pub batch_row : BatchQuery G → String → List (Value F I O) → WriteRow F I O
  batch_row q section vs = record {
    section = codes section;
    name = codes q.name;
    sql = q.sql;
    columns = map codes q.columns;
    args = vs;
  }

  pub stage_row : BatchQuery G → String → ℤ → Staging (List (Value F I O))
  unfolding within write batch_row start_row
  stage_row q section row = do
    within not_generated (change (start_row evaluator))
    vs ← within not_generated (eval_args evaluator row 0 q.args)
    write (batch_row q section vs)
    return vs

  -- `for row := range count`, from a row with the number of rows left.
  pub stage_rows : BatchQuery G → String → ℤ → ℕ → Staging (List (List (Value F I O)))
  unfolding stage_row wrap_64 ◌+ℤ◌
  stage_rows q section row zero = return []
  stage_rows q section row (suc n) = do
    vs ← stage_row q section row
    rest ← stage_rows q section (wrap_64 (row +ℤ pos 1)) n
    return (vs ∷ rest)

  -- `make([]map[string]any, 0, count)`
  rows_of : ℤ → Result (StageError E) ℕ
  rows_of (pos n) = ok n
  rows_of (negsuc n) = err (not_generated (fault negative_length))

  -- `e.computedArgNames = q.Args.Names`
  name_args : BatchQuery G → Vars F I O W → Vars F I O W
  name_args q s = record s { arg_names = q.arg_names }

  unfoldable pub capture_output_batch : BatchQuery G → String → Staging (Unit {0})
  unfolding within rows_of name_args stage_rows finish cells
  capture_output_batch q section = do
    count ← within not_generated (eval_number evaluator count_failed count_not_int (pos 1) q.count)
    n ← lift (rows_of count)
    within not_generated (change (name_args q))
    rows ← stage_rows q section (pos 0) n
    change (finish q.name section count (map (λ vs. cells q.columns vs []) rows))

  clear_one_cache : Vars F I O W → Vars F I O W
  clear_one_cache s = record s { one_cache = λ n. none }

  resolved_sql : BatchQuery G → List (Value F I O) → Bytes
  resolved_sql q [] = q.sql
  resolved_sql q (v ∷ vs) = inline_args evaluator.formats q.sql (v ∷ vs) evaluator.driver

  -- The row of one argument set.
  set_row : BatchQuery G → String → List (Value F I O) → WriteRow F I O
  unfolding resolved_sql
  set_row q section args = record {
    section = codes section;
    name = codes q.name;
    sql = resolved_sql q args;
    columns = map codes q.columns;
    args = args;
  }

  -- `if len(columns) > 0 && len(args) > 0`
  env_rows : List String → List (Value F I O) → List (Row F I O)
  unfolding cells
  env_rows [] args = []
  env_rows (c ∷ columns) [] = []
  env_rows (c ∷ columns) (v ∷ args) = cells (c ∷ columns) (v ∷ args) [] ∷ []

  capture_sets : BatchQuery G → String → List (List (Value F I O)) → Staging (List (Row F I O))
  unfolding write set_row env_rows
  capture_sets q section [] = return []
  capture_sets q section (args ∷ sets) = do
    write (set_row q section args)
    rows ← capture_sets q section sets
    return (env_rows q.columns args ++ rows)

  capture_output_sets : BatchQuery G → String → Staging (Unit {0})
  unfolding within capture_sets finish
  capture_output_sets q section = do
    sets ← within no_arguments (generate_args q)
    rows ← capture_sets q section sets
    change (finish q.name section (pos (length sets)) rows)

  cleared :
      Result (StageError E) (Unit {0}) × Stage F I O W X
      → Result (StageError E) (Unit {0}) × Stage F I O W X
  unfolding clear_one_cache
  cleared (r, s) = (r, record s { vars = clear_one_cache s.vars })

  -- `captureOutput`, with `q.IsBatch()`
  unfoldable pub capture_output : BatchQuery G → Bool → String → Staging (Unit {0})
  unfolding capture_output_batch capture_output_sets cleared
  capture_output q true section s = cleared (capture_output_batch q section s)
  capture_output q false section s = capture_output_sets q section s
