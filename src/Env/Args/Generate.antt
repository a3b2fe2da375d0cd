-- ===== src/Env/Args/Generate.antt =====
-- `generateBatchArgs` (pkg/env/env_args.go) and the rows that it captures. `expr.Run` is a field of
-- `Evaluator`: it reads the arguments computed so far, and may change the rows cached for `ref_same`
-- and whatever else expressions change, the world `W`.
pub mod Rows
pub mod Captured
pub mod Cells
use edg.Prelude.{
  ℕ, zero, suc, ◌+◌, String, List, [], ◌∷◌, ◌++◌, map, Option, none, some, Bool, true, false, ◌&&◌,
  ◌||◌, not, if◌then◌else◌, str_eq, Result, ok, err, replicate,
}
use edg.Prelude.Int.{ℤ, pos, negsuc, ◌+ℤ◌, ◌*ℤ◌, wrap_64}
use edg.Prelude.Text.{Bytes, codes, contains, join, show_nat}
use edg.Prelude.Steps.{Steps, ◌>>=◌, ◌>>◌, return, lift, change}
use edg.Convert.{
  Value, Formats, raw_sql, ConvertError, to_int_value, batch_format_value, sql_format_value,
  batch_join_json,
}
use edg.Env.Ref.Cached.{Cache}
use edg.Env.Args.Batch.{Fault, negative_length, effective_size, batch_count, batch_size}

abbrev pub Row : Type 0 → Type 0 → Type 0 → Type 0
Row F I O = List (String × Value F I O)

-- The parts of a query that the function reads; `columns` is `output.ExtractColumns(q)`, and `json`
-- is `q.BatchFormat == "json"`.
pub record BatchQuery (G : Type 0) : Type 0 where
  pub name : String
  pub sql : Bytes
  pub args : List G
  pub arg_names : List (String × ℕ)
  pub count : Option G
  pub size : Option G
  pub json : Bool
  pub columns : List String

-- The fields of `Env` that a generation of arguments reads and writes.
pub record Vars (F I O W : Type 0) : Type 0 where
  pub arg_names : List (String × ℕ)
  pub computed_args : List (Value F I O)
  pub one_cache : Cache (Row F I O)
  pub captured_rows : List (Row F I O)
  pub world : W

pub record Evaluator (E G F I O W : Type 0) : Type 0 where
  pub formats : Formats F I O
  pub driver : String
  -- `expr.Run(p, e.env)`
  pub run :
      G
      → List (String × ℕ)
      → List (Value F I O)
      → Cache (Row F I O)
      → W
      → Result E (Value F I O) × Cache (Row F I O) × W
  -- `valuesTokenRe.FindStringSubmatch`: the two groups of a match
  pub find_values : Bytes → Option (Bytes × Bytes)

pub data GenerateError (E : Type 0) : Type 0 where
  count_failed size_failed : E → GenerateError E
  count_not_int size_not_int : ConvertError → GenerateError E
  -- the argument's index and the row's number
  arg_failed : ℕ → ℤ → E → GenerateError E
  fault : Fault → GenerateError E

module _ {F I O : Type 0} where
  -- `r[col] = v`
  pub put_cell : String → Value F I O → Row F I O → Row F I O
  put_cell col v [] = (col, v) ∷ []
  put_cell col v ((c, w) ∷ row) = if str_eq c col then (c, v) ∷ row else (c, w) ∷ put_cell col v row

  -- `for ci, col := range columns { if ci < len(args) { r[col] = args[ci] } }`
  unfoldable pub cells : List String → List (Value F I O) → Row F I O → Row F I O
  unfolding put_cell
  cells [] args row = row
  cells (col ∷ columns) [] row = row
  cells (col ∷ columns) (v ∷ args) row = cells columns args (put_cell col v row)

-- `perArg[i] = append(…)` for every argument of one row.
pub prepend_each : List Bytes → List (List Bytes) → List (List Bytes)
prepend_each (p ∷ parts) (ps ∷ rest) = (p ∷ ps) ∷ prepend_each parts rest
prepend_each parts rest = []

-- `perArg`: for each of `k` arguments its values in the rows.
pub per_arg : ℕ → List (List Bytes) → List (List Bytes)
unfolding prepend_each
per_arg k [] = replicate k []
per_arg k (row ∷ rows) = prepend_each row (per_arg k rows)

oracle_line : Bytes → Bytes → Bytes → Bytes
oracle_line table cols tuple =
    codes "INTO " ++ table ++ codes " (" ++ cols ++ codes ") VALUES " ++ tuple ++ codes "\n"

oracle_lines : Bytes → Bytes → List Bytes → Bytes
unfolding oracle_line
oracle_lines table cols [] = codes "SELECT 1 FROM DUAL"
oracle_lines table cols (t ∷ tuples) = oracle_line table cols t ++ oracle_lines table cols tuples

-- The text that stands for `__values__`.
pub values_sql : Bytes → Bytes → List Bytes → Bytes
unfolding oracle_lines
values_sql [] cols tuples = codes "VALUES " ++ join tuples (codes ", ")
values_sql (c ∷ table) cols tuples = oracle_lines (c ∷ table) cols tuples

-- `convert.Sep`
abbrev pub sep : Bytes
sep = 31 ∷ []

module _ {E G F I O W : Type 0} (e : Evaluator E G F I O W) where
  open e use {formats, driver, run, find_values}

  abbrev Generate : Type 0 → Type 0
  Generate R = Steps (GenerateError E) (Vars F I O W) R

  unwrap :
      (E → GenerateError E)
      → Vars F I O W
      → Result E (Value F I O) × Cache (Row F I O) × W
      → Result (GenerateError E) (Value F I O) × Vars F I O W
  unwrap wrong s (ok v, c, w) = (ok v, record s { one_cache = c; world = w })
  unwrap wrong s (err x, c, w) = (err (wrong x), record s { one_cache = c; world = w })

  eval : (E → GenerateError E) → G → Generate (Value F I O)
  unfolding unwrap
  eval wrong p s = unwrap wrong s (run p s.arg_names s.computed_args s.one_cache s.world)

  -- `e.computedArgs = append(e.computedArgs, v)`
  push : Value F I O → Vars F I O W → Vars F I O W
  push v s = record s { computed_args = s.computed_args ++ v ∷ [] }

  -- The values of one row, from the argument `i` on.
  unfoldable pub eval_args : ℤ → ℕ → List G → Generate (List (Value F I O))
  unfolding eval push
  eval_args row i [] = return []
  eval_args row i (p ∷ ps) = do
    v ← eval (arg_failed i row) p
    change (push v)
    vs ← eval_args row (i + 1) ps
    return (v ∷ vs)

  -- `e.clearOneCache()`, and `e.computedArgs[:0]`
  unfoldable pub start_row : Vars F I O W → Vars F I O W
  start_row s = record s { computed_args = []; one_cache = λ n. none }

  -- `captureColumns` is set where the query has a name.
  capture : BatchQuery G → Vars F I O W → Vars F I O W
  unfolding cells
  capture q s =
      if str_eq q.name ""
      then s
      else record s { captured_rows = s.captured_rows ++ cells q.columns s.computed_args [] ∷ [] }

  pub eval_row : BatchQuery G → ℤ → Generate (List (Value F I O))
  unfolding start_row eval_args capture
  eval_row q row = do change start_row; vs ← eval_args row 0 q.args; change (capture q); return vs

  -- `for row := range n`; `row` is the number of the next row, a Go `int`.
  pub eval_rows : BatchQuery G → ℤ → ℕ → Generate (List (List (Value F I O)))
  unfolding eval_row wrap_64 ◌+ℤ◌
  eval_rows q row zero = return []
  eval_rows q row (suc n) = do
    vs ← eval_row q row
    rest ← eval_rows q (wrap_64 (row +ℤ pos 1)) n
    return (vs ∷ rest)

  -- `formatters[i]`
  pub format_arg : BatchQuery G → ℕ → Value F I O → Bytes
  format_arg q i v =
      let placeholder = codes "$" ++ show_nat (i + 1) in
      let single_quoted = contains q.sql (codes "'" ++ placeholder ++ codes "'") in
      let double_quoted = contains q.sql (codes "\"" ++ placeholder ++ codes "\"") in
      if q.json || single_quoted
      then batch_format_value formats v driver
      else if double_quoted && not (str_eq driver "mongodb")
      then batch_format_value formats v driver
      else sql_format_value formats v driver

  pub format_args : BatchQuery G → ℕ → List (Value F I O) → List Bytes
  unfolding format_arg
  format_args q i [] = []
  format_args q i (v ∷ vs) = format_arg q i v ∷ format_args q (i + 1) vs

  tuple : List (Value F I O) → Bytes
  tuple vs =
      codes "(" ++ join (map (λ v. sql_format_value formats v driver) vs) (codes ", ") ++ codes ")"

  joined : BatchQuery G → List Bytes → Value F I O
  joined q parts = raw_sql (if q.json then batch_join_json parts else join parts sep)

  count_args : List G → ℕ
  count_args [] = 0
  count_args (p ∷ ps) = suc (count_args ps)

  -- `result[b]`, from the values of the rows of the batch.
  pub batch_args : BatchQuery G → List (List (Value F I O)) → List (Value F I O)
  unfolding format_args tuple joined values_sql per_arg count_args
  batch_args q rows = elim (find_values q.sql) [
    | some (table, cols) ↦ raw_sql (values_sql table cols (map tuple rows)) ∷ []
    | none ↦ map (joined q) (per_arg (count_args q.args) (map (format_args q 0) rows))
  ]

  -- `make([]string, n)`, which is made for `__values__` and for each argument.
  rows_of : BatchQuery G → ℤ → Result (GenerateError E) ℕ
  rows_of q (pos n) = ok n
  rows_of q (negsuc n) = elim (find_values q.sql) [
    | some groups ↦ err (fault negative_length)
    | none ↦ elim q.args [ [] ↦ ok 0 | p ∷ ps ↦ err (fault negative_length) ]
  ]

  -- `for b := range batches`, from the batch `b` with `k` left.
  pub eval_batches : BatchQuery G → ℤ → ℤ → ℕ → ℕ → Generate (List (List (Value F I O)))
  unfolding rows_of eval_rows batch_args wrap_64 ◌*ℤ◌ batch_size
  eval_batches q count size b zero = return []
  eval_batches q count size b (suc k) = do
    n ← lift (rows_of q (batch_size count size b))
    rows ← eval_rows q (wrap_64 (pos b *ℤ size)) n
    rest ← eval_batches q count size (b + 1) k
    return (batch_args q rows ∷ rest)

  number : (ConvertError → GenerateError E) → Result ConvertError ℤ → Result (GenerateError E) ℤ
  number wrong (ok i) = ok i
  number wrong (err x) = err (wrong x)

  -- The value of `count` or of `size`, or the given default.
  unfoldable pub eval_number :
      (E → GenerateError E) → (ConvertError → GenerateError E) → ℤ → Option G → Generate ℤ
  unfolding eval number
  eval_number wrong not_int default none = return default
  eval_number wrong not_int default (some p) = do
    v ← eval wrong p
    lift (number not_int (to_int_value formats v))

  faulted : {R : Type 0} → Result Fault R → Result (GenerateError E) R
  faulted (ok r) = ok r
  faulted (err x) = err (fault x)

  -- `make([][]any, batches)`
  batches_of : ℤ → Result (GenerateError E) ℕ
  batches_of (pos k) = ok k
  batches_of (negsuc k) = err (fault negative_length)

  -- `e.computedArgNames`, and `e.capturedRows = nil` where the query has a name
  unfoldable pub start_batches : BatchQuery G → Vars F I O W → Vars F I O W
  start_batches q s = record s {
    arg_names = q.arg_names;
    captured_rows = if str_eq q.name "" then s.captured_rows else [];
  }

  unfoldable pub generate_batch_args : BatchQuery G → Generate (List (List (Value F I O)))
  unfolding eval_number faulted batches_of start_batches eval_batches effective_size batch_count
  generate_batch_args q = do
    count ← eval_number count_failed count_not_int (pos 1) q.count
    size ← eval_number size_failed size_not_int count q.size
    batches ← lift (faulted (batch_count count (effective_size count size)))
    k ← lift (batches_of batches)
    change (start_batches q)
    eval_batches q count (effective_size count size) 0 k
