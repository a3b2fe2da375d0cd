-- ===== src/Output.antt =====
-- The writers of `edg stage` (pkg/output): what each keeps of the rows that it is given, and what
-- it then writes. Names of sections, queries and columns are texts; a map is a list of its entries.
-- `fmt.Sprint` and `strings.TrimSpace` are parameters; the encodings of CSV, JSON and Parquet
-- files are their libraries'.
pub mod Tables
use edg.Prelude.{
  ℕ, zero, suc, ◌+◌, List, [], ◌∷◌, ◌++◌, Option, none, some, Bool, true, false, ◌&&◌, not,
  if◌then◌else◌, String,
}
use edg.Prelude.Text.{Bytes, codes, same, join, replace_all, has_prefix, show_nat}
use edg.Convert.{Value, Formats, nil, blob, text, sql_format_value}
use edg.Convert.Encoding.{encode_hex}
use mathlib.Core.List.{reverse}

-- `WriteRow`
pub record WriteRow (F I O : Type 0) : Type 0 where
  pub section : Bytes
  pub name : Bytes
  pub sql : Bytes
  pub columns : List Bytes
  pub args : List (Value F I O)

unfoldable pub lookup : {B : Type 0} → Bytes → List (Bytes × B) → Option B
lookup k [] = none
lookup k ((j, b) ∷ m) = if same j k then some b else lookup k m

-- `m[k] = f(m[k])`, for the entry or its absence
unfoldable pub update : {B : Type 0} → Bytes → (Option B → B) → List (Bytes × B) → List (Bytes × B)
update k f [] = (k, f none) ∷ []
update k f ((j, b) ∷ m) = if same j k then (j, f (some b)) ∷ m else (j, b) ∷ update k f m

-- `csvFile` and `parquetFile`
pub record Table (C : Type 0) : Type 0 where
  pub columns : List Bytes
  pub rows : List (List C)

unfoldable pub or_empty : {B : Type 0} → Option (List B) → List B
or_empty none = []
or_empty (some xs) = xs

-- `f`, a new file with the columns of the row if it is missing, with the row appended
unfoldable pub append_row : {C : Type 0} → List Bytes → List C → Option (Table C) → Table C
append_row columns row none = record { columns = columns; rows = row ∷ [] }
append_row columns row (some t) = record { columns = t.columns; rows = t.rows ++ row ∷ [] }

-- `row.Section + "_" + row.Name`
unfoldable pub key : {F I O : Type 0} → WriteRow F I O → Bytes
key r = r.section ++ codes "_" ++ r.name

module _ {F I O C : Type 0} where
  -- A row as wide as the columns; `missing` is where the arguments end early.
  unfoldable pub fill_row : (Value F I O → C) → C → List Bytes → List (Value F I O) → List C
  fill_row cell missing [] args = []
  fill_row cell missing (c ∷ columns) [] = missing ∷ fill_row cell missing columns []
  fill_row cell missing (c ∷ columns) (v ∷ args) = cell v ∷ fill_row cell missing columns args

  add_args :
      (Value F I O → C)
      → C
      → WriteRow F I O
      → List (Value F I O)
      → List (Bytes × Table C)
      → List (Bytes × Table C)
  unfolding update append_row fill_row key
  add_args cell missing r [] files = files
  add_args cell missing r (v ∷ args) files =
      update (key r) (append_row r.columns (fill_row cell missing r.columns (v ∷ args))) files

  -- `Add` of the CSV and of the Parquet writer, but for the form of a cell.
  unfoldable pub add_table :
      (Value F I O → C) → C → WriteRow F I O → List (Bytes × Table C) → List (Bytes × Table C)
  unfolding add_args
  add_table cell missing r files = add_args cell missing r r.args files

module _ {F I O : Type 0} (sprint : Value F I O → Bytes) where
  -- `formatCSVValue`
  unfoldable pub format_csv_value : Value F I O → Bytes
  format_csv_value nil = []
  format_csv_value (blob b) = encode_hex b
  format_csv_value v = sprint v

  -- `csvWriter.Add`
  unfoldable pub csv_add : WriteRow F I O → List (Bytes × Table Bytes) → List (Bytes × Table Bytes)
  unfolding add_table format_csv_value
  csv_add r files = add_table format_csv_value [] r files

-- The name and the records of each file that `csvWriter.Flush` writes.
unfoldable pub csv_flush : List (Bytes × Table Bytes) → List (Bytes × List (List Bytes))
csv_flush [] = []
csv_flush ((name, t) ∷ files) = (name ++ codes ".csv", t.columns ∷ t.rows) ∷ csv_flush files

abbrev pub JsonData : Type 0 → Type 0 → Type 0 → Type 0
JsonData F I O = List (Bytes × List (Bytes × List (List (Bytes × Value F I O))))

module _ {F I O : Type 0} where
  -- `parquetWriter.Add`
  unfoldable pub parquet_add :
      WriteRow F I O → List (Bytes × Table (Value F I O)) → List (Bytes × Table (Value F I O))
  unfolding add_table
  parquet_add r files = add_table (λ v. v) nil r files

  -- `normalizeValue`
  unfoldable pub normalize_value : Value F I O → Value F I O
  normalize_value (blob b) = text (encode_hex b)
  normalize_value v = v

  -- `for i, col := range row.Columns { if i < len(row.Args) { m[col] = … } }`
  unfoldable pub json_row :
      List Bytes → List (Value F I O) → List (Bytes × Value F I O) → List (Bytes × Value F I O)
  unfolding update normalize_value
  json_row [] args m = m
  json_row (c ∷ columns) [] m = m
  json_row (c ∷ columns) (v ∷ args) m =
      json_row columns args (update c (λ old. normalize_value v) m)

  json_add_args : WriteRow F I O → List (Value F I O) → JsonData F I O → JsonData F I O
  unfolding update json_row or_empty
  json_add_args r [] sections = sections
  json_add_args r (v ∷ args) sections =
      let row = json_row r.columns (v ∷ args) [] in
      update r.section
        (λ queries. update r.name (λ rows. or_empty rows ++ row ∷ []) (or_empty queries)) sections

  -- `jsonWriter.Add`
  unfoldable pub json_add : WriteRow F I O → JsonData F I O → JsonData F I O
  unfolding json_add_args
  json_add r sections = json_add_args r r.args sections

-- `strings.HasSuffix(s, ";")`
ends_in : ℕ → Bytes → Bool
ends_in c s = elim (reverse s) [ [] ↦ false | d ∷ t ↦ has_prefix (c ∷ []) (d ∷ t) ]

module _ {F I O : Type 0} (formats : Formats F I O) (driver : String)
    (trim_space : Bytes → Bytes) where
  -- One step of `resolveArgs`, for the argument of index `i`.
  resolve_arg : ℕ → Value F I O → Bytes → Bytes
  resolve_arg i v query =
      let placeholder = codes "$" ++ show_nat (i + 1) in
      let formatted = sql_format_value formats v driver in
      let quoted = codes "'" ++ placeholder ++ codes "'" in
      replace_all (replace_all query quoted formatted) placeholder formatted

  -- The arguments from the index `i` on, the last first.
  resolve_from : ℕ → List (Value F I O) → Bytes → Bytes
  unfolding resolve_arg
  resolve_from i [] query = query
  resolve_from i (v ∷ args) query = resolve_arg i v (resolve_from (i + 1) args query)

  unfoldable pub resolve_args : Bytes → List (Value F I O) → Bytes
  unfolding resolve_from
  resolve_args query args = resolve_from 0 args query

  unfoldable pub ensure_semicolon : Bytes → Bytes
  unfolding ends_in
  ensure_semicolon s =
      if ends_in b';' (trim_space s) then trim_space s else trim_space s ++ codes ";"

  -- The statement that `sqlWriter.Add` keeps, and that `stdoutWriter.Add` prints.
  unfoldable pub statement : WriteRow F I O → Bytes
  unfolding resolve_args ensure_semicolon
  statement r = ensure_semicolon (elim r.args [ [] ↦ r.sql | v ∷ vs ↦ resolve_args r.sql (v ∷ vs) ])

  -- `sqlWriter.Add`
  unfoldable pub sql_add : WriteRow F I O → List (Bytes × List Bytes) → List (Bytes × List Bytes)
  unfolding update or_empty statement
  sql_add r sections =
      update r.section (λ statements. or_empty statements ++ statement r ∷ []) sections

-- The name and the text of each file that `sqlWriter.Flush` writes.
unfoldable pub sql_flush : List (Bytes × List Bytes) → List (Bytes × Bytes)
sql_flush [] = []
sql_flush ((section, statements) ∷ sections) =
    (section ++ codes ".sql", join statements (codes "\n") ++ codes "\n") ∷ sql_flush sections
