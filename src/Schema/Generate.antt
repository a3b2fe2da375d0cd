-- ===== src/Schema/Generate.antt =====
-- `Generate` (pkg/schema/generate.go): the queries of the workload that `edg init` writes for the
-- tables of a database, up to their encoding as YAML. The regular expression for CHECK constraints
-- and `strings.ToLower` are parameters.
pub mod Order
use edg.Prelude.{
  ℕ, zero, suc, ◌+◌, String, List, [], ◌∷◌, ◌++◌, map, Option, none, some, Bool, true, false, ◌||◌,
  ◌&&◌, not, if◌then◌else◌, str_eq,
}
use edg.Prelude.Int.{ℤ}
use edg.Prelude.Text.{
  Bytes, codes, same, contains, has_prefix, join, split, show_nat, show_int, atoi, replace_all,
}
use edg.Convert.{escape_quotes}
use edg.Schema.Tables.{Column, Table}

-- `initQuery`
pub record InitQuery : Type 0 where
  pub name : Bytes
  pub type : Bytes
  pub count : Bytes
  pub args : List Bytes
  pub query : Bytes

-- `initConfig` and `initGlobals`
pub record InitConfig : Type 0 where
  pub rows : ℕ
  pub batch_size : ℕ
  pub up : List InitQuery
  pub seed : List InitQuery
  pub deseed : List InitQuery
  pub down : List InitQuery

indent_line : Bytes → Bytes → Bytes
indent_line prefix [] = []
indent_line prefix (c ∷ line) = prefix ++ c ∷ line

indent_lines : Bytes → Bytes → Bytes
unfolding indent_line
indent_lines s prefix = join (map (indent_line prefix) (split s b'\n')) (codes "\n")

unfoldable pub wrap_oracle_create : Bytes → Bytes
unfolding indent_lines escape_quotes
wrap_oracle_create stmt =
    codes "BEGIN\n  EXECUTE IMMEDIATE '\n"
    ++ indent_lines (escape_quotes stmt) (codes "    ")
    ++ codes "\n  ';\nEXCEPTION WHEN OTHERS THEN\n  IF SQLCODE != -955 THEN RAISE; END IF;\nEND;"

unfoldable pub up_query : String → Table → InitQuery
unfolding wrap_oracle_create
up_query driver t = record {
  name = codes "create_" ++ t.name;
  type = if str_eq driver "oracle" then codes "exec" else [];
  count = [];
  args = [];
  query = if str_eq driver "oracle" then wrap_oracle_create t.create_stmt else t.create_stmt;
}

-- `buildUp`
unfoldable pub build_up : List Table → String → List InitQuery
unfolding up_query
build_up tables driver = map (up_query driver) tables

contains_any : Bytes → List Bytes → Bool
contains_any s [] = false
contains_any s (p ∷ patterns) = contains s p || contains_any s patterns

unfoldable pub is_auto_default : (Bytes → Bytes) → Bytes → Bool
unfolding contains_any
is_auto_default lower [] = false
is_auto_default lower (c ∷ d) = contains_any (lower (c ∷ d)) (
    codes "gen_random_uuid()"
    ∷ codes "uuid()"
    ∷ codes "newid()"
    ∷ codes "unique_rowid()"
    ∷ codes "now()"
    ∷ codes "current_timestamp"
    ∷ codes "getdate()"
    ∷ codes "systimestamp"
    ∷ codes "nextval("
    ∷ [])

-- `seedableColumns`
unfoldable pub seedable_columns : (Bytes → Bytes) → List Column → List Column
unfolding is_auto_default
seedable_columns lower [] = []
seedable_columns lower (c ∷ columns) =
    if c.is_generated || is_auto_default lower c.default
    then seedable_columns lower columns
    else c ∷ seedable_columns lower columns

int_expr : Option ℤ → Option ℤ → Bytes
int_expr (some lo) (some hi) =
    codes "uniform(" ++ show_int lo ++ codes ", " ++ show_int hi ++ codes ")"
int_expr none hi = codes "uniform(1, 1000)"
int_expr (some lo) none = codes "uniform(1, 1000)"

-- `exprForColumn`, from the lowered type
expr_for_type : Bytes → Column → Bytes
unfolding contains_any int_expr
expr_for_type dt col =
    let sentence = codes "gen('sentence:3')" in
    if contains_any dt (codes "uuid" ∷ codes "uniqueidentifier" ∷ [])
    then codes "uuid_v4()"
    else if contains_any dt (codes "bool" ∷ codes "bit" ∷ [])
    then codes "gen('bool')"
    else if contains_any dt
          (codes "decimal" ∷ codes "numeric" ∷ codes "float" ∷ codes "double" ∷ codes "real" ∷ [])
        || (contains dt (codes "number") && contains dt (codes ","))
    then codes "uniform(1.0, 100.0)"
    else if contains_any dt (codes "int" ∷ codes "serial" ∷ [])
        || same dt (codes "number")
        || (has_prefix (codes "number(") dt && not (contains dt (codes ",")))
    then int_expr col.check_min col.check_max
    else if contains_any dt (
        codes "char"
        ∷ codes "text"
        ∷ codes "string"
        ∷ codes "clob"
        ∷ codes "nvarchar"
        ∷ codes "varchar"
        ∷ [])
    then sentence
    else if contains_any dt
        (codes "timestamp" ∷ codes "datetime" ∷ codes "date" ∷ codes "time" ∷ [])
    then codes "gen('date')"
    else if contains_any dt (
        codes "blob"
        ∷ codes "bytea"
        ∷ codes "binary"
        ∷ codes "varbinary"
        ∷ codes "raw"
        ∷ codes "bytes"
        ∷ [])
    then sentence
    else if contains_any dt (codes "json" ∷ [])
    then sentence
    else if same dt (codes "ltree")
    then codes "ltree(gen('word'), gen('word'), gen('word'))"
    else sentence

unfoldable pub expr_for_column : (Bytes → Bytes) → Column → Bytes
unfolding expr_for_type
expr_for_column lower col = expr_for_type (lower col.data_type) col

unfoldable pub placeholder : String → ℕ → Bytes
placeholder driver n =
    if str_eq driver "mysql"
    then codes "?"
    else if str_eq driver "mssql" || str_eq driver "spanner"
    then codes "@p" ++ show_nat n
    else if str_eq driver "oracle"
    then codes ":" ++ show_nat n
    else codes "$" ++ show_nat n

placeholders_from : String → ℕ → List Column → List Bytes
unfolding placeholder
placeholders_from driver n [] = []
placeholders_from driver n (c ∷ columns) =
    placeholder driver n ∷ placeholders_from driver (n + 1) columns

column_names : List Column → List Bytes
column_names [] = []
column_names (c ∷ columns) = c.name ∷ column_names columns

unfoldable pub seed_query : (Bytes → Bytes) → String → Table → List Column → List InitQuery
unfolding expr_for_column placeholders_from column_names
seed_query lower driver t [] = []
seed_query lower driver t (c ∷ columns) =
    record {
      name = codes "populate_" ++ t.name;
      type = codes "exec";
      count = codes "rows";
      args = map (expr_for_column lower) (c ∷ columns);
      query =
          codes "INSERT INTO "
          ++ t.name
          ++ codes " ("
          ++ join (column_names (c ∷ columns)) (codes ", ")
          ++ codes ") VALUES ("
          ++ join (placeholders_from driver 1 (c ∷ columns)) (codes ", ")
          ++ codes ")";
    }
    ∷ []

-- `buildSeed`
unfoldable pub build_seed : (Bytes → Bytes) → List Table → String → List InitQuery
unfolding seed_query seedable_columns
build_seed lower [] driver = []
build_seed lower (t ∷ tables) driver =
    seed_query lower driver t (seedable_columns lower t.columns) ++ build_seed lower tables driver

-- `for i := len(tables) - 1; i >= 0; i--`
abbrev pub backwards : {A : Type 0} → List A → List A
backwards [] = []
backwards (t ∷ ts) = backwards ts ++ t ∷ []

pub deseed_verb : String → Bytes
deseed_verb driver =
    if str_eq driver "pgx" || str_eq driver "dsql" || str_eq driver "oracle"
    then codes "truncate"
    else codes "delete"

-- `first` is `i == 0`.
unfoldable pub deseed_query : String → Bool → Table → InitQuery
unfolding deseed_verb
deseed_query driver first t = record {
  name = deseed_verb driver ++ codes "_" ++ t.name;
  type = codes "exec";
  count = [];
  args = [];
  query =
      if str_eq driver "pgx" || str_eq driver "dsql"
      then codes "TRUNCATE TABLE " ++ t.name ++ (if first then codes " CASCADE" else [])
      else if str_eq driver "oracle"
      then codes "TRUNCATE TABLE " ++ t.name
      else if str_eq driver "spanner"
      then codes "DELETE FROM " ++ t.name ++ codes " WHERE TRUE"
      else codes "DELETE FROM " ++ t.name;
}

-- The loop over the tables from the last to the first, where the index is 0.
deseed_from : String → List Table → List InitQuery
unfolding deseed_query
deseed_from driver [] = []
deseed_from driver (t ∷ []) = deseed_query driver true t ∷ []
deseed_from driver (t ∷ u ∷ tables) = deseed_query driver false t ∷ deseed_from driver (u ∷ tables)

-- `buildDeseed`
unfoldable pub build_deseed : List Table → String → List InitQuery
unfolding deseed_from
build_deseed tables driver = deseed_from driver (backwards tables)

unfoldable pub down_query : String → Table → InitQuery
down_query driver t = record {
  name = codes "drop_" ++ t.name;
  type = codes "exec";
  count = [];
  args = [];
  query =
      if str_eq driver "oracle"
      then codes "BEGIN\n  EXECUTE IMMEDIATE 'DROP TABLE "
        ++ t.name
        ++ codes
            " CASCADE CONSTRAINTS PURGE';\nEXCEPTION WHEN OTHERS THEN\n  IF SQLCODE != -942 THEN RAISE; END IF;\nEND;"
      else codes "DROP TABLE IF EXISTS " ++ t.name;
}

-- `buildDown`
unfoldable pub build_down : List Table → String → List InitQuery
unfolding down_query
build_down tables driver = map (down_query driver) (backwards tables)

module _ (lower : Bytes → Bytes) (check_between : Bytes → List (Bytes × Bytes × Bytes)) where
  -- The first column of the name gets the bounds.
  pub bound_column : Bytes → ℤ → ℤ → List Column → List Column
  bound_column name lo hi [] = []
  bound_column name lo hi (c ∷ columns) =
      if same (lower c.name) name
      then record c { check_min = some lo; check_max = some hi } ∷ columns
      else c ∷ bound_column name lo hi columns

  pub apply_match : Option ℤ → Option ℤ → Bytes → List Column → List Column
  unfolding bound_column
  apply_match (some lo) (some hi) name columns = bound_column (lower name) lo hi columns
  apply_match none hi name columns = columns
  apply_match (some lo) none name columns = columns

  pub apply_matches : List (Bytes × Bytes × Bytes) → List Column → List Column
  unfolding apply_match
  apply_matches [] columns = columns
  apply_matches ((name, lo, hi) ∷ matches) columns =
      apply_matches matches (apply_match (atoi lo) (atoi hi) name columns)

  -- `applyCheckBounds`, for one table
  unfoldable pub apply_check_bounds : Table → Table
  unfolding apply_matches
  apply_check_bounds t = record t {
    columns = apply_matches (check_between t.create_stmt) t.columns;
  }

  -- `Generate`, before the encoding
  unfoldable pub generate : List Table → String → InitConfig
  unfolding apply_check_bounds build_up build_seed build_deseed build_down
  generate tables driver =
      let bounded = map apply_check_bounds tables in
      record {
        rows = 100;
        batch_size = 100;
        up = build_up bounded driver;
        seed = build_seed lower bounded driver;
        deseed = build_deseed bounded driver;
        down = build_down bounded driver;
      }
