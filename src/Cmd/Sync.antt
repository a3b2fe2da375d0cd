-- ===== src/Cmd/Sync.antt =====
-- `edg sync verify` (cmd/edg/sync.go): the paged cursor and the merge of two tables' rows. The
-- printed lines are left out; every one of them is counted as a mismatch.
pub mod Merge
pub mod Counts
pub mod Cursor
pub mod Command
use Prim.Native.Nat.{Ordering}
use edg.Prelude.{
  ℕ, zero, suc, ◌+◌, String, List, [], ◌∷◌, ◌++◌, Option, none, some, Bool, true, false, str_eq,
  ◌||◌, not, if◌then◌else◌, get_or, Result, ok, err, ◌>>=◌,
}

-- `sql.NullString`; a null's text is empty.
abbrev pub Cell : Type 0
Cell = Option String

abbrev pub Row : Type 0
Row = List Cell

-- The index of a column, the last one for a repeated name, and 0 for an unknown one, as a Go map
-- built by `colIdx[col] = i` answers.
pub index_from : ℕ → ℕ → List String → String → ℕ
index_from i found [] col = found
index_from i found (c ∷ cs) col = index_from (i + 1) (if str_eq c col then i else found) cs col

-- `colValue`. A row has as many cells as there are columns.
unfoldable pub col_value : List String → Row → String → Cell
unfolding index_from
col_value columns row col = get_or row (index_from 0 0 columns col) none

abbrev pub text : Cell → String
text none = ""
text (some s) = s

-- `keyValue`
unfoldable pub key_value : List String → String → Row → String
unfolding col_value
key_value columns order_by row = text (col_value columns row order_by)

pub contains : String → List String → Bool
contains s [] = false
contains s (t ∷ ts) = str_eq s t || contains s ts

-- `buildCompareCols`
pub compare_cols : List String → List String → List String → List String
unfolding contains
compare_cols [] tgt_cols ignored = []
compare_cols (c ∷ cs) tgt_cols ignored =
    let rest = compare_cols cs tgt_cols ignored in
    if contains c ignored || not (contains c tgt_cols) then rest else c ∷ rest

-- `sv.Valid != tv.Valid || sv.String != tv.String`
unfoldable pub cell_differs : Cell → Cell → Bool
cell_differs none none = false
cell_differs none (some t) = true
cell_differs (some s) none = true
cell_differs (some s) (some t) = not (str_eq s t)

-- What `compareKeys` takes from its libraries: the parser and the order of floating-point numbers,
-- and the order of texts.
pub record KeyOrder : Type 1 where
  pub Float : Type 0
  pub parse_float : String → Option Float
  pub lt_float : Float → Float → Bool
  pub compare_text : String → String → Ordering

abbrev pub three_way : Bool → Bool → Ordering
three_way true above = Ordering.lt
three_way false true = Ordering.gt
three_way false false = Ordering.eq

abbrev numeric_order : (o : KeyOrder) → Option o.Float → Option o.Float → Ordering → Ordering
numeric_order o (some x) (some y) otherwise = three_way (o.lt_float x y) (o.lt_float y x)
numeric_order o _ _ otherwise = otherwise

-- `compareKeys`
unfoldable pub compare_keys : KeyOrder → String → String → Ordering
compare_keys o a b = numeric_order o (o.parse_float a) (o.parse_float b) (o.compare_text a b)

-- What the calls of a cursor's `next` return in turn: rows, and then the end or an error.
pub data Feed (E : Type 0) : Type 0 where
  finished : Feed E
  broken : E → Feed E
  row : Row → Feed E → Feed E

pub data SyncError (E : Type 0) : Type 0 where
  source target : E → SyncError E

pub record Tables : Type 0 where
  pub src_columns : List String
  pub tgt_columns : List String
  pub order_by : String
  pub ignored : List String

-- The mismatches of two rows with the same key, over the compared columns.
pub diffs : Tables → List String → Row → Row → ℕ
unfolding col_value cell_differs
diffs t [] r q = 0
diffs t (c ∷ cs) r q =
    (if cell_differs (col_value t.src_columns r c) (col_value t.tgt_columns q c) then 1 else 0)
    + diffs t cs r q

module _ (t : Tables) where
  abbrev pub src_key : Row → String
  src_key = key_value t.src_columns t.order_by

  abbrev pub tgt_key : Row → String
  tgt_key = key_value t.tgt_columns t.order_by

  abbrev pub row_diffs : Row → Row → ℕ
  row_diffs = diffs t (compare_cols t.src_columns t.tgt_columns t.ignored)

module _ {E : Type 0} (o : KeyOrder) (t : Tables) where
  -- The three loops of `verifyTable`, which return the number of mismatches.
  pub verify_table : Feed E → Feed E → Result (SyncError E) ℕ
  unfolding compare_keys key_value diffs compare_cols
  verify_table (broken e) tgt = err (source e)
  verify_table finished (broken e) = err (target e)
  verify_table finished finished = ok 0
  verify_table finished (row q tgt) = do n ← verify_table finished tgt; ok (1 + n)
  verify_table (row r src) (broken e) = err (target e)
  verify_table (row r src) finished = do n ← verify_table src finished; ok (1 + n)
  verify_table (row r src) (row q tgt) = elim (compare_keys o (src_key t r) (tgt_key t q)) [
    | Ordering.eq ↦ do n ← verify_table src tgt; ok (row_diffs t r q + n)
    | Ordering.lt ↦ do n ← verify_table src (row q tgt); ok (1 + n)
    | Ordering.gt ↦ do n ← verify_table (row r src) tgt; ok (1 + n)
  ]
