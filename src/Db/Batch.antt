-- ===== src/Db/Batch.antt =====
-- `ExpandBatchQuery` and `findBatchGroups` (pkg/db/batch.go). A position that is -1 in the code is
-- `none`; an index or a slice out of range is the panic of the model.
pub mod Groups
pub mod Fill
pub mod Rows
use edg.Prelude.{
  ℕ, zero, suc, ◌+◌, ◌-◌, List, [], ◌∷◌, ◌++◌, map, Option, none, some, Bool, true, false, not,
  ◌&&◌, ◌||◌, leb, ◌==◌, if◌then◌else◌, Result, ok, err, ◌>>=◌, length, take, drop, get_elem?,
}
use edg.Prelude.Text.{Bytes, codes, contains, split}

abbrev pub batch_sep : ℕ
batch_sep = 31

unfoldable pub is_group_delim : ℕ → Bool
is_group_delim b =
    b == b','
    || b == b':'
    || b == b'('
    || b == b')'
    || b == b'['
    || b == b']'
    || b == b'{'
    || b == b'}'
    || b == b' '
    || b == 9
    || b == 10
    || b == 13

pub data Panic : Type 0 where
  out_of_range : Panic

-- [start, end)
abbrev pub Group : Type 0
Group = Option ℕ × ℕ

pub record Scan : Type 0 where
  pub in_single : Bool
  pub in_double : Bool
  pub token_start : Option ℕ
  pub group_start : Option ℕ
  pub has_sep : Bool
  pub groups : List Group

-- `if start < 0 { start = i }`
unfoldable pub start_at : Option ℕ → ℕ → Option ℕ
start_at none i = some i
start_at (some j) i = some j

-- `if hasSep { groups = append(groups, [2]int{groupStart, i}) }`
unfoldable pub flush : Scan → ℕ → List Group
flush s i = if s.has_sep then s.groups ++ (s.group_start, i) ∷ [] else s.groups

-- `if start < 0 { start = token }`
unfoldable pub or_else : Option ℕ → Option ℕ → Option ℕ
or_else none token = token
or_else (some j) token = some j

unfoldable pub on_separator : Scan → ℕ → Scan
unfolding start_at or_else
on_separator s i =
    let token = start_at s.token_start i in
    record s { group_start = or_else s.group_start token; has_sep = true; token_start = none }

unfoldable pub on_delimiter : Scan → ℕ → Scan
unfolding flush
on_delimiter s i = record s {
  groups = flush s i;
  token_start = none;
  group_start = none;
  has_sep = false;
}

-- the body of the loop for the byte `b` at `i`
unfoldable pub scan_byte : Scan → ℕ → ℕ → Scan
unfolding start_at on_separator on_delimiter is_group_delim
scan_byte s i b =
    let token = record s { token_start = start_at s.token_start i } in
    if (b == b'\'') && not s.in_double
    then record token { in_single = not s.in_single }
    else if (b == b'"') && not s.in_single
    then record token { in_double = not s.in_double }
    else if s.in_single || s.in_double
    then s
    else if b == batch_sep
    then on_separator s i
    else if is_group_delim b
    then on_delimiter s i
    else token

unfoldable pub scan_from : Scan → ℕ → Bytes → List Group
unfolding scan_byte flush
scan_from s i [] = flush s i
scan_from s i (b ∷ query) = scan_from (scan_byte s i b) (i + 1) query

abbrev pub first_scan : Scan
first_scan = record {
  in_single = false;
  in_double = false;
  token_start = none;
  group_start = none;
  has_sep = false;
  groups = [];
}

unfoldable pub find_batch_groups : Bytes → List Group
unfolding scan_from
find_batch_groups query = scan_from first_scan 0 query

-- `query[m[0]:m[1]]`
unfoldable pub slice : Bytes → Group → Result Panic Bytes
slice query (none, b) = err out_of_range
slice query (some a, b) =
    if leb a b && leb b (length query) then ok (take (b - a) (drop a query)) else err out_of_range

-- `q[:m[0]] + part + q[m[1]:]`
unfoldable pub splice : Bytes → Group → Bytes → Result Panic Bytes
splice q (none, b) part = err out_of_range
splice q (some a, b) part =
    if leb a (length q) && leb b (length q)
    then ok (take a q ++ part ++ drop b q)
    else err out_of_range

unfoldable pub part_at : List Bytes → ℕ → Result Panic Bytes
part_at [] row = err out_of_range
part_at (p ∷ parts) zero = ok p
part_at (p ∷ parts) (suc row) = part_at parts row

-- each group with its parts
unfoldable pub split_groups : Bytes → List Group → Result Panic (List (Group × List Bytes))
unfolding slice
split_groups query [] = ok []
split_groups query (m ∷ ms) = do
  raw ← slice query m
  rest ← split_groups query ms
  ok ((m, split raw batch_sep) ∷ rest)

-- the inner loop, from the last group to the first
unfoldable pub fill_row : Bytes → List (Group × List Bytes) → ℕ → Result Panic Bytes
unfolding splice part_at
fill_row query [] row = ok query
fill_row query ((m, parts) ∷ gs) row = do
  q ← fill_row query gs row
  part ← part_at parts row
  splice q m part

unfoldable pub fill_rows : Bytes → List (Group × List Bytes) → ℕ → ℕ → Result Panic (List Bytes)
unfolding fill_row
fill_rows query gs row zero = ok []
fill_rows query gs row (suc n) = do
  q ← fill_row query gs row
  rest ← fill_rows query gs (row + 1) n
  ok (q ∷ rest)

unfoldable pub row_count : List (Group × List Bytes) → ℕ
row_count [] = 0
row_count ((m, parts) ∷ gs) = length parts

unfoldable pub expand_groups : Bytes → List Group → Result Panic (List Bytes)
unfolding split_groups fill_rows row_count
expand_groups query [] = ok (query ∷ [])
expand_groups query (m ∷ ms) = do
  gs ← split_groups query (m ∷ ms)
  fill_rows query gs 0 (row_count gs)

unfoldable pub expand_batch_query : Bytes → Result Panic (List Bytes)
unfolding expand_groups find_batch_groups
expand_batch_query query =
    if contains query (batch_sep ∷ [])
    then expand_groups query (find_batch_groups query)
    else ok (query ∷ [])
