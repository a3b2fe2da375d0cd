-- ===== src/Schema/Tables.antt =====
-- `SortTables` (pkg/schema/schema.go): the tables in the order of their foreign keys, by Kahn's
-- algorithm. The Go maps from names are functions;
-- the order in which `range inDegree` visits the names is the argument `keys`. Each round of the
-- loop takes a name off the queue, so its fuel is the number of the names.
pub mod Counts
pub mod Pending
pub mod Loop
pub mod Parents
pub mod Sorted
pub mod Acyclic
use edg.Prelude.{
  ℕ, zero, suc, ◌+◌, List, [], ◌∷◌, ◌++◌, map, Option, none, some, Bool, true, false, ◌||◌, ◌==◌,
  if◌then◌else◌, Result, ok, err, length,
}
use edg.Prelude.Int.{ℤ, pos, ◌+ℤ◌, ◌-ℤ◌, pos_part, neg_part}
use edg.Prelude.Text.{Bytes, codes, same, split_from}

pub record Column : Type 0 where
  pub name : Bytes
  pub data_type : Bytes
  pub is_nullable : Bool
  pub default : Bytes
  pub is_pk : Bool
  pub is_generated : Bool
  -- in "table.column" format
  pub ref : Bytes
  -- the bounds of a CHECK constraint, as the program finds them
  pub check_min : Option ℤ
  pub check_max : Option ℤ

pub record Table : Type 0 where
  pub name : Bytes
  pub create_stmt : Bytes
  pub columns : List Column

pub data SortError : Type 0 where
  cyclic_dependency : SortError
  -- the model's own: the loop has not ended
  out_of_fuel : SortError

-- `strings.Split(col.Ref, ".")[0]`
abbrev pub ref_table : Column → Bytes
ref_table c = (split_from b'.' c.ref).0

-- Whether the column is skipped: it has no reference, or one to its own table.
unfoldable pub is_skipped : Bytes → Column → Bool
is_skipped table c = same c.ref [] || same (ref_table c) table

pub record Graph : Type 0 where
  pub dependencies : Bytes → List Bytes
  pub in_degree : Bytes → ℤ

-- `m[key] = by(m[key])`
unfoldable pub update : {A : Type 0} → (Bytes → A) → Bytes → (A → A) → Bytes → A
update m key by n = if same key n then by (m n) else m n

unfoldable pub add_dependency : Graph → Bytes → Bytes → Graph
unfolding update
add_dependency g parent table = record {
  dependencies = update g.dependencies parent (λ ds. ds ++ table ∷ []);
  in_degree = update g.in_degree table (λ d. d +ℤ pos 1);
}

unfoldable pub add_column : Bytes → Graph → Column → Graph
unfolding is_skipped add_dependency
add_column table g c = if is_skipped table c then g else add_dependency g (ref_table c) table

unfoldable pub add_columns : Bytes → Graph → List Column → Graph
unfolding add_column
add_columns table g [] = g
add_columns table g (c ∷ cs) = add_columns table (add_column table g c) cs

unfoldable pub populate : Graph → List Table → Graph
unfolding add_columns
populate g [] = g
populate g (t ∷ ts) = populate (add_columns t.name g t.columns) ts

unfoldable pub empty_graph : Graph
empty_graph = record { dependencies = λ n. []; in_degree = λ n. pos 0 }

abbrev pub is_zero : ℤ → Bool
is_zero d = pos_part d + neg_part d == 0

unfoldable pub first_queue : (Bytes → ℤ) → List Bytes → List Bytes
first_queue degree [] = []
first_queue degree (n ∷ ns) =
    let rest = first_queue degree ns in if is_zero (degree n) then n ∷ rest else rest

-- the inner loop: the in-degrees and the queue after it
unfoldable pub release : (Bytes → ℤ) → List Bytes → List Bytes → (Bytes → ℤ) × List Bytes
unfolding update
release degree queue [] = (degree, queue)
release degree queue (d ∷ ds) =
    let degree' = update degree d (λ k. k -ℤ pos 1) in
    release degree' (if is_zero (degree' d) then queue ++ d ∷ [] else queue) ds

unfoldable pub find_table : List Table → Bytes → Option Table
find_table [] n = none
find_table (t ∷ ts) n = if same t.name n then some t else find_table ts n

unfoldable pub add_found : List Table → Option Table → List Table
add_found sorted none = sorted
add_found sorted (some t) = sorted ++ t ∷ []

module _ (tables : List Table) (dependencies : Bytes → List Bytes) where
  unfoldable pub sort_loop :
      ℕ → (Bytes → ℤ) → List Bytes → List Table → Result SortError (List Table)
  unfolding release find_table add_found
  sort_loop fuel degree [] sorted = ok sorted
  sort_loop zero degree (n ∷ queue) sorted = err out_of_fuel
  sort_loop (suc fuel) degree (n ∷ queue) sorted =
      let (degree', queue') = release degree queue (dependencies n) in
      sort_loop fuel degree' queue' (add_found sorted (find_table tables n))

unfoldable pub all_sorted :
    List Table → Result SortError (List Table) → Result SortError (List Table)
all_sorted tables (err e) = err e
all_sorted tables (ok sorted) =
    if length sorted == length tables then ok sorted else err cyclic_dependency

unfoldable pub sort_tables : List Bytes → List Table → Result SortError (List Table)
unfolding populate empty_graph first_queue sort_loop all_sorted
sort_tables keys tables =
    let g = populate empty_graph tables in
    all_sorted tables
      (sort_loop tables g.dependencies (length keys) g.in_degree (first_queue g.in_degree keys) [])
