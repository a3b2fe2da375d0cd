-- ===== src/Schema/Tables/Pending.antt =====
-- The references between the tables, and what the maps of `SortTables` say of them.
use edg.Prelude.{
  ℕ, suc, ◌+◌, List, [], ◌∷◌, ◌++◌, append_assoc, append-nil, ◌&&◌, ◌==◌, if◌then◌else◌, ◌≡◌, refl,
  sym, arith, Bool-cases, inl, inr,
}
use edg.Prelude.Int.{pos, ◌+ℤ◌, ◌-ℤ◌}
use edg.Prelude.Text.{Bytes, same}
use edg.Schema.Tables.{
  Column, Table, ref_table, is_skipped, Graph, update, add_dependency, add_column, add_columns,
  populate, empty_graph,
}
use edg.Schema.Tables.Counts.{count}

-- A reference of a table: the table that is referred to, and the table.
pub record Edge : Type 0 where
  pub parent : Bytes
  pub child : Bytes

unfoldable pub column_edge : Bytes → Column → List Edge
column_edge table c =
    if is_skipped table c then [] else record { parent = ref_table c; child = table } ∷ []

unfoldable pub column_edges : Bytes → List Column → List Edge
column_edges table [] = []
column_edges table (c ∷ cs) = column_edge table c ++ column_edges table cs

unfoldable pub edges : List Table → List Edge
edges [] = []
edges (t ∷ ts) = column_edges t.name t.columns ++ edges ts

unfoldable pub children : List Edge → Bytes → List Bytes
children [] n = []
children (e ∷ es) n = if same e.parent n then e.child ∷ children es n else children es n

-- How many references of the table `n` lead to tables that are not among `placed`.
unfoldable pub waiting : List Edge → List Bytes → Bytes → ℕ
waiting [] placed n = 0
waiting (e ∷ es) placed n =
    if same e.child n && (count e.parent placed == 0)
    then suc (waiting es placed n)
    else waiting es placed n

pub waiting-append :
    (es fs : List Edge) (placed : List Bytes) (n : Bytes)
    → waiting (es ++ fs) placed n ≡ waiting es placed n + waiting fs placed n
unfolding waiting
waiting-append [] fs placed n = omega arith
waiting-append (e ∷ es) fs placed n = ground (arith, waiting-append es fs placed n)

pub children-append :
    (es fs : List Edge) (n : Bytes) → children (es ++ fs) n ≡ children es n ++ children fs n
unfolding children
children-append [] fs n = refl
children-append (e ∷ es) fs n = ground (arith, children-append es fs n)

pub record Holds (g : Graph) (es : List Edge) : Type 0 where
  pub deps : (n : Bytes) → g.dependencies n ≡ children es n
  pub degree : (n : Bytes) → g.in_degree n ≡ pos (waiting es [] n)

pos_suc : (k : ℕ) → pos k +ℤ pos 1 ≡ pos (suc k)
unfolding ◌+ℤ◌
pos_suc k = ground arith

pub pos_pred : (k : ℕ) → pos (suc k) -ℤ pos 1 ≡ pos k
unfolding ◌-ℤ◌
pos_pred k = ground arith

children_one :
    (p c n : Bytes)
    → children (record { parent = p; child = c } ∷ []) n ≡ (if same p n then c ∷ [] else [])
unfolding children
children_one p c n = refl

waiting_one :
    (p c n : Bytes)
    → waiting (record { parent = p; child = c } ∷ []) [] n ≡ (if same c n then 1 else 0)
unfolding waiting count
waiting_one p c n = ground arith

Holds-add_dependency :
    (g : Graph) (es : List Edge) (p c : Bytes)
    → Holds g es
    → Holds (add_dependency g p c) (es ++ record { parent = p; child = c } ∷ [])
unfolding add_dependency update
Holds-add_dependency g es p c h = record {
  deps = λ n. ground (
    arith,
    h.deps n,
    children-append es (record { parent = p; child = c } ∷ []) n,
    children_one p c n,
    append-nil (children es n),
  );
  degree = λ n. ground (
    arith,
    h.degree n,
    waiting-append es (record { parent = p; child = c } ∷ []) [] n,
    waiting_one p c n,
    pos_suc (waiting es [] n),
  );
}

Holds-add_column :
    (table : Bytes) (g : Graph) (es : List Edge) (c : Column)
    → Holds g es
    → Holds (add_column table g c) (es ++ column_edge table c)
unfolding add_column column_edge
Holds-add_column table g es c h = elim (Bool-cases (is_skipped table c)) [
  | inl e ↦ rw (e, append-nil es) h
  | inr e ↦ rw e (Holds-add_dependency g es (ref_table c) table h)
]

Holds-add_columns :
    (table : Bytes) (g : Graph) (es : List Edge) (cs : List Column)
    → Holds g es
    → Holds (add_columns table g cs) (es ++ column_edges table cs)
unfolding add_columns column_edges
Holds-add_columns table g es [] h = rw (append-nil es) h
Holds-add_columns table g es (c ∷ cs) h =
    rw (sym (append_assoc es (column_edge table c) (column_edges table cs))) (
      Holds-add_columns table (add_column table g c) (es ++ column_edge table c) cs
        (Holds-add_column table g es c h))

Holds-populate_from :
    (g : Graph) (es : List Edge) (ts : List Table)
    → Holds g es
    → Holds (populate g ts) (es ++ edges ts)
unfolding populate edges
Holds-populate_from g es [] h = rw (append-nil es) h
Holds-populate_from g es (t ∷ ts) h =
    rw (sym (append_assoc es (column_edges t.name t.columns) (edges ts))) (
      Holds-populate_from (add_columns t.name g t.columns) (es ++ column_edges t.name t.columns) ts
        (Holds-add_columns t.name g es t.columns h))

Holds-empty_graph : Holds empty_graph []
unfolding empty_graph children waiting
Holds-empty_graph = record { deps = λ n. refl; degree = λ n. refl }

pub Holds-populate : (ts : List Table) → Holds (populate empty_graph ts) (edges ts)
Holds-populate ts = Holds-populate_from empty_graph [] ts Holds-empty_graph
