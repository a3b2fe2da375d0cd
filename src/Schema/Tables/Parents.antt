-- ===== src/Schema/Tables/Parents.antt =====
-- The tables that a table refers to, and when they stand before it.
use edg.Prelude.{
  ◌≤◌, ◌<◌, List, [], ◌∷◌, ◌++◌, map, some, true, false, ◌≡◌, ◌∙◌, arith, Bool-cases, inl, inr, All,
}
use edg.Prelude.Text.{Bytes, same}
use edg.Schema.Tables.{Column, Table, ref_table, is_skipped, find_table}
use edg.Schema.Tables.Counts.{count, count-append}
use edg.Prelude.Text.{same_iff}
use edg.Schema.Tables.Pending.{
  column_edge, column_edges, edges, children, waiting, waiting-append, children-append,
}

abbrev pub names : List Table → List Bytes
names ts = map (λ t. t.name) ts

-- Every table that the columns refer to is among `placed`, the table itself left out.
abbrev pub ParentsIn : List Bytes → Bytes → List Column → Type 0
ParentsIn placed name cs = All (λ c. is_skipped name c ≡ false → 0 < count (ref_table c) placed) cs

-- Each table stands after the tables that it refers to; those named in `placed` stand before.
abbrev pub ParentsFirst : List Bytes → List Table → Type 0
ParentsFirst placed [] = Unit
ParentsFirst placed (t ∷ ts) =
    ParentsIn placed t.name t.columns × ParentsFirst (placed ++ t.name ∷ []) ts

-- The tables have different names, and `keys` lists each of them once.
pub record Orders (keys : List Bytes) (tables : List Table) : Type 0 where
  pub distinct : (n : Bytes) → count n (names tables) ≤ 1
  pub same_names : (n : Bytes) → count n keys ≡ count n (names tables)

waiting-column_edges :
    (placed : List Bytes) (name : Bytes) (cs : List Column)
    → waiting (column_edges name cs) placed name ≡ 0
    → ParentsIn placed name cs
unfolding column_edges column_edge waiting
waiting-column_edges placed name [] h = tt
waiting-column_edges placed name (c ∷ cs) h =
    let both = waiting-append (column_edge name c) (column_edges name cs) placed name in
    (λ e. ground (arith, same_iff name name), waiting-column_edges placed name cs (omega arith))

found_first :
    (t : Table) (ts : List Table) (u : Bytes)
    → same t.name u ≡ true
    → find_table (t ∷ ts) u ≡ some t
unfolding find_table
found_first t ts u e = ground arith

found_later :
    (t : Table) (ts : List Table) (u : Bytes)
    → same t.name u ≡ false
    → find_table (t ∷ ts) u ≡ find_table ts u
unfolding find_table
found_later t ts u e = ground arith

-- A name of a table leads to that table, and if nothing is waited for, its parents are placed.
pub find_table_lem :
    (ts : List Table) (u : Bytes)
    → 0 < count u (names ts)
    → (t : Table) × (find_table ts u ≡ some t)
      × (t.name ≡ u)
      × ((placed : List Bytes)
          → waiting (edges ts) placed u ≡ 0
          → ParentsIn placed t.name t.columns)
unfolding find_table edges count
find_table_lem [] u h = absurd (omega arith)
find_table_lem (t ∷ ts) u h = elim (Bool-cases (same t.name u)) [
  | inl e ↦
      let name = (same_iff t.name u).0 e in
      (
        t,
        found_first t ts u e,
        name,
        λ placed w.
            let here = waiting-append (column_edges t.name t.columns) (edges ts) placed t.name in
            waiting-column_edges placed t.name t.columns (ground arith),
      )
  | inr e ↦
      let (t', found, name, ready) = find_table_lem ts u (ground arith) in
      (
        t',
        found_later t ts u e ∙ found,
        name,
        λ placed w.
            ready placed
              (omega (arith, waiting-append (column_edges t.name t.columns) (edges ts) placed u)),
      )
]

children-column_edges :
    (name : Bytes) (cs : List Column) (n u : Bytes)
    → 0 < count n (children (column_edges name cs) u)
    → same name n ≡ true
unfolding column_edges column_edge children count
children-column_edges name [] n u h = absurd (omega arith)
children-column_edges name (c ∷ cs) n u h = ground (
  arith,
  children-append (column_edge name c) (column_edges name cs) u,
  count-append n (children (column_edge name c) u) (children (column_edges name cs) u),
  children-column_edges name cs n u,
)

pub children-edges :
    (ts : List Table) (n u : Bytes) → 0 < count n (children (edges ts) u) → 0 < count n (names ts)
unfolding edges children count
children-edges [] n u h = h
children-edges (t ∷ ts) n u h = ground (
  arith,
  children-append (column_edges t.name t.columns) (edges ts) u,
  count-append n (children (column_edges t.name t.columns) u) (children (edges ts) u),
  children-column_edges t.name t.columns n u,
  children-edges ts n u,
)
