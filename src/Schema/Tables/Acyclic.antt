-- ===== src/Schema/Tables/Acyclic.antt =====
-- The tables that `SortTables` can put in order: a rank of their names falls along the references.
use edg.Prelude.{
  ℕ, zero, suc, ◌<◌, List, [], ◌∷◌, false, ◌==◌, if◌then◌else◌, ◌≡◌, refl, ap, ◌∙◌, arith, ok,
  length, length-map, All,
}
use edg.Prelude.Int.{ℤ}
use edg.Prelude.Text.{Bytes}
use edg.Schema.Tables.{Column, Table, ref_table, is_skipped, all_sorted, sort_tables}
use edg.Schema.Tables.Counts.{count}
use edg.Prelude.Text.{same_iff}
use edg.Schema.Tables.Pending.{column_edge, column_edges, edges, waiting, waiting-append}
use edg.Schema.Tables.Loop.{Inv}
use edg.Schema.Tables.Parents.{names, Orders}
use edg.Schema.Tables.Sorted.{sort_loop-Placed}
use edg.Schema.Tables.Counts.{length_of_count}

-- The columns refer to tables of `known` with a lower rank.
abbrev pub Falls : (Bytes → ℕ) → List Bytes → Bytes → List Column → Type 0
Falls rank known name cs =
    All
      (λ c.
        is_skipped name c ≡ false
        → (0 < count (ref_table c) known) × (rank (ref_table c) < rank name))
      cs

abbrev pub Ranked : (Bytes → ℕ) → List Bytes → List Table → Type 0
Ranked rank known ts = All (λ t. Falls rank known t.name t.columns) ts

module _ (rank : Bytes → ℕ) (known placed : List Bytes) (n : Bytes) where
  -- What ranks below `n` is placed.
  abbrev Below : Type 0
  Below = (p : Bytes) → rank p < rank n → 0 < count p known → 0 < count p placed

  waiting-column_edge :
      (name : Bytes) (c : Column)
      → Below
      → (is_skipped name c ≡ false
          → (0 < count (ref_table c) known) × (rank (ref_table c) < rank name))
      → waiting (column_edge name c) placed n ≡ 0
  unfolding column_edge waiting
  waiting-column_edge name c h f = ground (arith, same_iff name n, h (ref_table c))

  waiting-column_edges :
      (name : Bytes) (cs : List Column)
      → Below
      → Falls rank known name cs
      → waiting (column_edges name cs) placed n ≡ 0
  unfolding column_edges waiting
  waiting-column_edges name [] h f = refl
  waiting-column_edges name (c ∷ cs) h f = omega (
    arith,
    waiting-append (column_edge name c) (column_edges name cs) placed n,
    waiting-column_edge name c h f.0,
    waiting-column_edges name cs h f.1,
  )

  waiting-edges : (ts : List Table) → Below → Ranked rank known ts → waiting (edges ts) placed n ≡ 0
  unfolding edges waiting
  waiting-edges [] h f = refl
  waiting-edges (t ∷ ts) h f = omega (
    arith,
    waiting-append (column_edges t.name t.columns) (edges ts) placed n,
    waiting-column_edges t.name t.columns h f.0,
    waiting-edges ts h f.1,
  )

module _ (rank : Bytes → ℕ) (keys placed : List Bytes) (tables : List Table)
    (o : Orders keys tables) (ranked : Ranked rank (names tables) tables)
    (ends : (n : Bytes)
      → count n placed ≡ (if waiting (edges tables) placed n == 0 then count n keys else 0)) where
  -- By induction on a bound of the rank: every name is placed.
  all_placed : (k : ℕ) (n : Bytes) → rank n < k → count n placed ≡ count n keys
  all_placed zero n h = absurd (omega arith)
  all_placed (suc k) n h =
      let lower : (p : Bytes) → rank p < rank n → 0 < count p (names tables) → 0 < count p placed =
        λ p r q. omega (arith, all_placed k p (omega arith), o.same_names p) in
      ground (arith, ends n, waiting-edges rank (names tables) placed n tables lower ranked)

all_sorted_all :
    (tables sorted : List Table)
    → length sorted ≡ length tables
    → all_sorted tables (ok sorted) ≡ ok sorted
unfolding all_sorted
all_sorted_all tables sorted h = ground arith

-- With an empty queue, the names that wait for nothing are placed.
ends_placed :
    (keys placed : List Bytes) (tables : List Table) (degree : Bytes → ℤ)
    → Inv (edges tables) keys degree [] placed
    → (n : Bytes)
    → count n placed ≡ (if waiting (edges tables) placed n == 0 then count n keys else 0)
unfolding count
ends_placed keys placed tables degree inv n = omega (arith, inv.counts n)

-- Where the tables have different names and `keys` lists each of them once, and some rank of the
-- names falls along every reference, which leads to one of the tables or to the table itself:
-- `SortTables` returns tables.
pub sort_tables-Ranked :
    (rank : Bytes → ℕ) (keys : List Bytes) (tables : List Table)
    → Orders keys tables
    → Ranked rank (names tables) tables
    → (ts : List Table) × (sort_tables keys tables ≡ ok ts)
sort_tables-Ranked rank keys tables o ranked =
    let (degree, placed, sorted, ends, inv, p) = sort_loop-Placed keys tables o in
    let placed_all : (n : Bytes) → count n placed ≡ count n (names tables) = λ n.
      all_placed rank keys placed tables o ranked (ends_placed keys placed tables degree inv)
        (suc (rank n)) n (omega arith)
      ∙ o.same_names n in
    let at_least = length_of_count (names tables) placed (λ n. omega (arith, placed_all n)) in
    let at_most = length_of_count placed (names tables) (λ n. omega (arith, placed_all n)) in
    (
      sorted,
      ends
          ∙ all_sorted_all tables sorted (
              omega (
                arith,
                ap length p.same_order,
                length-map sorted (λ t. t.name),
                length-map tables (λ t. t.name),
              )),
    )
