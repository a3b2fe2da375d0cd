-- ===== src/Schema/Tables/Sorted.antt =====
-- The order that `SortTables` gives.
use mathlib.Core.Path.{subst}
use edg.Prelude.{
  List, [], ◌∷◌, ◌++◌, append_assoc, append-nil, some, ◌≡◌, refl, sym, ap, ◌∙◌, arith, inl, inr, ok,
  err, length, ==_iff, Result-cases, ◌⊎◌,
}
use edg.Prelude.Int.{ℤ}
use edg.Prelude.Text.{Bytes}
use edg.Schema.Tables.{
  Table, SortError, cyclic_dependency, find_table, add_found, populate, empty_graph, first_queue,
  all_sorted, sort_tables,
}
use edg.Schema.Tables.Counts.{count, to_list, located}
use edg.Schema.Tables.Pending.{edges, waiting, Holds-populate}
use edg.Schema.Tables.Loop.{Inv, Keys, loop_rule, Inv-first_queue}
use edg.Schema.Tables.Parents.{
  names, ParentsIn, ParentsFirst, Orders, find_table_lem, children-edges,
}

ParentsFirst-snoc :
    (placed : List Bytes) (ts : List Table) (t : Table)
    → ParentsFirst placed ts
    → ParentsIn (placed ++ names ts) t.name t.columns
    → ParentsFirst placed (ts ++ t ∷ [])
ParentsFirst-snoc placed [] t h k =
    (subst (λ ps. ParentsIn ps t.name t.columns) (append-nil placed) k, tt)
ParentsFirst-snoc placed (s ∷ ts) t h k = (
  h.0,
  ParentsFirst-snoc (placed ++ s.name ∷ []) ts t h.1 (
      subst (λ ps. ParentsIn ps t.name t.columns)
        (sym (append_assoc placed (s.name ∷ []) (names ts))) k),
)

names-append : (ts us : List Table) → names (ts ++ us) ≡ names ts ++ names us
names-append [] us = refl
names-append (t ∷ ts) us = ap (λ ns. t.name ∷ ns) (names-append ts us)

located-append :
    (tables : List Table) (ns ms : List Bytes)
    → located tables (ns ++ ms) ≡ located tables ns ++ located tables ms
unfolding located
located-append tables [] ms = refl
located-append tables (n ∷ ns) ms =
    ap (λ ts. to_list (find_table tables n) ++ ts) (located-append tables ns ms)
    ∙ sym (append_assoc (to_list (find_table tables n)) (located tables ns) (located tables ms))

-- What the loop keeps of the sorted tables: they are those of the placed names, in order.
pub record Placed (tables : List Table) (placed : List Bytes) (sorted : List Table) : Type 0 where
  pub same_order : names sorted ≡ placed
  pub found : sorted ≡ located tables placed
  pub parents : ParentsFirst [] sorted

located_one :
    (tables : List Table) (u : Bytes) (t : Table)
    → find_table tables u ≡ some t
    → located tables (u ∷ []) ≡ t ∷ []
unfolding located to_list
located_one tables u t h = rw h refl

Placed-add_found :
    (tables : List Table) (placed : List Bytes) (sorted : List Table) (u : Bytes) (t : Table)
    → find_table tables u ≡ some t
    → t.name ≡ u
    → ParentsIn placed t.name t.columns
    → Placed tables placed sorted
    → Placed tables (placed ++ u ∷ []) (sorted ++ t ∷ [])
Placed-add_found tables placed sorted u t e name ready p = record {
  same_order =
      names-append sorted (t ∷ [])
      ∙ ap (λ ns. ns ++ t.name ∷ []) p.same_order
      ∙ ap (λ n. placed ++ n ∷ []) name;
  found =
      ap (λ ts. ts ++ t ∷ []) p.found
      ∙ ap (λ ts. located tables placed ++ ts) (sym (located_one tables u t e))
      ∙ sym (located-append tables placed (u ∷ []));
  parents =
      ParentsFirst-snoc [] sorted t p.parents
        (subst (λ ns. ParentsIn ns t.name t.columns) (sym p.same_order) ready);
}

Placed-round :
    (keys : List Bytes) (tables : List Table)
    → Orders keys tables
    → (u : Bytes) (placed : List Bytes) (sorted : List Table) → count u placed ≡ 0
    → waiting (edges tables) placed u ≡ 0
    → count u keys ≡ 1
    → Placed tables placed sorted
    → Placed tables (placed ++ u ∷ []) (add_found sorted (find_table tables u))
unfolding add_found
Placed-round keys tables o u placed sorted fresh ready key p =
    let (t, e, name, parents) = find_table_lem tables u (omega (arith, o.same_names u)) in
    rw e (Placed-add_found tables placed sorted u t e name (parents placed ready) p)

Orders-Keys :
    (keys : List Bytes) (tables : List Table) → Orders keys tables → Keys (edges tables) keys
Orders-Keys keys tables o = record {
  distinct = λ n. omega (arith, o.distinct n, o.same_names n);
  known = λ n u h. omega (arith, children-edges tables n u h, o.distinct n, o.same_names n);
}

Placed-nil : (tables : List Table) → Placed tables [] []
unfolding located
Placed-nil tables = record { same_order = refl; found = refl; parents = tt }

-- The loop ends: what it has sorted is the tables of the names it has placed.
pub sort_loop-Placed :
    (keys : List Bytes) (tables : List Table)
    → Orders keys tables
    → (degree : Bytes → ℤ) × (placed : List Bytes) × (sorted : List Table) × (sort_tables keys
          tables
        ≡ all_sorted tables (ok sorted))
      × Inv (edges tables) keys degree [] placed
      × Placed tables placed sorted
unfolding sort_tables
sort_loop-Placed keys tables o =
    let g = populate empty_graph tables in
    let holds = Holds-populate tables in
    let (degree, placed, sorted, ends, inv, p) =
      loop_rule (edges tables) keys (Placed tables) tables g.dependencies holds.deps
        (Orders-Keys keys tables o) (Placed-round keys tables o) (length keys) g.in_degree
        (first_queue g.in_degree keys) [] []
        (Inv-first_queue (edges tables) keys g.in_degree holds.degree) (omega arith)
        (Placed-nil tables) in
    (degree, placed, sorted, ap (all_sorted tables) ends, inv, p)

pub all_sorted-ok :
    (tables sorted ts : List Table)
    → all_sorted tables (ok sorted) ≡ ok ts
    → (sorted ≡ ts) × (length sorted ≡ length tables)
unfolding all_sorted
all_sorted-ok tables sorted ts h = ground (arith, ==_iff (length sorted) (length tables))

all_sorted-err :
    (tables sorted : List Table) (e : SortError)
    → all_sorted tables (ok sorted) ≡ err e
    → e ≡ cyclic_dependency
unfolding all_sorted
all_sorted-err tables sorted e h = ground arith

-- Where the tables have different names and `keys` lists each of them once: the loop of
-- `SortTables` ends, so it returns tables or the error of a cyclic dependency.
pub sort_tables-ends :
    (keys : List Bytes) (tables : List Table)
    → Orders keys tables
    → ((ts : List Table) × (sort_tables keys tables ≡ ok ts))
      ⊎ (sort_tables keys tables ≡ err cyclic_dependency)
sort_tables-ends keys tables o =
    let (degree, placed, sorted, ends, inv, p) = sort_loop-Placed keys tables o in
    elim (Result-cases (all_sorted tables (ok sorted))) [
      | inl (ts, e) ↦ inl (ts, ends ∙ e)
      | inr (f, e) ↦ inr (ends ∙ e ∙ ap err (all_sorted-err tables sorted f e))
    ]
