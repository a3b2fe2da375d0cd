-- ===== src/Db/Batch/Rows.antt =====
-- The queries that `ExpandBatchQuery` gives, one for each row.
use mathlib.Core.Path.{subst}
use edg.Prelude.{
  >>=-ok, ℕ, zero, suc, ◌+◌, ◌≤◌, ◌<◌, List, [], ◌∷◌, some, true, ok, err, Result-cases, inl, inr,
  ◌≡◌, refl, ap, ◌∙◌, arith, length, get_elem?, All,
}
use edg.Prelude.Text.{Bytes, contains}
use edg.Db.Batch.{
  Group, out_of_range, batch_sep, find_batch_groups, part_at, fill_row, fill_rows, row_count,
  expand_groups, expand_batch_query,
}
use edg.Db.Batch.Groups.{Within, find_batch_groups-Within}
use edg.Db.Batch.Fill.{parts_of, weave, Covers, split_groups_lem, fill_rows_lem, Covers-below}

expand_eq :
    (query : Bytes) (m : Group) (ms : List Group)
    → contains query (batch_sep ∷ []) ≡ true
    → find_batch_groups query ≡ m ∷ ms
    → expand_batch_query query
      ≡ fill_rows query (parts_of query (m ∷ ms)) 0 (row_count (parts_of query (m ∷ ms)))
unfolding expand_batch_query expand_groups
expand_eq query m ms h k =
    let within = subst (λ gs. Within 0 gs (length query)) k (find_batch_groups-Within query) in
    rw (h, k, split_groups_lem query 0 (m ∷ ms) within) refl

-- Where the query has a separator and groups, and every group has at least as many parts as the
-- first: `ExpandBatchQuery` gives one query for each part of the first group, and query `i` is the
-- given one with the text of each group replaced by the part `i` of that group.
pub expand_batch_query-weave :
    (query : Bytes) (m : Group) (ms : List Group)
    → contains query (batch_sep ∷ []) ≡ true
    → find_batch_groups query ≡ m ∷ ms
    → All (λ g. row_count (parts_of query (m ∷ ms)) ≤ length g.1) (parts_of query (m ∷ ms))
    → (qs : List Bytes) × (expand_batch_query query ≡ ok qs)
      × (length qs ≡ row_count (parts_of query (m ∷ ms)))
      × ((i : ℕ)
          → i < row_count (parts_of query (m ∷ ms))
          → get_elem? qs i ≡ some (weave 0 (parts_of query (m ∷ ms)) query i))
expand_batch_query-weave query m ms h k enough =
    let gs = parts_of query (m ∷ ms) in
    let within = subst (λ ns. Within 0 ns (length query)) k (find_batch_groups-Within query) in
    let (qs, runs, many, each) =
      fill_rows_lem query (m ∷ ms) 0 (row_count gs) within
        (λ r l. Covers-below gs (row_count gs) r enough (omega arith)) in
    (
      qs,
      expand_eq query m ms h k ∙ runs,
      many,
      λ i l. each i l ∙ ap (λ j. some (weave 0 gs query j)) (omega arith),
    )

part_at-ok :
    (parts : List Bytes) (row : ℕ) (p : Bytes) → part_at parts row ≡ ok p → row < length parts
unfolding part_at
part_at-ok [] row p h = cc
part_at-ok (q ∷ parts) zero p h = omega arith
part_at-ok (q ∷ parts) (suc row) p h = omega (arith, part_at-ok parts row p h)

fill_row-ok :
    (query : Bytes) (gs : List (Group × List Bytes)) (row : ℕ) (q : Bytes)
    → fill_row query gs row ≡ ok q
    → Covers row gs
unfolding fill_row
fill_row-ok query [] row q h = tt
fill_row-ok query ((m, parts) ∷ gs) row q h =
    let (q', runs, rest) = >>=-ok (fill_row query gs row) _ q h in
    let (part, read, spliced) = >>=-ok (part_at parts row) _ q rest in
    (part_at-ok parts row part read, fill_row-ok query gs row q' runs)

fill_rows-ok :
    (query : Bytes) (gs : List (Group × List Bytes)) (row n : ℕ) (qs : List Bytes)
    → fill_rows query gs row (suc n) ≡ ok qs
    → Covers (row + n) gs
unfolding fill_rows
fill_rows-ok query gs row zero qs h =
    let (q, runs, rest) = >>=-ok (fill_row query gs row) _ qs h in
    subst (λ r. Covers r gs) (omega arith) (fill_row-ok query gs row q runs)
fill_rows-ok query gs row (suc n) qs h =
    let (q, runs, rest) = >>=-ok (fill_row query gs row) _ qs h in
    let (qs', more, done) = >>=-ok (fill_rows query gs (row + 1) (suc n)) _ qs rest in
    subst (λ r. Covers r gs) (omega arith) (fill_rows-ok query gs (row + 1) n qs' more)

All-zero : (gs : List (Group × List Bytes)) (n : ℕ) → n ≡ 0 → All (λ g. n ≤ length g.1) gs
All-zero [] n h = tt
All-zero (g ∷ gs) n h = (omega arith, All-zero gs n h)

All-suc :
    (gs : List (Group × List Bytes)) (k n : ℕ)
    → n ≡ suc k
    → Covers k gs
    → All (λ g. n ≤ length g.1) gs
All-suc [] k n h c = tt
All-suc (g ∷ gs) k n h c = (omega (arith, c.0), All-suc gs k n h c.1)

fill_rows-enough :
    (query : Bytes) (gs : List (Group × List Bytes)) (n k : ℕ) (qs : List Bytes)
    → n ≡ k
    → fill_rows query gs 0 k ≡ ok qs
    → All (λ g. n ≤ length g.1) gs
fill_rows-enough query gs n zero qs e h = All-zero gs n e
fill_rows-enough query gs n (suc k) qs e h =
    All-suc gs k n e (subst (λ r. Covers r gs) (omega arith) (fill_rows-ok query gs 0 k qs h))

-- Where the query has a separator and groups, and a group has fewer parts than the first:
-- `ExpandBatchQuery` panics with an index out of range.
pub expand_batch_query-panics :
    (query : Bytes) (m : Group) (ms : List Group)
    → contains query (batch_sep ∷ []) ≡ true
    → find_batch_groups query ≡ m ∷ ms
    → ¬ All (λ g. row_count (parts_of query (m ∷ ms)) ≤ length g.1) (parts_of query (m ∷ ms))
    → expand_batch_query query ≡ err out_of_range
expand_batch_query-panics query m ms h k few =
    let gs = parts_of query (m ∷ ms) in
    elim (Result-cases (fill_rows query gs 0 (row_count gs))) [
      | inl (qs, runs) ↦
          absurd (few (fill_rows-enough query gs (row_count gs) (row_count gs) qs refl runs))
      | inr (out_of_range, fails) ↦ expand_eq query m ms h k ∙ fails
    ]
