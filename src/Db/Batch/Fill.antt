-- ===== src/Db/Batch/Fill.antt =====
-- One row of `ExpandBatchQuery`: the query with a part in place of each group.
use edg.Prelude.{
  ℕ, zero, suc, ◌+◌, ◌-◌, ◌≤◌, ◌<◌, List, [], ◌∷◌, ◌++◌, append_assoc, none, some, ok, ◌≡◌, refl,
  sym, ap, ◌∙◌, arith, length, take, drop, get_or, get_elem?, All, length-take, length-append,
  take-append-drop,
}
use edg.Prelude.Text.{Bytes, split}
use edg.Prelude.Slices.{take-append, drop-append, take-take, take-split}
use edg.Db.Batch.{Group, batch_sep, slice, splice, part_at, split_groups, fill_row, fill_rows}
use edg.Db.Batch.Groups.{Within}

-- The text of a group.
pub group_text : Bytes → Group → Bytes
group_text query (none, b) = []
group_text query (some a, b) = take (b - a) (drop a query)

-- The groups with their parts.
unfoldable pub parts_of : Bytes → List Group → List (Group × List Bytes)
unfolding group_text
parts_of query [] = []
parts_of query (m ∷ ms) = (m, split (group_text query m) batch_sep) ∷ parts_of query ms

-- The query from `lo` on, with each group replaced by its part for the row.
unfoldable pub weave : ℕ → List (Group × List Bytes) → Bytes → ℕ → Bytes
weave lo [] query row = drop lo query
weave lo (((none, b), parts) ∷ gs) query row = []
weave lo (((some a, b), parts) ∷ gs) query row =
    take (a - lo) (drop lo query) ++ (get_or parts row [] ++ weave b gs query row)

-- Every group has more than `row` parts.
abbrev pub Covers : ℕ → List (Group × List Bytes) → Type 0
Covers row gs = All (λ g. row < length g.1) gs

slice_group :
    (query : Bytes) (a b : ℕ)
    → a ≤ b
    → b ≤ length query
    → slice query (some a, b) ≡ ok (group_text query (some a, b))
unfolding slice group_text
slice_group query a b h k = ground arith

split_groups_cons :
    (query : Bytes) (m : Group) (ms : List Group) (raw : Bytes) (gs : List (Group × List Bytes))
    → slice query m ≡ ok raw
    → split_groups query ms ≡ ok gs
    → split_groups query (m ∷ ms) ≡ ok ((m, split raw batch_sep) ∷ gs)
unfolding split_groups
split_groups_cons query m ms raw gs h k = rw (h, k) refl

pub Within-le : (lo : ℕ) (gs : List Group) (hi : ℕ) → Within lo gs hi → lo ≤ hi
Within-le lo [] hi h = h
Within-le lo ((none, b) ∷ gs) hi h = absurd h
Within-le lo ((some a, b) ∷ gs) hi h = omega (arith, Within-le b gs hi h.2, h.0, h.1)

pub split_groups_lem :
    (query : Bytes) (lo : ℕ) (ms : List Group)
    → Within lo ms (length query)
    → split_groups query ms ≡ ok (parts_of query ms)
unfolding parts_of split_groups
split_groups_lem query lo [] h = refl
split_groups_lem query lo ((none, b) ∷ ms) h = absurd h
split_groups_lem query lo ((some a, b) ∷ ms) h =
    split_groups_cons query (some a, b) ms (group_text query (some a, b)) (parts_of query ms)
      (slice_group query a b (omega (arith, h.1)) (Within-le b ms (length query) h.2))
      (split_groups_lem query b ms h.2)

part_at_lem :
    (parts : List Bytes) (row : ℕ)
    → row < length parts
    → part_at parts row ≡ ok (get_or parts row [])
unfolding part_at
part_at_lem [] row h = absurd (omega arith)
part_at_lem (p ∷ parts) zero h = refl
part_at_lem (p ∷ parts) (suc row) h = part_at_lem parts row (omega arith)

splice_lem :
    (q : Bytes) (a b : ℕ) (part : Bytes)
    → a ≤ length q
    → b ≤ length q
    → splice q (some a, b) part ≡ ok (take a q ++ part ++ drop b q)
unfolding splice
splice_lem q a b part h k = ground arith

fill_row_cons :
    (query : Bytes) (m : Group) (parts : List Bytes) (gs : List (Group × List Bytes)) (row : ℕ)
    (q part : Bytes)
    → fill_row query gs row ≡ ok q
    → part_at parts row ≡ ok part
    → fill_row query ((m, parts) ∷ gs) row ≡ splice q m part
unfolding fill_row
fill_row_cons query m parts gs row q part h k = rw (h, k) refl

-- What `splice` does to a query whose later groups are filled already.
splice_filled :
    (query tail part : Bytes) (lo a b : ℕ)
    → lo ≤ a
    → a ≤ b
    → b ≤ length query
    → splice (take b query ++ tail) (some a, b) part
      ≡ ok (take lo query ++ (take (a - lo) (drop lo query) ++ (part ++ tail)))
splice_filled query tail part lo a b h k l =
    let cut = take b query in
    let cut_length : length cut ≡ b = omega (arith, length-take b query) in
    let whole = length-append cut tail in
    let front : take a (cut ++ tail) ≡ take lo query ++ take (a - lo) (drop lo query) =
      take-append a cut tail (omega arith) ∙ take-take a b query k ∙ take-split lo a query h in
    splice_lem (cut ++ tail) a b part (omega arith) (omega arith)
    ∙ ap ok (
        ap (λ xs. take a (cut ++ tail) ++ part ++ xs) (drop-append b cut tail (sym cut_length))
        ∙ ap (λ xs. xs ++ part ++ tail) front
        ∙ append_assoc (take lo query ++ take (a - lo) (drop lo query)) part tail
        ∙ append_assoc (take lo query) (take (a - lo) (drop lo query)) (part ++ tail))

fill_row_lem :
    (query : Bytes) (lo : ℕ) (ms : List Group) (row : ℕ)
    → Within lo ms (length query)
    → Covers row (parts_of query ms)
    → fill_row query (parts_of query ms) row
      ≡ ok (take lo query ++ weave lo (parts_of query ms) query row)
unfolding fill_row parts_of weave
fill_row_lem query lo [] row h k = ap ok (sym (take-append-drop lo query))
fill_row_lem query lo ((none, b) ∷ ms) row h k = absurd h
fill_row_lem query lo ((some a, b) ∷ ms) row h k =
    let parts = split (group_text query (some a, b)) batch_sep in
    fill_row_cons query (some a, b) parts (parts_of query ms) row
      (take b query ++ weave b (parts_of query ms) query row) (get_or parts row [])
      (fill_row_lem query b ms row h.2 k.1) (part_at_lem parts row k.0)
    ∙ splice_filled query (weave b (parts_of query ms) query row) (get_or parts row []) lo a b h.0
        (omega (arith, h.1)) (Within-le b ms (length query) h.2)

first_or_later :
    (at : ℕ → Bytes) (row n : ℕ) (q : Bytes) (qs : List Bytes)
    → q ≡ at row
    → ((i : ℕ) → i < n → get_elem? qs i ≡ some (at (row + 1 + i)))
    → (i : ℕ) → i < suc n
    → get_elem? (q ∷ qs) i ≡ some (at (row + i))
first_or_later at row n q qs h k zero l = ap some (h ∙ ap at (omega arith))
first_or_later at row n q qs h k (suc i) l = k i (omega arith) ∙ ap (λ j. some (at j)) (omega arith)

-- The rows from `row` on, one after the other.
pub fill_rows_lem :
    (query : Bytes) (ms : List Group) (row n : ℕ)
    → Within 0 ms (length query)
    → ((r : ℕ) → r < row + n → Covers r (parts_of query ms))
    → (qs : List Bytes) × (fill_rows query (parts_of query ms) row n ≡ ok qs)
      × (length qs ≡ n)
      × ((i : ℕ) → i < n → get_elem? qs i ≡ some (weave 0 (parts_of query ms) query (row + i)))
unfolding fill_rows
fill_rows_lem query ms row zero h k = ([], refl, refl, λ i l. absurd (omega arith))
fill_rows_lem query ms row (suc n) h k =
    let gs = parts_of query ms in
    let filled = fill_row_lem query 0 ms row h (k row (omega arith)) in
    let (qs, runs, many, each) = fill_rows_lem query ms (row + 1) n h (λ r l. k r (omega arith)) in
    (
      weave 0 gs query row ∷ qs,
      rw (filled, runs) refl,
      ap suc many,
      first_or_later (weave 0 gs query) row n (weave 0 gs query row) qs refl each,
    )

pub Covers-below :
    (gs : List (Group × List Bytes)) (n r : ℕ) → All (λ g. n ≤ length g.1) gs → r < n → Covers r gs
Covers-below [] n r h k = tt
Covers-below (g ∷ gs) n r h k = (omega (arith, h.0), Covers-below gs n r h.1 k)
