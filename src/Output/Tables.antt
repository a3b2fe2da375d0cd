-- ===== src/Output/Tables.antt =====
-- The proofs on the CSV and the Parquet writer (pkg/output/csv.go, pkg/output/parquet.go).
use edg.Prelude.{
  ℕ, zero, suc, ◌≤◌, length, take, replicate, arith, List, [], ◌∷◌, ◌++◌, map, Option, none, some,
  Bool, true, false, ◌&&◌, if◌then◌else◌, ◌≡◌, refl, ap, ◌∙◌, append_assoc, Bool-cases, inl, inr,
}
use edg.Prelude.Text.{Bytes, same, same_iff}
use edg.Convert.{Value}
use edg.Output.{WriteRow, lookup, update, Table, fill_row, append_row, key, add_args, add_table}

module _ {B : Type 0} where
  lookup-update :
      (k : Bytes) (f : Option B → B) (m : List (Bytes × B))
      → lookup k (update k f m) ≡ some (f (lookup k m))
  unfolding lookup update
  lookup-update k f [] = let self : same k k ≡ true = (same_iff k k).1 refl in rw self refl
  lookup-update k f ((j, b) ∷ m) = elim (Bool-cases (same j k)) [
    | inl e ↦ rw (e, lookup) (rw e refl)
    | inr e ↦ rw (e, lookup) (rw e (lookup-update k f m))
  ]

  lookup-update_ne :
      (k l : Bytes) (f : Option B → B) (m : List (Bytes × B))
      → same k l ≡ false
      → lookup l (update k f m) ≡ lookup l m
  unfolding lookup update
  lookup-update_ne k l f [] h = rw h refl
  lookup-update_ne k l f ((j, b) ∷ m) h = elim (Bool-cases (same j k)) [
    | inl e ↦
        let at : j ≡ k = (same_iff j k).0 e in
        let no : same j l ≡ false = rw at h in rw (e, lookup) (rw no refl)
    | inr e ↦ rw (e, lookup) (ap (λ r. if same j l then some b else r) (lookup-update_ne k l f m h))
  ]

-- The calls of `Add` in turn.
abbrev pub each_added {ℓ} : {R : Type ℓ} {S : Type ℓ} → (R → S → S) → List R → S → S
each_added add [] s = s
each_added add (r ∷ rs) s = each_added add rs (add r s)

module _ {F I O C : Type 0} (cell : Value F I O → C) (missing : C) where
  abbrev pub has_args : List (Value F I O) → Bool
  has_args [] = false
  has_args (v ∷ vs) = true

  -- The rows for one file: those with its key, unless they have no arguments.
  abbrev pub rows_for : Bytes → List (WriteRow F I O) → List (WriteRow F I O)
  rows_for k [] = []
  rows_for k (r ∷ rs) =
      if same (key r) k && has_args r.args then r ∷ rows_for k rs else rows_for k rs

  -- The cells of a row: those of its arguments, cut or filled up to the number of its columns.
  abbrev pub padded : ℕ → List (Value F I O) → List C
  padded n args = take n (map cell args ++ replicate n missing)

  abbrev pub cells_of : WriteRow F I O → List C
  cells_of r = padded (length r.columns) r.args

  fill_row-take :
      (columns : List Bytes) (args : List (Value F I O)) (k : ℕ)
      → length columns ≤ k
      → fill_row cell missing columns args
        ≡ take (length columns) (map cell args ++ replicate k missing)
  unfolding fill_row
  fill_row-take [] args k h = refl
  fill_row-take (c ∷ columns) [] zero h = absurd (omega arith)
  fill_row-take (c ∷ columns) [] (suc k) h =
      ap (λ cs. missing ∷ cs) (fill_row-take columns [] k (omega arith))
  fill_row-take (c ∷ columns) (v ∷ args) k h =
      ap (λ cs. cell v ∷ cs) (fill_row-take columns args k (omega arith))

  fill_row-padded : (r : WriteRow F I O) → fill_row cell missing r.columns r.args ≡ cells_of r
  fill_row-padded r = fill_row-take r.columns r.args (length r.columns) (omega arith)

  -- What a file has become after rows were added to it: a new one has the columns of its first row.
  abbrev pub grown : Option (Table C) → List (WriteRow F I O) → Option (Table C)
  grown o [] = o
  grown none (r ∷ rs) = some (record { columns = r.columns; rows = map cells_of (r ∷ rs) })
  grown (some t) (r ∷ rs) =
      some (record { columns = t.columns; rows = t.rows ++ map cells_of (r ∷ rs) })

  grown-append :
      (r : WriteRow F I O) (rs : List (WriteRow F I O)) (o : Option (Table C))
      → grown (some (append_row r.columns (cells_of r) o)) rs ≡ grown o (r ∷ rs)
  unfolding append_row
  grown-append r [] none = refl
  grown-append r [] (some t) = refl
  grown-append r (x ∷ rs) none = refl
  grown-append r (x ∷ rs) (some t) =
      ap (λ z. some (record { columns = t.columns; rows = z }))
        (append_assoc t.rows (cells_of r ∷ []) (map cells_of (x ∷ rs)))

  lookup-add_args :
      (k : Bytes) (r : WriteRow F I O) (args : List (Value F I O)) (files : List (Bytes × Table C))
      → lookup k (add_args cell missing r args files) ≡ (
          if same (key r) k && has_args args
          then some (append_row r.columns (fill_row cell missing r.columns args) (lookup k files))
          else lookup k files)
  unfolding add_args
  lookup-add_args k r [] files = elim (Bool-cases (same (key r) k)) [
    | inl e ↦ rw e refl
    | inr e ↦ rw e refl
  ]
  lookup-add_args k r (v ∷ args) files = elim (Bool-cases (same (key r) k)) [
    | inl e ↦
        let at : key r ≡ k = (same_iff (key r) k).0 e in
        rw e (
          rw at (
            lookup-update k (append_row r.columns (fill_row cell missing r.columns (v ∷ args)))
              files))
    | inr e ↦ rw e (
        lookup-update_ne (key r) k
          (append_row r.columns (fill_row cell missing r.columns (v ∷ args))) files e)
  ]

  -- Whatever rows are added, in whatever order of their queries, each file holds the rows with
  -- its key, in the order in which they were added, after the rows that it held before. Each has
  -- the cells of its arguments, cut or filled up to as many as its query has columns. Rows without
  -- arguments are left out, and no other file is made.
  pub each_added-rows :
      (k : Bytes) (rs : List (WriteRow F I O)) (files : List (Bytes × Table C))
      → lookup k (each_added (add_table cell missing) rs files)
        ≡ grown (lookup k files) (rows_for k rs)
  unfolding add_table
  each_added-rows k [] files = refl
  each_added-rows k (r ∷ rs) files =
      let later = each_added-rows k rs (add_table cell missing r files) in
      let added = lookup-add_args k r r.args files in
      elim (Bool-cases (same (key r) k && has_args r.args)) [
        | inl e ↦
            let stored : lookup k (add_table cell missing r files)
                ≡ some (append_row r.columns (cells_of r) (lookup k files)) =
              added
              ∙ rw e (
                  ap (λ cs. some (append_row r.columns cs (lookup k files))) (fill_row-padded r)) in
            rw e (
              later
              ∙ ap (λ o. grown o (rows_for k rs)) stored
              ∙ grown-append r (rows_for k rs) (lookup k files))
        | inr e ↦
            let stored : lookup k (add_table cell missing r files) ≡ lookup k files =
              added ∙ rw e refl in
            rw e (later ∙ ap (λ o. grown o (rows_for k rs)) stored)
      ]
