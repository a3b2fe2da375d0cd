-- ===== src/Env/Args/Generate/Cells.antt =====
-- What a captured row holds under each column (pkg/env/env_args.go, pkg/env/env_output.go).
use edg.Prelude.{
  String, List, [], ◌∷◌, Option, none, some, Bool, true, false, str_eq, str_eq_iff, if◌then◌else◌,
  ◌≡◌, refl, sym, ap, ◌∙◌, Bool-cases, inl, inr,
}
use edg.Convert.{Value}
use edg.Env.Args.Generate.{Row, put_cell, cells}
use edg.Env.Args.Uniq.{find}

-- A name that is not the column's is told apart from it in either order.
other_col : (col c name : String) → c ≡ name → str_eq c col ≡ false → str_eq col name ≡ false
other_col col c name e h = elim (Bool-cases (str_eq col name)) [
  | inr miss ↦ miss
  | inl hit ↦
      let at : col ≡ name = (str_eq_iff col name).0 hit in
      let same : str_eq c col ≡ true = (str_eq_iff c col).1 (e ∙ sym at) in cc
]

module _ {F I O : Type 0} where
  -- The value of the last column of the name, where there is one and the values reach it.
  abbrev pub value_of : String → List String → List (Value F I O) → Option (Value F I O)
  value_of name [] vs = none
  value_of name (c ∷ columns) [] = none
  value_of name (c ∷ columns) (v ∷ vs) = elim (value_of name columns vs) [
    | some u ↦ some u
    | none ↦ if str_eq c name then some v else none
  ]

  abbrev or_else : Option (Value F I O) → Option (Value F I O) → Option (Value F I O)
  or_else (some u) o = some u
  or_else none o = o

  find-put_cell :
      (name col : String) (v : Value F I O) (row : Row F I O)
      → find name (put_cell col v row) ≡ (if str_eq col name then some v else find name row)
  unfolding find put_cell
  find-put_cell name col v [] = refl
  find-put_cell name col v ((c, w) ∷ row) = elim (Bool-cases (str_eq c col)) [
    | inl e ↦
        let at : c ≡ col = (str_eq_iff c col).0 e in
        elim (Bool-cases (str_eq col name)) [
          | inl hit ↦ let hit' : str_eq c name ≡ true = rw at hit in rw e (rw hit (rw hit' refl))
          | inr miss ↦
              let miss' : str_eq c name ≡ false = rw at miss in rw e (rw miss (rw miss' refl))
        ]
    | inr e ↦ elim (Bool-cases (str_eq c name)) [
      | inl hit ↦
          let at : c ≡ name = (str_eq_iff c name).0 hit in
          let no : str_eq col name ≡ false = other_col col c name at e in rw e (rw hit (rw no refl))
      | inr miss ↦ rw e (rw miss (find-put_cell name col v row))
    ]
  ]

  chosen :
      (v : Value F I O) (o u : Option (Value F I O)) (b : Bool)
      → or_else u (if b then some v else o)
        ≡ or_else (elim u [ some u ↦ some u | none ↦ if b then some v else none ]) o
  chosen v o (some u) b = refl
  chosen v o none true = refl
  chosen v o none false = refl

  find-cells_from :
      (name : String) (columns : List String) (vs : List (Value F I O)) (row : Row F I O)
      → find name (cells columns vs row) ≡ or_else (value_of name columns vs) (find name row)
  unfolding cells
  find-cells_from name [] vs row = refl
  find-cells_from name (c ∷ columns) [] row = refl
  find-cells_from name (c ∷ columns) (v ∷ vs) row =
      find-cells_from name columns vs (put_cell c v row)
      ∙ ap (or_else (value_of name columns vs)) (find-put_cell name c v row)
      ∙ chosen v (find name row) (value_of name columns vs) (str_eq c name)

  -- A row of cells maps each name to the value under the last column of that name.
  pub find-cells :
      (name : String) (columns : List String) (vs : List (Value F I O))
      → find name (cells columns vs []) ≡ value_of name columns vs
  unfolding find
  find-cells name columns vs =
      find-cells_from name columns vs [] ∙ closed (value_of name columns vs)
    where
      closed : (u : Option (Value F I O)) → or_else u none ≡ u
      closed none = refl
      closed (some u) = refl
