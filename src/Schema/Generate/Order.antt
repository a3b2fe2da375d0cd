-- ===== src/Schema/Generate/Order.antt =====
-- The proofs on the order in which generated queries empty and drop tables
-- (pkg/schema/generate.go), with that of `SortTables` (pkg/schema/schema.go).
use mathlib.Core.List.{Perm}
use mathlib.Core.List.Perm
use edg.Prelude.{List, [], ◌∷◌, ◌++◌, ◌≡◌, ◌⊎◌}
use edg.Prelude.Text.{Bytes, codes}
use edg.Schema.Tables.{Table}
use edg.Schema.Tables.Parents.{names, ParentsIn}
use edg.Schema.Generate.{InitQuery, apply_check_bounds}

-- Each table stands before the tables that it refers to, or these are among `placed`.
abbrev pub ChildrenFirst : List Bytes → List Table → Type 0
ChildrenFirst placed [] = Unit
ChildrenFirst placed (t ∷ ts) =
    ParentsIn (placed ++ names ts) t.name t.columns × ChildrenFirst placed ts

-- One query for each table, in order.
abbrev pub EachTable : (Table → InitQuery → Type 0) → List InitQuery → List Table → Type 0
EachTable Q [] [] = Unit
EachTable Q [] (t ∷ ts) = ⊥
EachTable Q (q ∷ qs) [] = ⊥
EachTable Q (q ∷ qs) (t ∷ ts) = Q t q × EachTable Q qs ts

-- The texts that remove every row of a table.
abbrev EmptyingText : Bytes → Bytes → Type 0
EmptyingText name text =
    (text ≡ codes "TRUNCATE TABLE " ++ name)
    ⊎ ((text ≡ codes "TRUNCATE TABLE " ++ name ++ codes " CASCADE")
        ⊎ ((text ≡ codes "DELETE FROM " ++ name)
            ⊎ (text ≡ codes "DELETE FROM " ++ name ++ codes " WHERE TRUE")))

abbrev pub Empties : Bytes → Table → InitQuery → Type 0
Empties verb t q =
    (q.type ≡ codes "exec") × (q.name ≡ verb ++ codes "_" ++ t.name) × EmptyingText t.name q.query

-- The texts that drop a table, the second as an Oracle block.
abbrev pub Drops : Table → InitQuery → Type 0
Drops t q =
    (q.type ≡ codes "exec")
    × (q.name ≡ codes "drop_" ++ t.name)
    × ((q.query ≡ codes "DROP TABLE IF EXISTS " ++ t.name)
        ⊎ ((after : Bytes) × (q.query
              ≡ codes "BEGIN\n  EXECUTE IMMEDIATE 'DROP TABLE " ++ t.name ++ after)))

module _ (lower : Bytes → Bytes) (check_between : Bytes → List (Bytes × Bytes × Bytes)) where
  abbrev bounded : Table → Table
  bounded t = apply_check_bounds lower check_between t
