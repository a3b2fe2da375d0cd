-- ===== src/Env/Agg/Keys.antt =====
-- The keys that `aggDistinct` (pkg/env/agg.go) counts.
use edg.Prelude.{String, List, [], ◌∷◌, some, true, false, length, All, ◌≡◌, ◌⊎◌}
use edg.Env.Agg.{Values, Row, distinct_from, seen_key}

module _ (v : Values) where
  -- A value is one of the keys, or the same key as one of them.
  abbrev pub Counted : v.Value → List v.Value → Type 0
  Counted x [] = ⊥
  Counted x (y ∷ ys) = (x ≡ y) ⊎ (v.same_key x y ≡ true) ⊎ Counted x ys

  -- No key is the same as an earlier one.
  abbrev pub AreApart : List v.Value → Type 0
  AreApart [] = Unit
  AreApart (x ∷ xs) = (seen_key v x xs ≡ false) × AreApart xs

  -- A row has the value in its field.
  abbrev pub Occurs : String → v.Value → List (Row v) → Type 0
  Occurs field x [] = ⊥
  Occurs field x (row ∷ rows) = (row field ≡ x) ⊎ Occurs field x rows

  -- What the keys at the end are to the keys so far and the rows that are left.
  abbrev Ends : String → List v.Value → List (Row v) → List v.Value → Type 1
  Ends field seen rows keys =
      (distinct_from v field seen rows ≡ some (length keys))
      × AreApart keys
      × ((x : v.Value) → Counted x seen → Counted x keys)
      × All (λ row. Counted (row field) keys) rows
      × ((Q : v.Value → Type 0) → All Q seen → All (λ row. Q (row field)) rows → All Q keys)
