-- ===== src/Cmd/Sync/Cursor.antt =====
-- The paged cursor `rowCursor` (cmd/edg/sync.go). The query of a page is the parameter `page`, from
-- the last key that was read; it may fail.
pub mod Drains
use edg.Prelude.{
  ℕ, zero, suc, String, List, [], ◌∷◌, ◌++◌, Option, none, some, Bool, true, false, if◌then◌else◌,
  Result, ok, err, ◌≡◌, refl,
}
use edg.Cmd.Sync.{Row, Feed, finished, broken, row}

-- `pending` is the part of `rows` from `pos` on.
pub record Cursor : Type 0 where
  pub pending : List Row
  pub last_value : Option String
  pub done : Bool

abbrev pub start : Cursor
start = record { pending = []; last_value = none; done = false }

-- The key of the last row.
pub last_key : (Row → String) → List Row → Option String
last_key key [] = none
last_key key (r ∷ []) = some (key r)
last_key key (r ∷ q ∷ rows) = last_key key (q ∷ rows)

module _ {E : Type 0} (key : Row → String) (page : Option String → Result E (List Row)) where
  -- `fetchBatch`, and what `next` does with its rows.
  pub fetched : Cursor → Result E (List Row) → Result E (Option Row) × Cursor
  unfolding last_key
  fetched c (err e) = (err e, c)
  fetched c (ok []) = (ok none, record c { done = true })
  fetched c (ok (r ∷ rows)) =
      (ok (some r), record c { pending = rows; last_value = last_key key (r ∷ rows) })

  pub from_pending : Cursor → List Row → Result E (Option Row) × Cursor
  unfolding fetched
  from_pending c [] = fetched c (page c.last_value)
  from_pending c (r ∷ rows) = (ok (some r), record c { pending = rows })

  -- `next`
  pub next : Cursor → Result E (Option Row) × Cursor
  unfolding from_pending
  next c = if c.done then (ok none, c) else from_pending c c.pending

  -- What the calls of `next` return, up to the end; none if the fuel runs out.
  pub drain : ℕ → Cursor → Option (Feed E)
  unfolding next
  drain zero c = none
  drain (suc fuel) c =
      let (r, c') = next c in
      elim r [
        | err e ↦ some (broken e)
        | ok none ↦ some finished
        | ok (some found) ↦ elim (drain fuel c') [ none ↦ none | some feed ↦ some (row found feed) ]
      ]
