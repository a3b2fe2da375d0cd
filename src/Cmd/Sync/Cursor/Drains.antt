-- ===== src/Cmd/Sync/Cursor/Drains.antt =====
-- The proofs on the paged cursor `rowCursor` (cmd/edg/sync.go).
use mathlib.Core.Path.{subst}
use mathlib.Core.Option.{some-injective}
use edg.Prelude.{
  ℕ, zero, suc, ◌+◌, ◌<◌, String, List, [], ◌∷◌, ◌++◌, append_assoc, Option, none, some, Bool, true,
  false, if◌then◌else◌, Result, ok, err, All, ◌≡◌, refl, sym, ◌∙◌, arith, length, take, drop,
  take-append-drop,
}
use edg.Cmd.Sync.{Row, Feed, finished, broken, row}
use edg.Cmd.Sync.Merge.{feed_of}
use edg.Cmd.Sync.Cursor.{Cursor, start, last_key, fetched, from_pending, next, drain}

module _ (key : Row → String) (lt : String → String → Bool) where
  -- `WHERE key > last`, over the rows in their order.
  pub beyond : Option String → List Row → List Row
  beyond none rows = rows
  beyond (some k) [] = []
  beyond (some k) (r ∷ rows) =
      let rest = beyond (some k) rows in if lt k (key r) then r ∷ rest else rest

  -- The keys ascend strictly in the database's order.
  abbrev pub Sorted : List Row → Type 0
  Sorted [] = Unit
  Sorted (r ∷ rows) =
      (lt (key r) (key r) ≡ false)
      × All (λ q. (lt (key r) (key q) ≡ true) × (lt (key q) (key r) ≡ false)) rows
      × Sorted rows

  beyond_head :
      (r : Row) (rows : List Row)
      → All (λ q. (lt (key r) (key q) ≡ true) × (lt (key q) (key r) ≡ false)) rows
      → beyond (some (key r)) rows ≡ rows
  unfolding beyond
  beyond_head r [] h = refl
  beyond_head r (q ∷ rows) h = rw (h.0.0) (rw (beyond_head r rows h.1))

  last_is_above :
      (r : Row) (q : Row) (read rest : List Row) (k : String)
      → All (λ q. (lt (key r) (key q) ≡ true) × (lt (key q) (key r) ≡ false)) (q ∷ read ++ rest)
      → last_key key (q ∷ read) ≡ some k
      → lt k (key r) ≡ false
  unfolding last_key
  last_is_above r q [] rest k h e =
      subst (λ k'. lt k' (key r) ≡ false) (some-injective _ _ e) (h.0.1)
  last_is_above r q (p ∷ read) rest k h e = last_is_above r p read rest k h.1 e

  last_key-some : (q : Row) (read : List Row) → (k : String) × (last_key key (q ∷ read) ≡ some k)
  unfolding last_key
  last_key-some q [] = (key q, refl)
  last_key-some q (p ∷ read) = last_key-some p read

  last_key-append :
      (read : List Row) (r : Row) (rows : List Row)
      → last_key key (read ++ r ∷ rows) ≡ last_key key (r ∷ rows)
  unfolding last_key
  last_key-append [] r rows = refl
  last_key-append (p ∷ []) r rows = refl
  last_key-append (p ∷ q ∷ read) r rows = last_key-append (q ∷ read) r rows

  beyond-last_key :
      (read rest : List Row)
      → Sorted (read ++ rest)
      → beyond (last_key key read) (read ++ rest) ≡ rest
  unfolding beyond last_key
  beyond-last_key [] rest h = refl
  beyond-last_key (r ∷ []) rest h = rw (h.0) (beyond_head r rest h.1)
  beyond-last_key (r ∷ q ∷ read) rest h =
      let (k, e) = last_key-some q read in
      let later = beyond-last_key (q ∷ read) rest h.2 in
      rw e (rw (last_is_above r q read rest k h.1 e) (rw e at later))

  module _ (E : Type 0) (b : ℕ) (rows : List Row) (page : Option String → Result E (List Row))
      (sorted : Sorted rows)
      (pages : (last : Option String) → page last ≡ ok (take (suc b) (beyond last rows))) where
    page_here :
        (read rest : List Row)
        → rows ≡ read ++ rest
        → page (last_key key read) ≡ ok (take (suc b) rest)
    page_here read rest cut =
        let after = beyond-last_key read rest (subst Sorted cut sorted) in rw (pages, cut, after)

    next_page :
        (read : List Row) (r : Row) (rest : List Row)
        → rows ≡ read ++ r ∷ rest
        → next key page (record { pending = []; last_value = last_key key read; done = false }) ≡ (
          ok (some r),
          record {
            pending = take b rest;
            last_value = last_key key (r ∷ take b rest);
            done = false;
          },
        )
    unfolding next from_pending fetched
    next_page read r rest cut = rw (page_here read (r ∷ rest) cut)

    drain_step :
        (fuel : ℕ) (c c' : Cursor) (r : Row) (feed : Feed E)
        → next key page c ≡ (ok (some r), c')
        → drain key page fuel c' ≡ some feed
        → drain key page (suc fuel) c ≡ some (row r feed)
    unfolding drain
    drain_step fuel c c' r feed h later =
        subst
          (λ p.
            elim p.0 [
              | err e ↦ some (broken e)
              | ok none ↦ some finished
              | ok (some found) ↦ elim (drain key page fuel p.1) [
                | none ↦ none
                | some rest ↦ some (row found rest)
              ]
            ]
            ≡ some (row r feed))
          (sym h) (rw (later, drain))

    -- From any point between two calls: `read` has been fetched, and its end is still pending.
    drain_from :
        (fuel : ℕ) (read pending rest : List Row) (c : Cursor)
        → rows ≡ read ++ rest
        → c ≡ record { pending = pending; last_value = last_key key read; done = false }
        → length (pending ++ rest) < fuel
        → drain key page fuel c ≡ some (feed_of (pending ++ rest))
    unfolding drain next from_pending feed_of
    drain_from zero read pending rest c cut e h = absurd (omega arith)
    drain_from (suc fuel) read (r ∷ pending) rest c cut e h =
        let later =
          drain_from fuel read pending rest
            (record { pending = pending; last_value = last_key key read; done = false }) cut refl
            (omega arith) in
        rw e (rw later)
    drain_from (suc fuel) read [] [] c cut e h = rw e (rw (page_here read [] cut, drain))
    drain_from (suc fuel) read [] (r ∷ rest) c cut e h =
        let whole = take-append-drop b rest in
        let later =
          drain_from fuel (read ++ r ∷ take b rest) (take b rest) (drop b rest)
            (record {
              pending = take b rest;
              last_value = last_key key (r ∷ take b rest);
              done = false;
            })
            (rw (append_assoc read (r ∷ take b rest) (drop b rest), whole) cut)
            (rw (last_key-append read r (take b rest))) (rw whole (omega arith)) in
        rw e (
          drain_step fuel (record { pending = []; last_value = last_key key read; done = false })
            (record {
              pending = take b rest;
              last_value = last_key key (r ∷ take b rest);
              done = false;
            })
            r (feed_of (take b rest ++ drop b rest)) (next_page read r rest cut) later
          ∙ rw whole)

    -- With pages of at least one row, each holding the next rows of a table whose keys ascend strictly
    -- in the database's order, the cursor returns every row of the table once, in order, and then the
    -- end: it neither skips a row at a page's boundary nor fails, and ends within as many calls as
    -- there are rows, and one more.
    pub drain-feed_of : drain key page (length rows + 1) start ≡ some (feed_of rows)
    drain-feed_of =
        drain_from (length rows + 1) [] [] rows start refl (unfold last_key in refl) (omega arith)
