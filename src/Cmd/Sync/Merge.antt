-- ===== src/Cmd/Sync/Merge.antt =====
-- The differences of two tables, described apart from the merge of `verifyTable` (cmd/edg/sync.go).
use Prim.Native.Nat.{Ordering}
use edg.Prelude.{
  ℕ, ◌+◌, String, List, [], ◌∷◌, Option, none, some, Bool, true, false, if◌then◌else◌, All, ◌≡◌,
  refl, sym, ◌∙◌,
}
use edg.Cmd.Sync.{
  Row, KeyOrder, compare_keys, Feed, finished, row, Tables, src_key, tgt_key, row_diffs,
}

-- A comparison that orders the keys of a kind `P`; keys that compare equal need not be the same text.
-- `compareKeys` orders the texts that are numbers but not NaN, and those that are no numbers; it does
-- not order all texts together.
pub record IsOrder {ℓ κ} {K : Type ℓ} (P : K → Type κ) (cmp : K → K → Ordering) : Type (ℓ ⊔ κ) where
  pub cmp_refl : (a : K) → P a → cmp a a ≡ Ordering.eq
  pub flip_lt : (a b : K) → P a → P b → cmp a b ≡ Ordering.lt → cmp b a ≡ Ordering.gt
  pub flip_gt : (a b : K) → P a → P b → cmp a b ≡ Ordering.gt → cmp b a ≡ Ordering.lt
  pub lt_trans :
      (a b c : K)
      → P a
      → P b
      → P c
      → cmp a b ≡ Ordering.lt
      → cmp b c ≡ Ordering.lt
      → cmp a c ≡ Ordering.lt
  pub eq_left : (a b c : K) → P a → P b → P c → cmp a b ≡ Ordering.eq → cmp a c ≡ cmp b c

-- Rows, and then the end.
unfoldable pub feed_of : {E : Type 0} → List Row → Feed E
feed_of [] = finished
feed_of (r ∷ rows) = row r (feed_of rows)

module _ (o : KeyOrder) (t : Tables) where
  -- The first target row with a key, and whether a source row has it.
  unfoldable pub partner : String → List Row → Option Row
  partner k [] = none
  partner k (q ∷ tgt) = elim (compare_keys o k (tgt_key t q)) [
    | Ordering.eq ↦ some q
    | Ordering.lt ↦ partner k tgt
    | Ordering.gt ↦ partner k tgt
  ]

  unfoldable pub is_present : String → List Row → Bool
  is_present k [] = false
  is_present k (r ∷ src) = elim (compare_keys o (src_key t r) k) [
    | Ordering.eq ↦ true
    | Ordering.lt ↦ is_present k src
    | Ordering.gt ↦ is_present k src
  ]

  unfoldable pub against : Row → Option Row → ℕ
  against r none = 1
  against r (some q) = row_diffs t r q

  -- One for each source row whose key the target lacks, and the differing cells of the others.
  unfoldable pub src_side : List Row → List Row → ℕ
  unfolding partner against
  src_side tgt [] = 0
  src_side tgt (r ∷ src) = against r (partner (src_key t r) tgt) + src_side tgt src

  -- One for each target row whose key the source lacks.
  unfoldable pub tgt_side : List Row → List Row → ℕ
  unfolding is_present
  tgt_side src [] = 0
  tgt_side src (q ∷ tgt) = (if is_present (tgt_key t q) src then 0 else 1) + tgt_side src tgt

  -- Strictly ascending keys.
  abbrev pub Ascending : (Row → String) → List Row → Type 0
  Ascending key [] = Unit
  Ascending key (r ∷ rows) =
      All (λ q. compare_keys o (key r) (key q) ≡ Ordering.lt) rows × Ascending key rows

  module _ {P : String → Type 0} (order : IsOrder P (compare_keys o)) where
    pub partner_below :
        (k : String) (tgt : List Row)
        → All (λ q. compare_keys o k (tgt_key t q) ≡ Ordering.lt) tgt
        → partner k tgt ≡ none
    unfolding partner
    partner_below k [] h = refl
    partner_below k (q ∷ tgt) h = rw (h.0, partner) (partner_below k tgt h.1)

    pub is_present_above :
        (k : String) (src : List Row)
        → All (λ r. compare_keys o (src_key t r) k ≡ Ordering.gt) src
        → is_present k src ≡ false
    unfolding is_present
    is_present_above k [] h = refl
    is_present_above k (r ∷ src) h = rw (h.0, is_present) (is_present_above k src h.1)

    pub src_side_skip :
        (q : Row) (tgt src : List Row)
        → All (λ r. compare_keys o (src_key t r) (tgt_key t q) ≡ Ordering.gt) src
        → src_side (q ∷ tgt) src ≡ src_side tgt src
    unfolding src_side
    src_side_skip q tgt [] h = refl
    src_side_skip q tgt (r ∷ src) h = rw (h.0, partner) (rw (src_side_skip q tgt src h.1))

    pub tgt_side_skip :
        (r : Row) (src tgt : List Row)
        → All (λ q. compare_keys o (src_key t r) (tgt_key t q) ≡ Ordering.lt) tgt
        → tgt_side (r ∷ src) tgt ≡ tgt_side src tgt
    unfolding tgt_side
    tgt_side_skip r src [] h = refl
    tgt_side_skip r src (q ∷ tgt) h = rw (h.0, is_present) (rw (tgt_side_skip r src tgt h.1))

    -- A key below the head is below all, and so on.
    pub below_all :
        (k : String) (key : Row → String) (r : Row) (rows : List Row)
        → P k
        → P (key r)
        → All (λ q. P (key q)) rows
        → compare_keys o k (key r) ≡ Ordering.lt
        → All (λ q. compare_keys o (key r) (key q) ≡ Ordering.lt) rows
        → All (λ q. compare_keys o k (key q) ≡ Ordering.lt) rows
    below_all k key r [] pk pr ps h a = tt
    below_all k key r (q ∷ rows) pk pr ps h a =
        (order.lt_trans k (key r) (key q) pk pr ps.0 h a.0, below_all k key r rows pk pr ps.1 h a.1)

    pub equal_all :
        (k : String) (key : Row → String) (r : Row) (rows : List Row)
        → P k
        → P (key r)
        → All (λ q. P (key q)) rows
        → compare_keys o k (key r) ≡ Ordering.eq
        → All (λ q. compare_keys o (key r) (key q) ≡ Ordering.lt) rows
        → All (λ q. compare_keys o k (key q) ≡ Ordering.lt) rows
    equal_all k key r [] pk pr ps h a = tt
    equal_all k key r (q ∷ rows) pk pr ps h a = (
      order.eq_left k (key r) (key q) pk pr ps.0 h ∙ a.0,
      equal_all k key r rows pk pr ps.1 h a.1,
    )

    pub flip_all :
        (k : String) (key : Row → String) (rows : List Row)
        → P k
        → All (λ q. P (key q)) rows
        → All (λ q. compare_keys o k (key q) ≡ Ordering.lt) rows
        → All (λ q. compare_keys o (key q) k ≡ Ordering.gt) rows
    flip_all k key [] pk ps a = tt
    flip_all k key (q ∷ rows) pk ps a =
        (order.flip_lt k (key q) pk ps.0 a.0, flip_all k key rows pk ps.1 a.1)

    pub eq_sym :
        (a b : String)
        → P a
        → P b
        → compare_keys o a b ≡ Ordering.eq
        → compare_keys o b a ≡ Ordering.eq
    eq_sym a b pa pb h = sym (order.eq_left a b a pa pb pa h) ∙ order.cmp_refl a pa
