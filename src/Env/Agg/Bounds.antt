-- ===== src/Env/Agg/Bounds.antt =====
-- The proofs on the aggregates (pkg/env/agg.go).
use mathlib.Core.Path.{subst}
use edg.Prelude.{
  String, List, [], ◌∷◌, Option, none, some, true, false, All, ◌≡◌, refl, sym, inl, inr, Bool-cases,
  ◌⊎◌, ap, ◌∙◌,
}
use edg.Env.Ref.{Datasets, get_dataset}
use edg.Env.Agg.{Values, Row, lower, higher, min_from, max_from, agg_min, agg_max}

-- The order of the numbers that are not NaN.
pub record IsOrdered (v : Values) : Type 0 where
  pub less_irrefl : (a : v.Float) → v.less a a ≡ false
  pub less_asymm : (a b : v.Float) → v.less a b ≡ true → v.less b a ≡ false
  pub not_less_trans :
      (a b c : v.Float) → v.less a b ≡ false → v.less b c ≡ false → v.less a c ≡ false

module _ (v : Values) (order : IsOrdered v) where
  abbrev pub NotBelow : v.Float → Option v.Float → Type 0
  NotBelow low none = Unit
  NotBelow low (some x) = v.less x low ≡ false

  abbrev pub NotAbove : v.Float → Option v.Float → Type 0
  NotAbove high none = Unit
  NotAbove high (some x) = v.less high x ≡ false

  lower-NotBelow :
      (o : Option v.Float) (r : v.Float)
      → (v.less r (lower v o r) ≡ false) × NotBelow (lower v o r) o
  unfolding lower
  lower-NotBelow none r = (order.less_irrefl r, tt)
  lower-NotBelow (some x) r = elim (Bool-cases (v.less x r)) [
    | inl e ↦ rw e (order.less_asymm x r e, order.less_irrefl x)
    | inr e ↦ rw e (order.less_irrefl r, e)
  ]

  higher-NotAbove :
      (o : Option v.Float) (r : v.Float)
      → (v.less (higher v o r) r ≡ false) × NotAbove (higher v o r) o
  unfolding higher
  higher-NotAbove none r = (order.less_irrefl r, tt)
  higher-NotAbove (some x) r = elim (Bool-cases (v.less r x)) [
    | inl e ↦ rw e (order.less_asymm r x e, order.less_irrefl x)
    | inr e ↦ rw e (order.less_irrefl r, e)
  ]

  NotBelow-trans :
      (o : Option v.Float) (a b : v.Float) → NotBelow a o → v.less a b ≡ false → NotBelow b o
  NotBelow-trans none a b h k = tt
  NotBelow-trans (some x) a b h k = order.not_less_trans x a b h k

  NotAbove-trans :
      (o : Option v.Float) (a b : v.Float) → NotAbove a o → v.less b a ≡ false → NotAbove b o
  NotAbove-trans none a b h k = tt
  NotAbove-trans (some x) a b h k = order.not_less_trans b a x k h

  min_from-NotBelow :
      (field : String) (r : v.Float) (rows : List (Row v))
      → (v.less r (min_from v field r rows) ≡ false)
        × All (λ row. NotBelow (min_from v field r rows) (v.to_float (row field))) rows
  unfolding min_from
  min_from-NotBelow field r [] = (order.less_irrefl r, tt)
  min_from-NotBelow field r (row ∷ rows) =
      let o = v.to_float (row field) in
      let (low, all) = min_from-NotBelow field (lower v o r) rows in
      let (here, this) = lower-NotBelow o r in
      (
        order.not_less_trans r (lower v o r) _ here low,
        (NotBelow-trans o (lower v o r) _ this low, all),
      )

  max_from-NotAbove :
      (field : String) (r : v.Float) (rows : List (Row v))
      → (v.less (max_from v field r rows) r ≡ false)
        × All (λ row. NotAbove (max_from v field r rows) (v.to_float (row field))) rows
  unfolding max_from
  max_from-NotAbove field r [] = (order.less_irrefl r, tt)
  max_from-NotAbove field r (row ∷ rows) =
      let o = v.to_float (row field) in
      let (high, all) = max_from-NotAbove field (higher v o r) rows in
      let (here, this) = higher-NotAbove o r in
      (
        order.not_less_trans _ (higher v o r) r high here,
        (NotAbove-trans o (higher v o r) _ this high, all),
      )

  -- The number of a row, if there is one, is `x`.
  abbrev pub Attains : String → v.Float → List (Row v) → Type 0
  Attains field x [] = ⊥
  Attains field x (row ∷ rows) = (v.to_float (row field) ≡ some x) ⊎ Attains field x rows

  lower-cases : (o : Option v.Float) (r : v.Float) → (lower v o r ≡ r) ⊎ (o ≡ some (lower v o r))
  unfolding lower
  lower-cases none r = inl refl
  lower-cases (some x) r = elim (Bool-cases (v.less x r)) [
    | inl e ↦ rw e (inr refl)
    | inr e ↦ rw e (inl refl)
  ]

  higher-cases : (o : Option v.Float) (r : v.Float) → (higher v o r ≡ r) ⊎ (o ≡ some (higher v o r))
  unfolding higher
  higher-cases none r = inl refl
  higher-cases (some x) r = elim (Bool-cases (v.less r x)) [
    | inl e ↦ rw e (inr refl)
    | inr e ↦ rw e (inl refl)
  ]

  min_from-Attains :
      (field : String) (r : v.Float) (rows : List (Row v))
      → (min_from v field r rows ≡ r) ⊎ Attains field (min_from v field r rows) rows
  unfolding min_from
  min_from-Attains field r [] = inl refl
  min_from-Attains field r (row ∷ rows) =
      let o = v.to_float (row field) in
      elim (min_from-Attains field (lower v o r) rows) [
        | inr later ↦ inr (inr later)
        | inl here ↦ elim (lower-cases o r) [
          | inl kept ↦ inl (here ∙ kept)
          | inr taken ↦ inr (inl (taken ∙ ap some (sym here)))
        ]
      ]

  max_from-Attains :
      (field : String) (r : v.Float) (rows : List (Row v))
      → (max_from v field r rows ≡ r) ⊎ Attains field (max_from v field r rows) rows
  unfolding max_from
  max_from-Attains field r [] = inl refl
  max_from-Attains field r (row ∷ rows) =
      let o = v.to_float (row field) in
      elim (max_from-Attains field (higher v o r) rows) [
        | inr later ↦ inr (inr later)
        | inl here ↦ elim (higher-cases o r) [
          | inl kept ↦ inl (here ∙ kept)
          | inr taken ↦ inr (inl (taken ∙ ap some (sym here)))
        ]
      ]

  -- For numbers that are ordered (no NaN) and a dataset with rows: no number of the field lies below
  -- its minimum or above its maximum, and each of the two is a number of the field, or else the
  -- positive or the negative infinity that the search starts from.
  pub aggregates-bounds :
      (e : Datasets (Row v)) (name field : String) (row : Row v) (rows : List (Row v))
      → e.env name ≡ some (row ∷ rows)
      → All (λ r. NotBelow (agg_min v e name field) (v.to_float (r field))) (row ∷ rows)
        × ((agg_min v e name field ≡ v.infinity)
            ⊎ Attains field (agg_min v e name field) (row ∷ rows))
        × All (λ r. NotAbove (agg_max v e name field) (v.to_float (r field))) (row ∷ rows)
        × ((agg_max v e name field ≡ v.neg_infinity)
            ⊎ Attains field (agg_max v e name field) (row ∷ rows))
  unfolding agg_min agg_max get_dataset
  aggregates-bounds e name field row rows found =
      let low = (min_from-NotBelow field v.infinity (row ∷ rows)).1 in
      let high = (max_from-NotAbove field v.neg_infinity (row ∷ rows)).1 in
      let rows_found : get_dataset e name ≡ some (row ∷ rows) = rw (found, get_dataset) refl in
      let lowest : agg_min v e name field ≡ min_from v field v.infinity (row ∷ rows) =
        rw (rows_found, agg_min) refl in
      let highest : agg_max v e name field ≡ max_from v field v.neg_infinity (row ∷ rows) =
        rw (rows_found, agg_max) refl in
      (
        subst (λ m. All (λ r. NotBelow m (v.to_float (r field))) (row ∷ rows)) (sym lowest) low,
        subst (λ m. (m ≡ v.infinity) ⊎ Attains field m (row ∷ rows)) (sym lowest)
            (min_from-Attains field v.infinity (row ∷ rows)),
        subst (λ m. All (λ r. NotAbove m (v.to_float (r field))) (row ∷ rows)) (sym highest) high,
        subst (λ m. (m ≡ v.neg_infinity) ⊎ Attains field m (row ∷ rows)) (sym highest)
            (max_from-Attains field v.neg_infinity (row ∷ rows)),
      )
