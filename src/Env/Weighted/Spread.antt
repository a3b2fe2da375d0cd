-- ===== src/Env/Weighted/Spread.antt =====
-- The proofs on `pickWeighted` (pkg/env/env_worker.go) and `weightedItems` (pkg/env/set.go).
use edg.Prelude.{
  ℕ, zero, suc, ◌+◌, ◌-◌, ◌^◌, ◌≤◌, ◌<◌, String, List, [], ◌∷◌, ◌++◌, none, some, if◌then◌else◌,
  ltb, get_elem?, replicate, ok, ◌≡◌, refl, ap, ◌∙◌, inl, inr, arith, Option-cases, dec_lt,
}
use edg.Prelude.Int.{ℤ, pos, wrap_64-add, wrap_64-sub_above, wrap_64-sub_below}
use edg.Prelude.Random.{Rng}
use mathlib.Core.Option
use edg.Config.{RunItem, Request, item_name}
use edg.Env.Weighted.{
  Entry, lookup, entries_from, pick_at, pick_from, pick_weighted, WeightedItem, total_weight,
  choose_at, choose, draw,
}

abbrev pub Weighted : Type 0 → Type 0
Weighted A = List (A × ℕ)

pub draw_pos :
    (g : Rng) (n : ℕ) (s : g.State)
    → 0 < n
    → draw g (pos n) s ≡ (ok ((g.int_n n s).0), (g.int_n n s).1)
unfolding draw
draw_pos g zero s h = absurd (omega arith)
draw_pos g (suc n) s h = refl

module _ {A : Type 0} where
  abbrev pub sum_weights : Weighted A → ℕ
  sum_weights [] = 0
  sum_weights ((a, w) ∷ items) = w + sum_weights items

  -- Every item as often as its weight says.
  unfoldable pub spread : Weighted A → List A
  spread [] = []
  spread ((a, w) ∷ items) = replicate w a ++ spread items

  abbrev pub weighted_items : Weighted A → List (WeightedItem A)
  weighted_items [] = []
  weighted_items ((a, w) ∷ items) = record { value = a; weight = pos w } ∷ weighted_items items

  pub get_elem?-replicate :
      (w : ℕ) (a : A) (rest : List A) (r : ℕ)
      → get_elem? (replicate w a ++ rest) r ≡ (if ltb r w then some a else get_elem? rest (r - w))
  get_elem?-replicate zero a rest r = let e : r - 0 ≡ r = omega arith in rw e (ground arith)
  get_elem?-replicate (suc w) a rest zero = ground arith
  get_elem?-replicate (suc w) a rest (suc r) =
      let e : suc r - suc w ≡ r - w = omega arith in
      rw (e, get_elem?-replicate w a rest r) (ground arith)

  pub total_weight-sum :
      (items : Weighted A) (acc : ℕ)
      → acc + sum_weights items < 2 ^ 63
      → total_weight (pos acc) (weighted_items items) ≡ pos (acc + sum_weights items)
  unfolding total_weight
  total_weight-sum [] acc h = ground arith
  total_weight-sum ((a, w) ∷ items) acc h =
      rw (wrap_64-add acc w (omega arith), total_weight)
        (total_weight-sum items (acc + w) (omega arith) ∙ ap pos (omega arith))

  choose_at-spread :
      (items : Weighted A) (r : ℕ)
      → r < sum_weights items
      → sum_weights items < 2 ^ 63
      → choose_at (pos (r + 1)) (weighted_items items) ≡ get_elem? (spread items) r
  unfolding choose_at spread
  choose_at-spread [] r h b = absurd (omega arith)
  choose_at-spread ((a, w) ∷ items) r h b =
      rw (get_elem?-replicate w a (spread items) r) (elim (dec_lt r w) [
        | yes below ↦ ground (arith, wrap_64-sub_below r w (omega arith) below)
        | no above ↦
            rw (wrap_64-sub_above r w (omega arith) (omega arith))
              (rw (choose_at-spread items (r - w) (omega arith) (omega arith)) (ground arith))
      ])

  -- For weights that add up to a positive number below 2^63, `choose` draws once from as many numbers
  -- as the weights add up to and picks the value at that place among the values, each repeated as
  -- often as its weight says: every value has its weight's share of the draws.
  pub choose-spread :
      (g : Rng) (items : Weighted A) (s : g.State)
      → 0 < sum_weights items
      → sum_weights items < 2 ^ 63
      → choose g (weighted_items items) s ≡ (
        ok (get_elem? (spread items) ((g.int_n (sum_weights items) s).0)),
        (g.int_n (sum_weights items) s).1,
      )
  unfolding choose
  choose-spread g items s h b =
      let start : 0 + sum_weights items ≡ sum_weights items = omega arith in
      let total = total_weight-sum items 0 (omega arith) ∙ ap pos start in
      rw (total, draw_pos g (sum_weights items) s h)
        (rw (choose_at-spread items _ (g.int_n_lt (sum_weights items) s h) b))

-- The run items that have a weight, with it, in order.
unfoldable pub listed : List (String × ℕ) → List RunItem → Weighted RunItem
listed weights [] = []
listed weights (item ∷ items) = elim (lookup (item_name item) weights) [
  | none ↦ listed weights items
  | some w ↦ (item, w) ∷ listed weights items
]

abbrev pub as_ints : List (String × ℕ) → List (String × ℤ)
as_ints [] = []
as_ints ((name, w) ∷ weights) = (name, pos w) ∷ as_ints weights

lookup-as_ints :
    (k : String) (weights : List (String × ℕ))
    → lookup k (as_ints weights) ≡ Option.map pos (lookup k weights)
unfolding lookup
lookup-as_ints k [] = refl
lookup-as_ints k ((name, w) ∷ weights) = ground (arith, lookup-as_ints k weights)

-- Entries with cumulative weights from an accumulator.
cumulate : ℕ → Weighted RunItem → List Entry
cumulate acc [] = []
cumulate acc ((item, w) ∷ items) =
    record { item = item; cumulative = pos (acc + w) } ∷ cumulate (acc + w) items

entries_from-cumulate :
    (weights : List (String × ℕ)) (acc : ℕ) (run : List RunItem)
    → acc + sum_weights (listed weights run) < 2 ^ 63
    → entries_from (as_ints weights) (pos acc) run
      ≡ (cumulate acc (listed weights run), pos (acc + sum_weights (listed weights run)))
unfolding entries_from listed cumulate
entries_from-cumulate weights acc [] h = let e : acc + 0 ≡ acc = omega arith in rw e
entries_from-cumulate weights acc (item ∷ items) h =
    elim (Option-cases (lookup (item_name item) weights)) [
      | inl e ↦
          let e' = lookup-as_ints (item_name item) weights ∙ ap (Option.map pos) e in
          let skip : listed weights (item ∷ items) ≡ listed weights items = rw (e, listed) in
          rw (e', entries_from, skip) (entries_from-cumulate weights acc items (rw skip at h))
      | inr (w, e) ↦
          let e' = lookup-as_ints (item_name item) weights ∙ ap (Option.map pos) e in
          let take : listed weights (item ∷ items) ≡ (item, w) ∷ listed weights items =
            rw (e, listed) in
          let h' : acc + (w + sum_weights (listed weights items)) < 2 ^ 63 = rw take at h in
          let total : acc + w + sum_weights (listed weights items)
              ≡ acc + (w + sum_weights (listed weights items)) =
            omega arith in
          rw (e', entries_from, take, wrap_64-add acc w (omega arith))
            (rw (entries_from-cumulate weights (acc + w) items (omega arith), total))
    ]

pick_at-spread :
    (items : Weighted RunItem) (acc r : ℕ)
    → acc ≤ r
    → r < acc + sum_weights items
    → pick_at r (cumulate acc items) ≡ get_elem? (spread items) (r - acc)
unfolding pick_at cumulate spread
pick_at-spread [] acc r h b = absurd (omega arith)
pick_at-spread ((item, w) ∷ []) acc r h b =
    rw (get_elem?-replicate w item [] (r - acc)) (ground arith)
pick_at-spread ((item, w) ∷ (item', w') ∷ items) acc r h b =
    let regroup : r - acc - w ≡ r - (acc + w) = omega arith in
    let below = get_elem?-replicate w item (replicate w' item' ++ spread items) (r - acc) in
    rw (below, regroup)
      (elim (dec_lt r (acc + w)) [
        | yes p ↦ ground arith
        | no p ↦
            ground
              (arith, pick_at-spread ((item', w') ∷ items) (acc + w) r (omega arith) (omega arith))
      ])

pick_from_pos :
    (g : Rng) (entries : List Entry) (n : ℕ) (s : g.State)
    → 0 < n
    → pick_from g entries (pos n) s ≡ (ok (pick_at ((g.int_n n s).0) entries), (g.int_n n s).1)
unfolding pick_from
pick_from_pos g entries zero s h = absurd (omega arith)
pick_from_pos g entries (suc n) s h = refl

-- For weights that are not negative and add up, over the run items that they name, to a positive
-- number below 2^63, `pickWeighted` draws once from as many numbers as that sum and picks the run
-- item at that place among the items, each repeated as often as its weight says. Items with no
-- weight are never picked.
pub pick_weighted-spread :
    (g : Rng) (r : Request) (weights : List (String × ℕ)) (s : g.State)
    → r.run_weights ≡ as_ints weights
    → 0 < sum_weights (listed weights r.run)
    → sum_weights (listed weights r.run) < 2 ^ 63
    → pick_weighted g r s ≡ (
      ok (
          get_elem?
            (spread (listed weights r.run))
            ((g.int_n (sum_weights (listed weights r.run)) s).0)),
      (g.int_n (sum_weights (listed weights r.run)) s).1,
    )
unfolding pick_weighted
pick_weighted-spread g r weights s e h b =
    let total = sum_weights (listed weights r.run) in
    let start : 0 + total ≡ total = omega arith in
    let same = entries_from-cumulate weights 0 r.run (omega arith) in
    let drawn = (g.int_n total s).0 in
    let low = g.int_n_lt total s h in
    let start' : drawn - 0 ≡ drawn = omega arith in
    rw (e, same, start)
      (rw (pick_from_pos g (cumulate 0 (listed weights r.run)) total s h)
        (rw (pick_at-spread (listed weights r.run) 0 drawn (omega arith) (omega arith), start')))
