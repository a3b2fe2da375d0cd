-- ===== src/Env/Weighted/Set/Picks.antt =====
-- The proofs on `setRand` (pkg/env/set.go).
use edg.Prelude.{
  ℕ, zero, suc, ◌+◌, ◌^◌, ◌<◌, List, [], ◌∷◌, ==_iff, get_elem?, length, Result, ok, ◌>>=◌, ◌≡◌,
  refl, ◌∙◌, ap, arith,
}
use edg.Prelude.Int.{ℤ, pos}
use edg.Prelude.Random.{Rng}
use edg.Env.Weighted.Spread.{Weighted, weighted_items, sum_weights, spread, choose-spread}
use edg.Env.Weighted.Set.{int_weights, build, lift, at_index, choose_from, set_rand}

-- Values with their weights.
abbrev pub zip : {A : Type 0} → List A → List ℕ → Weighted A
zip [] ns = []
zip (v ∷ vs) [] = []
zip (v ∷ vs) (n ∷ ns) = (v, n) ∷ zip vs ns

-- Each weight converts to a number, in order.
abbrev pub Converts : {V E : Type 0} → (V → Result E ℤ) → List V → List ℕ → Type 0
Converts to_int [] [] = Unit
Converts to_int (w ∷ ws) (n ∷ ns) = (to_int w ≡ ok (pos n)) × Converts to_int ws ns
Converts to_int _ _ = ⊥

abbrev ints : List ℕ → List ℤ
ints [] = []
ints (n ∷ ns) = pos n ∷ ints ns

module _ {V E : Type 0} where
  int_weights-ints :
      (to_int : V → Result E ℤ) (i : ℕ) (ws : List V) (ns : List ℕ)
      → Converts to_int ws ns
      → int_weights to_int i ws ≡ ok (ints ns)
  unfolding int_weights
  int_weights-ints to_int i [] [] h = refl
  int_weights-ints to_int i [] (n ∷ ns) h = absurd h
  int_weights-ints to_int i (w ∷ ws) [] h = absurd h
  int_weights-ints to_int i (w ∷ ws) (n ∷ ns) h =
      rw (h.0, int_weights) (rw (int_weights-ints to_int (i + 1) ws ns h.1) refl)

  length-Converts :
      (to_int : V → Result E ℤ) (ws : List V) (ns : List ℕ)
      → Converts to_int ws ns
      → length ns ≡ length ws
  length-Converts to_int [] [] h = refl
  length-Converts to_int [] (n ∷ ns) h = absurd h
  length-Converts to_int (w ∷ ws) [] h = absurd h
  length-Converts to_int (w ∷ ws) (n ∷ ns) h = ap suc (length-Converts to_int ws ns h.1)

module _ {A E : Type 0} where
  build-zip :
      (vs : List A) (ns : List ℕ)
      → length ns ≡ length vs
      → build {E = E} vs (ints ns) ≡ ok (weighted_items (zip vs ns))
  unfolding build
  build-zip [] ns h = refl
  build-zip (v ∷ vs) [] h = absurd (omega arith)
  build-zip (v ∷ vs) (n ∷ ns) h = rw (build-zip vs ns (omega arith)) refl

  get_elem?-found :
      (xs : List A) (i : ℕ) → i < length xs → at_index {E = E} xs (ok i) ≡ ok (get_elem? xs i)
  get_elem?-found [] i h = absurd (omega arith)
  get_elem?-found (x ∷ xs) zero h = refl
  get_elem?-found (x ∷ xs) (suc i) h = get_elem?-found xs i (omega arith)

module _ {A E : Type 0} where
  chosen :
      (g : Rng) (items : Weighted A) (s : g.State)
      → 0 < sum_weights items
      → sum_weights items < 2 ^ 63
      → choose_from {E = E} g (ok (weighted_items items)) s ≡ (
        ok (get_elem? (spread items) (g.int_n (sum_weights items) s).0),
        (g.int_n (sum_weights items) s).1,
      )
  unfolding choose_from
  chosen g items s h b = ap (λ p. (lift (p.0), p.1)) (choose-spread g items s h b)

module _ {A V E : Type 0} where
  uniform :
      (g : Rng) (to_int : V → Result E ℤ) (v : A) (values : List A) (s : g.State)
      → set_rand g to_int (v ∷ values) [] s ≡ (
        ok (get_elem? (v ∷ values) (g.int_n (length (v ∷ values)) s).0),
        (g.int_n (length (v ∷ values)) s).1,
      )
  unfolding set_rand
  uniform g to_int v values s =
      ap (λ r. (r, (g.int_n (length (v ∷ values)) s).1))
        (get_elem?-found {E = E} (v ∷ values) (g.int_n (length (v ∷ values)) s).0
          (g.int_n_lt (length (v ∷ values)) s (omega arith)))

  weighted :
      (g : Rng) (to_int : V → Result E ℤ) (v : A) (values : List A) (w : V) (weights : List V)
      (ns : List ℕ) (s : g.State)
      → Converts to_int (w ∷ weights) ns
      → length (w ∷ weights) ≡ length (v ∷ values)
      → 0 < sum_weights (zip (v ∷ values) ns)
      → sum_weights (zip (v ∷ values) ns) < 2 ^ 63
      → set_rand g to_int (v ∷ values) (w ∷ weights) s ≡ (
        ok (
            get_elem?
              (spread (zip (v ∷ values) ns))
              (g.int_n (sum_weights (zip (v ∷ values) ns)) s).0),
        (g.int_n (sum_weights (zip (v ∷ values) ns)) s).1,
      )
  unfolding set_rand
  weighted g to_int v values w weights ns s h same some_weight small =
      let fits = (==_iff (length (w ∷ weights)) (length (v ∷ values))).1 same in
      let items : (int_weights {E = E} to_int 0 (w ∷ weights) >>= λ is.
      build {E = E} (v ∷ values) is)
          ≡ ok (weighted_items (zip (v ∷ values) ns)) =
        rw (int_weights-ints to_int 0 (w ∷ weights) ns h)
          (build-zip (v ∷ values) ns (length-Converts to_int (w ∷ weights) ns h ∙ same)) in
      rw fits (
        ap (λ m. choose_from {E = E} g m s) items
        ∙ chosen {E = E} g (zip (v ∷ values) ns) s some_weight small)

  -- Without weights, `setRand` draws once from as many numbers as there are values and returns the value at
  -- that place. With as many weights as values, which convert to numbers that add up to a
  -- positive number below 2^63, it draws once from as many numbers as that sum and returns the value at that
  -- place among the values, each repeated as often as its weight says.
  pub set_rand-spread :
      (g : Rng) (to_int : V → Result E ℤ) (v : A) (values : List A) (w : V) (weights : List V)
      (ns : List ℕ) (s : g.State)
      → Converts to_int (w ∷ weights) ns
      → length (w ∷ weights) ≡ length (v ∷ values)
      → 0 < sum_weights (zip (v ∷ values) ns)
      → sum_weights (zip (v ∷ values) ns) < 2 ^ 63
      → (set_rand g to_int (v ∷ values) [] s ≡ (
        ok (get_elem? (v ∷ values) (g.int_n (length (v ∷ values)) s).0),
        (g.int_n (length (v ∷ values)) s).1,
      ))
        × (set_rand g to_int (v ∷ values) (w ∷ weights) s ≡ (
          ok (
              get_elem?
                (spread (zip (v ∷ values) ns))
                (g.int_n (sum_weights (zip (v ∷ values) ns)) s).0),
          (g.int_n (sum_weights (zip (v ∷ values) ns)) s).1,
        ))
  set_rand-spread g to_int v values w weights ns s h same some_weight small = (
    uniform g to_int v values s,
    weighted g to_int v values w weights ns s h same some_weight small,
  )
