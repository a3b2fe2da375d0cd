-- ===== src/Seq/Values.antt =====
-- The proofs on sequences and their manager (pkg/seq/manager.go).
use edg.Prelude.{
  ℕ, zero, suc, ◌+◌, ◌^◌, ◌<◌, String, List, [], ◌∷◌, none, some, false, str_eq, str_eq_iff,
  if◌then◌else◌, get_elem?, ok, err, ◌≡◌, refl, ◌∙◌, ap, arith, Bool-cases, Option-cases, inl, inr,
  ◌⊎◌,
}
use edg.Prelude.Int.{ℤ, pos, ◌+ℤ◌, ◌-ℤ◌, ◌*ℤ◌, wrap_64, wrap_64-add}
use edg.Prelude.Random.{Rng}
use edg.Seq.{Sequence, SeqError, value, next, rand, Manager, put, get, manager_next}

-- The values of a number of calls of `Next`, in order.
unfoldable pub issued : ℕ → Sequence → List ℤ × Sequence
issued zero s = ([], s)
issued (suc n) s = let (v, s') = next s in let (vs, s'') = issued n s' in (v ∷ vs, s'')

issued-suc :
    (n : ℕ) (s s' : Sequence) (v : ℤ)
    → next s ≡ (v, s')
    → issued (suc n) s ≡ (v ∷ (issued n s').0, (issued n s').1)
unfolding issued
issued-suc n s s' v h = ap (λ p. (p.0 ∷ (issued n p.1).0, (issued n p.1).1)) h

wrap_64-back : (c : ℕ) → c + 1 < 2 ^ 63 → wrap_64 (pos (c + 1) -ℤ pos 1) ≡ pos c
unfolding wrap_64 ◌-ℤ◌
wrap_64-back c h = ground arith

get-put :
    (name other : String) (s : Sequence) (m : Manager)
    → get other (put name s m) ≡ (if str_eq other name then some s else get other m)
unfolding get put
get-put name other s [] = refl
get-put name other s ((n, t) ∷ m) = elim (Bool-cases (str_eq name n)) [
  | inl e ↦
      let p = (str_eq_iff name n).0 e in
      elim (Bool-cases (str_eq other n)) [ inl k ↦ rw (e, p, k) refl | inr k ↦ rw (e, p, k) refl ]
  | inr e ↦ elim (Bool-cases (str_eq other n)) [
    | inl k ↦
        let ne : str_eq other name ≡ false =
          grind (arith, str_eq_iff other n, str_eq_iff name n, str_eq_iff other name) in
        rw (e, k, ne) refl
    | inr k ↦ rw (e, k) (get-put name other s m)
  ]
]

module _ (start step : ℤ) where
  abbrev at : ℕ → Sequence
  at c = record { start = start; step = step; counter = pos c }

  next-at : (c : ℕ) → c + 1 < 2 ^ 63 → next (at c) ≡ (value (at 0) (pos c), at (c + 1))
  unfolding next value
  next-at c h = rw (wrap_64-add c 1 h) (rw (wrap_64-back c h) refl)

  -- The calls from the `c`th on.
  issued-at :
      (n c : ℕ)
      → c + n < 2 ^ 63
      → ((issued n (at c)).1 ≡ at (c + n))
        × ((k : ℕ) → k < n → get_elem? (issued n (at c)).0 k ≡ some (value (at 0) (pos (c + k))))
  issued-at zero c h = (unfold issued in ap at (omega arith), λ k lt. absurd (omega arith))
  issued-at (suc n) c h =
      let (last, values) = issued-at n (c + 1) (omega arith) in
      let split = issued-suc n (at c) (at (c + 1)) _ (next-at c (omega arith)) in
      (
        ap (λ p. p.1) split ∙ last ∙ ap at (omega arith),
        λ k lt. ap (λ p. get_elem? p.0 k) split ∙ shifted n c values k lt,
      )
    where
      shifted :
          (n c : ℕ)
          → ((k : ℕ)
              → k < n
              → get_elem? (issued n (at (c + 1))).0 k ≡ some (value (at 0) (pos (c + 1 + k))))
          → (k : ℕ) → k < suc n
          → get_elem? (value (at 0) (pos c) ∷ (issued n (at (c + 1))).0) k
            ≡ some (value (at 0) (pos (c + k)))
      shifted n c values zero lt = ap (λ i. some (value (at 0) (pos i))) (omega arith)
      shifted n c values (suc k) lt =
          values k (omega arith) ∙ ap (λ i. some (value (at 0) (pos i))) (omega arith)

  rand-at :
      {E : Type 0} (g : Rng) (n : ℕ) (r : g.State)
      → 0 < n
      → (rand {E = E} g (at n) r).0 ≡ ok (value (at 0) (pos (g.int_n n r).0))
  unfolding rand value
  rand-at g zero r h = absurd (omega arith)
  rand-at g (suc n) r h = refl

  -- A sequence whose counter is new, after `n` calls of `Next`: the `k`th of them returned
  -- `start + k * step`, in the arithmetic of `int64`; and then a random read returns one of these `n` values,
  -- whatever the generator does. (The counter must not overflow.)
  pub rand-issued :
      {E : Type 0} (g : Rng) (n : ℕ) (r : g.State)
      → 0 < n
      → n < 2 ^ 63
      → ((k : ℕ)
          → k < n
          → get_elem? (issued n (at 0)).0 k ≡ some (wrap_64 (start +ℤ wrap_64 (pos k *ℤ step))))
        × (v : ℤ) × (k : ℕ) × (k < n)
        × ((rand {E = E} g (issued n (at 0)).1 r).0 ≡ ok v)
        × (get_elem? (issued n (at 0)).0 k ≡ some v)
  unfolding value
  rand-issued {E = E} g n r h below =
      let (last, values) = issued-at n 0 (omega arith) in
      let ordered : (k : ℕ)
          → k < n
          → get_elem? (issued n (at 0)).0 k ≡ some (value (at 0) (pos k)) =
        λ k lt. values k lt ∙ ap (λ i. some (value (at 0) (pos i))) (omega arith) in
      let below_n = g.int_n_lt n r h in
      (
        ordered,
        value (at 0) (pos (g.int_n n r).0),
        (g.int_n n r).0,
        below_n,
        ap (λ s. (rand {E = E} g s r).0) (last ∙ ap at (omega arith)) ∙ rand-at g n r h,
        ordered _ below_n,
      )

-- `Next` on one sequence of a manager: the caller gets what the sequence's own `Next` returns, that
-- sequence moves on by it, and every other one stays as it is; an unknown name is an error that
-- changes nothing.
pub manager_next-get :
    {E : Type 0} (name other : String) (m : Manager)
    → ((get name m ≡ none)
        × (manager_next {E = E} name m ≡ (err (SeqError.unknown_sequence name), m)))
      ⊎ ((s : Sequence) × (get name m ≡ some s)
          × ((manager_next {E = E} name m).0 ≡ ok (next s).0)
          × (get other (manager_next {E = E} name m).1
              ≡ (if str_eq other name then some (next s).1 else get other m)))
unfolding manager_next
manager_next-get {E = E} name other m = elim (Option-cases (get name m)) [
  | inl none_found ↦ inl (none_found, rw (none_found, manager_next) refl)
  | inr (s, found) ↦ inr (
    s,
    found,
    rw (found, manager_next) refl,
    rw (found, manager_next) (get-put name other (next s).1 m),
  )
]
