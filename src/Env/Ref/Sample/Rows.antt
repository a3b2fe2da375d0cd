-- ===== src/Env/Ref/Sample/Rows.antt =====
-- The proofs on `fisherYates` (pkg/env/ref.go).
use mathlib.Core.Logic.{inl, inr, ∥∥₁_elim}
use mathlib.Core.HLevel.{⊥_prop}
use mathlib.Core.Path.{subst}
use mathlib.Core.List.{
  Perm, Mem, not-mem-nil, eq-or-mem_of_mem-cons, mem-cons_self, mem-cons_of_mem,
}
use mathlib.Core.List.Perm
use edg.Prelude.{
  ℕ, zero, suc, ◌+◌, ◌≤◌, ◌<◌, String, List, [], ◌∷◌, ◌++◌, map, append_assoc, some, get_elem?,
  length, length-append, ok, ◌≡◌, refl, sym, ◌∙◌, ap, arith,
}
use edg.Prelude.Random.{Rng}
use edg.Env.Ref.{swapped, draw_from, take_swapped}
use edg.Env.Ref.Distinct.{take_swapped-found, draw_from-below}
use edg.Env.Ref.Sample.{indices_from, prepend, cell, part_at, shuffle_from, fisher_yates}

mem_beyond : (i from n : ℕ) → from + n ≤ i → ¬ Mem i (indices_from from n)
mem_beyond i from zero h m = not-mem-nil m
mem_beyond i from (suc n) h m = ∥∥₁_elim (eq-or-mem_of_mem-cons m) ⊥_prop (λ c. elim c [
  | inl e ↦ absurd (omega arith)
  | inr m' ↦ mem_beyond i (suc from) n (omega arith) m'
])

length-indices_from : (i n : ℕ) → length (indices_from i n) ≡ n
length-indices_from i zero = refl
length-indices_from i (suc n) = ap suc (length-indices_from (suc i) n)

module _ {A : Type 0} where
  -- The row at an index, or the given row out of range.
  abbrev row_or : A → List A → ℕ → A
  row_or d [] i = d
  row_or d (x ∷ xs) zero = x
  row_or d (x ∷ xs) (suc i) = row_or d xs i

  get_elem?-row_or :
      (d : A) (xs : List A) (i : ℕ) → i < length xs → get_elem? xs i ≡ some (row_or d xs i)
  get_elem?-row_or d [] i h = absurd (omega arith)
  get_elem?-row_or d (x ∷ xs) zero h = refl
  get_elem?-row_or d (x ∷ xs) (suc i) h = get_elem?-row_or d xs i (omega arith)

  row_or-front :
      (d : A) (front : List A) (x : A) (xs : List A) → row_or d (front ++ x ∷ xs) (length front) ≡ x
  row_or-front d [] x xs = refl
  row_or-front d (z ∷ front) x xs = row_or-front d front x xs

  map-indices_from :
      (d : A) (front xs : List A) (n : ℕ)
      → n ≡ length front
      → map (row_or d (front ++ xs)) (indices_from n (length xs)) ≡ xs
  map-indices_from d front [] n h = refl
  map-indices_from d front (x ∷ xs) n h =
      let later =
        map-indices_from d (front ++ x ∷ []) xs (suc n)
          (ap suc h ∙ (omega arith) ∙ sym (length-append front (x ∷ []))) in
      let same : (front ++ x ∷ []) ++ xs ≡ front ++ x ∷ xs = append_assoc front (x ∷ []) xs in
      let head : row_or d (front ++ x ∷ xs) n ≡ x = rw h (row_or-front d front x xs) in
      let tail = subst (λ r. map (row_or d r) (indices_from (suc n) (length xs)) ≡ xs) same later in
      rw (head, tail) refl

module _ {A : Type 0} (sprint : A → String → String) (rows : List A) (field : String) where
  part_at-taken :
      {S : Type 0} (d : A) (indices : List ℕ) (i j k : ℕ) (indices' : List ℕ) (s : S)
      → k < length rows
      → take_swapped (swapped indices j i) i ≡ ok (k, indices')
      → part_at sprint rows field indices i (ok j, s)
        ≡ (ok (sprint (row_or d rows k) field, indices'), s)
  unfolding part_at cell
  part_at-taken d indices i j k indices' s h taken =
      rw (taken, part_at) (rw (get_elem?-row_or d rows k h, cell) refl)

  -- One round of the loop.
  part_at-next :
      (g : Rng) (d : A) (front : List ℕ) (x : ℕ) (rest : List ℕ) (s : g.State)
      → ((k : ℕ) → length rows ≤ k → ¬ Mem k (x ∷ rest))
      → (y : ℕ) × (rest' : List ℕ) × (s' : g.State) × (part_at sprint rows field
            (front ++ x ∷ rest)
            (length front)
            (draw_from g (length (front ++ x ∷ rest)) (length front) s)
          ≡ (ok (sprint (row_or d rows y) field, front ++ y ∷ rest'), s'))
        × (length rest' ≡ length rest)
        × Perm (x ∷ rest) (y ∷ rest')
  part_at-next g d front x rest s inside =
      let (y, rest', taken, size, p) =
        take_swapped-found front x rest _ (g.int_n_lt (suc (length rest)) s (omega arith)) in
      let drawn =
        draw_from-below g (length (front ++ x ∷ rest)) (length front) (length rest) s
          (length-append front (x ∷ rest)) in
      let out : ¬ (length rows ≤ y) = (λ h. inside y h ((Perm.mem_iff p).1 mem-cons_self)) in
      let within : y < length rows = omega arith in
      (
        y,
        rest',
        (g.int_n (suc (length rest)) s).1,
        rw drawn (part_at-taken d (front ++ x ∷ rest) (length front) _ y _ _ within taken),
        size,
        p,
      )

  shuffle_from-rows :
      (g : Rng) (d : A) (n : ℕ) (front back : List ℕ) (i : ℕ) (s : g.State)
      → i ≡ length front
      → n ≤ length back
      → ((k : ℕ) → length rows ≤ k → ¬ Mem k back)
      → (taken left : List A) × (s' : g.State) × (shuffle_from sprint g n rows field
            (front ++ back)
            i
            s
          ≡ (ok (map (λ x. sprint x field) taken), s'))
        × (length taken ≡ n)
        × Perm (map (row_or d rows) back) (taken ++ left)
  unfolding shuffle_from
  shuffle_from-rows g d zero front back i s at h inside =
      ([], map (row_or d rows) back, s, refl, refl, Perm.refl _)
  shuffle_from-rows g d (suc n) front [] i s at h inside = absurd (omega arith)
  shuffle_from-rows g d (suc n) front (x ∷ rest) i s at h inside =
      let (y, rest', s', read, same, p) = part_at-next g d front x rest s inside in
      let (taken, left, s'', later, size, q) =
        shuffle_from-rows g d n (front ++ y ∷ []) rest' (length front + 1) s'
          (sym (length-append front (y ∷ [])) ∙ refl) (rw same (omega arith))
          (λ k above m. inside k above ((Perm.mem_iff p).1 (mem-cons_of_mem y m))) in
      let moved : (front ++ y ∷ []) ++ rest' ≡ front ++ y ∷ rest' =
        append_assoc front (y ∷ []) rest' in
      let run =
        subst
          (λ r.
            shuffle_from sprint g n rows field r (length front + 1) s'
            ≡ (ok (map (λ z. sprint z field) taken), s''))
          moved later in
      (
        row_or d rows y ∷ taken,
        left,
        s'',
        rw (at, read) (ap (prepend (sprint (row_or d rows y) field)) run),
        ap suc size,
        Perm.trans (Perm.map (row_or d rows) p) (Perm.cons (row_or d rows y) q),
      )

-- If no more rows are asked for than the dataset has, the sample succeeds: each part is the text
-- of a field of a row, and the rows sampled and the rows left make up a permutation of the
-- dataset. So no row is sampled twice, whatever the random numbers are.
pub fisher_yates-Perm :
    {A : Type 0} (sprint : A → String → String) (g : Rng) (rows : List A) (field : String) (n : ℕ)
    (s : g.State)
    → n ≤ length rows
    → (taken left : List A) × (s' : g.State) × (fisher_yates sprint g rows field n s
        ≡ (ok (map (λ x. sprint x field) taken), s'))
      × (length taken ≡ n)
      × Perm rows (taken ++ left)
unfolding fisher_yates shuffle_from
fisher_yates-Perm sprint g [] field zero s h = ([], [], s, refl, refl, Perm.refl [])
fisher_yates-Perm sprint g [] field (suc n) s h = absurd (omega arith)
fisher_yates-Perm sprint g (x ∷ xs) field n s h =
    let whole = map-indices_from x [] (x ∷ xs) 0 refl in
    let (taken, left, s', run, size, p) =
      shuffle_from-rows sprint (x ∷ xs) field g x n [] (indices_from 0 (length (x ∷ xs))) 0 s refl
        (rw (length-indices_from 0 (length (x ∷ xs))) h)
        (λ k above. mem_beyond k 0 (length (x ∷ xs)) (omega arith)) in
    (taken, left, s', run, size, subst (λ r. Perm r (taken ++ left)) whole p)
