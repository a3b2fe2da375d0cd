-- ===== src/Env/Ref/Cached/Stable.antt =====
-- The proofs on `refCached` (pkg/env/ref.go).
use edg.Prelude.{
  ℕ, zero, suc, ◌<◌, String, List, [], ◌∷◌, none, some, false, str_eq, str_eq_iff, get_elem?,
  length, ok, ◌≡◌, refl, ◌∙◌, ap, arith,
}
use edg.Prelude.Random.{Rng}
use edg.Env.Ref.{Datasets, get_dataset}
use edg.Env.Ref.Cached.{Cache, row, remember, row_at, pick_row, cache_row, ref_cached}

module _ {A : Type 0} where
  row_at-found :
      (rows : List A) (i : ℕ)
      → i < length rows
      → (x : A) × (get_elem? rows i ≡ some x) × (row_at rows (ok i) ≡ ok x)
  unfolding row_at
  row_at-found [] i h = absurd (omega arith)
  row_at-found (x ∷ rows) zero h = (x, refl, refl)
  row_at-found (x ∷ rows) (suc i) h = row_at-found rows i (omega arith)

  pick_row-found :
      (g : Rng) (r x : A) (rows : List A) (s : g.State)
      → row_at (r ∷ rows) (ok (g.int_n (length (r ∷ rows)) s).0) ≡ ok x
      → pick_row g (r ∷ rows) s ≡ (ok x, (g.int_n (length (r ∷ rows)) s).1)
  unfolding pick_row
  pick_row-found g r x rows s h = ap (λ a. (a, (g.int_n (length (r ∷ rows)) s).1)) h

  cache_row-ok :
      {S : Type 0} (cache : Cache A) (name : String) (x : A) (s : S)
      → cache_row cache name (ok x, s) ≡ (ok (some x), remember cache name x, s)
  unfolding cache_row
  cache_row-ok cache name x s = refl

  -- With nothing cached for a dataset that has rows, a call returns one of its rows, the one that the draw
  -- names, and remembers it; every later call with the new cache, whatever the datasets and the
  -- generator are by then, returns that row again and changes neither the cache nor the generator.
  -- The cache of other names stays as it is.
  pub ref_cached-stable :
      (g : Rng) (e : Datasets A) (name : String) (cache : Cache A) (r : A) (rows : List A)
      (s : g.State)
      → cache name ≡ none
      → e.env name ≡ some (r ∷ rows)
      → (x : A) × (get_elem? (r ∷ rows) (g.int_n (length (r ∷ rows)) s).0 ≡ some x)
        × (ref_cached g e name cache s
            ≡ (ok (some x), remember cache name x, (g.int_n (length (r ∷ rows)) s).1))
        × ((e' : Datasets A) (s' : g.State)
            → ref_cached g e' name (remember cache name x) s'
              ≡ (ok (some x), remember cache name x, s'))
        × ((n : String) → str_eq n name ≡ false → remember cache name x n ≡ cache n)
  unfolding ref_cached get_dataset
  ref_cached-stable g e name cache r rows s empty found =
      let (x, e₁, e₂) =
        row_at-found (r ∷ rows) _ (g.int_n_lt (length (r ∷ rows)) s (omega arith)) in
      let rows_found : get_dataset e name ≡ some (r ∷ rows) = rw (found, get_dataset) refl in
      let known : remember cache name x name ≡ some (row x) =
        rw ((str_eq_iff name name).1 refl) refl in
      let picked = pick_row-found g r x rows s e₂ in
      (
        x,
        e₁,
        rw (empty, ref_cached)
            (rw (rows_found, ref_cached)
              (ap (cache_row cache name) picked ∙ cache_row-ok cache name x _)),
        λ e' s'. rw (known, ref_cached) refl,
        λ n h. rw h refl,
      )
