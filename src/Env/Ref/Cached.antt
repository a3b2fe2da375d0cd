-- ===== src/Env/Ref/Cached.antt =====
-- `refRand`, and `refCached`, which `refSame` and `refPerm` call with a cache each (pkg/env/ref.go).
pub mod Stable
use edg.Prelude.{
  ℕ, String, List, [], ◌∷◌, Option, none, some, Bool, true, false, str_eq, if◌then◌else◌, get_elem?,
  length, Result, ok, err,
}
use edg.Prelude.Int.{pos}
use edg.Prelude.Random.{Rng}
use edg.Env.Weighted.{Panic, index_out_of_range, draw}
use edg.Env.Ref.{Datasets, get_dataset}

-- A value of the cache, by the type assertion `cached.(map[string]any)`.
pub data Cached (A : Type 0) : Type 0 where
  row : A → Cached A
  other : Cached A

abbrev pub Cache : Type 0 → Type 0
Cache A = String → Option (Cached A)

module _ {A : Type 0} where
  abbrev pub remember : Cache A → String → A → Cache A
  remember cache name x n = if str_eq n name then some (row x) else cache n

  -- `data[i]`
  pub row_at : List A → Result Panic ℕ → Result Panic A
  row_at rows (err p) = err p
  row_at rows (ok i) = elim (get_elem? rows i) [ none ↦ err index_out_of_range | some x ↦ ok x ]

  pub pick_row : (g : Rng) → List A → g.State → Result Panic A × g.State
  unfolding row_at draw
  pick_row g rows s = let (r, s') = draw g (pos (length rows)) s in (row_at rows r, s')

  -- `refRand`; none is Go's nil.
  unfoldable pub ref_rand :
      (g : Rng) → Datasets A → String → g.State → Result Panic (Option A) × g.State
  unfolding get_dataset pick_row
  ref_rand g e name s = elim (get_dataset e name) [
    | none ↦ (ok none, s)
    | some rows ↦
        let (r, s') = pick_row g rows s in elim r [ err p ↦ (err p, s') | ok x ↦ (ok (some x), s') ]
  ]

  pub cache_row :
      {S : Type 0} → Cache A → String → Result Panic A × S → Result Panic (Option A) × Cache A × S
  cache_row cache name (err p, s) = (err p, cache, s)
  cache_row cache name (ok x, s) = (ok (some x), remember cache name x, s)

  -- `refCached`: a dataset that is missing or empty is not remembered.
  unfoldable pub ref_cached :
      (g : Rng)
      → Datasets A
      → String
      → Cache A
      → g.State
      → Result Panic (Option A) × Cache A × g.State
  unfolding get_dataset pick_row cache_row
  ref_cached g e name cache s = elim (cache name) [
    | some (row x) ↦ (ok (some x), cache, s)
    | some other ↦ (ok none, cache, s)
    | none ↦ elim (get_dataset e name) [
      | none ↦ (ok none, cache, s)
      | some rows ↦ cache_row cache name (pick_row g rows s)
    ]
  ]
