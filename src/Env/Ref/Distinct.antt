-- ===== src/Env/Ref/Distinct.antt =====
-- The proofs on successive calls of `refDiff` (pkg/env/ref.go).
use mathlib.Core.List.{Perm}
use mathlib.Core.List.Perm
use edg.Prelude.{
  ℕ, zero, suc, ◌+◌, ◌-◌, ◌≤◌, ◌<◌, String, List, [], ◌∷◌, ◌++◌, map, append-nil, append_assoc,
  Option, none, some, true, false, str_eq_iff, leb, get_elem?, set, length, length-append,
  length-set, ok, err, ◌≡◌, refl, sym, ◌∙◌, ap, arith,
}
use edg.Prelude.Random.{Rng}
use edg.Env.Weighted.{bad_argument}
use edg.Env.Ref.{
  swapped, draw_from, take_swapped, Datasets, get_dataset, put, store, diff_at, prepend, ref_diff,
  ref_diffs,
}

pub draw_from-below :
    (g : Rng) (n from m : ℕ) (s : g.State)
    → n ≡ from + suc m
    → draw_from g n from s ≡ (ok ((g.int_n (suc m) s).0 + from), (g.int_n (suc m) s).1)
unfolding draw_from
draw_from-below g n from m s h =
    let above : leb n from ≡ false = ground arith in
    let left : n - from ≡ suc m = omega arith in rw above (rw left refl)

abbrev map_some : {A B : Type 0} → (A → B) → Option A → Option B
map_some f none = none
map_some f (some a) = some (f a)

module _ {A : Type 0} where
  swapped-cons :
      (x : A) (xs : List A) (i j : ℕ)
      → swapped (x ∷ xs) (suc i) (suc j) ≡ map_some (λ ys. x ∷ ys) (swapped xs i j)
  unfolding swapped
  swapped-cons x xs i j = ground arith

  map_some_id : (o : Option (List A)) → o ≡ map_some (λ ys. [] ++ ys) o
  map_some_id none = refl
  map_some_id (some xs) = refl

  map_some-map_some :
      (x : A) (front : List A) (o : Option (List A))
      → map_some (λ ys. x ∷ ys) (map_some (λ ys. front ++ ys) o)
        ≡ map_some (λ ys. (x ∷ front) ++ ys) o
  map_some-map_some x front none = refl
  map_some-map_some x front (some xs) = refl

  swapped-append :
      (front back : List A) (a b i j : ℕ)
      → a ≡ length front + i
      → b ≡ length front + j
      → swapped (front ++ back) a b ≡ map_some (λ ys. front ++ ys) (swapped back i j)
  swapped-append [] back a b i j h k =
      let h' : a ≡ i = omega arith in
      let k' : b ≡ j = omega arith in rw (h', k') (map_some_id (swapped back i j))
  swapped-append (x ∷ front) back zero b i j h k = absurd (omega arith)
  swapped-append (x ∷ front) back (suc a) zero i j h k = absurd (omega arith)
  swapped-append (x ∷ front) back (suc a) (suc b) i j h k =
      swapped-cons x (front ++ back) a b
      ∙ ap (map_some (λ ys. x ∷ ys)) (swapped-append front back a b i j (omega arith) (omega arith))
      ∙ map_some-map_some x front (swapped back i j)

  Perm-swap :
      (x : A) (rest : List A) (k : ℕ)
      → k < length rest
      → (y : A) × (get_elem? rest k ≡ some y) × Perm (x ∷ rest) (y ∷ set rest k x)
  Perm-swap x [] k h = absurd (omega arith)
  Perm-swap x (z ∷ zs) zero h = (z, refl, Perm.swap z x zs)
  Perm-swap x (z ∷ zs) (suc k) h =
      let (y, e, p) = Perm-swap x zs k (omega arith) in
      (
        y,
        e,
        Perm.trans (Perm.swap z x zs) (Perm.trans (Perm.cons z p) (Perm.swap y z (set zs k x))),
      )

  swapped-read :
      (x y : A) (rest : List A) (k : ℕ)
      → get_elem? rest k ≡ some y
      → swapped (x ∷ rest) (suc k) 0 ≡ some (y ∷ set rest k x)
  unfolding swapped
  swapped-read x y rest k e = rw (e, swapped) refl

  -- Swapping a later element to the front.
  swapped_front :
      (x : A) (rest : List A) (j : ℕ)
      → j < suc (length rest)
      → (y : A) × (rest' : List A) × (swapped (x ∷ rest) j 0 ≡ some (y ∷ rest'))
        × (length rest' ≡ length rest)
        × Perm (x ∷ rest) (y ∷ rest')
  unfolding swapped
  swapped_front x rest zero h = (x, rest, refl, refl, Perm.refl _)
  swapped_front x rest (suc k) h =
      let (y, e, p) = Perm-swap x rest k (omega arith) in
      (y, set rest k x, swapped-read x y rest k e, length-set rest k x, p)

  get_elem?-append_self :
      (front : List A) (y : A) (rest : List A)
      → get_elem? (front ++ y ∷ rest) (length front) ≡ some y
  get_elem?-append_self [] y rest = refl
  get_elem?-append_self (x ∷ front) y rest = get_elem?-append_self front y rest

  took :
      (front : List A) (y : A) (rest : List A)
      → take_swapped (some (front ++ y ∷ rest)) (length front) ≡ ok (y, front ++ y ∷ rest)
  unfolding take_swapped
  took front y rest = rw (get_elem?-append_self front y rest, take_swapped) refl

  pub take_swapped-found :
      (front : List A) (x : A) (rest : List A) (k : ℕ)
      → k < suc (length rest)
      → (y : A) × (rest' : List A) × (take_swapped
            (swapped (front ++ x ∷ rest) (k + length front) (length front))
            (length front)
          ≡ ok (y, front ++ y ∷ rest'))
        × (length rest' ≡ length rest)
        × Perm (x ∷ rest) (y ∷ rest')
  unfolding take_swapped
  take_swapped-found front x rest k h =
      let (y, rest', e, size, p) = swapped_front x rest k h in
      (
        y,
        rest',
        rw
            (swapped-append front (x ∷ rest) (k + length front) (length front) k 0 (omega arith)
              (omega arith))
            (rw e (took front y rest')),
        size,
        p,
      )

  get_dataset-found :
      (env : String → Option (List A)) (u : ℕ) (name : String) (front : List A) (x : A)
      (rest : List A)
      → env name ≡ some (front ++ x ∷ rest)
      → get_dataset (record { env = env; uniq_index = u }) name ≡ some (front ++ x ∷ rest)
  unfolding get_dataset
  get_dataset-found env u name [] x rest h = rw h refl
  get_dataset-found env u name (z ∷ front) x rest h = rw h refl

  refl_stored :
      {S : Type 0} (env : String → Option (List A)) (name : String) (front : List A) (y : A)
      (rest' : List A) (s : S)
      → store (record { env = env; uniq_index = length front }) name (ok (y, front ++ y ∷ rest')) s
        ≡ (
          ok (some y),
          record { env = put env name (front ++ y ∷ rest'); uniq_index = length front + 1 },
          s,
        )
  unfolding store
  refl_stored env name front y rest' s = refl

  stored :
      {S : Type 0} (env : String → Option (List A)) (name : String) (front : List A) (x : A)
      (rest : List A) (k : ℕ) (y : A) (rest' : List A) (s : S)
      → take_swapped (swapped (front ++ x ∷ rest) (k + length front) (length front)) (length front)
        ≡ ok (y, front ++ y ∷ rest')
      → diff_at
          (record { env = env; uniq_index = length front })
          name
          (front ++ x ∷ rest)
          (ok (k + length front), s)
        ≡ (
          ok (some y),
          record { env = put env name (front ++ y ∷ rest'); uniq_index = length front + 1 },
          s,
        )
  unfolding diff_at
  stored env name front x rest k y rest' s h = rw h (refl_stored env name front y rest' s)

  -- What a call does to a dataset whose first rows have been returned.
  ref_diff-next :
      (g : Rng) (env : String → Option (List A)) (name : String) (front : List A) (x : A)
      (rest : List A) (s : g.State)
      → env name ≡ some (front ++ x ∷ rest)
      → (y : A) × (rest' : List A) × (s' : g.State) × (ref_diff g
            (record { env = env; uniq_index = length front })
            name
            s
          ≡ (
            ok (some y),
            record { env = put env name (front ++ y ∷ rest'); uniq_index = length front + 1 },
            s',
          ))
        × (length rest' ≡ length rest)
        × Perm (x ∷ rest) (y ∷ rest')
  unfolding ref_diff
  ref_diff-next g env name front x rest s found =
      let (y, rest', taken, size, p) =
        take_swapped-found front x rest _ (g.int_n_lt (suc (length rest)) s (omega arith)) in
      let drawn =
        draw_from-below g (length (front ++ x ∷ rest)) (length front) (length rest) s
          (length-append front (x ∷ rest)) in
      (
        y,
        rest',
        (g.int_n (suc (length rest)) s).1,
        rw (get_dataset-found env (length front) name front x rest found, ref_diff)
            (rw drawn (stored env name front x rest _ y rest' _ taken)),
        size,
        p,
      )

  put_found :
      (env : String → Option (List A)) (name : String) (rows : List A)
      → put env name rows name ≡ some rows
  put_found env name rows = rw ((str_eq_iff name name).1 refl) refl

  -- As long as the dataset has rows left, calls return rows, and the dataset stays a permutation of
  -- itself that begins with the rows returned.
  ref_diffs-from :
      (g : Rng) (n : ℕ) (env : String → Option (List A)) (name : String) (front back : List A)
      (u : ℕ) (s : g.State)
      → env name ≡ some (front ++ back)
      → u ≡ length front
      → n ≤ length back
      → (taken rest : List A) × (e' : Datasets A) × (s' : g.State) × (ref_diffs g n
            (record { env = env; uniq_index = u })
            name
            s
          ≡ (ok (map some taken), e', s'))
        × (length taken ≡ n)
        × (e'.env name ≡ some (front ++ taken ++ rest))
        × Perm back (taken ++ rest)
  unfolding ref_diffs
  ref_diffs-from g zero env name front back u s found at h = (
    [],
    back,
    record { env = env; uniq_index = u },
    s,
    refl,
    refl,
    rw (append-nil front) found,
    Perm.refl back,
  )
  ref_diffs-from g (suc n) env name front [] u s found at h = absurd (omega arith)
  ref_diffs-from g (suc n) env name front (x ∷ rest) u s found at h =
      let (y, rest', s', called, same, p) = ref_diff-next g env name front x rest s found in
      let (taken, left, e', s'', later, size, kept, q) =
        ref_diffs-from g n (put env name (front ++ y ∷ rest')) name (front ++ y ∷ []) rest'
          (length front + 1) s'
          (put_found env name (front ++ y ∷ rest')
            ∙ ap some (sym (append_assoc front (y ∷ []) rest')))
          (sym (length-append front (y ∷ [])) ∙ refl) (rw same (omega arith)) in
      (
        y ∷ taken,
        left,
        e',
        s'',
        rw (at, called) (ap (prepend (some y)) later),
        ap suc size,
        kept ∙ ap (λ r. some (r ++ left)) (append_assoc front (y ∷ []) taken),
        Perm.trans p (Perm.cons y q),
      )

  -- From a reset counter, as many calls as the dataset has rows, or fewer, return a row each; the
  -- returned rows, in their order, and the rows that are left make up a permutation of the
  -- dataset. So no row is returned twice, whatever the random numbers are.
  pub ref_diffs-Perm :
      (g : Rng) (n : ℕ) (env : String → Option (List A)) (name : String) (rows : List A)
      (s : g.State)
      → env name ≡ some rows
      → n ≤ length rows
      → (taken rest : List A) × (e' : Datasets A) × (s' : g.State) × (ref_diffs g n
            (record { env = env; uniq_index = 0 })
            name
            s
          ≡ (ok (map some taken), e', s'))
        × (length taken ≡ n)
        × (e'.env name ≡ some (taken ++ rest))
        × Perm rows (taken ++ rest)
  ref_diffs-Perm g n env name rows s found h = ref_diffs-from g n env name [] rows 0 s found refl h

  -- Once every row of a dataset has been returned, another call panics, whatever the state of the
  -- generator is; it leaves the datasets and the counter as they are.
  pub ref_diff-exhausted :
      (g : Rng) (e : Datasets A) (name : String) (x : A) (rows : List A) (s : g.State)
      → e.env name ≡ some (x ∷ rows)
      → length (x ∷ rows) ≤ e.uniq_index
      → ref_diff g e name s ≡ (err bad_argument, e, s)
  unfolding ref_diff get_dataset diff_at draw_from
  ref_diff-exhausted g e name x rows s found h =
      let above : leb (length (x ∷ rows)) e.uniq_index ≡ true = ground arith in
      rw (found, ref_diff) (rw above refl)
