-- ===== src/Env/Rand/Unique.antt =====
-- The proofs on the loop of unique draws (pkg/env/rand.go).
use edg.Prelude.{
  ℕ, zero, suc, ◌≤◌, ◌<◌, List, [], ◌∷◌, ◌++◌, map, Bool, true, leb, ltb, length, length-append,
  All, Result, ok, err, ◌≡◌, ◌≢◌, refl, sym, ap, ◌∙◌, arith, Bool-cases, inl, inr, ◌⊎◌,
}
use mathlib.Core.Path.{subst}
use edg.Prelude.Int.{pos}
use edg.Prelude.Steps.{Steps}
use edg.Env.Args.Uniq.{seen?}
use edg.Env.Args.Uniq.Distinct.{AllDistinct, seen?-false}
use edg.Env.Rand.{RandError, exhausted, keys, added, collect, enough, unique}
use edg.Gen.Random.{max_iter}

module _ {A : Type 0} where
  All-snoc : (P : A → Type 0) (xs : List A) (v : A) → All P xs → P v → All P (xs ++ v ∷ [])
  All-snoc P [] v h p = (p, tt)
  All-snoc P (x ∷ xs) v h p = (h.0, All-snoc P xs v h.1 p)

  AllDistinct-snoc :
      (xs : List A) (v : A) → AllDistinct xs → All (λ x. x ≢ v) xs → AllDistinct (xs ++ v ∷ [])
  AllDistinct-snoc [] v h k = (tt, tt)
  AllDistinct-snoc (x ∷ xs) v h k =
      (All-snoc _ xs v h.0 (λ e. k.0 (sym e)), AllDistinct-snoc xs v h.1 k.1)

map-snoc :
    {A B : Type 0} (f : A → B) (xs : List A) (x : A) → map f (xs ++ x ∷ []) ≡ map f xs ++ f x ∷ []
map-snoc f [] x = refl
map-snoc f (y ∷ xs) x = ap (λ zs. f y ∷ zs) (map-snoc f xs x)

module _ {S K P : Type 0} (same : K → K → Bool) (part : K → Result RandError P)
    (next : Steps RandError S K) (Valid : S → Type 0) (Q : K → Type 0)
    (reflexive : (k : K) → same k k ≡ true)
    (next_ok : (s : S) → Valid s → (v : K) × (s' : S) × (next s ≡ (ok v, s')) × Valid s' × Q v)
    (part_ok : (v : K) → Q v → (p : P) × (part v ≡ ok p)) where
  -- What the loop keeps: at most `n` entries with distinct keys, which are what a draw returns and
  -- stand with what is printed for them.
  abbrev pub IsGood : ℕ → List (K × P) → Type 0
  IsGood n entries =
      (length entries ≤ n)
      × AllDistinct (keys entries)
      × All (λ (e : K × P). Q (e.0) × (part (e.0) ≡ ok (e.1))) entries

  added-IsGood :
      (n : ℕ) (v : K) (entries : List (K × P))
      → length entries < n
      → Q v
      → IsGood n entries
      → (more : List (K × P)) × (added same part v entries ≡ ok more) × IsGood n more
  unfolding added
  added-IsGood n v entries below q good = elim (Bool-cases (seen? same v (keys entries))) [
    | inl dup ↦ (entries, rw (dup, added) refl, good)
    | inr new ↦
        let (p, k) = part_ok v q in
        (
          entries ++ (v, p) ∷ [],
          rw (new, added) (rw k refl),
          (
            omega (arith, length-append entries ((v, p) ∷ [])),
            subst AllDistinct (sym (map-snoc (λ (e : K × P). e.0) entries (v, p)))
                (AllDistinct-snoc _ v good.1 (seen?-false same v _ (reflexive v) new)),
            All-snoc _ entries (v, p) good.2 (q, k),
          ),
        )
  ]

  collect-IsGood :
      (rounds n : ℕ) (entries : List (K × P)) (s : S)
      → Valid s
      → IsGood n entries
      → (result : List (K × P)) × (s' : S) × (collect same part next rounds n entries s
          ≡ (ok result, s'))
        × Valid s'
        × IsGood n result
  unfolding collect
  collect-IsGood zero n entries s valid good = (entries, s, refl, valid, good)
  collect-IsGood (suc rounds) n entries s valid good = elim (Bool-cases (leb n (length entries))) [
    | inl full ↦ (entries, s, rw (full, collect) refl, valid, good)
    | inr more_wanted ↦
        let (v, s1, drawn, valid1, q) = next_ok s valid in
        let (more, kept, good1) =
          added-IsGood n v entries (let h = more_wanted in ground arith) q good in
        let (result, s2, later, valid2, good2) = collect-IsGood rounds n more s1 valid1 good1 in
        (result, s2, rw (more_wanted, collect) (rw drawn (rw kept refl)) ∙ later, valid2, good2)
  ]

  -- The loop either returns exactly `n` entries or gives up; it does not fail in any other way.
  pub unique-IsGood :
      (n : ℕ) (s : S)
      → Valid s
      → (s' : S) × Valid s'
        × ((unique same part next (pos n) s ≡ (err exhausted, s'))
            ⊎ ((result : List (K × P)) × (unique same part next (pos n) s ≡ (ok result, s'))
                × (length result ≡ n)
                × IsGood n result))
  unfolding unique enough
  unique-IsGood n s valid =
      let (result, s', collected, valid', good) =
        collect-IsGood max_iter n [] s valid (omega arith, tt, tt) in
      (
        s',
        valid',
        elim (Bool-cases (ltb (length result) n)) [
          | inl few ↦ inl (rw (collected, unique) (rw (few, enough) refl))
          | inr all_found ↦ inr (
            result,
            rw (collected, unique) (rw (all_found, enough) refl),
            (let h = all_found in let k = good.0 in ground arith),
            good,
          )
        ],
      )
