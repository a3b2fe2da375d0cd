-- ===== src/Env/Args/Uniq/Firsts.antt =====
-- The proofs on `uniq` of an array, and on which value `uniqExpr` returns (pkg/env/env_args.go).
use edg.Prelude.{
  List, [], ◌∷◌, ◌++◌, Bool, true, not, if◌then◌else◌, ok, ◌≡◌, ◌↔◌, refl, sym, ap, ◌∙◌,
  append_assoc, append-nil, Bool-cases, inl, inr,
}
use edg.Env.Args.Uniq.{seen?, uniq_from, uniq_array, Uniq, Engine}

abbrev pub keep {ℓ} : {A : Type ℓ} → (A → Bool) → List A → List A
keep p [] = []
keep p (x ∷ xs) = if p x then x ∷ keep p xs else keep p xs

module _ {A : Type 0} (same : A → A → Bool) where
  -- A list with each value at its first place only.
  abbrev pub firsts : List A → List A
  firsts [] = []
  firsts (x ∷ xs) = x ∷ keep (λ y. not (same x y)) (firsts xs)

  module _ (decides : (x y : A) → (same x y ≡ true) ↔ (x ≡ y)) where
    keep_seen :
        (x : A) (seen : List A) (ys : List A)
        → seen? same x seen ≡ true
        → keep (λ y. not (seen? same y seen)) (keep (λ y. not (same x y)) ys)
          ≡ keep (λ y. not (seen? same y seen)) ys
    keep_seen x seen [] h = refl
    keep_seen x seen (y ∷ ys) h = elim (Bool-cases (same x y)) [
      | inl equal ↦
          let e : x ≡ y = (decides x y).0 equal in
          let there : seen? same y seen ≡ true = rw (sym e) h in
          rw equal (rw there (keep_seen x seen ys h))
      | inr differs ↦
          rw differs
            (ap (λ r. if not (seen? same y seen) then y ∷ r else r) (keep_seen x seen ys h))
    ]

    keep_unseen :
        (x : A) (seen : List A) (ys : List A)
        → keep (λ y. not (seen? same y seen)) (keep (λ y. not (same x y)) ys)
          ≡ keep (λ y. not (seen? same y (x ∷ seen))) ys
    unfolding seen?
    keep_unseen x seen [] = refl
    keep_unseen x seen (y ∷ ys) = elim (Bool-cases (same x y)) [
      | inl equal ↦ rw equal (keep_unseen x seen ys)
      | inr differs ↦
          rw differs
            (ap (λ r. if not (seen? same y seen) then y ∷ r else r) (keep_unseen x seen ys))
    ]

    uniq_from-keep :
        (seen result xs : List A)
        → uniq_from same seen result xs ≡ result ++ keep (λ y. not (seen? same y seen)) (firsts xs)
    unfolding uniq_from
    uniq_from-keep seen result [] = sym (append-nil result)
    uniq_from-keep seen result (x ∷ xs) = elim (Bool-cases (seen? same x seen)) [
      | inl dup ↦ rw dup (
          uniq_from-keep seen result xs
          ∙ ap (λ r. result ++ r) (sym (keep_seen x seen (firsts xs) dup)))
      | inr new ↦ rw new (
          uniq_from-keep (x ∷ seen) (result ++ x ∷ []) xs
          ∙ append_assoc result (x ∷ []) _
          ∙ ap (λ r. result ++ x ∷ r) (sym (keep_unseen x seen (firsts xs))))
    ]

    keep_all : (xs : List A) → keep (λ y. not (seen? same y [])) xs ≡ xs
    unfolding seen?
    keep_all [] = refl
    keep_all (x ∷ xs) = ap (λ r. x ∷ r) (keep_all xs)

    -- Where the comparison decides equality, `uniq` of an array keeps each of its values at its
    -- first place, in order, and drops its later occurrences.
    pub uniq_array-firsts : (xs : List A) → uniq_array same xs ≡ firsts xs
    unfolding uniq_array
    uniq_array-firsts xs = uniq_from-keep [] [] xs ∙ keep_all (firsts xs)

module _ {E P A V W : Type 0} (g : Engine E P A V W) where
  -- The values of successive evaluations, from one world to another.
  abbrev pub Draws : P → W → List A → W → Type 0
  Draws p w [] w' = w ≡ w'
  Draws p w (v ∷ vs) w' = (w1 : W) × (g.run p w ≡ (ok v, w1)) × Draws p w1 vs w'
