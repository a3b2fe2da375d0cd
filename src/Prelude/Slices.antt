-- ===== src/Prelude/Slices.antt =====
-- What `take` and `drop` make of a list that is cut at several places.
use Prim.Native.Nat.{ℕ, zero, suc, ◌-◌, ◌≤◌}
use mathlib.Core.Path.{◌≡◌, refl, ap, ◌∙◌}
use mathlib.Core.List.{List, [], ◌∷◌, ◌++◌}
use native.Mathlib.Omega.{arith}
use edg.Prelude.Lists.{length, take, drop}

module _ {A : Type 0} where
  pub take-append : (a : ℕ) (xs ys : List A) → a ≤ length xs → take a (xs ++ ys) ≡ take a xs
  take-append zero xs ys h = refl
  take-append (suc a) [] ys h = absurd (omega arith)
  take-append (suc a) (x ∷ xs) ys h = ap (λ zs. x ∷ zs) (take-append a xs ys (omega arith))

  pub drop-append : (b : ℕ) (xs ys : List A) → b ≡ length xs → drop b (xs ++ ys) ≡ ys
  drop-append zero [] ys h = refl
  drop-append zero (x ∷ xs) ys h = absurd (omega arith)
  drop-append (suc b) [] ys h = absurd (omega arith)
  drop-append (suc b) (x ∷ xs) ys h = drop-append b xs ys (omega arith)

  pub take-take : (a b : ℕ) (xs : List A) → a ≤ b → take a (take b xs) ≡ take a xs
  take-take zero b xs h = refl
  take-take (suc a) zero xs h = absurd (omega arith)
  take-take (suc a) (suc b) [] h = refl
  take-take (suc a) (suc b) (x ∷ xs) h = ap (λ zs. x ∷ zs) (take-take a b xs (omega arith))

  take-nil : (k : ℕ) → ◌≡◌ {A = List A} [] (take k [])
  take-nil zero = refl
  take-nil (suc k) = refl

  pub take-split :
      (lo a : ℕ) (xs : List A) → lo ≤ a → take a xs ≡ take lo xs ++ take (a - lo) (drop lo xs)
  take-split zero a xs h = ap (λ k. take k xs) (omega arith)
  take-split (suc lo) zero xs h = absurd (omega arith)
  take-split (suc lo) (suc a) [] h = take-nil (suc a - suc lo)
  take-split (suc lo) (suc a) (x ∷ xs) h =
      ap (λ zs. x ∷ zs) (take-split lo a xs (omega arith))
      ∙ ap (λ k. x ∷ (take lo xs ++ take k (drop lo xs))) (omega arith)
