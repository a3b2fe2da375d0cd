-- ===== src/Prelude/Results.antt =====
-- A Go result `(value, error)` as one value. A panic is an error of the component's own error type.

use Prim.Native.Nat.{ℕ, ◌+◌}
use mathlib.Core.Path.{◌≡◌, refl, subst}
use mathlib.Core.Logic.{◌↔◌, ◌⊎◌, inl, inr}
use mathlib.Core.Bool.{Bool, true, false}
use mathlib.Core.List.{List, [], ◌∷◌}
use native.Mathlib.Omega.{arith}
use edg.Prelude.Tests.{if◌then◌else◌}

pub data Result {ℓ} (E : Type 0) (A : Type ℓ) : Type ℓ where
  ok : A → Result E A
  err : E → Result E A

infixl 5 ◌>>=◌ ◌>>◌
abbrev pub ◌>>=◌ {ℓ κ} :
    {E : Type 0} {A : Type ℓ} {B : Type κ} → Result E A → (A → Result E B) → Result E B
ok a >>= f = f a
err e >>= f = err e

abbrev pub ◌>>◌ {ℓ} : {E : Type 0} {B : Type ℓ} → Result E (Unit {0}) → Result E B → Result E B
m >> k = m >>= λ _. k

-- `if bad { return err }`
abbrev pub refuse : {E : Type 0} → Bool → E → Result E (Unit {0})
refuse true e = err e
refuse false e = ok tt

-- `for i, x := range xs { if err := body(i, x); err != nil { return err } }`, from the index `i`.
pub each {ℓ} :
    {E : Type 0} {A : Type ℓ} → ℕ → (ℕ → A → Result E (Unit {0})) → List A → Result E (Unit {0})
each i body [] = ok tt
each i body (x ∷ xs) = body i x >> each (i + 1) body xs

abbrev pub All {ℓ κ} : {A : Type ℓ} → (A → Type κ) → List A → Type κ
All P [] = Unit
All P (x ∷ xs) = P x × All P xs

module _ {E : Type 0} (m n : Result E (Unit {0})) where
  -- A chain succeeds exactly if both of its parts do.
  pub >>-ok : ((m >> n) ≡ ok tt) ↔ ((m ≡ ok tt) × (n ≡ ok tt))
  >>-ok = (λ h. ground arith, λ h. ground arith)

pub each-ok {ℓ} :
    {E : Type 0} {A : Type ℓ} (body : ℕ → A → Result E (Unit {0})) (P : A → Type 0)
    → ((i : ℕ) (x : A) → (body i x ≡ ok tt) ↔ P x)
    → (i : ℕ) (xs : List A) → (each i body xs ≡ ok tt) ↔ All P xs
unfolding each
each-ok body P iff i [] = (λ h. tt, λ h. refl)
each-ok body P iff i (x ∷ xs) =
    let chain = >>-ok (body i x) (each (i + 1) body xs) in
    let rest = each-ok body P iff (i + 1) xs in
    (
      λ h. ((iff i x).0 ((chain.0 h).0), rest.0 ((chain.0 h).1)),
      λ h. chain.1 ((iff i x).1 h.0, rest.1 h.1),
    )

-- A refusal passes exactly if its test is false.
pub refuse-ok : {E : Type 0} (b : Bool) (e : E) → (refuse b e ≡ ok tt) ↔ (b ≡ false)
refuse-ok true e = (λ h. cc, λ h. cc)
refuse-ok false e = (λ h. refl, λ h. refl)

pub refuse->> :
    {E : Type 0} (b : Bool) (e : E) (m : Result E (Unit {0}))
    → ((refuse b e >> m) ≡ ok tt) ↔ ((b ≡ false) × (m ≡ ok tt))
refuse->> true e m = (λ h. cc, λ h. cc)
refuse->> false e m = (λ h. (refl, h), λ h. h.1)

-- `if b { if err := m; err != nil { return err } }`
pub guarded-ok :
    {E : Type 0} (b : Bool) (m : Result E (Unit {0})) (P : Type 0)
    → (m ≡ ok tt) ↔ P
    → ((if b then m else ok tt) ≡ ok tt) ↔ (b ≡ true → P)
guarded-ok true m P iff = (λ h _. iff.0 h, λ h. iff.1 (h refl))
guarded-ok false m P iff = (λ h e. cc, λ h. refl)

-- The rule of a chain, from the rules of its parts.
pub both-ok :
    {E : Type 0} (m n : Result E (Unit {0})) (P Q : Type 0)
    → (m ≡ ok tt) ↔ P
    → (n ≡ ok tt) ↔ Q
    → ((m >> n) ≡ ok tt) ↔ (P × Q)
both-ok m n P Q p q =
    let chain = >>-ok m n in
    (λ h. let (a, b) = chain.0 h in (p.0 a, q.0 b), λ h. chain.1 (p.1 h.0, q.1 h.1))

-- To split on a computed result and keep the equation.
pub Result-cases {ℓ} :
    {E : Type 0} {A : Type ℓ} (r : Result E A) → ((a : A) × (r ≡ ok a)) ⊎ ((e : E) × (r ≡ err e))
Result-cases (ok a) = inl (a, refl)
Result-cases (err e) = inr (e, refl)

-- A chain that succeeds has passed through its first part.
pub >>=-ok {ℓ κ} :
    {E : Type 0} {A : Type ℓ} {B : Type κ} (m : Result E A) (f : A → Result E B) (b : B)
    → (m >>= f) ≡ ok b
    → (a : A) × (m ≡ ok a) × (f a ≡ ok b)
>>=-ok (ok a) f b h = (a, refl, h)
>>=-ok (err e) f b h = cc

ok-injective {ℓ} : {E : Type 0} {A : Type ℓ} {a b : A} → ◌≡◌ {A = Result E A} (ok a) (ok b) → a ≡ b
ok-injective h = cc h

-- What holds of the value of one success holds of that of an equal one.
pub ok-carries {ℓ κ} :
    {E : Type 0} {A : Type ℓ} (P : A → Type κ) {a b : A}
    → ◌≡◌ {A = Result E A} (ok a) (ok b)
    → P a
    → P b
ok-carries P h p = subst P (ok-injective h) p
