-- ===== src/Prelude/Steps.antt =====
-- Calls that change a state and may fail, for `do` blocks.
use mathlib.Core.Path.{◌≡◌, refl, ap}
use edg.Prelude.Results.{Result, ok, err, ok-carries}

abbrev pub Steps : Type 0 → Type 0 → Type 0 → Type 0
Steps E S A = S → Result E A × S

abbrev pub after : {E S A B : Type 0} → Result E A × S → (A → Steps E S B) → Result E B × S
after (ok a, s) f = f a s
after (err e, s) f = (err e, s)

infixl 5 ◌>>=◌ ◌>>◌
abbrev pub ◌>>=◌ : {E S A B : Type 0} → Steps E S A → (A → Steps E S B) → Steps E S B
◌>>=◌ m f s = after (m s) f

abbrev pub ◌>>◌ : {E S B : Type 0} → Steps E S (Unit {0}) → Steps E S B → Steps E S B
m >> k = m >>= λ _. k

abbrev pub return : {E S A : Type 0} → A → Steps E S A
return a s = (ok a, s)

-- A call that does not read the state.
abbrev pub lift : {E S A : Type 0} → Result E A → Steps E S A
lift r s = (r, s)

abbrev pub change : {E S : Type 0} → (S → S) → Steps E S (Unit {0})
change f s = (ok tt, f s)

-- A chain that goes on from a pair of results may go on from each of them.
pub after-after :
    {E S A B C : Type 0} (p : Result E A × S) (f : A → Steps E S B) (g : B → Steps E S C)
    → after (after p f) g ≡ after p (λ a s. after (f a s) g)
after-after (ok a, s) f g = refl
after-after (err e, s) f g = refl

pub after-return : {E S A : Type 0} (p : Result E A × S) → after p return ≡ p
after-return (ok a, s) = refl
after-return (err e, s) = refl

-- Two continuations may differ where the first part does not lead.
pub after-cong :
    {E S A B : Type 0} (p : Result E A × S) (f g : A → Steps E S B)
    → ((a : A) (s : S) → p ≡ (ok a, s) → f a s ≡ g a s)
    → after p f ≡ after p g
after-cong (ok a, s) f g h = h a s refl
after-cong (err e, s) f g h = refl

-- A chain that succeeds has passed through its first part.
pub after-ok :
    {E S A B : Type 0} (p : Result E A × S) (f : A → Steps E S B) (b : B) (s' : S)
    → after p f ≡ (ok b, s')
    → (a : A) × (s : S) × (p ≡ (ok a, s)) × (f a s ≡ (ok b, s'))
after-ok (ok a, s) f b s' h = (a, s, refl, h)
after-ok (err e, s) f b s' h = (let k = ap (λ (r : _ × _). r.0) h in cc)

pub return-ok :
    {E S A : Type 0} (a b : A) (s s' : S)
    → ◌≡◌ {A = Result E A × S} (ok a, s) (ok b, s')
    → (a ≡ b) × (s ≡ s')
return-ok a b s s' h =
    (ok-carries (λ z. a ≡ z) (ap (λ (r : _ × _). r.0) h) refl, ap (λ (r : _ × _). r.1) h)
