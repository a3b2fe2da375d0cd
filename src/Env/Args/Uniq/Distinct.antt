-- ===== src/Env/Args/Uniq/Distinct.antt =====
-- The proofs on `uniqExpr` (pkg/env/env_args.go).
use edg.Prelude.{
  ℕ, zero, suc, String, List, [], ◌∷◌, some, Bool, true, false, str_eq, str_eq_iff, length, All,
  if◌then◌else◌, Result, ok, err, ◌≡◌, ◌≢◌, refl, sym, ap, ◌∙◌, arith, Bool-cases, Result-cases,
  inl, inr, ok-carries,
}
use mathlib.Core.Path.{subst}
use edg.Env.Args.Uniq.{
  uniq_unlocked, blocked, UniqError, unhashable, seen?, Uniq, Engine, find, put, seen_by, take_new,
  retry, max_retries, program, finish, uniq_rounds, uniq_expr, uniq_exprs, next, cons_result,
}

-- Each value differs from all the values after it.
abbrev pub AllDistinct {ℓ} : {A : Type ℓ} → List A → Type ℓ
AllDistinct [] = Unit
AllDistinct (v ∷ vs) = All (λ x. x ≢ v) vs × AllDistinct vs

pub seen?-false :
    {A : Type 0} (same : A → A → Bool) (v : A) (xs : List A)
    → same v v ≡ true
    → seen? same v xs ≡ false
    → All (λ x. x ≢ v) xs
unfolding seen?
seen?-false same v [] h k = tt
seen?-false same v (x ∷ xs) h k = (
  λ (e : x ≡ v). (let same_here : same x v ≡ true = rw e h in ground arith),
  seen?-false same v xs h (ground arith),
)

str_eq_self : (name : String) → str_eq name name ≡ true
str_eq_self name = (str_eq_iff name name).1 refl

module _ {B : Type 0} where
  pub find-put : (name : String) (b : B) (m : List (String × B)) → find name (put name b m) ≡ some b
  unfolding find put
  find-put name b [] = rw (str_eq_self name) refl
  find-put name b ((n, c) ∷ m) = elim (Bool-cases (str_eq n name)) [
    | inl same ↦ rw (same, find) (rw same refl)
    | inr differs ↦ rw (differs, find) (rw differs (find-put name b m))
  ]

  find-put_ne :
      (name other : String) (b : B) (m : List (String × B))
      → str_eq name other ≡ false
      → find other (put name b m) ≡ find other m
  unfolding find put
  find-put_ne name other b [] h = rw h refl
  find-put_ne name other b ((n, c) ∷ m) h = elim (Bool-cases (str_eq n name)) [
    | inl same ↦
        let e : n ≡ name = (str_eq_iff n name).0 same in
        let no : str_eq n other ≡ false = rw e h in rw (same, find) (rw no refl)
    | inr differs ↦
        rw (differs, find)
          (ap (λ r. if str_eq n other then some c else r) (find-put_ne name other b m h))
  ]

module _ {E P A V W : Type 0} (g : Engine E P A V W) where
  pub take_new-panics :
      (seen : List A) (again : W → Result (UniqError E) A × List A × W) (v : A) (w : W)
      → g.hashable v ≡ false
      → take_new g seen again (ok v, w) ≡ (err unhashable, seen, w)
  unfolding take_new
  take_new-panics seen again v w h = rw (h, take_new) refl

  pub take_new-ok :
      (seen : List A) (again : W → Result (UniqError E) A × List A × W) (v : A) (w : W) (b : Bool)
      → g.hashable v ≡ true
      → seen? g.same v seen ≡ b
      → take_new g seen again (ok v, w) ≡ (if b then again w else (ok v, v ∷ seen, w))
  unfolding take_new
  take_new-ok seen again v w b key h = rw (key, take_new) (rw h refl)

module _ {E P A V W : Type 0} (g : Engine E P A V W) (reflexive : (x : A) → g.same x x ≡ true) where
  take_new-fresh :
      (Q : Type 0) (seen seen' : List A) (again : W → Result (UniqError E) A × List A × W)
      (r : Result E A × W) (v : A) (w' : W)
      → ((w : W) → again w ≡ (ok v, seen', w') → Q)
      → (All (λ x. x ≢ v) seen → seen' ≡ v ∷ seen → Q)
      → take_new g seen again r ≡ (ok v, seen', w')
      → Q
  unfolding take_new
  take_new-fresh Q seen seen' again (err x, w) v w' later now h =
      (let k = ap (λ (p : _ × _ × _). p.0) h in cc)
  take_new-fresh Q seen seen' again (ok u, w) v w' later now h = elim (Bool-cases (g.hashable u)) [
    | inr panics ↦
        let k = ap (λ (p : _ × _ × _). p.0) (sym (take_new-panics g seen again u w panics) ∙ h) in
        cc
    | inl key ↦ elim (Bool-cases (seen? g.same u seen)) [
      | inl dup ↦ later w (sym (take_new-ok g seen again u w true key dup) ∙ h)
      | inr new ↦
          let kept : (◌≡◌ {A = Result (UniqError E) A × List A × W} (ok u, u ∷ seen, w)
              (ok v, seen', w')) =
            sym (take_new-ok g seen again u w false key new) ∙ h in
          let value : u ≡ v = (let k = ap (λ (p : _ × _ × _). p.0) kept in cc) in
          now
            (subst (λ z. All (λ x. x ≢ z) seen) value (seen?-false g.same u seen (reflexive u) new))
            (sym (ap (λ (p : _ × _ × _). p.1) kept) ∙ ap (λ z. z ∷ seen) value)
    ]
  ]

  -- A value that is returned was not seen, and it is the only one that is added.
  retry-fresh :
      (n : ℕ) (p : P) (seen : List A) (w : W) (v : A) (seen' : List A) (w' : W)
      → retry g n p seen w ≡ (ok v, seen', w')
      → All (λ x. x ≢ v) seen × (seen' ≡ v ∷ seen)
  unfolding retry
  retry-fresh zero p seen w v seen' w' h = (let k = ap (λ (r : _ × _ × _). r.0) h in cc)
  retry-fresh (suc n) p seen w v seen' w' h =
      take_new-fresh _ seen seen' (retry g n p seen) (g.run p w) v w'
        (λ w1 k. retry-fresh n p seen w1 v seen' w' k) (λ a e. (a, e)) h

  seen_by-put :
      (name : String) (xs : List A) (m : List (String × List A)) → seen_by name (put name xs m) ≡ xs
  unfolding seen_by
  seen_by-put name xs m = rw (find-put name xs m, seen_by) refl

  seen_by-put_ne :
      (name other : String) (xs : List A) (m : List (String × List A))
      → str_eq name other ≡ false
      → seen_by other (put name xs m) ≡ seen_by other m
  unfolding seen_by
  seen_by-put_ne name other xs m h = rw (find-put_ne name other xs m h, seen_by) refl

  finish-ok :
      (x : String) (s s' : Uniq P A W) (p : P) (t : Result (UniqError E) A × List A × W) (v : A)
      → finish g x s p t ≡ (ok v, s')
      → (t ≡ (ok v, t.1, t.2)) × (s'.uniq_seen ≡ put x t.1 s.uniq_seen)
  unfolding finish
  finish-ok x s s' p (r, seen, w) v h =
      (ap (λ (k : _ × _). (k.0, seen, w)) h, sym (ap (λ (k : _ × Uniq P A W). k.1.uniq_seen) h))

  uniq_expr-program :
      (x : String) (args : List V) (s : Uniq P A W) (n : ℕ)
      → max_retries g args ≡ ok n
      → uniq_expr g x args s ≡ uniq_rounds g x n s
  unfolding uniq_expr
  uniq_expr-program x args s n k = rw (k, uniq_expr) refl

  pub uniq_rounds-unlocked :
      (x : String) (s : Uniq P A W) (n : ℕ)
      → s.is_locked ≡ false
      → uniq_rounds g x n s ≡ uniq_unlocked g x n s
  unfolding uniq_rounds
  uniq_rounds-unlocked x s n h = rw (h, uniq_rounds) refl

  uniq_rounds-blocked :
      (x : String) (s : Uniq P A W) (n : ℕ)
      → s.is_locked ≡ true
      → uniq_rounds g x n s ≡ (err blocked, s)
  unfolding uniq_rounds
  uniq_rounds-blocked x s n h = rw (h, uniq_rounds) refl

  uniq_unlocked-finish :
      (x : String) (s : Uniq P A W) (n : ℕ) (p : P)
      → program g x s ≡ ok p
      → uniq_unlocked g x n s ≡ finish g x s p (retry g n p (seen_by x s.uniq_seen) s.world)
  unfolding uniq_unlocked
  uniq_unlocked-finish x s n p l = rw (l, uniq_unlocked) refl

  uniq_expr-retries_err :
      (x : String) (args : List V) (s : Uniq P A W) (e : UniqError E)
      → max_retries g args ≡ err e
      → uniq_expr g x args s ≡ (err e, s)
  unfolding uniq_expr
  uniq_expr-retries_err x args s e k = rw (k, uniq_expr) refl

  uniq_unlocked-program_err :
      (x : String) (s : Uniq P A W) (n : ℕ) (e : UniqError E)
      → program g x s ≡ err e
      → uniq_unlocked g x n s ≡ (err e, s)
  unfolding uniq_unlocked
  uniq_unlocked-program_err x s n e l = rw (l, uniq_unlocked) refl

  not_err :
      {Q : Type 0} (t : Result (UniqError E) A × Uniq P A W) (e : UniqError E) (v : A)
      (s s' : Uniq P A W)
      → t ≡ (err e, s)
      → t ≡ (ok v, s')
      → Q
  not_err t e v s s' wrong h = (let z = ap (λ (r : _ × _). r.0) (sym wrong ∙ h) in cc)

  uniq_unlocked-fresh :
      (x : String) (s s' : Uniq P A W) (n : ℕ) (v : A)
      → uniq_unlocked g x n s ≡ (ok v, s')
      → All (λ y. y ≢ v) (seen_by x s.uniq_seen)
        × (s'.uniq_seen ≡ put x (v ∷ seen_by x s.uniq_seen) s.uniq_seen)
  uniq_unlocked-fresh x s s' n v h = elim (Result-cases (program g x s)) [
    | inr (e, l) ↦ not_err _ e v s s' (uniq_unlocked-program_err x s n e l) h
    | inl (p, l) ↦
        let t = retry g n p (seen_by x s.uniq_seen) s.world in
        let (returned, stored) =
          finish-ok x s s' p t v (sym (uniq_unlocked-finish x s n p l) ∙ h) in
        let (fresh, added) = retry-fresh n p (seen_by x s.uniq_seen) s.world v t.1 t.2 returned in
        (fresh, stored ∙ ap (λ z. put x z s.uniq_seen) added)
  ]

  -- What a call that succeeds does to the values seen.
  uniq_expr-fresh :
      (x : String) (args : List V) (s s' : Uniq P A W) (v : A)
      → uniq_expr g x args s ≡ (ok v, s')
      → All (λ y. y ≢ v) (seen_by x s.uniq_seen)
        × (s'.uniq_seen ≡ put x (v ∷ seen_by x s.uniq_seen) s.uniq_seen)
  uniq_expr-fresh x args s s' v h = elim (Result-cases (max_retries g args)) [
    | inr (e, k) ↦ not_err _ e v s s' (uniq_expr-retries_err x args s e k) h
    | inl (n, k) ↦
        let rounds = sym (uniq_expr-program x args s n k) ∙ h in
        elim (Bool-cases s.is_locked) [
          | inl locked ↦ not_err _ blocked v s s' (uniq_rounds-blocked x s n locked) rounds
          | inr free ↦
              uniq_unlocked-fresh x s s' n v (sym (uniq_rounds-unlocked x s n free) ∙ rounds)
        ]
  ]

module _ {E A S : Type 0} where
  cons_result-ok :
      (v : A) (p : Result E (List A) × S) (vs : List A) (s' : S)
      → cons_result v p ≡ (ok vs, s')
      → (ws : List A) × (p ≡ (ok ws, s')) × (vs ≡ v ∷ ws)
  cons_result-ok v (ok ws, s) vs s' h = (
    ws,
    ap (λ (r : _ × S). (ok ws, r.1)) h,
    ok-carries (λ z. z ≡ v ∷ ws) (ap (λ (r : _ × S). r.0) h) refl,
  )
  cons_result-ok v (err e, s) vs s' h = (let z = ap (λ (r : _ × S). r.0) h in cc)

  next-ok :
      (f : S → Result E (List A) × S) (t : Result E A × S) (vs : List A) (s' : S)
      → next f t ≡ (ok vs, s')
      → (v : A) × (t ≡ (ok v, t.1)) × (ws : List A) × (f t.1 ≡ (ok ws, s')) × (vs ≡ v ∷ ws)
  next-ok f (ok v, s) vs s' h =
      let (ws, later, same) = cons_result-ok v (f s) vs s' h in (v, refl, ws, later, same)
  next-ok f (err e, s) vs s' h = (let z = ap (λ (r : _ × S). r.0) h in cc)

pub All-map :
    {A : Type 0} {P Q : A → Type 0} (xs : List A) → ((x : A) → P x → Q x) → All P xs → All Q xs
All-map [] f h = tt
All-map (x ∷ xs) f h = (f x h.0, All-map xs f h.1)

module _ {E P A V W : Type 0} (g : Engine E P A V W) (reflexive : (x : A) → g.same x x ≡ true) where
  -- For values that equal themselves as keys of a map (all but those with a NaN): if `n` calls of
  -- `uniq` with one expression succeed, with no reset between them, then they return `n` values that
  -- differ from each other and from all values that the expression had returned before; what other
  -- expressions have returned stays as it was.
  pub uniq_exprs-AllDistinct :
      (x : String) (args : List V) (n : ℕ) (s s' : Uniq P A W) (vs : List A)
      → uniq_exprs g x args n s ≡ (ok vs, s')
      → (length vs ≡ n)
        × AllDistinct vs
        × All (λ v. All (λ y. y ≢ v) (seen_by x s.uniq_seen)) vs
        × ((other : String)
            → str_eq x other ≡ false
            → seen_by other s'.uniq_seen ≡ seen_by other s.uniq_seen)
  unfolding uniq_exprs
  uniq_exprs-AllDistinct x args zero s s' vs h =
      let (size, apart, new) =
        ok-carries
          (λ z.
            (length z ≡ 0) × AllDistinct z × All (λ v. All (λ y. y ≢ v) (seen_by x s.uniq_seen)) z)
          (ap (λ (r : _ × Uniq P A W). r.0) h) (refl, tt, tt) in
      (
        size,
        apart,
        new,
        λ other d. sym (ap (λ (r : _ × Uniq P A W). seen_by other r.1.uniq_seen) h),
      )
  uniq_exprs-AllDistinct x args (suc n) s s' vs h =
      let t = uniq_expr g x args s in
      let (v, called, ws, later, same) = next-ok (uniq_exprs g x args n) t vs s' h in
      let (fresh, stored) = uniq_expr-fresh g reflexive x args s t.1 v called in
      let (size, apart, new, others) = uniq_exprs-AllDistinct x args n t.1 s' ws later in
      let added : seen_by x t.1.uniq_seen ≡ v ∷ seen_by x s.uniq_seen =
        ap (seen_by x) stored ∙ seen_by-put g reflexive x _ s.uniq_seen in
      let beyond = subst (λ l. All (λ w. All (λ y. y ≢ w) l) ws) added new in
      let apart' : AllDistinct (v ∷ ws) =
        (All-map ws (λ w b (e : w ≡ v). b.0 (sym e)) beyond, apart) in
      let new' : All (λ w. All (λ y. y ≢ w) (seen_by x s.uniq_seen)) (v ∷ ws) =
        (fresh, All-map ws (λ w b. b.1) beyond) in
      (
        ap length same ∙ ap suc size,
        subst AllDistinct (sym same) apart',
        subst (All (λ w. All (λ y. y ≢ w) (seen_by x s.uniq_seen))) (sym same) new',
        λ other d.
            others other d
            ∙ ap (seen_by other) stored
            ∙ seen_by-put_ne g reflexive x other _ s.uniq_seen d,
      )
