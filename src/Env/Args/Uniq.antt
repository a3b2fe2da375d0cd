-- ===== src/Env/Args/Uniq.antt =====
-- `uniq` and `uniqExpr` (pkg/env/env_args.go), and what `resetUniqIndex` (pkg/env/env.go) clears. The
-- compiler and the evaluation of expressions are parameters, with the world `W` that an evaluation
-- may change. Values are compared by `same`, as Go compares keys of a map. An expression that calls
-- `uniq` itself is not modelled. A value that is no key of a map, such as a slice or a map, makes the
-- lookup panic: `unhashable` stands for that panic, which leaves `uniqSeenMutex` locked, and `blocked`
-- for a further call, which never gets the lock. The items of an array are values that can be keys.
pub mod Distinct
pub mod Firsts
use edg.Prelude.{
  ℕ, zero, suc, String, List, [], ◌∷◌, ◌++◌, Option, none, some, Bool, true, false, ◌||◌, not,
  if◌then◌else◌, str_eq, Result, ok, err, ◌⊎◌, inl, inr,
}
use edg.Prelude.Int.{ℤ, pos, negsuc}
use edg.Convert.{ConvertError}

pub data UniqError (E : Type 0) : Type 0 where
  retries_not_int : ConvertError → UniqError E
  not_compiled not_evaluated : E → UniqError E
  exhausted not_a_text_or_array unhashable blocked : UniqError E

-- The type switch on the first argument: an array, the source of an expression, or neither.
pub data First (A : Type 0) : Type 0 where
  array : List A → First A
  source : String → First A
  neither : First A

module _ {A : Type 0} (same : A → A → Bool) where
  unfoldable pub seen? : A → List A → Bool
  seen? v [] = false
  seen? v (x ∷ xs) = same x v || seen? v xs

  -- The loop over an array: `seen`, and `result`.
  pub uniq_from : List A → List A → List A → List A
  unfolding seen?
  uniq_from seen result [] = result
  uniq_from seen result (x ∷ xs) =
      if seen? x seen then uniq_from seen result xs else uniq_from (x ∷ seen) (result ++ x ∷ []) xs

  unfoldable pub uniq_array : List A → List A
  unfolding uniq_from
  uniq_array xs = uniq_from [] [] xs

abbrev pub cons_result : {E A S : Type 0} → A → Result E (List A) × S → Result E (List A) × S
cons_result v (ok vs, s) = (ok (v ∷ vs), s)
cons_result v (err e, s) = (err e, s)

abbrev pub next :
    {E A S : Type 0} → (S → Result E (List A) × S) → Result E A × S → Result E (List A) × S
next f (ok v, s) = cons_result v (f s)
next f (err e, s) = (err e, s)

-- `uniqSeen` and `uniqProg`, whether a panic has left `uniqSeenMutex` locked, and everything else.
pub record Uniq (P A W : Type 0) : Type 0 where
  pub uniq_seen : List (String × List A)
  pub uniq_prog : List (String × P)
  pub is_locked : Bool
  pub world : W

unfoldable pub find {ℓ} : {B : Type ℓ} → String → List (String × B) → Option B
find name [] = none
find name ((n, b) ∷ m) = if str_eq n name then some b else find name m

unfoldable pub put {ℓ} : {B : Type ℓ} → String → B → List (String × B) → List (String × B)
put name b [] = (name, b) ∷ []
put name b ((n, c) ∷ m) = if str_eq n name then (n, b) ∷ m else (n, c) ∷ put name b m

-- `seen := e.uniqSeen[expression]`, a new map if it is nil
unfoldable pub seen_by {ℓ} : {B : Type ℓ} → String → List (String × List B) → List B
unfolding find
seen_by name m = elim (find name m) [ none ↦ [] | some xs ↦ xs ]

pub record Engine (E P A V W : Type 0) : Type 0 where
  pub same : A → A → Bool
  -- whether a value can be a key of a map
  pub hashable : A → Bool
  -- `expr.Compile(expression, expr.Env(e.env))`, and `expr.Run`
  pub compile : String → Result E P
  pub run : P → W → Result E A × W
  -- `convert.ToInt`
  pub to_int : V → Result ConvertError ℤ

module _ {E P A V W : Type 0} (g : Engine E P A V W) where
  open g use {same, hashable, compile, run, to_int}

  pub take_new :
      List A
      → (W → Result (UniqError E) A × List A × W)
      → Result E A × W
      → Result (UniqError E) A × List A × W
  unfolding seen?
  take_new seen again (err x, w) = (err (not_evaluated x), seen, w)
  take_new seen again (ok v, w) =
      if not (hashable v)
      then (err unhashable, seen, w)
      else if seen? same v seen
      then again w
      else (ok v, v ∷ seen, w)

  -- `for range maxRetries`: the result, and the values seen after it.
  unfoldable pub retry : ℕ → P → List A → W → Result (UniqError E) A × List A × W
  unfolding take_new
  retry zero p seen w = (err exhausted, seen, w)
  retry (suc n) p seen w = take_new seen (retry n p seen) (run p w)

  rounds : ℤ → ℕ
  rounds (pos n) = n
  rounds (negsuc n) = 0

  -- The rounds of the loop, from `maxRetries`.
  unfoldable pub max_retries : List V → Result (UniqError E) ℕ
  unfolding rounds
  max_retries [] = ok 100
  max_retries (v ∷ vs) = elim (to_int v) [ ok i ↦ ok (rounds i) | err x ↦ err (retries_not_int x) ]

  -- `e.uniqProg[expression]`, compiled if it is missing
  unfoldable pub program : String → Uniq P A W → Result (UniqError E) P
  unfolding find
  program expression s = elim (find expression s.uniq_prog) [
    | some p ↦ ok p
    | none ↦ elim (compile expression) [ ok p ↦ ok p | err x ↦ err (not_compiled x) ]
  ]

  pub leaves_locked : Result (UniqError E) A → Bool
  leaves_locked (ok v) = false
  leaves_locked (err unhashable) = true
  leaves_locked (err x) = false

  pub finish :
      String
      → Uniq P A W
      → P
      → Result (UniqError E) A × List A × W
      → Result (UniqError E) A × Uniq P A W
  unfolding put leaves_locked
  finish expression s p (r, seen, w) = (
    r,
    record {
      uniq_seen = put expression seen s.uniq_seen;
      uniq_prog = put expression p s.uniq_prog;
      is_locked = leaves_locked r;
      world = w;
    },
  )

  pub uniq_unlocked : String → ℕ → Uniq P A W → Result (UniqError E) A × Uniq P A W
  unfolding program finish retry seen_by
  uniq_unlocked expression n s = elim (program expression s) [
    | err x ↦ (err x, s)
    | ok p ↦ finish expression s p (retry n p (seen_by expression s.uniq_seen) s.world)
  ]

  -- `uniqExpr`, once `maxRetries` is known
  pub uniq_rounds : String → ℕ → Uniq P A W → Result (UniqError E) A × Uniq P A W
  unfolding uniq_unlocked
  uniq_rounds expression n s =
      if s.is_locked then (err blocked, s) else uniq_unlocked expression n s

  unfoldable pub uniq_expr : String → List V → Uniq P A W → Result (UniqError E) A × Uniq P A W
  unfolding max_retries uniq_rounds
  uniq_expr expression args s = elim (max_retries args) [
    | err x ↦ (err x, s)
    | ok n ↦ uniq_rounds expression n s
  ]

  -- `uniq`; its result is an array or one value.
  unfoldable pub uniq :
      First A → List V → Uniq P A W → Result (UniqError E) (List A ⊎ A) × Uniq P A W
  unfolding uniq_array uniq_expr
  uniq (array xs) args s = (ok (inl (uniq_array same xs)), s)
  uniq (source x) args s =
      let (r, s') = uniq_expr x args s in (elim r [ ok v ↦ ok (inr v) | err e ↦ err e ], s')
  uniq neither args s = (err not_a_text_or_array, s)

  -- The values of `n` calls in turn, up to the first that fails.
  unfoldable pub uniq_exprs :
      String → List V → ℕ → Uniq P A W → Result (UniqError E) (List A) × Uniq P A W
  unfolding uniq_expr
  uniq_exprs expression args zero s = (ok [], s)
  uniq_exprs expression args (suc n) s =
      next (λ s'. uniq_exprs expression args n s') (uniq_expr expression args s)

-- `resetUniqIndex` on the values and programs; it too waits for a lock that a panic has left behind.
pub reset_uniq : {P A W : Type 0} → Uniq P A W → Uniq P A W
reset_uniq s = record s { uniq_seen = []; uniq_prog = [] }
