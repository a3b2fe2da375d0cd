-- ===== src/Seq.antt =====
-- Global sequences (pkg/seq/manager.go): `sequence`, its `Next` and its random reads, and `Manager`.
-- A value is an `int64`, with its overflow. The draws of a normal, exponential, log-normal or
-- Zipf distribution are the parameters of `distributed`. The atomic counter makes each `Next` one step.
pub mod Values
use edg.Prelude.{
  ℕ, zero, suc, ◌+◌, String, List, [], ◌∷◌, Option, none, some, Bool, true, false, str_eq,
  if◌then◌else◌, Result, ok, err,
}
use edg.Prelude.Int.{ℤ, pos, negsuc, ◌+ℤ◌, ◌-ℤ◌, ◌*ℤ◌, wrap_64}
use edg.Prelude.Random.{Rng}

pub record Config : Type 0 where
  pub name : String
  pub start : ℤ
  pub step : ℤ

pub record Sequence : Type 0 where
  pub start : ℤ
  pub step : ℤ
  pub counter : ℤ

pub data SeqError (E : Type 0) : Type 0 where
  unknown_sequence : String → SeqError E
  no_values : SeqError E
  bad_argument : SeqError E
  distribution : E → SeqError E

-- `value`
unfoldable pub value : Sequence → ℤ → ℤ
value s idx = wrap_64 (s.start +ℤ wrap_64 (idx *ℤ s.step))

-- `Next`: the counter after the addition, less one, is the index.
unfoldable pub next : Sequence → ℤ × Sequence
next s =
    let counter = wrap_64 (s.counter +ℤ pos 1) in
    let c = wrap_64 (counter -ℤ pos 1) in
    (wrap_64 (s.start +ℤ wrap_64 (c *ℤ s.step)), record s { counter = counter })

-- `Rand`; `IntN` panics for a counter that has wrapped to a negative number.
unfoldable pub rand : {E : Type 0} (g : Rng) → Sequence → g.State → Result (SeqError E) ℤ × g.State
unfolding value
rand g s r = elim s.counter [
  | pos zero ↦ (err no_values, r)
  | pos (suc n) ↦ let (k, r') = g.int_n (suc n) r in (ok (value s (pos k)), r')
  | negsuc n ↦ (err bad_argument, r)
]

-- `Zipf`, `Norm`, `Exp` and `Lognorm`: an index from a distribution, given the number of values.
unfoldable pub distributed :
    {E S : Type 0} → (ℤ → S → Result E ℤ × S) → Sequence → S → Result (SeqError E) ℤ × S
unfolding value
distributed d s r = elim s.counter [
  | pos zero ↦ (err no_values, r)
  | n ↦
      let (drawn, r') = d n r in
      elim drawn [ err e ↦ (err (distribution e), r') | ok k ↦ (ok (value s k), r') ]
]

-- `map[string]*sequence`, with one entry for each name.
abbrev pub Manager : Type 0
Manager = List (String × Sequence)

-- `m.seqs[d.Name] = …`: a later sequence of a name replaces an earlier one.
unfoldable pub put : String → Sequence → Manager → Manager
put name s [] = (name, s) ∷ []
put name s ((n, t) ∷ m) =
    let rest = put name s m in if str_eq name n then (n, s) ∷ m else (n, t) ∷ rest

unfoldable pub add_all : List Config → Manager → Manager
unfolding put
add_all [] m = m
add_all (d ∷ defs) m =
    add_all defs (put d.name (record { start = d.start; step = d.step; counter = pos 0 }) m)

-- `NewManager`
unfoldable pub new_manager : List Config → Manager
unfolding add_all
new_manager defs = add_all defs []

unfoldable pub get : String → Manager → Option Sequence
get name [] = none
get name ((n, s) ∷ m) = if str_eq name n then some s else get name m

-- `HasSequence`
unfoldable pub has_sequence : String → Manager → Bool
unfolding get
has_sequence name m = elim (get name m) [ none ↦ false | some _ ↦ true ]

-- `Manager.Next`, which changes the sequence in place.
unfoldable pub manager_next : {E : Type 0} → String → Manager → Result (SeqError E) ℤ × Manager
unfolding get next put
manager_next name m = elim (get name m) [
  | none ↦ (err (unknown_sequence name), m)
  | some s ↦ let (v, s') = next s in (ok v, put name s' m)
]

-- `Manager.Rand`, and in the same way `Zipf`, `Norm`, `Exp` and `Lognorm`.
unfoldable pub manager_read :
    {E S : Type 0}
    → (Sequence → S → Result (SeqError E) ℤ × S)
    → String
    → Manager
    → S
    → Result (SeqError E) ℤ × S
unfolding get
manager_read read name m r = elim (get name m) [
  | none ↦ (err (unknown_sequence name), r)
  | some s ↦ read s r
]
