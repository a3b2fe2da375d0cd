-- ===== src/Cmd/Stats/Totals.antt =====
-- The proofs on the totals that `printResults` gathers (cmd/edg/stats.go).
use mathlib.Core.Path.{subst}
use edg.Prelude.{
  String, List, [], ◌∷◌, ◌++◌, append-nil, append_assoc, Option, none, some, Bool, true, false,
  if◌then◌else◌, ◌||◌, not, ◌≡◌, refl, sym, ◌∙◌, ap, arith, str_eq, str_eq_iff, Bool-cases,
  Option-cases, inl, inr,
}
use edg.Prelude.Int.{
  ℤ, pos, ◌+ℤ◌, wrap_64, InRange64, wrap_64_id, wrap_64-InRange64, wrap_64-wrap_64, int_laws,
}
use edg.Cmd.Stats.{
  Floats, QueryResult, QueryStats, Stats, Event, warmup_over, received, tick, new_stats,
  print_stats, end_transaction, observe, find_stats, record_result, handle, collect,
}

-- What each result adds to the totals of its name.
abbrev pub is_failed : QueryResult → Bool
is_failed r = elim r.error [ none ↦ false | some _ ↦ true ]

abbrev pub one_if : Bool → ℤ
one_if true = pos 1
one_if false = pos 0

abbrev pub error_of : QueryResult → ℤ
error_of r = one_if (is_failed r)

abbrev pub commit_of : QueryResult → ℤ
commit_of r = elim r.error [
  | some _ ↦ pos 0
  | none ↦ if r.is_transaction then one_if (not r.rollback) else pos 0
]

abbrev pub rollback_of : QueryResult → ℤ
rollback_of r = elim r.error [
  | some _ ↦ pos 0
  | none ↦ if r.is_transaction then one_if r.rollback else pos 0
]

abbrev pub count_of : QueryResult → ℤ
count_of r = elim r.error [ some _ ↦ pos 0 | none ↦ r.count ]

abbrev pub latency_of : QueryResult → ℤ
latency_of r = elim r.error [ some _ ↦ pos 0 | none ↦ r.latency ]

abbrev pub sum_of : (QueryResult → ℤ) → List QueryResult → ℤ
sum_of amount [] = pos 0
sum_of amount (r ∷ rs) = amount r +ℤ sum_of amount rs

abbrev pub latencies_of : List QueryResult → List ℤ
latencies_of [] = []
latencies_of (r ∷ rs) = elim r.error [
  | some _ ↦ latencies_of rs
  | none ↦ r.latency ∷ latencies_of rs
]

abbrev pub any_transaction : List QueryResult → Bool
any_transaction [] = false
any_transaction (r ∷ rs) = r.is_transaction || any_transaction rs

-- The results that are counted: those after the warm-up.
abbrev pub measured : Bool → List Event → List QueryResult
measured warming [] = []
measured warming (warmup_over ∷ events) = measured false events
measured warming (tick ∷ events) = measured warming events
measured true (received r ∷ events) = measured true events
measured false (received r ∷ events) = r ∷ measured false events

abbrev pub named : String → List QueryResult → List QueryResult
named name [] = []
named name (r ∷ rs) = if str_eq name r.name then r ∷ named name rs else named name rs

+ℤ_assoc : (a b c : ℤ) → (a +ℤ b) +ℤ c ≡ a +ℤ (b +ℤ c)
+ℤ_assoc a b c = grind int_laws

+ℤ_zero : (a : ℤ) → a +ℤ pos 0 ≡ a
+ℤ_zero a = grind int_laws

zero_+ℤ : (a : ℤ) → pos 0 +ℤ a ≡ a
zero_+ℤ a = grind int_laws

module _ (f : Floats) where
  abbrev observe_all : List QueryResult → QueryStats f → QueryStats f
  observe_all [] s = s
  observe_all (r ∷ rs) s = observe_all rs (observe f r s)

  abbrev observe_found : List QueryResult → Option (QueryStats f) → Option (QueryStats f)
  observe_found [] o = o
  observe_found (r ∷ rs) none = some (observe_all rs (observe f r (new_stats f)))
  observe_found (r ∷ rs) (some s) = some (observe_all rs (observe f r s))

  observe_found-some :
      (rs : List QueryResult) (s : QueryStats f)
      → observe_found rs (some s) ≡ some (observe_all rs s)
  observe_found-some [] s = refl
  observe_found-some (r ∷ rs) s = refl

  -- A field that each result adds an amount to holds their sum, modulo 2^64.
  observe_all-sum :
      (field : QueryStats f → ℤ) (amount : QueryResult → ℤ)
      → ((r : QueryResult) (s : QueryStats f)
          → InRange64 (field s)
          → field (observe f r s) ≡ wrap_64 (field s +ℤ amount r))
      → (rs : List QueryResult) (s : QueryStats f) → InRange64 (field s)
      → field (observe_all rs s) ≡ wrap_64 (field s +ℤ sum_of amount rs)
  observe_all-sum field amount step [] s h = rw (+ℤ_zero (field s)) (sym (wrap_64_id _ h))
  observe_all-sum field amount step (r ∷ rs) s h =
      let here = step r s h in
      let later =
        observe_all-sum field amount step rs (observe f r s)
          (subst InRange64 (sym here) (wrap_64-InRange64 _)) in
      later ∙ rw here (wrap_64-wrap_64 (field s +ℤ amount r) _ ∙ ap wrap_64 (+ℤ_assoc _ _ _))

  observe-errors :
      (r : QueryResult) (s : QueryStats f)
      → InRange64 s.errors
      → (observe f r s).errors ≡ wrap_64 (s.errors +ℤ error_of r)
  unfolding observe print_stats end_transaction
  observe-errors r s h = ground (arith, wrap_64_id (s.errors) h, +ℤ_zero (s.errors))

  observe-commits :
      (r : QueryResult) (s : QueryStats f)
      → InRange64 s.commits
      → (observe f r s).commits ≡ wrap_64 (s.commits +ℤ commit_of r)
  unfolding observe print_stats end_transaction
  observe-commits r s h = ground (arith, wrap_64_id (s.commits) h, +ℤ_zero (s.commits))

  observe-rollbacks :
      (r : QueryResult) (s : QueryStats f)
      → InRange64 s.rollbacks
      → (observe f r s).rollbacks ≡ wrap_64 (s.rollbacks +ℤ rollback_of r)
  unfolding observe print_stats end_transaction
  observe-rollbacks r s h = ground (arith, wrap_64_id (s.rollbacks) h, +ℤ_zero (s.rollbacks))

  observe-count :
      (r : QueryResult) (s : QueryStats f)
      → InRange64 s.count
      → (observe f r s).count ≡ wrap_64 (s.count +ℤ count_of r)
  unfolding observe print_stats end_transaction
  observe-count r s h = ground (arith, wrap_64_id (s.count) h, +ℤ_zero (s.count))

  observe-total_latency :
      (r : QueryResult) (s : QueryStats f)
      → InRange64 s.total_latency
      → (observe f r s).total_latency ≡ wrap_64 (s.total_latency +ℤ latency_of r)
  unfolding observe print_stats end_transaction
  observe-total_latency r s h =
      ground (arith, wrap_64_id (s.total_latency) h, +ℤ_zero (s.total_latency))

  observe-latencies :
      (r : QueryResult) (s : QueryStats f)
      → (observe f r s).latencies ≡ s.latencies ++ latencies_of (r ∷ [])
  unfolding observe print_stats end_transaction
  observe-latencies r s = ground (arith, append-nil (s.latencies))

  observe-is_transaction :
      (r : QueryResult) (s : QueryStats f)
      → (observe f r s).is_transaction ≡ s.is_transaction || r.is_transaction
  unfolding observe print_stats end_transaction
  observe-is_transaction r s = ground arith

  latencies_of-cons :
      (r : QueryResult) (rs : List QueryResult)
      → latencies_of (r ∷ []) ++ latencies_of rs ≡ latencies_of (r ∷ rs)
  latencies_of-cons r rs = ground arith

  observe_all-latencies :
      (rs : List QueryResult) (s : QueryStats f)
      → (observe_all rs s).latencies ≡ s.latencies ++ latencies_of rs
  observe_all-latencies [] s = sym (append-nil (s.latencies))
  observe_all-latencies (r ∷ rs) s =
      observe_all-latencies rs (observe f r s)
      ∙ rw (observe-latencies r s) (
          append_assoc (s.latencies) (latencies_of (r ∷ [])) (latencies_of rs)
          ∙ ap (λ ls. s.latencies ++ ls) (latencies_of-cons r rs))

  observe_all-is_transaction :
      (rs : List QueryResult) (s : QueryStats f)
      → (observe_all rs s).is_transaction ≡ s.is_transaction || any_transaction rs
  observe_all-is_transaction [] s = ground arith
  observe_all-is_transaction (r ∷ rs) s =
      ground (arith, observe_all-is_transaction rs (observe f r s), observe-is_transaction r s)

  find-record_result :
      (name : String) (r : QueryResult) (stats : Stats f)
      → find_stats f name (record_result f r stats) ≡ (
          if str_eq name r.name
          then observe_found (r ∷ []) (find_stats f name stats)
          else find_stats f name stats)
  unfolding find_stats record_result
  find-record_result name r [] = refl
  find-record_result name r ((n, s) ∷ stats) = elim (Bool-cases (str_eq r.name n)) [
    | inl e ↦
        let p = (str_eq_iff r.name n).0 e in
        elim (Bool-cases (str_eq name n)) [ inl k ↦ rw (e, p, k) refl | inr k ↦ rw (e, p, k) refl ]
    | inr e ↦
        let later = find-record_result name r stats in
        elim (Bool-cases (str_eq name n)) [
          | inl k ↦
              let ne : str_eq name r.name ≡ false =
                grind (arith, str_eq_iff name n, str_eq_iff r.name n, str_eq_iff name r.name) in
              rw (e, k, ne) refl
          | inr k ↦ rw (e, k) later
        ]
  ]

  find-collect :
      (name : String) (events : List Event) (warming : Bool) (stats : Stats f)
      → find_stats f name (collect f events (record { warming_up = warming; stats = stats })).stats
        ≡ observe_found (named name (measured warming events)) (find_stats f name stats)
  unfolding collect handle
  find-collect name [] warming stats = refl
  find-collect name (warmup_over ∷ events) warming stats = find-collect name events false stats
  find-collect name (tick ∷ events) warming stats = find-collect name events warming stats
  find-collect name (received r ∷ events) true stats = find-collect name events true stats
  find-collect name (received r ∷ events) false stats =
      let later = find-collect name events false (record_result f r stats) in
      elim (Bool-cases (str_eq name r.name)) [
        | inl e ↦
            later
            ∙ rw (find-record_result name r stats, e)
                (elim (Option-cases (find_stats f name stats)) [
                  | inl k ↦ rw k (observe_found-some _ _)
                  | inr (s, k) ↦ rw k (observe_found-some _ _)
                ])
        | inr e ↦ later ∙ rw (find-record_result name r stats, e) refl
      ]

  -- The statistics of a name whose measured results are `rs`, in the order they came in: the numbers
  -- are sums modulo 2^64.
  abbrev pub Totals : List QueryResult → Option (QueryStats f) → Type 0
  Totals [] o = o ≡ none
  Totals (r ∷ rs) o =
      (s : QueryStats f) × (o ≡ some s)
      × (s.errors ≡ wrap_64 (sum_of error_of (r ∷ rs)))
      × (s.count ≡ wrap_64 (sum_of count_of (r ∷ rs)))
      × (s.commits ≡ wrap_64 (sum_of commit_of (r ∷ rs)))
      × (s.rollbacks ≡ wrap_64 (sum_of rollback_of (r ∷ rs)))
      × (s.total_latency ≡ wrap_64 (sum_of latency_of (r ∷ rs)))
      × (s.latencies ≡ latencies_of (r ∷ rs))
      × (s.is_transaction ≡ any_transaction (r ∷ rs))

  sum-new :
      (field : QueryStats f → ℤ) (amount : QueryResult → ℤ)
      → ((r : QueryResult) (s : QueryStats f)
          → InRange64 (field s)
          → field (observe f r s) ≡ wrap_64 (field s +ℤ amount r))
      → (rs : List QueryResult) → field (new_stats f) ≡ pos 0
      → field (observe_all rs (new_stats f)) ≡ wrap_64 (sum_of amount rs)
  sum-new field amount step rs h =
      observe_all-sum field amount step rs (new_stats f) (rw h (omega arith))
      ∙ rw h (ap wrap_64 (zero_+ℤ _))

  -- Whatever the order of results, ticks and the end of the warm-up, the collector keeps for each
  -- name the totals of exactly the results of that name that came in after the warm-up: an error adds
  -- to the errors alone, a result to the count and the latencies, and a transaction's result also to
  -- the commits or to the rollbacks. Without such a result there are no statistics of the name.
  pub collect-Totals :
      (name : String) (events : List Event) (warming : Bool)
      → Totals
          (named name (measured warming events))
          (find_stats f name (collect f events (record { warming_up = warming; stats = [] })).stats)
  unfolding find_stats
  collect-Totals name events warming =
      rw (find-collect name events warming []) (totals (named name (measured warming events)))
    where
      totals : (rs : List QueryResult) → Totals rs (observe_found rs none)
      totals [] = refl
      totals (r ∷ rs) = (
        observe_all (r ∷ rs) (new_stats f),
        refl,
        sum-new (λ s. s.errors) error_of observe-errors (r ∷ rs) refl,
        sum-new (λ s. s.count) count_of observe-count (r ∷ rs) refl,
        sum-new (λ s. s.commits) commit_of observe-commits (r ∷ rs) refl,
        sum-new (λ s. s.rollbacks) rollback_of observe-rollbacks (r ∷ rs) refl,
        sum-new (λ s. s.total_latency) latency_of observe-total_latency (r ∷ rs) refl,
        observe_all-latencies (r ∷ rs) (new_stats f),
        observe_all-is_transaction (r ∷ rs) (new_stats f),
      )
