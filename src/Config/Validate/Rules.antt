-- ===== src/Config/Validate/Rules.antt =====
-- The proofs on the other checks of pkg/config/config.go.
use mathlib.Core.Path.{subst}
use mathlib.Core.Option.{some-injective}
use edg.Prelude.{
  ℕ, zero, suc, ◌≤◌, String, List, [], ◌∷◌, map, Option, none, some, both-ok, true, false, str_eq,
  str_eq_iff, ◌||◌, not, ok, refuse, refuse->>, refuse-ok, each, each-ok, All, ◌≡◌, ◌≢◌, ◌↔◌, ◌⊎◌,
  refl, arith, length, ltb,
}
use edg.Prelude.Int.{ℤ, pos, ◌≤ℤ◌, leb_ℤ}
use edg.Config.{Query, Transaction, RunItem, Worker, Request, QueryGroup, item_name}
use edg.Config.Validate.{
  Check, Violation, contains, has_key, validate_weights, validate_run_weights, query_row,
  validate_row_refs, transaction_query, transaction_rules, validate_transactions, validate_worker,
  validate_workers, reserved_metrics, validate_expectation_globals, empty_transaction,
  shadowing_local, unnamed_worker, bad_rate, shadowed_metric, unknown_weight, unnamed_run_item,
}
use edg.Config.Validate.Names.{str_eq-false}

-- A rate of a positive number of times in a positive interval, for a worker with a name.
abbrev pub WorkerRule : Worker → Type 0
WorkerRule w = (w.query.name ≢ "") × (pos 1 ≤ℤ w.times) × (pos 1 ≤ℤ w.interval)

validate_worker-ok : (i : ℕ) (w : Worker) → (validate_worker i w ≡ ok tt) ↔ WorkerRule w
unfolding validate_worker
validate_worker-ok i w =
    let chain =
      refuse->> (str_eq w.query.name "") (unnamed_worker i)
        (refuse (leb_ℤ w.times (pos 0) || leb_ℤ w.interval (pos 0)) (bad_rate i w.query.name)) in
    let rate =
      refuse-ok (leb_ℤ w.times (pos 0) || leb_ℤ w.interval (pos 0)) (bad_rate i w.query.name) in
    (
      λ h.
          let (named, h') = chain.0 h in
          let e = rate.0 h' in ((str_eq-false w.query.name "").0 named, ground arith, ground arith),
      λ h. chain.1 ((str_eq-false w.query.name "").1 h.0, rate.1 (ground arith)),
    )

-- Workers pass exactly if each has a name and a positive rate.
pub validate_workers-ok : (r : Request) → (validate_workers r ≡ ok tt) ↔ All WorkerRule r.workers
unfolding validate_workers
validate_workers-ok r = each-ok validate_worker WorkerRule validate_worker-ok 0 r.workers

-- An element of a transaction: a rollback condition with nothing else, or a query that is neither a
-- batch nor prepared.
abbrev pub ElementRule : Query → Type 0
ElementRule q =
    ((q.rollback_if ≢ "") × (q.query ≡ "") × (q.name ≡ "") × (q.type ≡ "") × (length q.args ≡ 0))
    ⊎ ((q.rollback_if ≡ "")
        × (q.type ≢ "query_batch")
        × (q.type ≢ "exec_batch")
        × (q.prepared ≡ false))

transaction_query-ok :
    (i : ℕ) (tx : String) (j : ℕ) (q : Query) → (transaction_query i tx j q ≡ ok tt) ↔ ElementRule q
unfolding transaction_query
transaction_query-ok i tx j q = (
  λ h. ground (
    arith,
    str_eq_iff q.rollback_if "",
    str_eq_iff q.query "",
    str_eq_iff q.name "",
    str_eq_iff q.type "",
    str_eq_iff q.type "query_batch",
    str_eq_iff q.type "exec_batch",
  ),
  λ h. ground (
    arith,
    str_eq_iff q.rollback_if "",
    str_eq_iff q.query "",
    str_eq_iff q.name "",
    str_eq_iff q.type "",
    str_eq_iff q.type "query_batch",
    str_eq_iff q.type "exec_batch",
  ),
)

abbrev pub TransactionRule : Transaction → Type 0
TransactionRule tx =
    (1 ≤ length tx.queries)
    × (All ElementRule tx.queries × All (λ entry. All (λ q. q.name ≢ entry.0) tx.queries) tx.locals)

name_taken-ok :
    (e : Violation) (name : String) (q : Query)
    → (refuse (str_eq q.name name) e ≡ ok tt) ↔ (q.name ≢ name)
name_taken-ok e name q =
    let passed = refuse-ok (str_eq q.name name) e in
    let differ = str_eq-false q.name name in
    (λ h. differ.0 (passed.0 h), λ h. passed.1 (differ.1 h))

has_queries-ok :
    (e : Violation) (qs : List Query) → (refuse (ltb (length qs) 1) e ≡ ok tt) ↔ (1 ≤ length qs)
has_queries-ok e qs =
    let passed = refuse-ok (ltb (length qs) 1) e in
    (λ h. let e' = passed.0 h in ground arith, λ h. passed.1 (ground arith))

transaction_rules-ok :
    (i : ℕ) (name : String) (tx : Transaction)
    → (transaction_rules i name tx ≡ ok tt) ↔ TransactionRule tx
unfolding transaction_rules
transaction_rules-ok i name tx =
    both-ok _ _ (1 ≤ length tx.queries)
      (All ElementRule tx.queries × All (λ entry. All (λ q. q.name ≢ entry.0) tx.queries) tx.locals)
      (has_queries-ok (empty_transaction i name) tx.queries)
      (both-ok _ _ (All ElementRule tx.queries)
        (All (λ entry. All (λ q. q.name ≢ entry.0) tx.queries) tx.locals)
        (each-ok (transaction_query i name) ElementRule (transaction_query-ok i name) 0 tx.queries)
        (each-ok
          (λ _ entry.
            each 0 (λ _ q. refuse (str_eq q.name (entry.0)) (shadowing_local i name (entry.0)))
              tx.queries)
          (λ entry. All (λ q. q.name ≢ entry.0) tx.queries)
          (λ _ entry.
            each-ok (λ _ q. refuse (str_eq q.name (entry.0)) (shadowing_local i name (entry.0)))
              (λ q. q.name ≢ entry.0)
              (λ _ q. name_taken-ok (shadowing_local i name (entry.0)) (entry.0) q) 0 tx.queries)
          0 tx.locals))

-- The transactions among the run items.
abbrev pub ItemRule : RunItem → Type 0
ItemRule item = (tx : Transaction) → item.transaction ≡ some tx → TransactionRule tx

item_rules : ℕ → RunItem → Option Transaction → Check
item_rules i item none = ok tt
item_rules i item (some tx) = transaction_rules i (item_name item) tx

item_rules-ok :
    (i : ℕ) (item : RunItem) (found : Option Transaction)
    → (item_rules i item found ≡ ok tt)
      ↔ ((tx : Transaction) → found ≡ some tx → TransactionRule tx)
unfolding item_rules
item_rules-ok i item none = (λ h tx e. cc, λ h. refl)
item_rules-ok i item (some tx) =
    let rule = transaction_rules-ok i (item_name item) tx in
    (λ h tx' e. subst TransactionRule (some-injective _ _ e) (rule.0 h), λ h. rule.1 (h tx refl))

-- The run items pass exactly if each transaction among them has a query, holds only elements that
-- may stand in a transaction, and has no local with the name of one of its queries.
pub validate_transactions-ok :
    (r : Request) → (validate_transactions r ≡ ok tt) ↔ All ItemRule r.run
unfolding validate_transactions item_rules
validate_transactions-ok r =
    each-ok _ ItemRule (λ i item. item_rules-ok i item item.transaction) 0 r.run

-- A query's row: none, or a known one with no arguments beside it.
abbrev pub RowRule : List (String × List String) → Query → Type 0
RowRule rows q = (q.row ≡ "") ⊎ ((q.row ≢ "") × (length q.args ≡ 0) × (has_key q.row rows ≡ true))

query_row-ok :
    (rows : List (String × List String)) (group : String) (i : ℕ) (q : Query)
    → (query_row rows group i q ≡ ok tt) ↔ RowRule rows q
unfolding query_row has_key
query_row-ok rows group i q =
    (λ h. ground (arith, str_eq_iff q.row ""), λ h. ground (arith, str_eq_iff q.row ""))

-- The queries of the groups pass exactly if each names no row, or a known one and no arguments.
pub validate_row_refs-ok :
    (r : Request) (groups : List QueryGroup)
    → (validate_row_refs r groups ≡ ok tt) ↔ All (λ g. All (RowRule r.rows) g.queries) groups
unfolding validate_row_refs
validate_row_refs-ok r groups =
    each-ok (λ _ g. each 0 (query_row r.rows g.name) g.queries)
      (λ g. All (RowRule r.rows) g.queries)
      (λ _ g.
        each-ok (query_row r.rows g.name) (RowRule r.rows) (query_row-ok r.rows g.name) 0 g.queries)
      0 groups

in_names-ok :
    (e : Violation) (name : String) (names : List String)
    → (refuse (not (contains name names)) e ≡ ok tt) ↔ (contains name names ≡ true)
in_names-ok e name names =
    let passed = refuse-ok (not (contains name names)) e in
    (λ h. let e' = passed.0 h in ground arith, λ h. passed.1 (ground arith))

named_item-ok :
    (e : Violation) (item : RunItem)
    → (refuse (str_eq (item_name item) "") e ≡ ok tt) ↔ (item_name item ≢ "")
named_item-ok e item =
    let passed = refuse-ok (str_eq (item_name item) "") e in
    let differ = str_eq-false (item_name item) "" in
    (λ h. differ.0 (passed.0 h), λ h. passed.1 (differ.1 h))

-- With weights, every run item has a name and every weight is of the name of a run item.
abbrev pub WeightRule : List (String × ℤ) → List RunItem → Type 0
WeightRule [] run = Unit
WeightRule (w ∷ ws) run =
    All (λ item. item_name item ≢ "") run
    × All (λ weight. contains (weight.0) (map item_name run) ≡ true) (w ∷ ws)

validate_weights-ok :
    (weights : List (String × ℤ)) (run : List RunItem)
    → (validate_weights weights run ≡ ok tt) ↔ (
        All (λ item. item_name item ≢ "") run
        × All (λ weight. contains (weight.0) (map item_name run) ≡ true) weights)
unfolding validate_weights
validate_weights-ok weights run =
    both-ok _ _ (All (λ item. item_name item ≢ "") run)
      (All (λ weight. contains (weight.0) (map item_name run) ≡ true) weights)
      (each-ok _ (λ item. item_name item ≢ "") (λ i item. named_item-ok (unnamed_run_item i) item) 0
        run)
      (each-ok _ (λ weight. contains (weight.0) (map item_name run) ≡ true)
        (λ _ weight. in_names-ok (unknown_weight (weight.0)) (weight.0) (map item_name run)) 0
        weights)

run_weights-ok :
    (r : Request) (weights : List (String × ℤ))
    → r.run_weights ≡ weights
    → (validate_run_weights r ≡ ok tt) ↔ WeightRule weights r.run
unfolding validate_run_weights
run_weights-ok r [] e = (λ h. tt, λ h. rw (e, validate_run_weights))
run_weights-ok r (w ∷ ws) e =
    let rule = validate_weights-ok (w ∷ ws) r.run in rw (e, validate_run_weights) rule

-- The weights pass exactly if there are none, or every run item has a name and every weight is of
-- the name of a run item.
pub validate_run_weights-ok :
    (r : Request) → (validate_run_weights r ≡ ok tt) ↔ WeightRule r.run_weights r.run
validate_run_weights-ok r = run_weights-ok r r.run_weights refl

-- With expectations, no global has the name of a built-in metric.
abbrev pub GlobalRule : ℕ → List String → Type 0
GlobalRule zero globals = Unit
GlobalRule (suc n) globals = All (λ g. contains g reserved_metrics ≡ false) globals

globals-ok :
    (r : Request) (n : ℕ)
    → r.expectations ≡ n
    → (validate_expectation_globals r ≡ ok tt) ↔ GlobalRule n r.globals
unfolding validate_expectation_globals
globals-ok r zero e = (λ h. tt, λ h. rw (e, validate_expectation_globals))
globals-ok r (suc n) e =
    let rule =
      each-ok (λ _ g. refuse (contains g reserved_metrics) (shadowed_metric g))
        (λ g. contains g reserved_metrics ≡ false)
        (λ _ g. refuse-ok (contains g reserved_metrics) (shadowed_metric g)) 0 r.globals in
    rw (e, validate_expectation_globals) rule

-- The globals pass exactly if there are no expectations or no global has the name of a metric.
pub validate_expectation_globals-ok :
    (r : Request) → (validate_expectation_globals r ≡ ok tt) ↔ GlobalRule r.expectations r.globals
validate_expectation_globals-ok r = globals-ok r r.expectations refl
