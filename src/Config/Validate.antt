-- ===== src/Config/Validate.antt =====
-- `Request.Validate` and its checks (pkg/config/config.go). A check returns the first violation
-- that it meets. A set that the source keeps in a map is the list of its members, latest first.
pub mod Names
pub mod Rules
pub mod Expressions
use edg.Prelude.{
  ℕ, zero, suc, ◌+◌, String, List, [], ◌∷◌, map, Option, none, some, Bool, true, false, str_eq,
  ◌||◌, ◌&&◌, not, if◌then◌else◌, length, ltb, Result, ok, err, ◌>>=◌, ◌>>◌, refuse, each,
}
use edg.Prelude.Int.{ℤ, pos, leb_ℤ}
use edg.Config.{
  Query, Transaction, RunItem, Worker, Request, item_name, is_rollback_if, is_batch, QueryGroup,
}

-- One constructor for each message; its arguments are indices and names that the message shows.
pub data Violation : Type 0 where
  unnamed_run_item : ℕ → Violation
  unknown_weight : String → Violation
  unnamed_seq : ℕ → Violation
  duplicate_seq : String → Violation
  row_and_args unknown_row : String → ℕ → String → Violation
  duplicate_query : String → String → ℕ → Violation
  duplicate_run : String → ℕ → Violation
  empty_transaction : ℕ → String → Violation
  rollback_if_fields batch_in_transaction prepared_in_transaction : ℕ → String → ℕ → Violation
  shadowing_local : ℕ → String → String → Violation
  unnamed_worker : ℕ → Violation
  bad_rate : ℕ → String → Violation
  shadowed_metric : String → Violation
  unknown_function missing_environment : String → Violation
  unknown_sequence : String → String → Violation

abbrev pub Check : Type 0
Check = Result Violation (Unit {0})

unfoldable pub contains : String → List String → Bool
contains s [] = false
contains s (t ∷ ts) = str_eq s t || contains s ts

unfoldable pub has_key {ℓ} : {V : Type ℓ} → String → List (String × V) → Bool
has_key k [] = false
has_key k ((j, v) ∷ m) = str_eq k j || has_key k m

pub validate_weights : List (String × ℤ) → List RunItem → Check
unfolding contains item_name
validate_weights weights run = do
  each 0 (λ i item. refuse (str_eq (item_name item) "") (unnamed_run_item i)) run
  let run_names = map item_name run
  each 0 (λ i weight. refuse (not (contains (weight.0) run_names)) (unknown_weight (weight.0)))
      weights

-- `validateRunWeights`
pub validate_run_weights : Request → Check
unfolding validate_weights
validate_run_weights r = elim r.run_weights [
  | [] ↦ ok tt
  | w ∷ ws ↦ validate_weights (w ∷ ws) r.run
]

-- The loop of `validateSeq`; `seen` holds the names met so far.
pub seq_names : ℕ → List String → List String → Check
unfolding contains
seq_names i seen [] = ok tt
seq_names i seen (s ∷ ss) = do
  refuse (str_eq s "") (unnamed_seq i)
  refuse (contains s seen) (duplicate_seq s)
  seq_names (i + 1) (s ∷ seen) ss

pub validate_seq : Request → Check
unfolding seq_names
validate_seq r = seq_names 0 [] r.seq

pub query_row : List (String × List String) → String → ℕ → Query → Check
unfolding has_key
query_row rows group i q = if str_eq q.row "" then ok tt else do
  refuse (ltb 0 (length q.args)) (row_and_args group i q.name)
  refuse (not (has_key q.row rows)) (unknown_row group i q.row)

-- `validateRowRefs`
pub validate_row_refs : Request → List QueryGroup → Check
unfolding query_row
validate_row_refs r groups = each 0 (λ _ g. each 0 (query_row r.rows g.name) g.queries) groups

-- The loops of `validateDuplicateNames`, which pass over empty names.
pub unique_names : (ℕ → String → Violation) → ℕ → List String → List String → Check
unfolding contains
unique_names violation i seen [] = ok tt
unique_names violation i seen (s ∷ ss) = do
  refuse (not (str_eq s "") && contains s seen) (violation i s)
  unique_names violation (i + 1) (if str_eq s "" then seen else s ∷ seen) ss

-- `validateDuplicateNames`
pub validate_duplicate_names : Request → List QueryGroup → Check
unfolding unique_names item_name
validate_duplicate_names r groups = do
  each 0
      (λ _ g. unique_names (λ i s. duplicate_query s g.name i) 0 [] (map (λ q. q.name) g.queries))
      groups
  unique_names (λ i s. duplicate_run s i) 0 [] (map item_name r.run)

-- One element of a transaction's queries.
pub transaction_query : ℕ → String → ℕ → Query → Check
unfolding is_rollback_if is_batch
transaction_query i tx j q =
    if is_rollback_if q
    then refuse
        (not (str_eq q.query "")
          || not (str_eq q.name "")
          || not (str_eq q.type "")
          || ltb 0 (length q.args))
        (rollback_if_fields i tx j)
    else do
      refuse (is_batch q) (batch_in_transaction i tx j)
      refuse q.prepared (prepared_in_transaction i tx j)

pub transaction_rules : ℕ → String → Transaction → Check
unfolding transaction_query
transaction_rules i name tx = do
  refuse (ltb (length tx.queries) 1) (empty_transaction i name)
  each 0 (transaction_query i name) tx.queries
  each 0
      (λ _ entry.
        each 0 (λ _ q. refuse (str_eq q.name (entry.0)) (shadowing_local i name (entry.0)))
          tx.queries)
      tx.locals

-- `validateTransactions`
pub validate_transactions : Request → Check
unfolding transaction_rules item_name
validate_transactions r =
    each 0
      (λ i item. elim item.transaction [
        | none ↦ ok tt
        | some tx ↦ transaction_rules i (item_name item) tx
      ])
      r.run

-- `validateWorkers`
pub validate_worker : ℕ → Worker → Check
validate_worker i w = do
  refuse (str_eq w.query.name "") (unnamed_worker i)
  refuse (leb_ℤ w.times (pos 0) || leb_ℤ w.interval (pos 0)) (bad_rate i w.query.name)

pub validate_workers : Request → Check
unfolding validate_worker
validate_workers r = each 0 validate_worker r.workers

-- `ReservedExpectationMetrics`
abbrev pub reserved_metrics : List String
reserved_metrics = "success_count" ∷ "total_errors" ∷ "error_rate" ∷ "tpm" ∷ []

-- `validateExpectationGlobals`
pub validate_expectation_globals : Request → Check
unfolding contains
validate_expectation_globals r = elim r.expectations [
  | zero ↦ ok tt
  | suc _ ↦ each 0 (λ _ g. refuse (contains g reserved_metrics) (shadowed_metric g)) r.globals
]
