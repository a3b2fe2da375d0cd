-- ===== src/Config/Validate/Expressions.antt =====
-- `validateExpressions` and `Validate` itself (pkg/config/config.go).
pub mod Accepts
use edg.Prelude.{
  ℕ, zero, suc, String, List, [], ◌∷◌, map, Option, none, some, Bool, true, false, not,
  if◌then◌else◌, Result, ok, err, ◌>>=◌, ◌>>◌, refuse, each,
}
use edg.Config.{Section, Query, RunItem, Request, QueryGroup, has, query_groups_for}
use edg.Config.Validate.{
  Violation, unknown_function, missing_environment, unknown_sequence, Check, contains,
  validate_run_weights, validate_seq, validate_row_refs, validate_duplicate_names,
  validate_transactions, validate_workers, validate_expectation_globals,
}

-- What the check of an expression takes from outside: the names that the regular expressions for
-- calls of `gen`, `env` and `seq_*` find in a text (for `gen`, up to the first colon), the lookup of
-- a generator function, and the process's environment.
pub record Scanner : Type 0 where
  pub gen_calls : String → List String
  pub env_calls : String → List String
  pub seq_calls : String → List String
  pub is_function : String → Bool
  pub is_set : String → Bool

module _ (scan : Scanner) where
  open scan use {gen_calls, env_calls, seq_calls, is_function, is_set}

  -- The closure `check`.
  pub check : List String → String → Check
  unfolding contains
  check seq_names e = do
    each 0 (λ _ name. refuse (not (is_function name)) (unknown_function name)) (gen_calls e)
    each 0 (λ _ name. refuse (not (is_set name)) (missing_environment name)) (env_calls e)
    each 0 (λ _ name. refuse (not (contains name seq_names)) (unknown_sequence e name))
        (seq_calls e)

  pub query_expressions : List String → Query → Check
  unfolding check
  query_expressions seq_names q = do
    each 0 (λ _ e. check seq_names e) q.args
    each 0 (λ _ e. check seq_names e) q.print

  pub item_locals : List String → RunItem → Check
  unfolding check
  item_locals seq_names item = elim item.transaction [
    | none ↦ ok tt
    | some tx ↦ each 0 (λ _ entry. check seq_names (entry.1)) tx.locals
  ]

  pub validate_expressions : Request → List QueryGroup → List Section → Check
  unfolding query_expressions item_locals has
  validate_expressions r groups active = do
    each 0 (λ _ entry. check r.seq (entry.1)) r.expressions
    each 0 (λ _ entry. each 0 (λ _ e. check r.seq e) (entry.1)) r.rows
    each 0 (λ _ g. each 0 (λ _ q. query_expressions r.seq q) g.queries) groups
    if has active Section.run then each 0 (λ _ item. item_locals r.seq item) r.run else ok tt

  unfoldable pub validate : Request → List Section → Check
  unfolding has query_groups_for validate_run_weights validate_seq validate_row_refs
      validate_duplicate_names validate_transactions validate_workers validate_expectation_globals
      validate_expressions
  validate r active = do
    (if has active Section.run then validate_run_weights r else ok tt)
    validate_seq r
    let groups = query_groups_for r active
    validate_row_refs r groups
    validate_duplicate_names r groups
    (if has active Section.run then validate_transactions r else ok tt)
    (if has active Section.worker then validate_workers r else ok tt)
    validate_expectation_globals r
    validate_expressions r groups active
