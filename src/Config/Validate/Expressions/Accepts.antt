-- ===== src/Config/Validate/Expressions/Accepts.antt =====
-- The proofs on `Validate` as a whole (pkg/config/config.go).
use edg.Prelude.{
  String, List, map, Option, none, some, Bool, true, false, not, ok, refuse, each, each-ok, both-ok,
  guarded-ok, All, ◌≡◌, ◌≢◌, ◌↔◌, refl,
}
use edg.Config.{Section, Query, Transaction, RunItem, Request, item_name, has, query_groups_for}
use edg.Config.Validate.{
  Violation, unknown_function, missing_environment, unknown_sequence, contains,
}
use edg.Config.Validate.Names.{Distinct, named, validate_seq-ok, validate_duplicate_names-ok}
use edg.Config.Validate.Rules.{
  WeightRule, RowRule, ItemRule, WorkerRule, GlobalRule, validate_run_weights-ok,
  validate_row_refs-ok, validate_transactions-ok, validate_workers-ok,
  validate_expectation_globals-ok,
}
use edg.Config.Validate.Expressions.{
  Scanner, check, query_expressions, item_locals, validate_expressions, validate,
}

known-ok : (b : Bool) (e : Violation) → (refuse (not b) e ≡ ok tt) ↔ (b ≡ true)
known-ok true e = (λ h. refl, λ h. refl)
known-ok false e = (λ h. cc, λ h. cc)

module _ (scan : Scanner) where
  open scan use {gen_calls, env_calls, seq_calls, is_function, is_set}

  -- Every name that an expression calls for is known.
  abbrev pub ExpressionRule : List String → String → Type 0
  ExpressionRule seq_names e =
      All (λ name. is_function name ≡ true) (gen_calls e)
      × (All (λ name. is_set name ≡ true) (env_calls e)
          × All (λ name. contains name seq_names ≡ true) (seq_calls e))

  check-ok :
      (seq_names : List String) (e : String)
      → (check scan seq_names e ≡ ok tt) ↔ ExpressionRule seq_names e
  unfolding check
  check-ok seq_names e =
      both-ok _ _ _ _
        (each-ok _ (λ name. is_function name ≡ true)
          (λ _ name. known-ok (is_function name) (unknown_function name)) 0 (gen_calls e))
        (both-ok _ _ _ _
          (each-ok _ (λ name. is_set name ≡ true)
            (λ _ name. known-ok (is_set name) (missing_environment name)) 0 (env_calls e))
          (each-ok _ (λ name. contains name seq_names ≡ true)
            (λ _ name. known-ok (contains name seq_names) (unknown_sequence e name)) 0
            (seq_calls e)))

  checks-ok :
      (seq_names es : List String)
      → (each 0 (λ _ e. check scan seq_names e) es ≡ ok tt) ↔ All (ExpressionRule seq_names) es
  checks-ok seq_names es = each-ok _ (ExpressionRule seq_names) (λ _ e. check-ok seq_names e) 0 es

  abbrev pub QueryRule : List String → Query → Type 0
  QueryRule seq_names q =
      All (ExpressionRule seq_names) q.args × All (ExpressionRule seq_names) q.print

  query_expressions-ok :
      (seq_names : List String) (q : Query)
      → (query_expressions scan seq_names q ≡ ok tt) ↔ QueryRule seq_names q
  unfolding query_expressions
  query_expressions-ok seq_names q =
      both-ok _ _ _ _ (checks-ok seq_names q.args) (checks-ok seq_names q.print)

  abbrev pub LocalsRule : List String → Option Transaction → Type 0
  LocalsRule seq_names none = Unit
  LocalsRule seq_names (some tx) = All (λ entry. ExpressionRule seq_names (entry.1)) tx.locals

  locals-ok :
      (seq_names : List String) (item : RunItem) (found : Option Transaction)
      → item.transaction ≡ found
      → (item_locals scan seq_names item ≡ ok tt) ↔ LocalsRule seq_names found
  unfolding item_locals
  locals-ok seq_names item none e = rw (e, item_locals) (λ h. tt, λ h. refl)
  locals-ok seq_names item (some tx) e =
      let rule =
        each-ok (λ _ (entry : String × String). check scan seq_names (entry.1))
          (λ entry. ExpressionRule seq_names (entry.1)) (λ _ entry. check-ok seq_names (entry.1)) 0
          tx.locals in
      rw (e, item_locals) rule

  -- Every expression of the request that the active sections reach.
  pub record Expressions (r : Request) (active : List Section) : Type 0 where
    pub expressions : All (λ entry. ExpressionRule r.seq (entry.1)) r.expressions
    pub rows : All (λ entry. All (ExpressionRule r.seq) (entry.1)) r.rows
    pub queries : All (λ g. All (QueryRule r.seq) g.queries) (query_groups_for r active)
    pub locals :
        has active Section.run ≡ true → All (λ item. LocalsRule r.seq item.transaction) r.run

  validate_expressions-ok :
      (r : Request) (active : List Section)
      → (validate_expressions scan r (query_groups_for r active) active ≡ ok tt)
        ↔ Expressions r active
  unfolding validate_expressions
  validate_expressions-ok r active =
      let rule =
        both-ok _ _ _ _
          (each-ok _ (λ entry. ExpressionRule r.seq (entry.1)) (λ _ entry. check-ok r.seq (entry.1))
            0 r.expressions)
          (both-ok _ _ _ _
            (each-ok _ (λ entry. All (ExpressionRule r.seq) (entry.1))
              (λ _ entry. checks-ok r.seq (entry.1)) 0 r.rows)
            (both-ok _ _ _ _
              (each-ok _ (λ g. All (QueryRule r.seq) g.queries)
                (λ _ g.
                  each-ok _ (QueryRule r.seq) (λ _ q. query_expressions-ok r.seq q) 0 g.queries)
                0 (query_groups_for r active))
              (guarded-ok (has active Section.run) _ _ (
                each-ok _ (λ item. LocalsRule r.seq item.transaction)
                  (λ _ item. locals-ok r.seq item item.transaction refl) 0 r.run)))) in
      (
        λ h.
            let (a, (b, (c, d))) = rule.0 h in
            record { expressions = a; rows = b; queries = c; locals = d },
        λ h. rule.1 (h.expressions, (h.rows, (h.queries, h.locals))),
      )

  -- The rules of a workload file, for the active sections (none given stands for all).
  pub record IsValid (r : Request) (active : List Section) : Type 0 where
    pub weights : has active Section.run ≡ true → WeightRule r.run_weights r.run
    pub sequences : All (λ s. s ≢ "") r.seq × Distinct r.seq
    pub rows : All (λ g. All (RowRule r.rows) g.queries) (query_groups_for r active)
    pub names :
        All (λ g. Distinct (named (map (λ q. q.name) g.queries))) (query_groups_for r active)
        × Distinct (named (map item_name r.run))
    pub transactions : has active Section.run ≡ true → All ItemRule r.run
    pub workers : has active Section.worker ≡ true → All WorkerRule r.workers
    pub globals : GlobalRule r.expectations r.globals
    pub expressions : Expressions r active

  -- `Validate` accepts a request for the given sections exactly if it keeps every rule: weights of
  -- named run items, sequence names and query names without duplicates, known rows with no arguments
  -- beside them, well-formed transactions, positive worker rates, globals that shadow no metric, and
  -- expressions that call only for known generator functions, environment variables and sequences.
  pub validate-IsValid :
      (r : Request) (active : List Section) → (validate scan r active ≡ ok tt) ↔ IsValid r active
  unfolding validate
  validate-IsValid r active =
      let groups = query_groups_for r active in
      let rule =
        both-ok _ _ _ _ (guarded-ok (has active Section.run) _ _ (validate_run_weights-ok r)) (
          both-ok _ _ _ _ (validate_seq-ok r) (
            both-ok _ _ _ _ (validate_row_refs-ok r groups) (
              both-ok _ _ _ _ (validate_duplicate_names-ok r groups) (
                both-ok _ _ _ _
                  (guarded-ok (has active Section.run) _ _ (validate_transactions-ok r))
                  (both-ok _ _ _ _
                    (guarded-ok (has active Section.worker) _ _ (validate_workers-ok r))
                    (both-ok _ _ _ _ (validate_expectation_globals-ok r)
                      (validate_expressions-ok r active))))))) in
      (
        λ h.
            let (a, (b, (c, (d, (e, (f, (g, i))))))) = rule.0 h in
            record {
              weights = a;
              sequences = b;
              rows = c;
              names = d;
              transactions = e;
              workers = f;
              globals = g;
              expressions = i;
            },
        λ h. rule.1 (
          h.weights,
          (
            h.sequences,
            (h.rows, (h.names, (h.transactions, (h.workers, (h.globals, h.expressions))))),
          ),
        ),
      )
