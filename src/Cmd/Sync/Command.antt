-- ===== src/Cmd/Sync/Command.antt =====
-- The loop of `edg sync verify` over its tables (cmd/edg/sync.go). The check of one table, with the
-- connections, and `strings.TrimSpace` are parameters; a total stays below 2^63.
pub mod Passes
use edg.Prelude.{ℕ, ◌+◌, String, List, [], ◌∷◌, Result, ok, err, ◌>>=◌, refuse, ltb}

pub data VerifyError (E : Type 0) : Type 0 where
  table : String → E → VerifyError E
  mismatches : ℕ → VerifyError E

module _ {E : Type 0} (trim : String → String) (verify_table : String → Result E ℕ) where
  -- `verifyTable`, with its error under the table's name.
  pub table_count : String → Result (VerifyError E) ℕ
  table_count name = elim (verify_table name) [ err e ↦ err (table name e) | ok n ↦ ok n ]

  -- From a total.
  pub total_from : ℕ → List String → Result (VerifyError E) ℕ
  unfolding table_count
  total_from total [] = ok total
  total_from total (name ∷ names) = do n ← table_count (trim name); total_from (total + n) names

  pub verify_tables : List String → Result (VerifyError E) (Unit {0})
  unfolding total_from
  verify_tables names = do total ← total_from 0 names; refuse (ltb 0 total) (mismatches total)
