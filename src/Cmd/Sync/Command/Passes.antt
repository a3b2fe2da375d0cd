-- ===== src/Cmd/Sync/Command/Passes.antt =====
-- The proofs on the loop of `edg sync verify` (cmd/edg/sync.go).
use edg.Prelude.{
  ℕ, ◌+◌, String, List, [], ◌∷◌, Result, ok, err, ◌>>=◌, refuse, ltb, All, ◌≡◌, ◌↔◌, refl, ap, sym,
  ◌∙◌, arith, inl, inr, Result-cases,
}
use edg.Cmd.Sync.Command.{VerifyError, table, mismatches, table_count, total_from, verify_tables}

module _ {E : Type 0} (trim : String → String) (verify_table : String → Result E ℕ) where
  table_count-ok :
      (name : String) (n : ℕ) → verify_table name ≡ ok n → table_count trim verify_table name ≡ ok n
  unfolding table_count
  table_count-ok name n h = rw (h, table_count) refl

  table_count-err :
      (name : String) (e : E)
      → verify_table name ≡ err e
      → table_count trim verify_table name ≡ err (table name e)
  unfolding table_count
  table_count-err name e h = rw (h, table_count) refl

  verdict : ℕ → List String → Result (VerifyError E) (Unit {0})
  verdict total names =
      total_from trim verify_table total names >>= λ t. refuse (ltb 0 t) (mismatches t)

  verdict-ok :
      (total : ℕ) (names : List String)
      → (verdict total names ≡ ok tt)
        ↔ ((total ≡ 0) × All (λ name. verify_table (trim name) ≡ ok 0) names)
  unfolding verdict total_from
  verdict-ok total [] = (λ h. (ground arith, tt), λ h. (let e = h.0 in ground arith))
  verdict-ok total (name ∷ names) = elim (Result-cases (verify_table (trim name))) [
    | inr (e, h) ↦
        rw (table_count-err (trim name) e h) (λ k. cc, λ k. (let wrong = sym h ∙ k.1.0 in cc))
    | inl (n, h) ↦
        let rest = verdict-ok (total + n) names in
        rw (table_count-ok (trim name) n h) (
          λ k.
              let (e, all) = rest.0 k in
              let none_here : n ≡ 0 = omega arith in (omega arith, (h ∙ ap ok none_here, all)),
          λ k.
              let same = sym h ∙ k.1.0 in
              let none_here : n ≡ 0 = cc in let start = k.0 in rest.1 (omega arith, k.1.1),
        )
  ]

  -- The command succeeds exactly if every table that it is given is checked without an error and
  -- without a mismatch.
  pub verify_tables-ok :
      (names : List String)
      → (verify_tables trim verify_table names ≡ ok tt)
        ↔ All (λ name. verify_table (trim name) ≡ ok 0) names
  unfolding verify_tables verdict
  verify_tables-ok names =
      let rule = verdict-ok 0 names in (λ h. (rule.0 h).1, λ h. rule.1 (refl, h))
