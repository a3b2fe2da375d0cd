-- ===== src/Env/Query/Section/Reports.antt =====
-- What `runSection` sends to the results channel.
use mathlib.Core.Path.{subst}
use edg.Prelude.{
  ℕ, ◌+◌, List, [], ◌∷◌, ◌++◌, append-nil, append_assoc, Option, none, some, Bool, true, ◌&&◌, not,
  ◌||◌, if◌then◌else◌, Result, ok, err, length, ◌≡◌, refl, sym, ap, ◌∙◌, if_rule, Result-cases, inl,
  inr, ◌⊎◌,
}
use edg.Prelude.Int.{pos, ltb_ℤ}
use edg.Prelude.Text.{codes, contains}
use edg.Config.{Section, seed, up, deseed, down, init, run, worker}
use edg.Convert.{Value}
use edg.Env.Query.Section.{
  Stmt, QueryResult, Backend, State, is_batch, call, send_result, run_args, get_or_prepare,
}
use edg.Env.Query.Section.Run.{
  failure, success, fail_with, run_sets, after_seed, wait_after, run_with_stmt, with_stmt,
  run_with_args, run_stmt, run_section, paused,
}
use edg.Env.Query.Section.Quiet.{
  Quiet, Quiet-call, Quiet-run_args, Quiet-get_or_prepare, Quiet-with_stmt,
}

-- A run of some queries sends the success of each, up to the query at which it ends: one that
-- failed, of which the error is sent, or one after which the wait of the section `run` was cut off.
module _ {E : Type 0} (section : Section) where
  pub data Reported : List Stmt → List (QueryResult E) → Result E (Unit {0}) → Type 0 where
    done : Reported [] [] (ok tt)
    next :
        (q : Stmt) (n : ℕ) {qs : List Stmt} {new : List (QueryResult E)} {r : Result E (Unit {0})}
        → Reported qs new r
        → Reported (q ∷ qs) (success q section n ∷ new) r
    fails :
        (q : Stmt) (e : E) (n : ℕ) {qs : List Stmt}
        → Reported (q ∷ qs) (failure q section e n ∷ []) (err e)
    cut_off :
        (q : Stmt) (e : E) (n : ℕ) {qs : List Stmt}
        → section ≡ run
        → Reported (q ∷ qs) (success q section n ∷ []) (err e)

module _ {E P F I O W : Type 0} (b : Backend E P F I O W) where
  -- What the run of one query adds to the results.
  abbrev One : Section → Stmt → State E P W → Result E (Unit {0}) × State E P W → Type 0
  One section q s p =
      (new : List (QueryResult E)) × (p.1.results ≡ s.results ++ new)
      × Reported section (q ∷ []) new p.0

  sent :
      (r : QueryResult E) (s : State E P W)
      → b.has_results ≡ true
      → (send_result b r s).results ≡ s.results ++ r ∷ []
  unfolding send_result
  sent r s h = rw h refl

  One-fail_with :
      (section : Section) (q : Stmt) (e : E) (n : ℕ) (s s' : State E P W)
      → b.has_results ≡ true
      → s'.results ≡ s.results
      → One section q s (fail_with b q section e n s')
  unfolding fail_with
  One-fail_with section q e n s s' h same =
      let r = failure q section e n in
      (r ∷ [], sent r s' h ∙ ap (λ rs. rs ++ r ∷ []) same, fails q e n)

  failed_with :
      (section : Section) (q : Stmt) (e : E) (n : ℕ) (s : State E P W)
      → (fail_with b q section e n s).0 ≡ err e
  unfolding fail_with
  failed_with section q e n s = refl

  run_sets-One :
      (section : Section) (q : Stmt) (stmt : Option P) (inline : Bool) (i : ℕ)
      (sets : List (List (Value F I O))) (s s' : State E P W)
      → b.has_results ≡ true
      → s'.results ≡ s.results
      → let p = run_sets b q section stmt inline i sets s' in
        ((p.0 ≡ ok tt) × (p.1.results ≡ s.results)) ⊎ ((e : E) × (p.0 ≡ err e) × One section q s p)
  unfolding run_sets
  run_sets-One section q stmt inline i [] s s' h same = inl (refl, same)
  run_sets-One section q stmt inline i (args ∷ sets) s s' h same =
      let after = run_args b q stmt inline args s' in
      let kept = Quiet-run_args b q stmt inline args s' ∙ same in
      elim (Result-cases after.0) [
        | inl (u, e) ↦
            rw (e, run_sets) (run_sets-One section q stmt inline (i + 1) sets s after.1 h kept)
        | inr (x, e) ↦
            rw (e, run_sets)
              (inr (
                x,
                failed_with section q x i after.1,
                One-fail_with section q x i s after.1 h kept,
              ))
      ]

  after_seed-results :
      (section : Section) (q : Stmt) (sets : List (List (Value F I O))) (s : State E P W)
      → (after_seed b section q sets s).results ≡ s.results
  unfolding after_seed
  after_seed-results up q sets s = refl
  after_seed-results seed q sets s = refl
  after_seed-results deseed q sets s = refl
  after_seed-results down q sets s = refl
  after_seed-results init q sets s = refl
  after_seed-results run q sets s = refl
  after_seed-results worker q sets s = refl

  -- The wait sends nothing, and is cut off only in the section `run`.
  Waited : Section → State E P W → Result E (Unit {0}) × State E P W → Type 0
  Waited section s p = Quiet b s p × ((p.0 ≡ ok tt) ⊎ ((e : E) × (p.0 ≡ err e) × (section ≡ run)))

  Waited-paused : (p : Option E × W) (s : State E P W) → Waited run s (paused b p s)
  unfolding paused Waited
  Waited-paused (none, w) s = (refl, inl refl)
  Waited-paused (some e, w) s = (refl, inr (e, refl, refl))

  Waited-wait_after :
      (section : Section) (q : Stmt) (s : State E P W) → Waited section s (wait_after b section q s)
  unfolding wait_after Waited
  Waited-wait_after up q s = (refl, inl refl)
  Waited-wait_after seed q s = (refl, inl refl)
  Waited-wait_after deseed q s = (refl, inl refl)
  Waited-wait_after down q s = (refl, inl refl)
  Waited-wait_after init q s = (refl, inl refl)
  Waited-wait_after run q s =
      if_rule (Waited run s) (ltb_ℤ (pos 0) q.wait && not b.no_wait)
        {x = paused b (b.pause q.wait s.world) s} {y = (ok tt, s)}
        (Waited-paused (b.pause q.wait s.world) s) (refl, inl refl)
  Waited-wait_after worker q s = (refl, inl refl)

  One-Waited :
      (section : Section) (q : Stmt) (n : ℕ) (s s' : State E P W)
      (p : Result E (Unit {0}) × State E P W)
      → s'.results ≡ s.results ++ success q section n ∷ []
      → Waited section s' p
      → One section q s p
  unfolding Waited
  One-Waited section q n s s' (r, s'') added (quiet, inl e) =
      (success q section n ∷ [], quiet ∙ added, rw e (next q n done))
  One-Waited section q n s s' (r, s'') added (quiet, inr (x, e, is_run)) =
      (success q section n ∷ [], quiet ∙ added, rw e (cut_off q x n is_run))

  run_with_stmt-One :
      (section : Section) (q : Stmt) (sets : List (List (Value F I O))) (inline : Bool)
      (s : State E P W) (p : Result E (Option P) × State E P W)
      → b.has_results ≡ true
      → Quiet b s p
      → One section q s (run_with_stmt b q section sets inline p)
  unfolding run_with_stmt
  run_with_stmt-One section q sets inline s (err e, s') h same =
      One-fail_with section q e 0 s s' h same
  run_with_stmt-One section q sets inline s (ok stmt, s') h same =
      elim (run_sets-One section q stmt inline 0 sets s s' h same) [
        | inl (e, kept) ↦
            let after =
              after_seed b section q sets (run_sets b q section stmt inline 0 sets s').1 in
            let reported = send_result b (success q section (length sets)) after in
            rw (e, run_with_stmt)
              (One-Waited section q (length sets) s reported (wait_after b section q reported)
                (sent (success q section (length sets)) after h
                  ∙ ap (λ rs. rs ++ success q section (length sets) ∷ [])
                      (after_seed-results section q sets
                          (run_sets b q section stmt inline 0 sets s').1
                        ∙ kept))
                (Waited-wait_after section q reported))
        | inr (x, e, (new, added, reported)) ↦
            rw (e, run_with_stmt)
              (new, added, subst (λ r. Reported section (q ∷ []) new r) e reported)
      ]

  run_with_args-One :
      (section : Section) (q : Stmt) (s : State E P W)
      (p : Result E (List (List (Value F I O)) × Bool) × State E P W)
      → b.has_results ≡ true
      → Quiet b s p
      → One section q s (run_with_args b q section p)
  unfolding run_with_args
  run_with_args-One section q s (err e, s') h same = One-fail_with section q e 0 s s' h same
  run_with_args-One section q s (ok (sets, expanded), s') h same =
      let use_prepared = q.prepared && not (is_batch q) && not expanded in
      let prepared = with_stmt b (get_or_prepare b q s') in
      run_with_stmt-One section q sets
        (not use_prepared && (expanded || contains q.sql (codes "$1"))) s
        (if use_prepared then prepared else (ok none, s')) h
        (if_rule (λ (p : Result E (Option P) × State E P W). Quiet b s p) use_prepared
          {x = prepared} {y = (ok none, s')}
          (Quiet-with_stmt b s (get_or_prepare b q s') (Quiet-get_or_prepare b q s' ∙ same)) same)

  -- A query that succeeds is followed by the run of the others.
  Reported-join :
      {section : Section} {q : Stmt} {qs : List Stmt} {new later : List (QueryResult E)}
      {first r : Result E (Unit {0})}
      → first ≡ ok tt
      → Reported section (q ∷ []) new first
      → Reported section qs later r
      → Reported section (q ∷ qs) (new ++ later) r
  Reported-join h (next q n done) rest = next q n rest
  Reported-join h (fails q e n) rest = cc
  Reported-join h (cut_off q e n is_run) rest = cc

  Reported-stop :
      {section : Section} {q : Stmt} {qs : List Stmt} {new : List (QueryResult E)} {e : E}
      {r : Result E (Unit {0})}
      → r ≡ err e
      → Reported section (q ∷ []) new r
      → Reported section (q ∷ qs) new r
  Reported-stop h (next q n done) = cc
  Reported-stop h (fails q e n) = fails q e n
  Reported-stop h (cut_off q e n is_run) = cut_off q e n is_run

  run_stmt-One :
      (section : Section) (q : Stmt) (s : State E P W)
      → b.capture_output ≡ none
      → b.has_results ≡ true
      → One section q s (run_stmt b b.capture_output section q s)
  unfolding run_stmt
  run_stmt-One section q s c h =
      subst (λ o. One section q s (run_stmt b o section q s)) (sym c)
        (run_with_args-One section q s (call b (b.generate_args q) s) h
          (Quiet-call b (b.generate_args q) s))

  -- Where no output is captured and there is a results channel, `runSection` sends one result for
  -- each query that it has run, in order: the success of each query, up to one that fails, whose
  -- error is sent and returned, or one after which the wait of the section `run` is cut off, whose
  -- error is returned; it returns no error if it has run all queries.
  pub run_section-Reported :
      (section : Section) (qs : List Stmt) (s : State E P W)
      → b.capture_output ≡ none
      → b.has_results ≡ true
      → (new : List (QueryResult E)) × ((run_section b qs section s).1.results ≡ s.results ++ new)
        × Reported section qs new (run_section b qs section s).0
  unfolding run_section
  run_section-Reported section [] s c h = ([], sym (append-nil s.results), done)
  run_section-Reported section (q ∷ qs) s c h =
      let p = run_stmt b b.capture_output section q s in
      let (new, added, reported) = run_stmt-One section q s c h in
      elim (Result-cases p.0) [
        | inl (u, e) ↦
            let (later, more, rest) = run_section-Reported section qs p.1 c h in
            rw (e, run_section)
              (
                new ++ later,
                more ∙ ap (λ rs. rs ++ later) added ∙ append_assoc s.results new later,
                Reported-join e reported rest,
              )
        | inr (x, e) ↦
            rw (e, run_section)
              (
                new,
                added,
                subst (λ r. Reported section (q ∷ qs) new r) e (Reported-stop e reported),
              )
      ]
