-- ===== src/Env/Transaction/Runs.antt =====
-- The proofs on `runTransaction` (pkg/env/env_worker.go): the journal of all attempts, and the report.
use mathlib.Core.Path.{subst}
use edg.Prelude.{
  ℕ, zero, suc, ◌+◌, ◌*◌, ◌^◌, ◌≤◌, ◌<◌, List, [], ◌∷◌, ◌++◌, append-nil, append_assoc, Option,
  none, some, Result, ok, err, ◌≡◌, refl, sym, ◌∙◌, ap, arith, inl, inr, length, Bool-cases,
  Result-cases,
}
use edg.Prelude.Int.{pos, ◌+ℤ◌, pos_part, wrap_64, wrap_64-add}
use edg.Env.Transaction.{
  Driver, Event, began, committed, rolled_back, Sent, commit, rollback, failure, TxError,
  unsupported, conditional_rollback, failed, State, Tx, try_transaction, send, back_off,
  pause_after, attempts_from, run_transaction,
}
use edg.Env.Transaction.Balance.{AttemptOf, Adds, try_transaction-Adds}

-- Every begin is followed at once by its commit or its rollback, and by nothing of another.
pub data Balanced : List Event → Type 0 where
  nil : Balanced []
  commits : {l : List Event} → Balanced l → Balanced (began ∷ committed ∷ l)
  rolls_back : {l : List Event} → Balanced l → Balanced (began ∷ rolled_back ∷ l)

-- What the report says of the journal's end.
abbrev pub Reports : {E : Type 0} → Sent E → List Event → Type 0
Reports commit new = (before : List Event) × (new ≡ before ++ began ∷ committed ∷ [])
Reports rollback new = (before : List Event) × (new ≡ before ++ began ∷ rolled_back ∷ [])
Reports (failure e) new = Unit

-- What stands before a balanced journal when an attempt ends with a result.
prepend :
    {E : Type 0} (new later : List Event) (r : Result (TxError E) (Unit {0}))
    → AttemptOf r new
    → Balanced later
    → Balanced (new ++ later) × (length (new ++ later) ≤ length later + 2)
prepend new later (ok _) h b = rw h (commits b, omega arith)
prepend new later (err conditional_rollback) h b = rw h (rolls_back b, omega arith)
prepend new later (err unsupported) (inl h) b = rw h (b, omega arith)
prepend new later (err unsupported) (inr (inl h)) b = rw h (rolls_back b, omega arith)
prepend new later (err unsupported) (inr (inr h)) b = rw h (commits b, omega arith)
prepend new later (err (failed e)) (inl h) b = rw h (b, omega arith)
prepend new later (err (failed e)) (inr (inl h)) b = rw h (rolls_back b, omega arith)
prepend new later (err (failed e)) (inr (inr h)) b = rw h (commits b, omega arith)

alone :
    {E : Type 0} (new : List Event) (r : Result (TxError E) (Unit {0}))
    → AttemptOf r new
    → Balanced new × (length new ≤ 2)
alone new r h = let (b, l) = prepend new [] r h nil in (rw append-nil at b, rw append-nil at l)

Reports-later :
    {E : Type 0} (sent : Sent E) (new later : List Event)
    → Reports sent later
    → Reports sent (new ++ later)
Reports-later commit new later (before, e) = (new ++ before, rw e (sym (append_assoc new before _)))
Reports-later rollback new later (before, e) =
    (new ++ before, rw e (sym (append_assoc new before _)))
Reports-later (failure e) new later h = tt

module _ {E V W : Type 0} where
  -- A run of at most `n` attempts that reports once.
  pub record Settles (n : ℕ) (s after : State E V W) : Type 0 where
    pub new : List Event
    pub sent : Sent E
    pub added : after.journal ≡ s.journal ++ new
    pub balanced : Balanced new
    pub bounded : length new ≤ 2 * n
    pub reported : after.results ≡ s.results ++ sent ∷ []
    pub agrees : Reports sent new

  module _ (d : Driver E V W) where
    back_off-frame :
        (attempt : ℕ) (s : State E V W)
        → ((back_off d attempt s).journal ≡ s.journal)
          × ((back_off d attempt s).results ≡ s.results)
    unfolding back_off
    back_off-frame zero s = (refl, refl)
    back_off-frame (suc n) s = (refl, refl)

    pause_after-frame :
        (tx : Tx) (s : State E V W)
        → ((pause_after d tx s).1.journal ≡ s.journal)
          × ((pause_after d tx s).1.results ≡ s.results)
    unfolding pause_after
    pause_after-frame tx s = ground arith

    -- One attempt of the loop: what it adds, from before the wait.
    attempt-Adds :
        (tx : Tx) (attempt : ℕ) (s : State E V W)
        → Adds d AttemptOf s (try_transaction d tx (back_off d attempt s))
    attempt-Adds tx attempt s =
        let h = try_transaction-Adds d tx (back_off d attempt s) in
        let (same, quiet) = back_off-frame attempt s in
        record {
          new = h.new;
          added = h.added ∙ ap (λ j. j ++ h.new) same;
          silent = h.silent ∙ quiet;
          fits = h.fits;
        }

    module _ (n : ℕ) (s : State E V W) (after : Result (TxError E) (Unit {0}) × State E V W)
        (h : Adds d AttemptOf s after) where
      stops : (r : Sent E) → Reports r h.new → Settles (suc n) s (send d r (after.1))
      unfolding send
      stops r agrees =
          let (b, l) = alone h.new after.0 h.fits in
          record {
            new = h.new;
            sent = r;
            added = h.added;
            balanced = b;
            bounded = omega arith;
            reported = ap (λ rs. rs ++ r ∷ []) h.silent;
            agrees = agrees;
          }

      goes_on : (last : State E V W) → Settles n (after.1) last → Settles (suc n) s last
      goes_on last g =
          let (b, l) = prepend h.new g.new after.0 h.fits g.balanced in
          let short = g.bounded in
          record {
            new = h.new ++ g.new;
            sent = g.sent;
            added = g.added ∙ ap (λ j. j ++ g.new) h.added ∙ append_assoc s.journal h.new g.new;
            balanced = b;
            bounded = omega arith;
            reported = g.reported ∙ ap (λ rs. rs ++ g.sent ∷ []) h.silent;
            agrees = Reports-later g.sent h.new g.new g.agrees;
          }

    pauses :
        (tx : Tx) (n : ℕ) (s s' : State E V W)
        → Settles n s s'
        → Settles n s (pause_after d tx s').1
    pauses tx n s s' g =
        let (same, quiet) = pause_after-frame tx s' in
        record {
          new = g.new;
          sent = g.sent;
          added = same ∙ g.added;
          balanced = g.balanced;
          bounded = g.bounded;
          reported = quiet ∙ g.reported;
          agrees = g.agrees;
        }

    attempts_from-Settles :
        (tx : Tx) (n attempt : ℕ) (last : Option (TxError E)) (s : State E V W)
        → Settles n s (attempts_from d tx n attempt last s).1
    unfolding attempts_from send
    attempts_from-Settles tx zero attempt last s = record {
      new = [];
      sent = failure last;
      added = sym (append-nil s.journal);
      balanced = nil;
      bounded = omega arith;
      reported = refl;
      agrees = tt;
    }
    attempts_from-Settles tx (suc n) attempt last s =
        let s₀ = back_off d attempt s in
        let s' = (try_transaction d tx s₀).1 in
        let after = try_transaction d tx s₀ in
        let h = attempt-Adds tx attempt s in
        elim (Result-cases (try_transaction d tx s₀).0) [
          | inl (a, e) ↦
              let f = subst (λ r. AttemptOf r h.new) e h.fits in
              rw (e, attempts_from)
                (pauses tx (suc n) s (send d commit s') (stops n s after h commit ([], f)))
          | inr (conditional_rollback, e) ↦
              let f = subst (λ r. AttemptOf r h.new) e h.fits in
              rw (e, attempts_from) (stops n s after h rollback ([], f))
          | inr (unsupported, e) ↦ elim (Bool-cases (d.cancelled s'.world)) [
            | inl c ↦
                rw (e, attempts_from) (rw c (stops n s after h (failure (some unsupported)) tt))
            | inr c ↦
                rw (e, attempts_from)
                  (rw c (
                    goes_on n s after h _
                      (attempts_from-Settles tx n (attempt + 1) (some unsupported) s')))
          ]
          | inr (failed x, e) ↦ elim (Bool-cases (d.cancelled s'.world)) [
            | inl c ↦
                rw (e, attempts_from) (rw c (stops n s after h (failure (some (failed x))) tt))
            | inr c ↦
                rw (e, attempts_from)
                  (rw c (
                    goes_on n s after h _
                      (attempts_from-Settles tx n (attempt + 1) (some (failed x)) s')))
          ]
        ]

  -- For a number of retries below 2^63 - 1, a driver and a transaction, the run ends with the journal
  -- extended by complete begin-commit and begin-rollback pairs, at most one for each of the attempts
  -- (one more than the retries), and with exactly one report: of a commit only if the last pair is a
  -- begin and its commit, and of a conditional rollback only if it is a begin and its rollback.
  pub run_transaction-Settles :
      (d : Driver E V W) (tx : Tx) (retries : ℕ) (s : State E V W)
      → retries + 1 < 2 ^ 63
      → Settles (retries + 1) s (run_transaction d tx (pos retries) s).1
  unfolding run_transaction
  run_transaction-Settles d tx retries s h =
      let count : pos_part (wrap_64 (pos 1 +ℤ pos retries)) ≡ retries + 1 =
        ap pos_part (wrap_64-add 1 retries (omega arith)) ∙ omega arith in
      rw count (attempts_from-Settles d tx (retries + 1) 0 none s)
