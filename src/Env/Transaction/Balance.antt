-- ===== src/Env/Transaction/Balance.antt =====
-- The journal of one attempt of a transaction, `tryTransaction` (pkg/env/env_worker.go).
use edg.Prelude.{
  String, List, [], ◌∷◌, ◌++◌, append-nil, append_assoc, some, true, false, Result, ok, err,
  Result-cases, ◌≡◌, refl, sym, ◌∙◌, ap, ◌⊎◌, inl, inr, Bool-cases,
}
use edg.Env.Transaction.{
  Driver, Event, began, committed, rolled_back, TxError, unsupported, conditional_rollback, failed,
  State, Element, rollback_if, query, Tx, add_local, eval_locals, run_elements, roll_back, finish,
  with_locals, try_transaction,
}

-- What one attempt adds to the journal, by its result.
abbrev pub AttemptOf : {E : Type 0} → Result (TxError E) (Unit {0}) → List Event → Type 0
AttemptOf (ok _) new = new ≡ began ∷ committed ∷ []
AttemptOf (err conditional_rollback) new = new ≡ began ∷ rolled_back ∷ []
AttemptOf (err _) new =
    (new ≡ []) ⊎ ((new ≡ began ∷ rolled_back ∷ []) ⊎ (new ≡ began ∷ committed ∷ []))

-- What a begun transaction's end adds, by its result.
abbrev EndOf : {E : Type 0} → Result (TxError E) (Unit {0}) → List Event → Type 0
EndOf (ok _) new = new ≡ committed ∷ []
EndOf (err conditional_rollback) new = new ≡ rolled_back ∷ []
EndOf (err _) new = (new ≡ rolled_back ∷ []) ⊎ (new ≡ committed ∷ [])

EndOf-err : {E : Type 0} (e : TxError E) → EndOf (err e) (rolled_back ∷ [])
EndOf-err conditional_rollback = refl
EndOf-err unsupported = inl refl
EndOf-err (failed e) = inl refl

AttemptOf-end :
    {E : Type 0} (r : Result (TxError E) (Unit {0})) (new : List Event)
    → EndOf r new
    → AttemptOf r (began ∷ new)
AttemptOf-end (ok _) new h = ap (λ l. began ∷ l) h
AttemptOf-end (err conditional_rollback) new h = ap (λ l. began ∷ l) h
AttemptOf-end (err unsupported) new (inl h) = inr (inl (ap (λ l. began ∷ l) h))
AttemptOf-end (err unsupported) new (inr h) = inr (inr (ap (λ l. began ∷ l) h))
AttemptOf-end (err (failed e)) new (inl h) = inr (inl (ap (λ l. began ∷ l) h))
AttemptOf-end (err (failed e)) new (inr h) = inr (inr (ap (λ l. began ∷ l) h))

module _ {E V W : Type 0} (d : Driver E V W) where
  eval_locals-frame :
      (locals : List (String × String)) (s : State E V W)
      → ((eval_locals d locals s).1.journal ≡ s.journal)
        × ((eval_locals d locals s).1.results ≡ s.results)
  unfolding eval_locals
  eval_locals-frame [] s = (refl, refl)
  eval_locals-frame ((name, body) ∷ locals) s =
      let w = (d.eval_local body s.tx_locals s.world).1 in
      elim (Result-cases (d.eval_local body s.tx_locals s.world).0) [
        | inl (v, e) ↦
            rw (e, eval_locals)
              (eval_locals-frame locals
                (record s { world = w; tx_locals = add_local d name v s.tx_locals }))
        | inr (x, e) ↦ rw (e, eval_locals) (refl, refl)
      ]

  run_elements-frame :
      (elements : List Element) (s : State E V W)
      → ((run_elements d elements s).1.journal ≡ s.journal)
        × ((run_elements d elements s).1.results ≡ s.results)
  unfolding run_elements
  run_elements-frame [] s = (refl, refl)
  run_elements-frame (rollback_if c ∷ elements) s =
      let w = (d.eval_rollback_if c s.tx_locals s.world).1 in
      elim (Result-cases (d.eval_rollback_if c s.tx_locals s.world).0) [
        | inl (true, e) ↦ rw (e, run_elements) (refl, refl)
        | inl (false, e) ↦
            rw (e, run_elements) (run_elements-frame elements (record s { world = w }))
        | inr (x, e) ↦ rw (e, run_elements) (refl, refl)
      ]
  run_elements-frame (query q ∷ elements) s =
      let w = (d.run_query q s.tx_locals s.world).1 in
      elim (Result-cases (d.run_query q s.tx_locals s.world).0) [
        | inl (_, e) ↦ rw (e, run_elements) (run_elements-frame elements (record s { world = w }))
        | inr (x, e) ↦ rw (e, run_elements) (refl, refl)
      ]

  -- A step that adds events to the journal, as its result asks, and reports nothing.
  pub record Adds (P : Result (TxError E) (Unit {0}) → List Event → Type 0) (s : State E V W)
      (after : Result (TxError E) (Unit {0}) × State E V W) : Type 0 where
    pub new : List Event
    pub added : after.1.journal ≡ s.journal ++ new
    pub silent : after.1.results ≡ s.results
    pub fits : P after.0 new

  finish-Adds : (tx : Tx) (s : State E V W) → Adds EndOf s (finish d tx s)
  unfolding finish roll_back
  finish-Adds tx s =
      let s' = (run_elements d tx.elements s).1 in
      let (same, quiet) = run_elements-frame tx.elements s in
      elim (Result-cases (run_elements d tx.elements s).0) [
        | inl (_, e) ↦ elim (Result-cases (d.commit_tx s'.world).0) [
          | inl (_, c) ↦
              rw (e, finish)
                (rw c
                  (record { new = committed ∷ []; added = rw same; silent = quiet; fits = refl }))
          | inr (x, c) ↦
              rw (e, finish)
                (rw c (record {
                  new = committed ∷ [];
                  added = rw same;
                  silent = quiet;
                  fits = inr refl;
                }))
        ]
        | inr (x, e) ↦
            rw (e, finish)
              (record {
                new = rolled_back ∷ [];
                added = rw same;
                silent = quiet;
                fits = EndOf-err x;
              })
      ]

  with_locals-Adds :
      (tx : Tx) (locals : List (String × String)) (s : State E V W)
      → Adds EndOf s (with_locals d tx locals s)
  unfolding with_locals roll_back
  with_locals-Adds tx [] s = finish-Adds tx s
  with_locals-Adds tx (l ∷ locals) s =
      let s₀ = record s { tx_locals = some [] } in
      let s' = (eval_locals d (l ∷ locals) s₀).1 in
      let (same, quiet) = eval_locals-frame (l ∷ locals) s₀ in
      elim (Result-cases (eval_locals d (l ∷ locals) s₀).0) [
        | inl (_, e) ↦
            let h = finish-Adds tx s' in
            rw (e, with_locals)
              (record {
                new = h.new;
                added = h.added ∙ ap (λ j. j ++ h.new) same;
                silent = h.silent ∙ quiet;
                fits = h.fits;
              })
        | inr (x, e) ↦
            rw (e, with_locals)
              (record { new = rolled_back ∷ []; added = rw same; silent = quiet; fits = inl refl })
      ]

  pub try_transaction-Adds : (tx : Tx) (s : State E V W) → Adds AttemptOf s (try_transaction d tx s)
  unfolding try_transaction
  try_transaction-Adds tx s = elim (Bool-cases d.supports) [
    | inr no_support ↦
        rw (no_support, try_transaction)
          (record { new = []; added = sym (append-nil s.journal); silent = refl; fits = inl refl })
    | inl support ↦ elim (Result-cases (d.begin_tx s.world).0) [
      | inr (x, e) ↦
          rw (support, try_transaction)
            (rw e (record {
              new = [];
              added = sym (append-nil s.journal);
              silent = refl;
              fits = inl refl;
            }))
      | inl (_, e) ↦
          let s' = record s { world = (d.begin_tx s.world).1; journal = s.journal ++ began ∷ [] } in
          let h = with_locals-Adds tx tx.locals s' in
          rw (support, try_transaction)
            (rw e (record {
              new = began ∷ h.new;
              added = h.added ∙ append_assoc s.journal (began ∷ []) h.new;
              silent = h.silent;
              fits = AttemptOf-end (with_locals d tx tx.locals s').0 h.new h.fits;
            }))
    ]
  ]
