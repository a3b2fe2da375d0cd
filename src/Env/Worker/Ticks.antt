-- ===== src/Env/Worker/Ticks.antt =====
-- The loop of `RunWorker` over the signals.
use edg.Prelude.{
  ℕ, suc, ◌+◌, ◌≤◌, List, [], ◌∷◌, none, Bool, true, false, Result, ok, err, ◌≡◌, refl, sym, ap,
  ◌∙◌, arith, length, length-append, ◌||◌, if◌then◌else◌, ◌⊎◌, inl, inr, Bool-cases,
}
use mathlib.Core.Path.{subst}
use edg.Config.{Section, worker}
use edg.Env.Query.Section.{Stmt, QueryResult, Backend, State}
use edg.Env.Query.Section.Run.{run_section}
use edg.Env.Query.Section.Reports.{Reported, done, next, fails, cut_off, run_section-Reported}
use edg.Env.Worker.{
  Signal, cancelled, tick, Status, waiting, returned, after_tick, step, run_worker,
}

unfoldable pub ticks : List Signal → ℕ
ticks [] = 0
ticks (cancelled ∷ signals) = ticks signals
ticks (tick ∷ signals) = suc (ticks signals)

Reported-one :
    {E : Type 0} {section : Section} {q : Stmt} {new : List (QueryResult E)}
    {r : Result E (Unit {0})}
    → Reported section (q ∷ []) new r
    → length new ≡ 1
Reported-one (next q n done) = refl
Reported-one (fails q e n) = refl
Reported-one (cut_off q e n is_run) = refl

or_true : (a b : Bool) → b ≡ true → (a || b) ≡ true
or_true true b h = refl
or_true false b h = h

or_false : (a b : Bool) → a ≡ false → b ≡ false → (a || b) ≡ false
or_false true b h h' = h
or_false false b h h' = h'

not_waiting : ¬ (returned ≡ waiting)
not_waiting e = cc

module _ {E P F I O W : Type 0} (b : Backend E P F I O W) (is_done : W → Bool) (is_fail : E → Bool)
    (q : Stmt) (no_output : b.capture_output ≡ none) (reports : b.has_results ≡ true) where
  run_section-length :
      (s : State E P W)
      → length (run_section b (q ∷ []) worker s).1.results ≡ suc (length s.results)
  run_section-length s =
      let (new, added, reported) = run_section-Reported b worker (q ∷ []) s no_output reports in
      omega (arith, ap length added, length-append s.results new, Reported-one reported)

  after_tick-results :
      (p : Result E (Unit {0}) × State E P W)
      → (after_tick b is_done is_fail p).1.results ≡ p.1.results
  unfolding after_tick
  after_tick-results (ok _, s) = refl
  after_tick-results (err e, s) = refl

  run_worker-returned :
      (signals : List Signal) (s : State E P W)
      → run_worker b is_done is_fail q signals (returned, s) ≡ (returned, s)
  unfolding run_worker step
  run_worker-returned [] s = refl
  run_worker-returned (cancelled ∷ signals) s = run_worker-returned signals s
  run_worker-returned (tick ∷ signals) s = run_worker-returned signals s

  -- How many results are sent, and for how many ticks.
  abbrev pub Sends : ℕ → Status × State E P W → Status × State E P W → Type 0
  Sends n before p =
      (k : ℕ) × (length p.1.results ≡ length before.1.results + k)
      × (k ≤ n)
      × (p.0 ≡ waiting → k ≡ n)

  Sends-stopped :
      (n : ℕ) (status : Status) (s : State E P W) (p : Status × State E P W)
      → p ≡ (returned, s)
      → Sends n (status, s) p
  Sends-stopped n status s p h = (
    0,
    ap (λ r. length r.1.results) h ∙ omega arith,
    omega arith,
    λ e. absurd (not_waiting (sym (ap (λ r. r.0) h) ∙ e)),
  )

  Sends-from :
      (signals : List Signal) (p : Status × State E P W)
      → Sends (ticks signals) p (run_worker b is_done is_fail q signals p)
  unfolding run_worker step ticks
  Sends-from [] p = (0, omega arith, omega arith, λ e. refl)
  Sends-from (signal ∷ signals) (returned, s) =
      Sends-stopped (ticks (signal ∷ signals)) returned s _ (run_worker-returned signals s)
  Sends-from (cancelled ∷ signals) (waiting, s) =
      Sends-stopped (ticks signals) waiting s _ (run_worker-returned signals s)
  Sends-from (tick ∷ signals) (waiting, s) =
      let after = run_section b (q ∷ []) worker s in
      let (k, sent, bounded, all) = Sends-from signals (after_tick b is_done is_fail after) in
      (
        suc k,
        omega (arith, ap length (after_tick-results after), run_section-length s),
        omega arith,
        λ e. ap suc (all e),
      )

  -- The life of a worker: what it does at each signal, and why it stops. A tick runs the query once.
  pub data Lives : List Signal → State E P W → Status × State E P W → Type 0 where
    waits : (s : State E P W) → Lives [] s (waiting, s)
    stops_cancelled :
        (signals : List Signal) (s : State E P W) → Lives (cancelled ∷ signals) s (returned, s)
    goes_on :
        (signals : List Signal) (s s' : State E P W) (p : Status × State E P W)
        → run_section b (q ∷ []) worker s ≡ (ok tt, s')
        → Lives signals s' p
        → Lives (tick ∷ signals) s p
    logs_error :
        (signals : List Signal) (s s' : State E P W) (e : E) (p : Status × State E P W)
        → run_section b (q ∷ []) worker s ≡ (err e, s')
        → is_done s'.world ≡ false
        → is_fail e ≡ false
        → Lives signals s' p
        → Lives (tick ∷ signals) s p
    stops_failed :
        (signals : List Signal) (s s' : State E P W) (e : E)
        → run_section b (q ∷ []) worker s ≡ (err e, s')
        → (is_done s'.world ≡ true) ⊎ (is_fail e ≡ true)
        → Lives (tick ∷ signals) s (returned, s')

  Lives-tick :
      (signals : List Signal) (s : State E P W) (r : Result E (Unit {0}) × State E P W)
      → run_section b (q ∷ []) worker s ≡ r
      → ((s' : State E P W)
          → Lives signals s' (run_worker b is_done is_fail q signals (waiting, s')))
      → Lives
          (tick ∷ signals)
          s
          (run_worker b is_done is_fail q signals (after_tick b is_done is_fail r))
  unfolding run_worker after_tick
  Lives-tick signals s (ok tt, s') h later = goes_on signals s s' _ h (later s')
  Lives-tick signals s (err e, s') h later = elim (Bool-cases (is_done s'.world)) [
    | inl over ↦
        subst (Lives (tick ∷ signals) s)
          (sym (
            ap
              (λ d.
                run_worker b is_done is_fail q signals
                  (if d || is_fail e then returned else waiting, s'))
              over
            ∙ run_worker-returned signals s'))
          (stops_failed signals s s' e h (inl over))
    | inr goes ↦ elim (Bool-cases (is_fail e)) [
      | inl failed ↦
          subst (Lives (tick ∷ signals) s)
            (sym (
              ap (λ d. run_worker b is_done is_fail q signals (if d then returned else waiting, s'))
                (or_true (is_done s'.world) (is_fail e) failed)
              ∙ run_worker-returned signals s'))
            (stops_failed signals s s' e h (inr failed))
      | inr logged ↦
          subst (Lives (tick ∷ signals) s)
            (sym (
              ap (λ d. run_worker b is_done is_fail q signals (if d then returned else waiting, s'))
                (or_false (is_done s'.world) (is_fail e) goes logged)))
            (logs_error signals s s' e _ h goes logged (later s'))
    ]
  ]

  Lives-from :
      (signals : List Signal) (s : State E P W)
      → Lives signals s (run_worker b is_done is_fail q signals (waiting, s))
  unfolding run_worker step
  Lives-from [] s = waits s
  Lives-from (cancelled ∷ signals) s =
      subst (Lives (cancelled ∷ signals) s) (sym (run_worker-returned signals s))
        (stops_cancelled signals s)
  Lives-from (tick ∷ signals) s =
      Lives-tick signals s (run_section b (q ∷ []) worker s) refl (Lives-from signals)

  -- Where no output is captured and there is a results channel: a worker runs its query once for each
  -- tick. It goes on after a run that succeeds, and after an error that is no `ErrFail` while the
  -- context is not done; it stops at any other error and when the context is cancelled, and then
  -- ignores what follows. It sends one result for each run.
  pub run_worker-Lives :
      (signals : List Signal) (s : State E P W)
      → Lives signals s (run_worker b is_done is_fail q signals (waiting, s))
        × Sends (ticks signals) (waiting, s) (run_worker b is_done is_fail q signals (waiting, s))
  run_worker-Lives signals s = (Lives-from signals s, Sends-from signals (waiting, s))
