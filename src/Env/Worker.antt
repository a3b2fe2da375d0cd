-- ===== src/Env/Worker.antt =====
-- `RunWorker` (pkg/env/env_worker.go): the loop of a background worker. The channels that it selects
-- from are a list of signals in the order in which it receives them; the model runs until the
-- worker returns or the list ends.
pub mod Ticks
use edg.Prelude.{
  ℕ, zero, suc, List, [], ◌∷◌, Bool, true, false, ◌||◌, if◌then◌else◌, Result, ok, err,
}
use edg.Config.{Section, worker}
use edg.Env.Query.Section.{Stmt, Backend, State}
use edg.Env.Query.Section.Run.{run_section}

pub data Signal : Type 0 where
  -- `<-ctx.Done()` and `<-ticker.C`
  cancelled tick : Signal

pub data Status : Type 0 where
  waiting returned : Status

module _ {E P F I O W : Type 0} (b : Backend E P F I O W) where
  -- After a tick: an error ends the loop if the context is done or the error is an `ErrFail`, and
  -- is only logged otherwise.
  unfoldable pub after_tick :
      (W → Bool) → (E → Bool) → Result E (Unit {0}) × State E P W → Status × State E P W
  after_tick is_done is_fail (ok _, s) = (waiting, s)
  after_tick is_done is_fail (err e, s) =
      (if is_done s.world || is_fail e then returned else waiting, s)

  -- `ctx.Err() != nil` and `errors.As(err, &failErr)` are the tests `is_done` and `is_fail`.
  unfoldable pub step :
      (W → Bool) → (E → Bool) → Stmt → Signal → Status × State E P W → Status × State E P W
  unfolding after_tick
  step is_done is_fail q signal (returned, s) = (returned, s)
  step is_done is_fail q cancelled (waiting, s) = (returned, s)
  step is_done is_fail q tick (waiting, s) =
      after_tick is_done is_fail (run_section b (q ∷ []) worker s)

  unfoldable pub run_worker :
      (W → Bool) → (E → Bool) → Stmt → List Signal → Status × State E P W → Status × State E P W
  unfolding step
  run_worker is_done is_fail q [] s = s
  run_worker is_done is_fail q (signal ∷ signals) s =
      run_worker is_done is_fail q signals (step is_done is_fail q signal s)
