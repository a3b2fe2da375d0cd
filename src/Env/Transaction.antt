-- ===== src/Env/Transaction.antt =====
-- `runTransaction`, `tryTransaction`, `runTransactionQueries` (pkg/env/env_worker.go) and the locals
-- of a transaction (pkg/env/env_args.go). The driver, the expression evaluator and `runSection` for
-- one query are the fields of `Driver`; each may change the world `W` and fail. The model
-- keeps a journal of what the transaction asks of the database.
pub mod Balance
pub mod Runs
use edg.Prelude.{
  ℕ, zero, suc, ◌+◌, ◌*◌, ◌^◌, String, List, [], ◌∷◌, ◌++◌, Option, none, some, Bool, true, false,
  not, ◌&&◌, if◌then◌else◌, Result, ok, err,
}
use edg.Prelude.Int.{ℤ, pos, ◌+ℤ◌, pos_part, ltb_ℤ, wrap_64}

-- `txLocals`: none outside a transaction.
abbrev pub Locals : Type 0 → Type 0
Locals V = Option (List (String × V))

pub record Driver (E V W : Type 0) : Type 0 where
  -- whether the connection is a `db.Transactor`
  pub supports : Bool
  pub begin_tx : W → Result E (Unit {0}) × W
  pub commit_tx : W → Result E (Unit {0}) × W
  pub rollback_tx : W → W
  -- `expr.Run` of a local, and of a rollback condition with its test `result.(bool)`
  pub eval_local : String → Locals V → W → Result E V × W
  pub eval_rollback_if : String → Locals V → W → Result E Bool × W
  -- `runSection` of one query on the transaction
  pub run_query : String → Locals V → W → Result E (Unit {0}) × W
  -- `ctx.Err() != nil`, and a wait
  pub cancelled : W → Bool
  pub wait : ℤ → W → W
  pub no_wait : Bool
  pub cancelled_error : E

pub data Event : Type 0 where
  began committed rolled_back : Event

pub data TxError (E : Type 0) : Type 0 where
  unsupported : TxError E
  conditional_rollback : TxError E
  failed : E → TxError E

-- What `sendResult` is given, as far as it tells the outcomes apart.
pub data Sent (E : Type 0) : Type 0 where
  commit : Sent E
  rollback : Sent E
  failure : Option (TxError E) → Sent E

pub record State (E V W : Type 0) : Type 0 where
  pub world : W
  pub journal : List Event
  pub tx_locals : Locals V
  pub results : List (Sent E)

pub data Element : Type 0 where
  rollback_if query : String → Element

pub record Tx : Type 0 where
  pub locals : List (String × String)
  pub elements : List Element
  -- nanoseconds
  pub wait : ℤ

module _ {E V W : Type 0} (d : Driver E V W) where
  -- `e.txLocals[name] = result`, in a map that evaluation has made.
  pub add_local : String → V → Locals V → Locals V
  add_local name v none = some ((name, v) ∷ [])
  add_local name v (some ls) = some (ls ++ (name, v) ∷ [])

  -- The loop of `evalLocals`.
  pub eval_locals : List (String × String) → State E V W → Result E (Unit {0}) × State E V W
  unfolding add_local
  eval_locals [] s = (ok tt, s)
  eval_locals ((name, body) ∷ locals) s =
      let (r, w) = d.eval_local body s.tx_locals s.world in
      elim r [
        | err e ↦ (err e, record s { world = w })
        | ok v ↦
            eval_locals locals (record s { world = w; tx_locals = add_local name v s.tx_locals })
      ]

  -- `runTransactionQueries`
  pub run_elements : List Element → State E V W → Result (TxError E) (Unit {0}) × State E V W
  run_elements [] s = (ok tt, s)
  run_elements (rollback_if c ∷ elements) s =
      let (r, w) = d.eval_rollback_if c s.tx_locals s.world in
      elim r [
        | err e ↦ (err (failed e), record s { world = w })
        | ok true ↦ (err conditional_rollback, record s { world = w })
        | ok false ↦ run_elements elements (record s { world = w })
      ]
  run_elements (query q ∷ elements) s =
      let (r, w) = d.run_query q s.tx_locals s.world in
      elim r [
        | err e ↦ (err (failed e), record s { world = w })
        | ok _ ↦ run_elements elements (record s { world = w })
      ]

  pub roll_back : State E V W → State E V W
  roll_back s = record s { world = d.rollback_tx s.world; journal = s.journal ++ rolled_back ∷ [] }

  -- The queries, and a rollback or a commit.
  pub finish : Tx → State E V W → Result (TxError E) (Unit {0}) × State E V W
  unfolding run_elements roll_back
  finish tx s =
      let (r, s') = run_elements tx.elements s in
      elim r [
        | err e ↦ (err e, roll_back s')
        | ok _ ↦
            let (c, w) = d.commit_tx s'.world in
            let s'' = record s' { world = w; journal = s'.journal ++ committed ∷ [] } in
            elim c [ err e ↦ (err (failed e), s'') | ok _ ↦ (ok tt, s'') ]
      ]

  -- The locals, if there are any: `clearLocals` is deferred only once they are evaluated.
  pub with_locals :
      Tx → List (String × String) → State E V W → Result (TxError E) (Unit {0}) × State E V W
  unfolding eval_locals finish roll_back
  with_locals tx [] s = finish tx s
  with_locals tx (l ∷ locals) s =
      let (r, s') = eval_locals (l ∷ locals) (record s { tx_locals = some [] }) in
      elim r [
        | err e ↦ (err (failed e), roll_back s')
        | ok _ ↦ let (r', s'') = finish tx s' in (r', record s'' { tx_locals = none })
      ]

  -- `tryTransaction`
  pub try_transaction : Tx → State E V W → Result (TxError E) (Unit {0}) × State E V W
  unfolding with_locals
  try_transaction tx s =
      if d.supports
      then (let (r, w) = d.begin_tx s.world in
          elim r [
            | err e ↦ (err (failed e), record s { world = w })
            | ok _ ↦
                with_locals tx tx.locals (record s { world = w; journal = s.journal ++ began ∷ [] })
          ])
      else (err unsupported, s)

  pub send : Sent E → State E V W → State E V W
  send r s = record s { results = s.results ++ r ∷ [] }

  -- The wait before another attempt: a cancelled context ends the wait and not the loop.
  pub back_off : ℕ → State E V W → State E V W
  back_off zero s = s
  back_off (suc n) s = record s { world = d.wait (wrap_64 (pos (2 ^ suc n * 1_000_000))) s.world }

  -- The wait after a success; the context's error, if it ends then.
  pub pause_after : Tx → State E V W → Result (TxError E) (Unit {0}) × State E V W
  pause_after tx s =
      if ltb_ℤ (pos 0) tx.wait && not d.no_wait
      then (let s' = record s { world = d.wait tx.wait s.world } in
          if d.cancelled s'.world then (err (failed d.cancelled_error), s') else (ok tt, s'))
      else (ok tt, s)

  abbrev pub last_result : Option (TxError E) → Result (TxError E) (Unit {0})
  last_result none = ok tt
  last_result (some e) = err e

  -- The loop over the attempts, with the attempts left, the attempt's number and `lastErr`.
  pub attempts_from :
      Tx → ℕ → ℕ → Option (TxError E) → State E V W → Result (TxError E) (Unit {0}) × State E V W
  unfolding try_transaction send back_off pause_after
  attempts_from tx zero attempt last s = (last_result last, send (failure last) s)
  attempts_from tx (suc n) attempt last s =
      let (r, s') = try_transaction tx (back_off attempt s) in
      elim r [
        | ok _ ↦ pause_after tx (send commit s')
        | err conditional_rollback ↦ (ok tt, send rollback s')
        | err e ↦
            if d.cancelled s'.world
            then (err e, send (failure (some e)) s')
            else attempts_from tx n (attempt + 1) (some e) s'
      ]

  -- `runTransaction`, with `attempts := 1 + e.Retries`.
  unfoldable pub run_transaction :
      Tx → ℤ → State E V W → Result (TxError E) (Unit {0}) × State E V W
  unfolding attempts_from ◌+ℤ◌ wrap_64
  run_transaction tx retries s = attempts_from tx (pos_part (wrap_64 (pos 1 +ℤ retries))) 0 none s
