-- ===== src/Env/Rand/Sequences.antt =====
-- `seq`, `seqGlobal` and the random reads of sequences (pkg/env/rand.go), over Seq. The manager is
-- none where no sequences are configured.
use edg.Prelude.{String, Option, none, some, Result, ok, err, ◌≡◌, refl}
use edg.Prelude.Int.{ℤ, pos, ◌+ℤ◌, ◌-ℤ◌, ◌*ℤ◌, wrap_64}
use edg.Prelude.Random.{Rng}
use edg.Prelude.Steps.{Steps, ◌>>=◌, lift}
use edg.Convert.{Value, Formats, ConvertError, to_int_value, to_float_value}
use edg.Seq.{Sequence, SeqError, Manager, next, rand, distributed, manager_next, manager_read}

-- `name.(string)`
pub data Name : Type 0 where
  name : String → Name
  not_text : Name

pub data CallError (E : Type 0) : Type 0 where
  not_int not_float : ConvertError → CallError E
  not_a_name no_sequences : CallError E
  failed : SeqError E → CallError E

-- `seqCounter` and `seqManager`, with the state of the generator.
pub record SeqState (S : Type 0) : Type 0 where
  pub seq_counter : ℤ
  pub seq_manager : Option Manager
  pub rng : S

-- `counter := e.seqCounter.Add(1) - 1; return int64(s) + counter*int64(st)`
unfoldable pub seq_int : {E S : Type 0} → ℤ → ℤ → Steps (CallError E) (SeqState S) ℤ
unfolding wrap_64 ◌+ℤ◌ ◌-ℤ◌ ◌*ℤ◌
seq_int start step d =
    let counter = wrap_64 (d.seq_counter +ℤ pos 1) in
    (
      ok (wrap_64 (start +ℤ wrap_64 (wrap_64 (counter -ℤ pos 1) *ℤ step))),
      record d { seq_counter = counter },
    )

module _ {E F I O : Type 0} (formats : Formats F I O) where
  pub int_of : Value F I O → Result (CallError E) ℤ
  int_of v = elim (to_int_value formats v) [ ok i ↦ ok i | err e ↦ err (not_int e) ]

  pub float_of : Value F I O → Result (CallError E) F
  float_of v = elim (to_float_value formats v) [ ok f ↦ ok f | err e ↦ err (not_float e) ]

  unfoldable pub seq : {S : Type 0} → Value F I O → Value F I O → Steps (CallError E) (SeqState S) ℤ
  unfolding int_of seq_int
  seq raw_start raw_step = do
    start ← lift (int_of raw_start)
    step ← lift (int_of raw_step)
    seq_int start step

-- The name and the manager, or the errors without them.
pub configured : {E : Type 0} → Name → Option Manager → Result (CallError E) (String × Manager)
configured not_text m = err not_a_name
configured (name n) none = err no_sequences
configured (name n) (some m) = ok (n, m)

module _ {E S : Type 0} where
  advanced : Result (SeqError E) ℤ × Manager → SeqState S → Result (CallError E) ℤ × SeqState S
  advanced (ok v, m) d = (ok v, record d { seq_manager = some m })
  advanced (err e, m) d = (err (failed e), record d { seq_manager = some m })

  unfoldable pub seq_global : Name → Steps (CallError E) (SeqState S) ℤ
  unfolding configured advanced manager_next
  seq_global n d = elim (configured n d.seq_manager) [
    | err e ↦ (err e, d)
    | ok (k, m) ↦ advanced (manager_next k m) d
  ]

  was_read : Result (SeqError E) ℤ × S → SeqState S → Result (CallError E) ℤ × SeqState S
  was_read (ok v, s) d = (ok v, record d { rng = s })
  was_read (err e, s) d = (err (failed e), record d { rng = s })

  -- A random read of the sequence, as `seqRand` and the others do it.
  unfoldable pub seq_read :
      (Sequence → S → Result (SeqError E) ℤ × S)
      → String × Manager
      → Steps (CallError E) (SeqState S) ℤ
  unfolding was_read manager_read
  seq_read read (n, m) d = was_read (manager_read read n m d.rng) d

  pub with_manager : Name → Steps (CallError E) (SeqState S) (String × Manager)
  unfolding configured
  with_manager n d = (configured n d.seq_manager, d)

unfoldable pub seq_rand : {E : Type 0} (g : Rng) → Name → Steps (CallError E) (SeqState g.State) ℤ
unfolding with_manager seq_read rand
seq_rand g n = do found ← with_manager n; seq_read (rand g) found

module _ {E F I O S : Type 0} (formats : Formats F I O) where
  -- `seqZipf`, `seqNorm` and `seqLognorm`, with the distribution of the two parameters.
  unfoldable pub seq_two :
      (F → F → ℤ → S → Result E ℤ × S)
      → Name
      → Value F I O
      → Value F I O
      → Steps (CallError E) (SeqState S) ℤ
  unfolding with_manager seq_read distributed float_of
  seq_two distribution n raw_a raw_b = do
    found ← with_manager n
    a ← lift (float_of formats raw_a)
    b ← lift (float_of formats raw_b)
    seq_read (distributed (distribution a b)) found

  unfoldable pub seq_exp :
      (F → ℤ → S → Result E ℤ × S) → Name → Value F I O → Steps (CallError E) (SeqState S) ℤ
  unfolding with_manager seq_read distributed float_of
  seq_exp distribution n raw_rate = do
    found ← with_manager n
    rate ← lift (float_of formats raw_rate)
    seq_read (distributed (distribution rate)) found

-- `seq` with fixed arguments is `Next` of a sequence whose counter is that of the worker.
seq_int-next :
    {E S : Type 0} (start step : ℤ) (d : SeqState S)
    → seq_int {E = E} start step d ≡ (
      ok (next (record { start = start; step = step; counter = d.seq_counter })).0,
      record d {
        seq_counter =
            (next (record { start = start; step = step; counter = d.seq_counter })).1.counter;
      },
    )
unfolding seq_int next
seq_int-next start step d = refl
