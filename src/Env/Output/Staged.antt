-- ===== src/Env/Output/Staged.antt =====
-- The proofs on `captureOutputBatch` (pkg/env/env_output.go).
use edg.Prelude.{String, List, [], map, ok, ◌≡◌}
use edg.Prelude.Steps.{Steps}
use edg.Convert.{Value}
use edg.Env.Args.Generate.{Row, BatchQuery, cells}
use edg.Output.{WriteRow}
use edg.Output.Tables.{each_added}
use edg.Env.Output.{Stage, Stager, batch_row}

-- Two states that differ in their variables only.
abbrev Rest : {F I O W X : Type 0} → Stage F I O W X → Stage F I O W X → Type 0
Rest s s' = (s'.out ≡ s.out) × (s'.datasets ≡ s.datasets) × (s'.sent ≡ s.sent)

module _ {E G F I O W X : Type 0} (e : Stager E G F I O W X) where
  module _ (add_row : WriteRow F I O → X → X)
      (adds : (r : WriteRow F I O) (x : X) → e.add r x ≡ (ok tt, add_row r x)) (q : BatchQuery G)
      (section : String) where
    -- What staging rows does to everything but the variables.
    abbrev Written : List (List (Value F I O)) → Stage F I O W X → Stage F I O W X → Type 0
    Written rows s s' =
        (s'.out ≡ each_added add_row (map (batch_row e q section) rows) s.out)
        × (s'.datasets ≡ s.datasets)
        × (s'.sent ≡ s.sent)

    abbrev captured_row : List (Value F I O) → Row F I O
    captured_row vs = cells q.columns vs []
