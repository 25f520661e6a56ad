-- ===== src/Execution/Puts.antt =====
-- What the puts of the storage provider leave in the run's directory: run-store.ts, lines 486 to 513, with
-- local-storage.ts.
use code_kit_ultra.Base.{◌≡◌, refl, List, [], ◌∷◌, ◌++◌}
use code_kit_ultra.Shared.{RunState, StepLog, AdapterSummary}
use code_kit_ultra.Execution.Machine.{Put, put_state, put_steps, put_executions}

-- What the puts leave of a file of the directory, if those of a file are carried out in their order.
abbrev pub state_after : List Put → RunState → RunState
state_after [] s = s
state_after (put_state t ∷ ps) s = state_after ps t
state_after (put_steps t ∷ ps) s = state_after ps s
state_after (put_executions t ∷ ps) s = state_after ps s

abbrev pub steps_after : List Put → List StepLog → List StepLog
steps_after [] s = s
steps_after (put_state t ∷ ps) s = steps_after ps s
steps_after (put_steps t ∷ ps) s = steps_after ps t
steps_after (put_executions t ∷ ps) s = steps_after ps s

abbrev pub executions_after : List Put → List AdapterSummary → List AdapterSummary
executions_after [] s = s
executions_after (put_state t ∷ ps) s = executions_after ps s
executions_after (put_steps t ∷ ps) s = executions_after ps s
executions_after (put_executions t ∷ ps) s = executions_after ps t

pub state_after-append :
    (ps qs : List Put) (s : RunState) → state_after (ps ++ qs) s ≡ state_after qs (state_after ps s)
state_after-append [] qs s = refl
state_after-append (put_state t ∷ ps) qs s = state_after-append ps qs t
state_after-append (put_steps t ∷ ps) qs s = state_after-append ps qs s
state_after-append (put_executions t ∷ ps) qs s = state_after-append ps qs s

pub steps_after-append :
    (ps qs : List Put) (s : List StepLog)
    → steps_after (ps ++ qs) s ≡ steps_after qs (steps_after ps s)
steps_after-append [] qs s = refl
steps_after-append (put_state t ∷ ps) qs s = steps_after-append ps qs s
steps_after-append (put_steps t ∷ ps) qs s = steps_after-append ps qs t
steps_after-append (put_executions t ∷ ps) qs s = steps_after-append ps qs s

pub executions_after-append :
    (ps qs : List Put) (s : List AdapterSummary)
    → executions_after (ps ++ qs) s ≡ executions_after qs (executions_after ps s)
executions_after-append [] qs s = refl
executions_after-append (put_state t ∷ ps) qs s = executions_after-append ps qs s
executions_after-append (put_steps t ∷ ps) qs s = executions_after-append ps qs s
executions_after-append (put_executions t ∷ ps) qs s = executions_after-append ps qs t
