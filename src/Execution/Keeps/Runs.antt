-- ===== src/Execution/Keeps/Runs.antt =====
-- A whole run keeps every stable relation that survives the two writes of a run.
use code_kit_ultra.Base.{String, ℕ, ◌+◌, List, [], ◌∷◌, Bool, false, any}
use code_kit_ultra.Shared.{PlanTask}
use code_kit_ultra.Core.PolicyEngine.{PolicyRules}
use code_kit_ultra.Execution.Machine.{Machine, M, Call, Adapter, HealingReply}
use code_kit_ultra.Execution.Writes.{record_outcome}
use code_kit_ultra.Execution.Attempt.{StepResult, done, stopped, waiting}
use code_kit_ultra.Execution.Run.{
  LearningStore, has_suggestion, is_failed, start_run, set_tasks, optimize, complete_run, end_early,
  after_task, run_tasks, run_remaining, execute_run_bundle,
}
use code_kit_ultra.Execution.Keeps.{
  IsStable, Keeps, Keeps-bind, Keeps-if, Keeps-audit, Keeps-gets, Keeps-pure, writes,
}
use code_kit_ultra.Execution.Keeps.Tasks.{Keeps-execute_task}

module _ {W : Type 0} (R : Machine W → Machine W → Type 0) (st : IsStable R) where
  -- The functions of a whole run.
  Keeps-start_run : Keeps R (start_run {W = W})
  unfolding start_run
  Keeps-start_run = search writes

  module _ (retasked : (m : Machine W) (ts : List PlanTask) → R m (set_tasks ts m).1)
      (recorded : (m : Machine W) (b : Bool) → R m (record_outcome b m).1) where
    Keeps-record_outcome : (b : Bool) → Keeps R (record_outcome b)
    Keeps-record_outcome b = record { at = λ m. recorded m b }

    Keeps-optimize : (store : LearningStore) → Keeps R (optimize store)
    unfolding optimize
    Keeps-optimize store = Keeps-bind R st _ _ (Keeps-gets R st _) λ ts.
        Keeps-bind R st _ _ (record { at = λ m. retasked m _ })
          λ _.
            Keeps-if R st (any (has_suggestion store) ts) _ _ (Keeps-audit R st _ _)
              (Keeps-pure R st _)

    Keeps-complete_run : Keeps R (complete_run {W = W})
    unfolding complete_run
    Keeps-complete_run = search (writes, Keeps-record_outcome)

    Keeps-end_early : Keeps R (end_early {W = W})
    unfolding end_early
    Keeps-end_early =
        Keeps-bind R st _ _ (Keeps-gets R st _)
          λ s. Keeps-if R st (is_failed s) _ _ (Keeps-record_outcome false) (Keeps-pure R st _)

    Keeps-after_task :
        (rest : M W (Unit {0})) (r : StepResult) → Keeps R rest → Keeps R (after_task rest r)
    unfolding after_task
    Keeps-after_task rest done k = k
    Keeps-after_task rest stopped k = Keeps-end_early
    Keeps-after_task rest waiting k = Keeps-end_early

    module _ (rules : PolicyRules) (heal : PlanTask → String → Call W HealingReply)
        (adapters : List (Adapter W)) where
      Keeps-run_tasks :
          (fuel : ℕ) (ts : List PlanTask) (i : ℕ)
          → Keeps R (run_tasks rules heal adapters fuel ts i)
      unfolding run_tasks
      Keeps-run_tasks fuel [] i = Keeps-complete_run
      Keeps-run_tasks fuel (t ∷ ts) i =
          Keeps-bind R st _ _ (Keeps-execute_task R st rules heal adapters fuel t i)
            λ r. Keeps-after_task _ r (Keeps-run_tasks fuel ts (i + 1))

      pub Keeps-execute_run_bundle :
          (store : LearningStore) (fuel : ℕ)
          → Keeps R (execute_run_bundle rules heal adapters store fuel)
      unfolding execute_run_bundle run_remaining
      Keeps-execute_run_bundle store fuel = Keeps-bind R st _ _ Keeps-start_run λ _.
          Keeps-bind R st _ _ (Keeps-optimize store)
            λ _. Keeps-bind R st _ _ (Keeps-gets R st _) λ b. Keeps-run_tasks fuel _ _
