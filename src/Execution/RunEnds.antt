-- ===== src/Execution/RunEnds.antt =====
-- How a whole run ends: execution-engine.ts, `executeRunBundle`.
use code_kit_ultra.Base.{
  String, ℕ, ◌+◌, ◌≡◌, refl, List, [], ◌∷◌, ◌++◌, true, false, length, Bool-cases, inl, inr, any,
}
use code_kit_ultra.Shared.{PlanTask, RunStatus}
use code_kit_ultra.Core.PolicyEngine.{PolicyRules}
use code_kit_ultra.Execution.Machine.{
  Machine, Result, returned, threw, out_of_fuel, Call, continue, ◌>>=◌, Adapter, HealingReply,
  RunOutcome,
}
use code_kit_ultra.Execution.Writes.{write_audit, update_state, record_outcome}
use code_kit_ultra.Execution.Attempt.{StepResult, done, stopped, waiting}
use code_kit_ultra.Execution.Run.{
  LearningStore, has_suggestion, start_run, set_tasks, optimize, complete_run, end_early,
  after_task, run_tasks, run_remaining, execute_run_bundle,
}
use code_kit_ultra.Execution.History.{execute_task-KeepsPlan}
use code_kit_ultra.Execution.Ends.{Ended, execute_task-Ended}

module _ {W : Type 0} where
  -- How a run ends that had reported `outcomes` before.
  pub data RunEnded (outcomes : List RunOutcome) : Result (Unit {0}) → Machine W → Type 0 where
    is_completed :
        {m : Machine W} (o : RunOutcome)
        → m.bundle.state.status ≡ RunStatus.completed
        → m.bundle.state.current_step_index ≡ length m.bundle.tasks
        → m.bundle.state.approval_required ≡ false
        → m.outcomes ≡ outcomes ++ o ∷ []
        → o.success ≡ true
        → RunEnded outcomes (returned tt) m
    is_failed :
        {m : Machine W} (o : RunOutcome)
        → m.bundle.state.status ≡ RunStatus.failed
        → m.outcomes ≡ outcomes ++ o ∷ []
        → o.success ≡ false
        → RunEnded outcomes (returned tt) m
    is_paused :
        {m : Machine W}
        → m.bundle.state.status ≡ RunStatus.paused
        → m.bundle.state.approval_required ≡ true
        → m.outcomes ≡ outcomes
        → RunEnded outcomes (returned tt) m
    is_raised : {m : Machine W} (e : String) → RunEnded outcomes (threw e) m
    is_cut : {m : Machine W} → RunEnded outcomes out_of_fuel m

  complete_run-RunEnded :
      (m : Machine W) → RunEnded m.outcomes (complete_run m).0 (complete_run m).1
  unfolding complete_run ◌>>=◌ write_audit update_state record_outcome
  complete_run-RunEnded m = is_completed _ refl refl refl refl refl

  end_early-failed :
      (m : Machine W)
      → m.bundle.state.status ≡ RunStatus.failed
      → RunEnded m.outcomes (end_early m).0 (end_early m).1
  unfolding end_early ◌>>=◌ record_outcome
  end_early-failed m e = simp e (is_failed _ e refl refl)

  end_early-paused :
      (m : Machine W)
      → m.bundle.state.status ≡ RunStatus.paused
      → m.bundle.state.approval_required ≡ true
      → RunEnded m.outcomes (end_early m).0 (end_early m).1
  unfolding end_early ◌>>=◌
  end_early-paused m e h = simp e (is_paused e h refl)

module _ {W : Type 0} (rules : PolicyRules) (heal : PlanTask → String → Call W HealingReply)
    (adapters : List (Adapter W)) where
  after_task-RunEnded :
      (fuel : ℕ) (ts : List PlanTask) (i : ℕ) (before : List RunOutcome) (r : Result StepResult)
      (m : Machine W)
      → Ended i r m
      → m.outcomes ≡ before
      → RunEnded m.outcomes
          (run_tasks rules heal adapters fuel ts (i + 1) m).0
          (run_tasks rules heal adapters fuel ts (i + 1) m).1
      → let next = continue r (after_task (run_tasks rules heal adapters fuel ts (i + 1))) m in
        RunEnded before next.0 next.1
  unfolding after_task
  after_task-RunEnded fuel ts i before (returned done) m h e ih = rw (← e) ih
  after_task-RunEnded fuel ts i before (returned stopped) m h e ih =
      rw (← e) (end_early-failed m h.0)
  after_task-RunEnded fuel ts i before (returned waiting) m h e ih =
      rw (← e) (end_early-paused m h.0 h.2)
  after_task-RunEnded fuel ts i before (threw t) m h e ih = is_raised t
  after_task-RunEnded fuel ts i before out_of_fuel m h e ih = is_cut

  run_tasks-RunEnded :
      (fuel : ℕ) (ts : List PlanTask) (i : ℕ) (m : Machine W)
      → let r = run_tasks rules heal adapters fuel ts i m in RunEnded m.outcomes r.0 r.1
  unfolding run_tasks ◌>>=◌
  run_tasks-RunEnded fuel [] i m = complete_run-RunEnded m
  run_tasks-RunEnded fuel (t ∷ ts) i m =
      after_task-RunEnded fuel ts i m.outcomes _ _
        (execute_task-Ended rules heal adapters fuel t i m)
        ((execute_task-KeepsPlan rules heal adapters fuel t i m).outcomes)
        (run_tasks-RunEnded fuel ts (i + 1) _)

  -- A run that returns is completed at the index behind its last task, failed, or paused with its
  -- approval asked for. It reports one outcome, of success exactly when it is completed, and none
  -- when it is paused.
  pub execute_run_bundle-RunEnded :
      (store : LearningStore) (fuel : ℕ) (m : Machine W)
      → let r = execute_run_bundle rules heal adapters store fuel m in RunEnded m.outcomes r.0 r.1
  unfolding execute_run_bundle run_remaining start_run optimize set_tasks ◌>>=◌ update_state
      write_audit
  execute_run_bundle-RunEnded store fuel m =
      elim (Bool-cases (any (has_suggestion store) m.bundle.tasks)) [
        | inl e ↦ rw e (run_tasks-RunEnded fuel _ _ _)
        | inr e ↦ rw e (run_tasks-RunEnded fuel _ _ _)
      ]
