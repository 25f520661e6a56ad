-- ===== src/Execution/OneApproval.antt =====
-- What one approval is worth over a whole run: execution-engine.ts, `executeRunBundle`.
use code_kit_ultra.Base.{
  String, ℕ, ◌+◌, ◌≡◌, refl, sym, ap, ◌∙◌, Bool, ◌≢◌, List, [], ◌∷◌, ◌++◌, true, false,
  if◌then◌else◌,
}
use code_kit_ultra.Shared.{PlanTask, RunStatus}
use code_kit_ultra.Core.PolicyEngine.{PolicyRules, needs_approval}
use code_kit_ultra.Execution.Machine.{
  Machine, Result, returned, threw, out_of_fuel, Call, pure, continue, ◌>>=◌, Adapter, HealingReply,
}
use code_kit_ultra.Execution.Writes.{record_outcome}
use code_kit_ultra.Execution.Attempt.{StepResult, done, stopped, waiting}
use code_kit_ultra.Execution.Run.{end_early, after_task, run_tasks}
use code_kit_ultra.Execution.Ends.{Ended, execute_task-Ended}
use code_kit_ultra.Execution.Approval.{execute_task-IsHeld}

module _ {W : Type 0} where
  -- The run did not come to its end.
  abbrev pub IsUnfinished : Result (Unit {0}) × Machine W → Type 0
  IsUnfinished r = r.0 ≡ returned tt → r.1.bundle.state.status ≢ RunStatus.completed

  spent :
      (i : ℕ) (r : Result StepResult) (m : Machine W)
      → Ended i r m
      → r ≡ returned done
      → m.bundle.state.approved ≡ false
  spent i (returned done) m h e = h.1
  spent i (returned stopped) m h e = cc
  spent i (returned waiting) m h e = cc
  spent i (threw t) m h e = cc
  spent i out_of_fuel m h e = cc

  same_bundle :
      (b : Bool) (m : Machine W)
      → ((if b then record_outcome false else pure tt) m).1.bundle ≡ m.bundle
  unfolding record_outcome
  same_bundle true m = refl
  same_bundle false m = refl

  end_early-IsUnfinished :
      (m : Machine W) → m.bundle.state.status ≢ RunStatus.completed → IsUnfinished (end_early m)
  unfolding end_early ◌>>=◌ record_outcome
  end_early-IsUnfinished m h e = λ c. h (ap (λ b. b.state.status) (sym (same_bundle _ m)) ∙ c)

failed_not_completed : RunStatus.failed ≢ RunStatus.completed
failed_not_completed e = cc

paused_not_completed : RunStatus.paused ≢ RunStatus.completed
paused_not_completed e = cc

module _ {W : Type 0} (rules : PolicyRules) (heal : PlanTask → String → Call W HealingReply)
    (adapters : List (Adapter W)) (fuel : ℕ) where
  -- The tasks that follow are unfinished if they are so after a completed task.
  next-IsUnfinished :
      (rest : List PlanTask) (i : ℕ) (r : Result StepResult) (m : Machine W)
      → Ended i r m
      → (r ≡ returned done → IsUnfinished (run_tasks rules heal adapters fuel rest (i + 1) m))
      → IsUnfinished (continue r (after_task (run_tasks rules heal adapters fuel rest (i + 1))) m)
  unfolding after_task
  next-IsUnfinished rest i (returned done) m h k = k refl
  next-IsUnfinished rest i (returned stopped) m h k =
      end_early-IsUnfinished m λ e. failed_not_completed (sym h.0 ∙ e)
  next-IsUnfinished rest i (returned waiting) m h k =
      end_early-IsUnfinished m λ e. paused_not_completed (sym h.0 ∙ e)
  next-IsUnfinished rest i (threw t) m h k = λ e. cc
  next-IsUnfinished rest i out_of_fuel m h k = λ e. cc

  unapproved-IsUnfinished :
      (before : List PlanTask) (gated : PlanTask) (after : List PlanTask) (i : ℕ) (m : Machine W)
      → needs_approval rules gated ≡ true
      → m.bundle.state.approved ≡ false
      → IsUnfinished (run_tasks rules heal adapters fuel (before ++ gated ∷ after) i m)
  unfolding run_tasks ◌>>=◌
  unapproved-IsUnfinished [] gated after i m h a =
      next-IsUnfinished after i _ _ (execute_task-Ended rules heal adapters fuel gated i m)
        λ e. absurd ((execute_task-IsHeld rules heal adapters fuel gated i m h a).0 e)
  unapproved-IsUnfinished (t ∷ before) gated after i m h a =
      next-IsUnfinished (before ++ gated ∷ after) i _ _
        (execute_task-Ended rules heal adapters fuel t i m)
        λ e.
          unapproved-IsUnfinished before gated after (i + 1) _ h
            (spent i _ _ (execute_task-Ended rules heal adapters fuel t i m) e)

  -- A run that comes to a task behind an approval after at least one other task does not complete:
  -- the task before has used the approval up, if there was one.
  pub run_tasks-IsUnfinished :
      (first : PlanTask) (before : List PlanTask) (gated : PlanTask) (after : List PlanTask) (i : ℕ)
      (m : Machine W)
      → needs_approval rules gated ≡ true
      → IsUnfinished (run_tasks rules heal adapters fuel (first ∷ before ++ gated ∷ after) i m)
  unfolding run_tasks ◌>>=◌
  run_tasks-IsUnfinished first before gated after i m h =
      next-IsUnfinished (before ++ gated ∷ after) i _ _
        (execute_task-Ended rules heal adapters fuel first i m)
        λ e.
          unapproved-IsUnfinished before gated after (i + 1) _ h
            (spent i _ _ (execute_task-Ended rules heal adapters fuel first i m) e)
