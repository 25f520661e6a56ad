-- ===== src/Planning/Checkpoint.antt =====
-- The initial plan in the execution engine: planner.ts, `buildInitialPlan`, and execution-engine.ts,
-- `executeRunBundle`.
use Prim.Native.String.{String}
use code_kit_ultra.Base.{
  ℕ, ◌≡◌, refl, List, [], ◌∷◌, map, drop, any, inl, inr, Bool-cases, Option-cases,
}
use code_kit_ultra.Shared.{PlanTask}
use code_kit_ultra.Core.PolicyEngine.{PolicyRules, needs_approval}
use code_kit_ultra.Execution.Machine.{Machine, Call, ◌>>=◌, Adapter, HealingReply}
use code_kit_ultra.Execution.Writes.{write_audit, update_state}
use code_kit_ultra.Execution.Run.{
  LearningStore, overlay_of, has_suggestion, with_retry_limit, set_tasks, start_run, optimize,
  run_tasks, run_remaining, execute_run_bundle,
}
use code_kit_ultra.Execution.OneApproval.{IsUnfinished, run_tasks-IsUnfinished}
use code_kit_ultra.Planning.Initial.{
  UserInput, intake_task, scaffold_task, command_task, checkpoint_task, build_initial_plan,
}

-- The optimizer changes the attempts of a task only.
with_retry_limit-needs_approval :
    (store : LearningStore) (rules : PolicyRules) (task : PlanTask)
    → needs_approval rules (with_retry_limit store task) ≡ needs_approval rules task
unfolding with_retry_limit
with_retry_limit-needs_approval store rules task =
    elim (Option-cases (overlay_of store.overlays task.adapter_id)) [
      | inl e ↦ rw (e, with_retry_limit) refl
      | inr (o, e) ↦ rw (e, with_retry_limit) refl
    ]

module _ {W : Type 0} (rules : PolicyRules) (heal : PlanTask → String → Call W HealingReply)
    (adapters : List (Adapter W)) (lower : String → String) (join : List String → String) where
  planned-IsUnfinished :
      (store : LearningStore) (fuel : ℕ) (input : UserInput) (tasks : List PlanTask) (i : ℕ)
      (m : Machine W)
      → tasks ≡ build_initial_plan lower join input
      → i ≡ 0
      → IsUnfinished
          (run_tasks rules heal adapters fuel (drop i (map (with_retry_limit store) tasks)) i m)
  unfolding build_initial_plan checkpoint_task
  planned-IsUnfinished store fuel input tasks i m p z =
      let limited = with_retry_limit store in
      rw (p, z)
        (run_tasks-IsUnfinished rules heal adapters fuel (limited (intake_task lower join input))
          (limited (scaffold_task lower join input) ∷ limited (command_task input) ∷ [])
          (limited checkpoint_task) [] 0 m
          (with_retry_limit-needs_approval store rules checkpoint_task))

  -- A run that starts at the first task of an initial plan does not complete, whether it is approved
  -- or not, and whatever the policy, the adapters and the learned retry limits: its checkpoint asks
  -- for an approval of its own.
  pub initial_plan-IsUnfinished :
      (store : LearningStore) (fuel : ℕ) (input : UserInput) (m : Machine W)
      → m.bundle.tasks ≡ build_initial_plan lower join input
      → m.bundle.state.current_step_index ≡ 0
      → IsUnfinished (execute_run_bundle rules heal adapters store fuel m)
  unfolding execute_run_bundle run_remaining start_run optimize set_tasks ◌>>=◌ update_state
      write_audit
  initial_plan-IsUnfinished store fuel input m p z =
      elim (Bool-cases (any (has_suggestion store) m.bundle.tasks)) [
        | inl e ↦ rw e (planned-IsUnfinished store fuel input _ _ _ p z)
        | inr e ↦ rw e (planned-IsUnfinished store fuel input _ _ _ p z)
      ]
