-- ===== src/Execution/Run.antt =====
-- execution-engine.ts, lines 480 to 639, resume-run.ts, and learning/src/execution-optimizer.ts.
use code_kit_ultra.Base.{
  String, ℕ, ◌+◌, ◌-◌, List, [], ◌∷◌, map, Option, none, some, Bool, true, false, ◌||◌, same, any,
  find, find_index, get_elem?, drop, last?, length, is_some, if◌then◌else◌,
}
use code_kit_ultra.Shared.{PlanTask, RunStatus, StepStatus, Bundle, Payload}
use code_kit_ultra.Core.PolicyEngine.{PolicyRules}
use code_kit_ultra.Execution.Machine.{
  M, Call, returned, pure, gets, throw, call, ◌>>=◌, ◌>>◌, AuditAction, Adapter, HealingReply,
}
use code_kit_ultra.Execution.Writes.{
  write_audit, push_step_log, upsert_adapter_summary, update_state, mark_state, record_outcome,
}
use code_kit_ultra.Execution.Attempt.{
  StepResult, done, stopped, waiting, blank_log, adapter_summary,
}
use code_kit_ultra.Execution.Task.{find_adapter, execute_task}
use Prim.Native.String

-- What the optimizer reads of the learning store: overlays and reliabilities by adapter. `weak` is
-- the comparison `reliabilityScore < 0.75`.
pub record Overlay : Type 0 where
  pub adapter_id : String
  pub suggested_max_retries : ℕ

pub record Reliability : Type 0 where
  pub adapter_id : String
  pub weak : Bool

pub record LearningStore : Type 0 where
  pub overlays : List Overlay
  pub reliability : List Reliability

-- `new Map(xs.map(x => [x.adapterId, x])).get(id)`: the last entry of a key counts.
unfoldable pub overlay_of : List Overlay → String → Option Overlay
overlay_of [] id = none
overlay_of (x ∷ xs) id = elim (overlay_of xs id) [
  | none ↦ if same x.adapter_id id then some x else none
  | some y ↦ some y
]

unfoldable pub reliability_of : List Reliability → String → Option Reliability
reliability_of [] id = none
reliability_of (x ∷ xs) id = elim (reliability_of xs id) [
  | none ↦ if same x.adapter_id id then some x else none
  | some y ↦ some y
]

-- Whether the optimizer has a suggestion for the task.
unfoldable pub has_suggestion : LearningStore → PlanTask → Bool
has_suggestion store task =
    is_some (overlay_of store.overlays task.adapter_id)
    || elim (reliability_of store.reliability task.adapter_id) [ none ↦ false | some r ↦ r.weak ]

-- `optimizeTasks` and the assignment of its retry limit to the task's retry policy.
unfoldable pub with_retry_limit : LearningStore → PlanTask → PlanTask
with_retry_limit store task = elim (overlay_of store.overlays task.adapter_id) [
  | none ↦ task
  | some o ↦ record task { max_attempts = some o.suggested_max_retries }
]

-- `bundle.state.status === "planned" ? "running" : bundle.state.status`
unfoldable pub started : RunStatus → RunStatus
started RunStatus.planned = RunStatus.running
started RunStatus.running = RunStatus.running
started RunStatus.paused = RunStatus.paused
started RunStatus.completed = RunStatus.completed
started RunStatus.failed = RunStatus.failed
started RunStatus.cancelled = RunStatus.cancelled

abbrev pub is_failed : RunStatus → Bool
is_failed RunStatus.failed = true
is_failed _ = false

abbrev pub is_completed : RunStatus → Bool
is_completed RunStatus.completed = true
is_completed _ = false

-- `targetStepId ?? bundle.plan.tasks[bundle.state.currentStepIndex]?.id`
unfoldable pub retry_target : Option String → Bundle → Option String
retry_target (some id) b = some id
retry_target none b = elim (get_elem? b.tasks b.state.current_step_index) [
  | none ↦ none
  | some task ↦ some task.id
]

unfoldable pub index_of : Option String → List PlanTask → Option ℕ
index_of none tasks = none
index_of (some id) tasks = find_index (λ t. same t.id id) tasks

-- `targetStepId ?? bundle.executionLog.steps.at(-1)?.stepId`
unfoldable pub rollback_target : Option String → Bundle → Option String
rollback_target (some id) b = some id
rollback_target none b = elim (last? b.steps) [ none ↦ none | some s ↦ some s.step_id ]

unfoldable pub task_of : Option String → List PlanTask → Option PlanTask
task_of none tasks = none
task_of (some id) tasks = find (λ t. same t.id id) tasks

module _ {W : Type 0} where
  unfoldable pub undo_of : Option (Adapter W) → Option (Payload → Call W (Unit {0}))
  undo_of none = none
  undo_of (some a) = a.rollback

  -- Lines 481 to 483.
  unfoldable pub start_run : M W (Unit {0})
  start_run = update_state λ s. record s { status = started s.status; pause_reason = none }

  -- Lines 485 to 513. The changed retry policies are not written to the run's directory.
  unfoldable pub set_tasks : List PlanTask → M W (Unit {0})
  set_tasks tasks m = (returned tt, record m { bundle = record (m.bundle) { tasks = tasks } })

  unfoldable pub optimize : LearningStore → M W (Unit {0})
  optimize store = do
    tasks ← gets (λ m. m.bundle.tasks)
    set_tasks (map (with_retry_limit store) tasks)
    if any (has_suggestion store) tasks
        then write_audit AuditAction.optimizer_suggestions_applied none
        else pure tt

  -- Lines 528 to 550.
  unfoldable pub complete_run : M W (Unit {0})
  complete_run = do
    tasks ← gets (λ m. m.bundle.tasks)
    write_audit AuditAction.run_completed none
    mark_state RunStatus.completed λ s. record s {
      current_step_index = length tasks;
      approval_required = false;
      pause_reason = none;
    }
    record_outcome true

  -- Lines 518 to 525.
  unfoldable pub end_early : M W (Unit {0})
  end_early = do
    status ← gets (λ m. m.bundle.state.status)
    if is_failed status then record_outcome false else pure tt

  unfoldable pub after_task : M W (Unit {0}) → StepResult → M W (Unit {0})
  after_task rest done = rest
  after_task rest stopped = end_early
  after_task rest waiting = end_early

  -- `loadRunBundle`, and the error where it answers null
  unfoldable pub reload : M W (Unit {0})
  reload m = (returned tt, record m { bundle = m.saved })

  unfoldable pub load : String → M W (Unit {0})
  load message = do found ← gets (λ m. m.on_disk); if found then reload else throw message

module _ {W : Type 0} (rules : PolicyRules) (heal : PlanTask → String → Call W HealingReply)
    (adapters : List (Adapter W)) where
  -- Lines 515 to 550: the tasks from `index` on.
  unfoldable pub run_tasks : ℕ → List PlanTask → ℕ → M W (Unit {0})
  run_tasks fuel [] index = complete_run
  run_tasks fuel (task ∷ tasks) index = do
    r ← execute_task rules heal adapters fuel task index
    after_task (run_tasks fuel tasks (index + 1)) r

  unfoldable pub run_remaining : ℕ → M W (Unit {0})
  run_remaining fuel = do
    b ← gets (λ m. m.bundle)
    run_tasks fuel (drop b.state.current_step_index b.tasks) b.state.current_step_index

  -- `executeRunBundle`
  unfoldable pub execute_run_bundle : LearningStore → ℕ → M W (Unit {0})
  execute_run_bundle store fuel = do start_run; optimize store; run_remaining fuel

  -- `resumeRun`
  unfoldable pub resume_loaded : LearningStore → ℕ → M W (Unit {0})
  resume_loaded store fuel = do
    status ← gets (λ m. m.bundle.state.status)
    if is_completed status then pure tt else execute_run_bundle store fuel

  unfoldable pub approve_if : Bool → M W (Unit {0})
  approve_if false = pure tt
  approve_if true = update_state λ s. record s { approved = true; approval_required = false }

  unfoldable pub resume_run : LearningStore → ℕ → Bool → M W (Unit {0})
  resume_run store fuel approve = do
    load "Run not found"
    approve_if approve
    resume_loaded store fuel

  -- Lines 561 to 584.
  unfoldable pub retry_at : ℕ → Option String → ℕ → Option PlanTask → M W (Unit {0})
  retry_at fuel step index none = throw "Step not found"
  retry_at fuel step index (some task) = do
    update_state λ s. record s {
      current_step_index = index;
      status = RunStatus.running;
      pause_reason = none;
    }
    write_audit AuditAction.step_retry_requested step
    execute_task rules heal adapters fuel task index
    load "Run bundle not found after retry"

  unfoldable pub retry_index : ℕ → Option String → Option ℕ → M W (Unit {0})
  retry_index fuel step none = throw "Step not found"
  retry_index fuel step (some index) = do
    tasks ← gets (λ m. m.bundle.tasks)
    retry_at fuel step index (get_elem? tasks index)

  -- `retryTask`
  unfoldable pub retry_loaded : ℕ → Option String → M W (Unit {0})
  unfolding retry_target index_of
  retry_loaded fuel target = do
    b ← gets (λ m. m.bundle)
    let step = retry_target target b
    retry_index fuel step (index_of step b.tasks)

  unfoldable pub retry_task : ℕ → Option String → M W (Unit {0})
  retry_task fuel target = do load "Run bundle not found"; retry_loaded fuel target

  -- Lines 598 to 638.
  unfoldable pub undo_task : PlanTask → Payload → (Payload → Call W (Unit {0})) → M W (Unit {0})
  undo_task task payload undo = do
    call (undo payload)
    write_audit AuditAction.task_rollback_manual (some task.id)
    let entry = blank_log task 1 StepStatus.rolled_back
    push_step_log (record entry {
      title = String.◌++◌ task.title " manual rollback";
      output = some "Manual rollback completed.";
      rollback_available = true;
    })
    upsert_adapter_summary
        (adapter_summary task StepStatus.rolled_back 1 "Manual rollback completed.")
    update_state λ s. record s { current_step_index = s.current_step_index - 1 }
    load "Run bundle not found after rollback"

  unfoldable pub undo_by :
      PlanTask → Option (Payload → Call W (Unit {0})) → Option Payload → M W (Unit {0})
  undo_by task none payload = throw "Rollback not available for step"
  undo_by task (some undo) none = throw "Rollback not available for step"
  undo_by task (some undo) (some payload) = undo_task task payload undo

  unfoldable pub rollback_found : Option PlanTask → M W (Unit {0})
  unfolding undo_of
  rollback_found none = throw "Step not found for rollback"
  rollback_found (some task) =
      undo_by task (undo_of (find_adapter adapters task.adapter_id)) task.rollback_payload

  -- `rollbackTask`
  unfoldable pub rollback_loaded : Option String → M W (Unit {0})
  unfolding rollback_target task_of
  rollback_loaded target = do
    b ← gets (λ m. m.bundle)
    rollback_found (task_of (rollback_target target b) b.tasks)

  unfoldable pub rollback_task : Option String → M W (Unit {0})
  rollback_task target = do load "Run bundle not found"; rollback_loaded target
