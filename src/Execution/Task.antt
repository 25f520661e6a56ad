-- ===== src/Execution/Task.antt =====
-- execution-engine.ts, lines 43 to 232: `executeTask` up to its attempts. The adapters, the policy and
-- `healFailedStep` are parameters of the section.
use code_kit_ultra.Base.{
  String, ℕ, List, Option, none, some, Bool, true, false, not, ◌&&◌, ◌||◌, same, find, or_default,
  if◌then◌else◌,
}
use code_kit_ultra.Shared.{PlanTask, RunStatus, StepStatus, ExecutionRisk, Payload}
use code_kit_ultra.Core.PolicyEngine.{PolicyRules, PolicyResult, evaluate_policy}
use code_kit_ultra.Execution.Machine.{
  M, Call, pure, gets, call, ◌>>=◌, ◌>>◌, AuditAction, Adapter, Simulation, HealingReply,
}
use code_kit_ultra.Execution.Writes.{write_audit, push_step_log, upsert_adapter_summary, mark_state}
use code_kit_ultra.Execution.Attempt.{
  StepResult, waiting, Step, summary_of, blank_log, adapter_summary, or_text, suggest, fail_task,
  attempts,
}
use Prim.Native.String

unfoldable pub risk_text : ExecutionRisk → String
risk_text ExecutionRisk.low = "low"
risk_text ExecutionRisk.medium = "medium"
risk_text ExecutionRisk.high = "high"

abbrev pub is_high : ExecutionRisk → Bool
is_high ExecutionRisk.high = true
is_high _ = false

abbrev pub simulation_asks : Option Simulation → Bool
simulation_asks none = false
simulation_asks (some s) = s.requires_approval

-- Line 152.
unfoldable pub requires_approval :
    PlanTask → PolicyResult → Option Simulation → ExecutionRisk → Bool
requires_approval task policy simulation risk =
    task.requires_approval || policy.requires_approval || simulation_asks simulation || is_high risk

module _ {W : Type 0} where
  -- `findAdapter`
  unfoldable pub find_adapter : List (Adapter W) → String → Option (Adapter W)
  find_adapter adapters id = find (λ a. same a.id id) adapters

  -- The three ways to fail before the first attempt share their last steps: lines 86 to 105.
  unfoldable pub fail_early :
      PlanTask
      → ℕ
      → String
      → Option ExecutionRisk
      → Option Simulation
      → Option String
      → M W StepResult
  fail_early task index error risk simulation fix = do
    let entry = blank_log task 1 StepStatus.failed
    push_step_log (record entry {
      error = some error;
      risk = risk;
      simulation_summary = summary_of simulation;
      fix_suggestion = fix;
    })
    upsert_adapter_summary (adapter_summary task StepStatus.failed 1 error)
    fail_task index

  -- Lines 149 to 150.
  unfoldable pub simulate_by :
      Option (Payload → Call W Simulation) → Payload → M W (Option Simulation)
  simulate_by none payload = pure none
  simulate_by (some simulate) payload = do s ← call (simulate payload); pure (some s)

  unfoldable pub estimate_by :
      Option (Payload → Call W ExecutionRisk) → Payload → Option Simulation → M W ExecutionRisk
  estimate_by assess payload (some s) = pure s.risk
  estimate_by none payload none = pure ExecutionRisk.medium
  estimate_by (some assess) payload none = call (assess payload)

  -- Lines 154 to 187.
  unfoldable pub pause_for_approval :
      PlanTask → ℕ → PolicyResult → Option Simulation → ExecutionRisk → M W StepResult
  unfolding risk_text
  pause_for_approval task index policy simulation risk = do
    mark_state RunStatus.paused λ r. record r {
      current_step_index = index;
      approval_required = true;
      pause_reason = some (
          or_text (summary_of simulation) (
            or_text (some policy.reason) (
              String.◌++◌ "Step " (
                String.◌++◌ task.id
                  (String.◌++◌ " requires approval (Risk: " (String.◌++◌ (risk_text risk) ")"))))));
    }
    let entry = blank_log task 0 StepStatus.paused
    push_step_log (record entry {
      output = some "Execution paused pending approval.";
      risk = some risk;
      simulation_summary = summary_of simulation;
    })
    write_audit AuditAction.approval_required (some task.id)
    pure waiting

  -- Lines 190 to 232, after `adapter.validate` has answered.
  unfoldable pub reject_invalid : Step W → M W StepResult
  reject_invalid s = do
    fix ← suggest s.adapter "Validation failed" s.task.payload
    write_audit AuditAction.validation_failed (some s.task.id)
    fail_early s.task s.index (String.◌++◌ "Validation failed for adapter " s.task.adapter_id)
        (some s.risk) s.simulation fix

module _ {W : Type 0} (rules : PolicyRules) (heal : PlanTask → String → Call W HealingReply) where
  -- Lines 190 to 477.
  unfoldable pub validate_and_run : ℕ → Step W → M W StepResult
  validate_and_run fuel s = do
    valid ← call (s.adapter.validate s.task.payload)
    if valid then attempts heal fuel s 1 (or_default s.task.max_attempts 1) else reject_invalid s

  -- Lines 152 to 477. `approved` is read when the gate is reached.
  unfoldable pub gate : ℕ → Step W → PolicyResult → M W StepResult
  gate fuel s policy = do
    approved ← gets (λ m. m.bundle.state.approved)
    if requires_approval s.task policy s.simulation s.risk && not approved
        then pause_for_approval s.task s.index policy s.simulation s.risk
        else validate_and_run fuel s

  -- Lines 147 to 477.
  unfoldable pub run_with : ℕ → PlanTask → ℕ → PolicyResult → Adapter W → M W StepResult
  run_with fuel task index policy adapter = do
    simulation ← simulate_by adapter.simulate task.payload
    risk ← estimate_by adapter.estimate_risk task.payload simulation
    gate fuel
        (record {
          task = task;
          index = index;
          adapter = adapter;
          simulation = simulation;
          risk = risk;
        })
        policy

  -- Lines 108 to 477.
  unfoldable pub with_adapter :
      ℕ → PlanTask → ℕ → PolicyResult → Option (Adapter W) → M W StepResult
  with_adapter fuel task index policy none = do
    write_audit AuditAction.adapter_not_found (some task.id)
    fail_early task index (String.◌++◌ "Adapter not found: " task.adapter_id) none none none
  with_adapter fuel task index policy (some adapter) = run_with fuel task index policy adapter

  -- Lines 67 to 477, given what `evaluatePolicy` answered.
  unfoldable pub with_policy : List (Adapter W) → ℕ → PlanTask → ℕ → PolicyResult → M W StepResult
  with_policy adapters fuel task index policy =
      if policy.allowed
      then with_adapter fuel task index policy (find_adapter adapters task.adapter_id)
      else (do
        write_audit AuditAction.policy_block (some task.id)
        fail_early task index (or_text (some policy.reason) "Blocked by policy") none none none)

  -- `executeTask`
  unfoldable pub execute_task : List (Adapter W) → ℕ → PlanTask → ℕ → M W StepResult
  execute_task adapters fuel task index = do
    write_audit AuditAction.task_execution_attempt (some task.id)
    with_policy adapters fuel task index (evaluate_policy rules task)
