-- ===== src/Execution/Attempt.antt =====
-- execution-engine.ts, lines 234 to 478: the loop over the attempts of one task, with the healing
-- of a failed last attempt and the rollback.
use code_kit_ultra.Base.{
  String, ℕ, zero, suc, ◌+◌, Option, none, some, true, false, leb, ◌==◌, is_some, or_default,
  if◌then◌else◌,
}
use code_kit_ultra.Shared.{
  PlanTask, RunStatus, StepStatus, StepLog, AdapterSummary, ExecutionRisk, Payload,
}
use code_kit_ultra.Execution.Machine.{
  M, Call, Reply, ok, raised, out_of_fuel, pure, call, try_call, ◌>>=◌, ◌>>◌, AuditAction, Adapter,
  Simulation, Verification, ExecuteResult, HealingReply,
}
use code_kit_ultra.Execution.Writes.{
  write_audit, push_step_log, upsert_adapter_summary, update_state, mark_state,
}
use Prim.Native.String

-- `{ completed: true }`, `{ completed: false }` and `{ completed: false, paused: true }`
pub data StepResult : Type 0 where
  done stopped waiting : StepResult

-- What the engine knows of a task when it comes to the attempts.
pub record Step (W : Type 0) : Type 0 where
  pub task : PlanTask
  pub index : ℕ
  pub adapter : Adapter W
  pub simulation : Option Simulation
  pub risk : ExecutionRisk

unfoldable pub summary_of : Option Simulation → Option String
summary_of none = none
summary_of (some s) = some s.summary

-- The entry that all log entries of a task share.
unfoldable pub blank_log : PlanTask → ℕ → StepStatus → StepLog
blank_log task attempt status = record {
  step_id = task.id;
  title = task.title;
  adapter = task.adapter_id;
  attempt = attempt;
  status = status;
  output = none;
  error = none;
  rollback_available = is_some task.rollback_payload;
  risk = none;
  simulation_summary = none;
  verified = none;
  verification_summary = none;
  fix_suggestion = none;
}

unfoldable pub adapter_summary : PlanTask → StepStatus → ℕ → String → AdapterSummary
adapter_summary task status attempts output = record {
  task_id = task.id;
  adapter = task.adapter_id;
  status = status;
  attempts = attempts;
  output = output;
}

-- `a || b` on texts
abbrev pub or_text : Option String → String → String
or_text none d = d
or_text (some String.[]) d = d
or_text (some (String.◌∷◌ c s)) d = String.◌∷◌ c s

-- The `try` of an attempt up to the two `throw`s: the output and the verification's summary.
check_verified : ExecuteResult → Reply Verification → Reply (String × String)
check_verified r (raised e) = raised e
check_verified r (ok v) =
    if v.ok
    then ok (or_default r.output "Execution succeeded.", v.summary)
    else raised (String.◌++◌ "Verification failed: " v.summary)

module _ {W : Type 0} where
  accept :
      Option (Payload → ExecuteResult → Call W Verification)
      → Payload
      → ExecuteResult
      → Call W Verification
  accept none payload r w = (
    ok (record { ok = true; summary = "No verification hook; accepting successful execution." }),
    w,
  )
  accept (some verify) payload r w = verify payload r w

  after_execute : Step W → Reply ExecuteResult → Call W (String × String)
  unfolding accept check_verified
  after_execute s (raised e) w = (raised e, w)
  after_execute s (ok r) w =
      let (v, w') = accept s.adapter.verify s.task.payload r w in
      if r.success
      then (check_verified r v, w')
      else (raised (or_text r.error "Unknown adapter error"), w)

  unfoldable pub perform : Step W → Call W (String × String)
  unfolding after_execute
  perform s w = let (r, w') = s.adapter.execute s.task.payload w in after_execute s r w'

  -- `markState(bundle, "failed", { currentStepIndex: index }); return { completed: false };`
  unfoldable pub fail_task : ℕ → M W StepResult
  fail_task index = do
    mark_state RunStatus.failed (λ r. record r { current_step_index = index })
    pure stopped

  -- Lines 264 to 308.
  unfoldable pub succeed : Step W → ℕ → String × String → M W StepResult
  succeed s attempt (output, verification) = do
    write_audit AuditAction.step_execution_succeeded (some s.task.id)
    let entry = blank_log s.task attempt StepStatus.success
    push_step_log (record entry {
      output = some output;
      risk = some s.risk;
      simulation_summary = summary_of s.simulation;
      verified = some true;
      verification_summary = some verification;
    })
    upsert_adapter_summary (adapter_summary s.task StepStatus.success attempt output)
    update_state λ r. record r {
      current_step_index = s.index + 1;
      approval_required = false;
      approved = false;
    }
    pure done

  -- `adapter.suggestFix ? await adapter.suggestFix(error, payload) : undefined`
  unfoldable pub suggest_by :
      Option (String → Payload → Call W String) → String → Payload → M W (Option String)
  suggest_by none message payload = pure none
  suggest_by (some fix) message payload = do text ← call (fix message payload); pure (some text)

  abbrev pub suggest : Adapter W → String → Payload → M W (Option String)
  suggest adapter message payload = suggest_by adapter.suggest_fix message payload

  -- Lines 430 to 458.
  unfoldable pub roll_back_by :
      Step W → ℕ → Option Payload → Option (Payload → Call W (Unit {0})) → M W (Unit {0})
  roll_back_by s attempt none undo = pure tt
  roll_back_by s attempt (some payload) none = pure tt
  roll_back_by s attempt (some payload) (some undo) = do
    call (undo payload)
    write_audit AuditAction.rollback_completed (some s.task.id)
    let entry = blank_log s.task attempt StepStatus.rolled_back
    push_step_log (record entry {
      title = String.◌++◌ s.task.title " rollback";
      output = some "Rollback completed.";
      rollback_available = true;
      risk = some s.risk;
    })

  abbrev pub roll_back : Step W → ℕ → M W (Unit {0})
  roll_back s attempt = roll_back_by s attempt s.task.rollback_payload s.adapter.rollback

  -- Lines 430 to 467: the last attempt has failed and healing has not helped.
  unfoldable pub give_up : Step W → ℕ → String → Option String → M W StepResult
  give_up s attempt message fix = do
    roll_back s attempt
    upsert_adapter_summary (
        adapter_summary s.task StepStatus.failed attempt (elim fix [
          | none ↦ message
          | some f ↦ String.◌++◌ message (String.◌++◌ " | suggested fix: " f)
        ]))
    fail_task s.index

  -- Lines 390 to 396.
  unfoldable pub pause_healing : Step W → String → M W StepResult
  pause_healing s strategy = do
    mark_state RunStatus.paused λ r. record r {
      current_step_index = s.index;
      approval_required = true;
      pause_reason =
          some (String.◌++◌ "Healing strategy " (String.◌++◌ strategy " requires approval."));
    }
    pure waiting

  -- Lines 345 to 467, given what `healFailedStep` answered. `again` goes on with the next attempt.
  unfoldable pub after_healing :
      (ℕ → M W StepResult)
      → Step W
      → ℕ
      → ℕ
      → String
      → Option String
      → Reply HealingReply
      → M W StepResult
  after_healing again s attempt limit message fix (raised e) = do
    write_audit AuditAction.healing_engine_error (some s.task.id)
    give_up s attempt message fix
  after_healing again s attempt limit message fix (ok h) =
      if h.verified
      then (do
        write_audit AuditAction.healing_applied_and_verified (some s.task.id)
        again (limit + 1))
      else if h.approval_required
      then pause_healing s h.strategy
      else (do
        write_audit AuditAction.healing_attempted_but_escalated (some s.task.id)
        give_up s attempt message fix)

  -- Lines 313 to 469.
  unfoldable pub after_suggest :
      (PlanTask → String → Call W HealingReply)
      → (ℕ → M W StepResult)
      → Step W
      → ℕ
      → ℕ
      → String
      → Option String
      → M W StepResult
  after_suggest heal again s attempt limit message fix = do
    write_audit AuditAction.step_execution_failed (some s.task.id)
    let entry = blank_log s.task attempt StepStatus.failed
    push_step_log (record entry {
      error = some message;
      risk = some s.risk;
      simulation_summary = summary_of s.simulation;
      verified = some false;
      verification_summary = some message;
      fix_suggestion = fix;
    })
    if attempt == limit
        then (do
          h ← try_call (heal s.task message)
          after_healing again s attempt limit message fix h)
        else again limit

  -- Lines 309 to 469: the `catch` of an attempt.
  unfoldable pub fail_attempt :
      (PlanTask → String → Call W HealingReply)
      → (ℕ → M W StepResult)
      → Step W
      → ℕ
      → ℕ
      → String
      → M W StepResult
  fail_attempt heal again s attempt limit message = do
    fix ← suggest s.adapter message s.task.payload
    after_suggest heal again s attempt limit message fix

  unfoldable pub after_perform :
      (PlanTask → String → Call W HealingReply)
      → (ℕ → M W StepResult)
      → Step W
      → ℕ
      → ℕ
      → Reply (String × String)
      → M W StepResult
  after_perform heal again s attempt limit (ok out) = succeed s attempt out
  after_perform heal again s attempt limit (raised message) =
      fail_attempt heal again s attempt limit message

  -- Lines 237 to 470: one round of the loop.
  unfoldable pub attempt_once :
      (PlanTask → String → Call W HealingReply)
      → (ℕ → M W StepResult)
      → Step W
      → ℕ
      → ℕ
      → M W StepResult
  attempt_once heal again s attempt limit = do
    write_audit AuditAction.step_execution_started (some s.task.id)
    r ← try_call (perform s)
    after_perform heal again s attempt limit r

  -- Lines 234 to 478. `attempts fuel attempt limit`
  unfoldable pub attempts :
      (PlanTask → String → Call W HealingReply) → ℕ → Step W → ℕ → ℕ → M W StepResult
  attempts heal zero s attempt limit = λ m. (out_of_fuel, m)
  attempts heal (suc fuel) s attempt limit =
      if leb attempt limit
      then attempt_once heal (attempts heal fuel s (attempt + 1)) s attempt limit
      else fail_task s.index
