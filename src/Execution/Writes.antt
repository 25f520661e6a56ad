-- ===== src/Execution/Writes.antt =====
-- execution-engine.ts: `pushStepLog`, `upsertAdapterSummary`, `markState`, `computeMetrics` and the
-- writes to the audit log. Each also writes its part of the bundle to the
-- run's directory, and starts a put of it.
use code_kit_ultra.Base.{
  String, ℕ, ◌+◌, ◌-◌, List, [], ◌∷◌, ◌++◌, map, Option, Bool, same, includes, if◌then◌else◌,
}
use code_kit_ultra.Shared.{RunState, RunStatus, StepLog, AdapterSummary}
use code_kit_ultra.Execution.Machine.{
  M, returned, AuditAction, RunOutcome, put_state, put_steps, put_executions,
}

-- `dedupe`: `Array.from(new Set(xs))`, which keeps the first of equal items.
unfoldable pub insert_new : List String → List String → List String
insert_new seen [] = seen
insert_new seen (x ∷ xs) = insert_new (if includes x seen then seen else seen ++ x ∷ []) xs

unfoldable pub upsert : AdapterSummary → List AdapterSummary → List AdapterSummary
upsert s [] = s ∷ []
upsert s (x ∷ xs) = if same x.task_id s.task_id then s ∷ xs else x ∷ upsert s xs

unfoldable pub retry_count : List StepLog → ℕ
retry_count [] = 0
retry_count (s ∷ ss) = (s.attempt - 1) + retry_count ss

module _ {W : Type 0} where
  unfoldable pub write_audit : AuditAction → Option String → M W (Unit {0})
  write_audit action step m =
      (returned tt, record m { audit = m.audit ++ record { action = action; step_id = step } ∷ [] })

  unfoldable pub push_step_log : StepLog → M W (Unit {0})
  push_step_log entry m =
      let steps = m.bundle.steps ++ entry ∷ [] in
      (
        returned tt,
        record m {
          bundle = record (m.bundle) { steps = steps };
          saved = record (m.saved) { steps = steps };
          puts = m.puts ++ put_steps steps ∷ [];
        },
      )

  unfoldable pub upsert_adapter_summary : AdapterSummary → M W (Unit {0})
  upsert_adapter_summary summary m =
      let executions = upsert summary m.bundle.executions in
      (
        returned tt,
        record m {
          bundle = record (m.bundle) { executions = executions };
          saved = record (m.saved) { executions = executions };
          puts = m.puts ++ put_executions executions ∷ [];
        },
      )

  -- The assignment of a new state followed by `updateRunState`.
  unfoldable pub update_state : (RunState → RunState) → M W (Unit {0})
  update_state change m =
      let state = change m.bundle.state in
      (
        returned tt,
        record m {
          bundle = record (m.bundle) { state = state };
          saved = record (m.saved) { state = state };
          puts = m.puts ++ put_state state ∷ [];
        },
      )

  -- `markState(bundle, status, extras)`
  abbrev pub mark_state : RunStatus → (RunState → RunState) → M W (Unit {0})
  mark_state status extras = update_state λ s. let s' = extras s in record s' { status = status }

  -- `computeMetrics` and `recordRunOutcome`, without the times
  unfoldable pub record_outcome : Bool → M W (Unit {0})
  record_outcome success m =
      let outcome : RunOutcome = record {
        success = success;
        retry_count = retry_count m.bundle.steps;
        adapters_used = insert_new [] (map (λ s. s.adapter) m.bundle.steps);
      } in
      (returned tt, record m { outcomes = m.outcomes ++ outcome ∷ [] })
