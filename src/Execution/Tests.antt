-- ===== src/Execution/Tests.antt =====
-- The engine at concrete inputs: an adapter whose world counts its executions, and that fails while
-- the count is below its patience.
use code_kit_ultra.Base.{
  String, ℕ, zero, suc, ◌<◌, ◌+◌, ◌≡◌, refl, List, [], ◌∷◌, none, some, Bool, true, false, ltb,
  arith,
}
use code_kit_ultra.Shared.{PlanTask, RunState, RunStatus, Bundle, ExecutionRisk, Payload}
use code_kit_ultra.Core.PolicyEngine.{default_rules}
use code_kit_ultra.Execution.Machine.{
  Machine, Call, ok, raised, Adapter, ExecuteResult, HealingReply,
}
use code_kit_ultra.Execution.Attempt.{Step, perform}
use code_kit_ultra.Execution.Task.{execute_task}
use code_kit_ultra.Execution.Run.{LearningStore, execute_run_bundle, run_tasks}
use code_kit_ultra.Execution.Durable.{
  IsSynced, IsDistinct, execute_run_bundle-IsSynced, execute_run_bundle-IsDistinct,
}
use code_kit_ultra.Execution.History.{Grows, execute_run_bundle-Grows}
use code_kit_ultra.Execution.RunEnds.{RunEnded, execute_run_bundle-RunEnded}
use code_kit_ultra.Execution.Approval.{IsHeld, execute_task-IsHeld}
use code_kit_ultra.Execution.OneApproval.{IsUnfinished, run_tasks-IsUnfinished}
use code_kit_ultra.Execution.Termination.{IsTotal, IsBudget, attempts-IsTotal}
use code_kit_ultra.Execution.Attempt.{attempts}

abbrev count_up : ℕ → Payload → Call ℕ ExecuteResult
count_up patience p w =
    (ok (record { success = ltb patience (w + 1); output = none; error = none }), w + 1)

abbrev counter : String → ℕ → Adapter ℕ
counter id patience = record {
  id = id;
  validate = λ p w. (ok true, w);
  simulate = none;
  estimate_risk = some (λ p w. (ok ExecutionRisk.low, w));
  execute = count_up patience;
  verify = none;
  suggest_fix = none;
  rollback = none;
}

abbrev task : String → String → Bool → PlanTask
task id adapter gated = record {
  id = id;
  title = id;
  adapter_id = adapter;
  payload = [];
  requires_approval = gated;
  max_attempts = some 2;
  rollback_payload = none;
}

abbrev state : RunState
state = record {
  run_id = "run-1";
  current_step_index = 0;
  status = RunStatus.planned;
  pause_reason = none;
  approval_required = false;
  approved = false;
}

abbrev pub machine : List PlanTask → Bool → Machine ℕ
machine tasks approved =
    let b : Bundle = record {
      state = record state { approved = approved };
      tasks = tasks;
      executions = [];
      steps = [];
    } in
    record {
      bundle = b;
      saved = b;
      on_disk = true;
      puts = [];
      audit = [];
      outcomes = [];
      world = 0;
    }

abbrev pub store : LearningStore
store = record { overlays = []; reliability = [] }

abbrev pub adapters : List (Adapter ℕ)
adapters = counter "file-system" 0 ∷ counter "terminal" 1 ∷ []

abbrev pub no_heal : PlanTask → String → Call ℕ HealingReply
no_heal t e w = (ok (record { verified = false; approval_required = false; strategy = "none" }), w)

abbrev always_heal : PlanTask → String → Call ℕ HealingReply
always_heal t e w =
    (ok (record { verified = true; approval_required = false; strategy = "retry" }), w)

abbrev plan : List PlanTask
plan = task "a" "file-system" false ∷ task "b" "terminal" false ∷ task "c" "terminal" true ∷ []

execute_run_bundle-IsSynced_example :
    IsSynced (execute_run_bundle default_rules no_heal adapters store 5 (machine plan false)).1
execute_run_bundle-IsSynced_example =
    execute_run_bundle-IsSynced default_rules no_heal adapters store 5 (machine plan false)
      (record {
        state = refl;
        steps = refl;
        executions = refl;
        state_put = refl;
        steps_put = refl;
        executions_put = refl;
      })

execute_run_bundle-IsDistinct_example :
    IsDistinct
      (execute_run_bundle default_rules no_heal adapters store 5
        (machine plan false)).1.bundle.executions
execute_run_bundle-IsDistinct_example =
    execute_run_bundle-IsDistinct default_rules no_heal adapters store 5 (machine plan false) tt

execute_run_bundle-Grows_example :
    Grows
      (machine plan false)
      (execute_run_bundle default_rules no_heal adapters store 5 (machine plan false)).1
execute_run_bundle-Grows_example =
    execute_run_bundle-Grows default_rules no_heal adapters store 5 (machine plan false)

execute_run_bundle-RunEnded_example :
    let r = execute_run_bundle default_rules no_heal adapters store 5 (machine plan false) in
    RunEnded [] r.0 r.1
execute_run_bundle-RunEnded_example =
    execute_run_bundle-RunEnded default_rules no_heal adapters store 5 (machine plan false)

execute_task-IsHeld_example : IsHeld (machine plan false) (
    execute_task default_rules no_heal adapters 5 (task "c" "terminal" true) 2 (machine plan false))
execute_task-IsHeld_example =
    execute_task-IsHeld default_rules no_heal adapters 5 (task "c" "terminal" true) 2
      (machine plan false) refl refl

run_tasks-IsUnfinished_example :
    IsUnfinished (run_tasks default_rules no_heal adapters 5 plan 0 (machine plan true))
run_tasks-IsUnfinished_example =
    run_tasks-IsUnfinished default_rules no_heal adapters 5 (task "a" "file-system" false)
      (task "b" "terminal" false ∷ []) (task "c" "terminal" true) [] 0 (machine plan true) refl

abbrev step : ℕ → Step ℕ
step patience = record {
  task = task "b" "terminal" false;
  index = 1;
  adapter = counter "terminal" patience;
  simulation = none;
  risk = ExecutionRisk.low;
}

abbrev broken : Step ℕ
broken = record (step 0) {
  adapter = record (counter "terminal" 0) { execute = λ p w. (raised "timeout", w) };
}

-- A healing service that repairs a step as often as its world still says.
abbrev heal_while : ℕ → Call ℕ HealingReply
heal_while zero w =
    (ok (record { verified = false; approval_required = false; strategy = "retry" }), w)
heal_while (suc n) w =
    (ok (record { verified = true; approval_required = false; strategy = "retry" }), n)

abbrev heal_some : PlanTask → String → Call ℕ HealingReply
heal_some t e w = heal_while w w

budget_spends :
    (w : ℕ) (h : HealingReply)
    → (heal_while w w).0 ≡ ok h
    → h.verified ≡ true
    → (heal_while w w).1 < w
budget_spends zero h e v = cc
budget_spends (suc n) h e v = omega arith

budget : IsBudget heal_some broken (λ w. w)
unfolding perform
budget = record {
  spends = λ e w h. budget_spends w h;
  performs = λ w. omega arith;
  suggests = λ f e w h. cc;
}

attempts-IsTotal_example :
    IsTotal (attempts heal_some 6 broken 1 2 (record (machine plan false) { world = 3 }))
attempts-IsTotal_example =
    attempts-IsTotal broken heal_some (λ w. w) budget 6 2
      (record (machine plan false) { world = 3 }) (omega arith)
