-- ===== src/Automation/Orchestrator.antt =====
-- apps/control-service/src/services/automation-orchestrator.ts: the cycles over the services, by mode,
-- and the timer that starts them. The metrics, which the source makes up, and the clock are arguments.
-- The auto-approvals and the test verification, which no cycle runs, are left out, as is the status.
mod Confined
mod Conserved
mod Leaks
mod Tests
use code_kit_ultra.Base.{
  String, ℕ, suc, ◌+◌, List, [], ◌∷◌, ◌++◌, Option, none, some, Bool, true, false, not, select,
  length, ◌==◌, if◌then◌else◌,
}
use code_kit_ultra.Governance.Numbers.{Numbers}
use code_kit_ultra.Automation.Rollbacks
use code_kit_ultra.Automation.Healing
use code_kit_ultra.Automation.Rollbacks.{
  RollbackAutomationService, RollbackStrategy, RollbackExecution, RollbackStatus, Cycle,
  evaluate_rollback_strategies,
}
use code_kit_ultra.Automation.Healing.{
  HealingEngine, HealingStrategy, HealingExecution, is_success, evaluate_and_heal,
}
use code_kit_ultra.Automation.Acknowledgments.{
  AlertAcknowledgmentService, AutoAcknowledgmentRule, register_rule, evaluate_alert_acknowledgments,
}

pub data AutomationMode : Type 0 where
  safe balanced aggressive : AutomationMode

pub record AutomationMetrics : Type 0 where
  pub alerts_auto_acknowledged : ℕ
  pub healing_strategies_triggered : ℕ
  pub rollbacks_executed : ℕ

-- `timers` are the intervals that run, by their numbers, `next` the number of the next one, and
-- `interval` the handle that the orchestrator keeps.
pub record AutomationOrchestrator (N : Type 0) : Type 0 where
  pub enabled : Bool
  pub mode : AutomationMode
  pub counters : AutomationMetrics
  pub alerts : AlertAcknowledgmentService N
  pub healing : HealingEngine N
  pub rollbacks : RollbackAutomationService N
  pub timers : List ℕ
  pub next : ℕ
  pub interval : Option ℕ

-- When the parts of a cycle start, and when its rollback ends.
pub record Tick (N : Type 0) : Type 0 where
  pub metrics : List (String × N)
  pub now : ℕ
  pub rollback_at : ℕ
  pub done : ℕ

-- `clearInterval`
unfoldable pub clear_interval : ℕ → List ℕ → List ℕ
clear_interval t timers = select (λ u. not (u == t)) timers

module _ {N : Type 0} where
  unfoldable pub register_alert_acknowledgment_rule :
      AutoAcknowledgmentRule N → AutomationOrchestrator N → AutomationOrchestrator N
  register_alert_acknowledgment_rule r s = record s { alerts = register_rule r s.alerts }

  unfoldable pub register_healing_strategy :
      HealingStrategy N → AutomationOrchestrator N → AutomationOrchestrator N
  register_healing_strategy x s = record s { healing = Healing.register_strategy x s.healing }

  unfoldable pub register_rollback_strategy :
      RollbackStrategy N → AutomationOrchestrator N → AutomationOrchestrator N
  register_rollback_strategy x s = record s {
    rollbacks = Rollbacks.register_strategy x s.rollbacks;
  }

  unfoldable pub start : AutomationOrchestrator N → AutomationOrchestrator N
  start s =
      if not s.enabled
      then s
      else record s { timers = s.timers ++ s.next ∷ []; next = suc s.next; interval = some s.next }

  unfoldable pub stop_at : Option ℕ → AutomationOrchestrator N → AutomationOrchestrator N
  stop_at none s = s
  stop_at (some t) s = record s { timers = clear_interval t s.timers; interval = none }

  unfoldable pub stop : AutomationOrchestrator N → AutomationOrchestrator N
  stop s = stop_at s.interval s

  unfoldable pub set_mode : AutomationMode → AutomationOrchestrator N → AutomationOrchestrator N
  set_mode m s = record s { mode = m }

  unfoldable pub set_enabled : Bool → AutomationOrchestrator N → AutomationOrchestrator N
  set_enabled true s = start (record s { enabled = true })
  set_enabled false s = stop (record s { enabled = false })

  unfoldable pub healed : List (HealingExecution N) → ℕ
  healed es = length (select (λ (e : HealingExecution N). is_success e.status) es)

  unfoldable pub count_rollback : Option (RollbackExecution N) → ℕ
  count_rollback none = 0
  count_rollback (some e) = elim e.status [ RollbackStatus.success ↦ 1 | _ ↦ 0 ]

  -- `decimal` is the text of a number.
  module _ (decimal : ℕ → String) (num : Numbers N) where
    unfoldable pub acknowledge_alerts : Tick N → AutomationOrchestrator N → AutomationOrchestrator N
    acknowledge_alerts c s =
        let (count, alerts) = evaluate_alert_acknowledgments num decimal c.now c.metrics s.alerts in
        record s {
          alerts = alerts;
          counters = record (s.counters) {
            alerts_auto_acknowledged = s.counters.alerts_auto_acknowledged + count;
          };
        }

    unfoldable pub heal_strategies : Tick N → AutomationOrchestrator N → AutomationOrchestrator N
    heal_strategies c s =
        let (es, healing) = evaluate_and_heal num decimal c.now c.metrics s.healing in
        record s {
          healing = healing;
          counters = record (s.counters) {
            healing_strategies_triggered = s.counters.healing_strategies_triggered + healed es;
          };
        }

    unfoldable pub roll_back_strategies :
        Tick N → AutomationOrchestrator N → AutomationOrchestrator N
    roll_back_strategies c s =
        let (e, rollbacks) =
          evaluate_rollback_strategies decimal num
            (record { now = c.rollback_at; done = c.done; metrics = c.metrics }) s.rollbacks in
        record s {
          rollbacks = rollbacks;
          counters = record (s.counters) {
            rollbacks_executed = s.counters.rollbacks_executed + count_rollback e;
          };
        }

    unfoldable pub run_safe_automations :
        Tick N → AutomationOrchestrator N → AutomationOrchestrator N
    run_safe_automations c s = acknowledge_alerts c s

    unfoldable pub run_balanced_automations :
        Tick N → AutomationOrchestrator N → AutomationOrchestrator N
    run_balanced_automations c s = heal_strategies c (acknowledge_alerts c s)

    unfoldable pub run_aggressive_automations :
        Tick N → AutomationOrchestrator N → AutomationOrchestrator N
    run_aggressive_automations c s =
        roll_back_strategies c (heal_strategies c (acknowledge_alerts c s))

    unfoldable pub run_in_mode :
        AutomationMode → Tick N → AutomationOrchestrator N → AutomationOrchestrator N
    run_in_mode safe c s = run_safe_automations c s
    run_in_mode balanced c s = run_balanced_automations c s
    run_in_mode aggressive c s = run_aggressive_automations c s

    unfoldable pub run_automation_cycle :
        Tick N → AutomationOrchestrator N → AutomationOrchestrator N
    run_automation_cycle c s = run_in_mode s.mode c s
