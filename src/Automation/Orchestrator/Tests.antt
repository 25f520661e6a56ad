-- ===== src/Automation/Orchestrator/Tests.antt =====
-- Runs of the orchestrator over the services with their default rules and strategies.
use code_kit_ultra.Base.{ℕ, ◌+◌, ◌≡◌, refl, List, [], ◌∷◌, length, none, true, false}
use code_kit_ultra.Automation.Samples.{naturals, no_decimals}
use code_kit_ultra.Automation.Rollbacks
use code_kit_ultra.Automation.Healing
use code_kit_ultra.Automation.Acknowledgments
use code_kit_ultra.Automation.Acknowledgments.Defaults.{default_auto_ack_rules}
use code_kit_ultra.Automation.Orchestrator.{balanced, AutomationOrchestrator, Tick}
use code_kit_ultra.Automation.Orchestrator.Confined.{
  Step, cycle, change_enabled, highest_mode, IsConfined, take_steps, take_steps-IsConfined,
}
use code_kit_ultra.Automation.Orchestrator.Conserved.{take_steps-conserved}

-- Two alerts are pending, one of them for five minutes.
abbrev alerts : Acknowledgments.AlertAcknowledgmentService ℕ
alerts = record (Acknowledgments.new_acknowledgment_service (default_auto_ack_rules naturals)) {
  pending_alerts = ("old", 0) ∷ ("new", 290000) ∷ [];
}

abbrev orchestrator : AutomationOrchestrator ℕ
orchestrator = record {
  enabled = true;
  mode = balanced;
  counters = record {
    alerts_auto_acknowledged = 0;
    healing_strategies_triggered = 0;
    rollbacks_executed = 0;
  };
  alerts = alerts;
  healing = Healing.new_engine [];
  rollbacks = Rollbacks.new_service [];
  timers = [];
  next = 0;
  interval = none;
}

abbrev ill : Tick ℕ
ill = record {
  metrics = ("cpu_usage", 90) ∷ ("error_rate", 0) ∷ ("auth_failures_per_minute", 9) ∷ [];
  now = 300000;
  rollback_at = 300000;
  done = 300000;
}

abbrev steps : List (Step ℕ)
steps = change_enabled true ∷ cycle ill ∷ change_enabled false ∷ []

take_steps-IsConfined_example :
    IsConfined
      (highest_mode balanced steps)
      orchestrator
      (take_steps no_decimals naturals steps orchestrator)
take_steps-IsConfined_example = take_steps-IsConfined no_decimals naturals steps orchestrator

take_steps-conserved_example :
    (take_steps no_decimals naturals steps orchestrator).counters.alerts_auto_acknowledged
      + length (take_steps no_decimals naturals steps orchestrator).alerts.pending_alerts
    ≡ 2
take_steps-conserved_example =
    take_steps-conserved no_decimals naturals steps orchestrator (refl, (refl, tt))
