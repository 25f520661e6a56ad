-- ===== src/Automation/Orchestrator/Conserved.antt =====
-- automation-orchestrator.ts, lines 137 to 209: the counter of the acknowledged alerts.
use code_kit_ultra.Base.{String, ℕ, ◌+◌, ◌≡◌, refl, List, [], ◌∷◌, IsMap, length, arith}
use code_kit_ultra.Governance.Numbers.{Numbers}
use code_kit_ultra.Automation.Acknowledgments.Counted.{evaluate_alert_acknowledgments-IsCounted}
use code_kit_ultra.Automation.Orchestrator.{
  AutomationMode, safe, balanced, aggressive, AutomationOrchestrator, Tick, set_mode,
  acknowledge_alerts, heal_strategies, roll_back_strategies, run_safe_automations,
  run_balanced_automations, run_aggressive_automations, run_in_mode, run_automation_cycle,
}
use code_kit_ultra.Automation.Orchestrator.Confined.{
  Step, cycle, change_mode, change_enabled, set_enabled-Leaves, take_step, take_steps,
}

module _ {N : Type 0} (decimal : ℕ → String) (num : Numbers N) where
  -- The counted alerts and the pending ones make up `total`.
  record IsConserved (total : ℕ) (s : AutomationOrchestrator N) : Type 0 where
    conserved : s.counters.alerts_auto_acknowledged + length s.alerts.pending_alerts ≡ total
    is_map : IsMap s.alerts.pending_alerts

  acknowledge-IsConserved :
      (total : ℕ) (c : Tick N) (s : AutomationOrchestrator N)
      → IsConserved total s
      → IsConserved total (acknowledge_alerts decimal num c s)
  unfolding acknowledge_alerts
  acknowledge-IsConserved total c s h =
      let k =
        evaluate_alert_acknowledgments-IsCounted num decimal c.now c.metrics s.alerts h.is_map in
      record { conserved = omega (arith, k.0, h.conserved); is_map = k.1 }

  run_in_mode-IsConserved :
      (total : ℕ) (m : AutomationMode) (c : Tick N) (s : AutomationOrchestrator N)
      → IsConserved total s
      → IsConserved total (run_in_mode decimal num m c s)
  unfolding run_in_mode run_safe_automations run_balanced_automations run_aggressive_automations
      heal_strategies roll_back_strategies
  run_in_mode-IsConserved total safe c s h = acknowledge-IsConserved total c s h
  run_in_mode-IsConserved total balanced c s h =
      let k = acknowledge-IsConserved total c s h in
      record { conserved = k.conserved; is_map = k.is_map }
  run_in_mode-IsConserved total aggressive c s h =
      let k = acknowledge-IsConserved total c s h in
      record { conserved = k.conserved; is_map = k.is_map }

  step-IsConserved :
      (total : ℕ) (x : Step N) (s : AutomationOrchestrator N)
      → IsConserved total s
      → IsConserved total (take_step decimal num x s)
  unfolding take_step run_automation_cycle set_mode
  step-IsConserved total (cycle c) s h = run_in_mode-IsConserved total s.mode c s h
  step-IsConserved total (change_mode m) s h = record { conserved = h.conserved; is_map = h.is_map }
  step-IsConserved total (change_enabled b) s h =
      let l = set_enabled-Leaves b s in
      record { conserved = rw (l.counters, l.alerts) h.conserved; is_map = rw l.alerts h.is_map }

  steps-IsConserved :
      (total : ℕ) (xs : List (Step N)) (s : AutomationOrchestrator N)
      → IsConserved total s
      → IsConserved total (take_steps decimal num xs s)
  unfolding take_steps
  steps-IsConserved total [] s h = h
  steps-IsConserved total (x ∷ xs) s h =
      steps-IsConserved total xs (take_step decimal num x s) (step-IsConserved total x s h)

  -- Where each alert is pending once, the counter of the acknowledged alerts and the number of the
  -- pending ones keep their sum, whatever the cycles, the rules and the changes of the configuration:
  -- no alert is counted twice or lost.
  pub take_steps-conserved :
      (xs : List (Step N)) (s : AutomationOrchestrator N)
      → IsMap s.alerts.pending_alerts
      → (take_steps decimal num xs s).counters.alerts_auto_acknowledged
          + length (take_steps decimal num xs s).alerts.pending_alerts
        ≡ s.counters.alerts_auto_acknowledged + length s.alerts.pending_alerts
  take_steps-conserved xs s m =
      (steps-IsConserved (s.counters.alerts_auto_acknowledged + length s.alerts.pending_alerts) xs s
        (record { conserved = refl; is_map = m })).conserved
