-- ===== src/Automation/Healing/Tests.antt =====
-- Runs of the healing engine.
use code_kit_ultra.Base.{ℕ, ◌≡◌, refl, List, [], ◌∷◌, map, some, none, true, All}
use code_kit_ultra.Automation.Timers.{greater_than, metric_value, is_in_time, timeout_or}
use code_kit_ultra.Automation.Samples.{naturals, no_decimals}
use code_kit_ultra.Automation.Healing.{
  HealingStrategy, HealingExecution, HealingStatus, ConditionType, ActionType, new_engine,
  set_strategies, strategies_of, evaluate_and_heal, execute_strategy, find_applicable_strategies,
  track, track_since, keep_if, condition_met, evaluate_condition, condition_key, heal,
  complete_execution, perform_actions, push_performed, execute_action, action_time, action_delay,
  rollback, is_success, store_executions,
}
use code_kit_ultra.Automation.Healing.Outcome.{Outcome, execute_strategy-Outcome}
use code_kit_ultra.Automation.Healing.Tracking.{Evaluation, after, HasOwnKeys}
use code_kit_ultra.Automation.Healing.Persisted.{IsWarranted, healed_persisted}
use code_kit_ultra.Automation.Healing.Defaults.{
  IsUndone, default_healing_strategies, default_healing-IsUndone,
}

-- The second action is not in time and not critical, the third not in time and critical.
abbrev patient : HealingStrategy ℕ
patient = record {
  id = "patient";
  priority = 50;
  enabled = true;
  condition = record {
    condition_type = ConditionType.error_rate;
    metric = "error_rate";
    operator = greater_than;
    threshold = 5;
    duration = 20;
  };
  actions =
      record { action_type = ActionType.clear_cache; priority = 85; timeout = none }
      ∷ record { action_type = ActionType.rebalance_load; priority = 10; timeout = some 30 }
      ∷ record { action_type = ActionType.scale_up; priority = 90; timeout = some 60 }
      ∷ [];
}

abbrev seen_at : ℕ → Evaluation ℕ
seen_at t = record { now = t; metrics = ("error_rate", 20) ∷ [] }

abbrev statuses : List (HealingExecution ℕ) → List HealingStatus
statuses es = map (λ (e : HealingExecution ℕ). e.status) es

-- The condition has to last for 20 seconds.
patient_waits :
    statuses
      (evaluate_and_heal naturals no_decimals 15000
        (("error_rate", 20) ∷ [])
        (after no_decimals naturals (seen_at 0 ∷ []) (new_engine (patient ∷ [])))).0
    ≡ []
unfolding after evaluate_and_heal new_engine set_strategies strategies_of find_applicable_strategies
    track track_since keep_if condition_met evaluate_condition condition_key metric_value heal
patient_waits = refl

patient_heals :
    statuses
      (evaluate_and_heal naturals no_decimals 30000
        (("error_rate", 20) ∷ [])
        (after no_decimals naturals (seen_at 0 ∷ []) (new_engine (patient ∷ [])))).0
    ≡ HealingStatus.rolled_back ∷ []
unfolding after evaluate_and_heal new_engine set_strategies strategies_of find_applicable_strategies
    track track_since keep_if condition_met evaluate_condition condition_key metric_value heal
    execute_strategy complete_execution perform_actions push_performed execute_action is_in_time
    timeout_or action_time action_delay rollback is_success store_executions
patient_heals = refl

patient-HasOwnKeys : HasOwnKeys (strategies_of (new_engine (patient ∷ [])))
unfolding strategies_of new_engine set_strategies
patient-HasOwnKeys = (tt, tt)

execute_strategy-Outcome_example :
    Outcome patient.actions (execute_strategy no_decimals 0 patient (("error_rate", 20) ∷ []))
execute_strategy-Outcome_example =
    execute_strategy-Outcome no_decimals 0 patient (("error_rate", 20) ∷ [])

healed_persisted_example :
    All
      (IsWarranted no_decimals naturals (patient ∷ []) (seen_at 30000 ∷ seen_at 0 ∷ []) 30000)
      (evaluate_and_heal naturals no_decimals 30000
        (("error_rate", 20) ∷ [])
        (after no_decimals naturals (seen_at 0 ∷ []) (new_engine (patient ∷ [])))).0
healed_persisted_example =
    healed_persisted no_decimals naturals (patient ∷ []) patient-HasOwnKeys (seen_at 30000)
      (seen_at 0 ∷ [])

default_healing-IsUndone_example :
    All IsUndone
      (evaluate_and_heal naturals no_decimals 30000 (("error_rate", 20) ∷ []) (
        after no_decimals naturals
          (seen_at 0 ∷ [])
          (new_engine (default_healing_strategies naturals)))).0
default_healing-IsUndone_example =
    default_healing-IsUndone no_decimals naturals (seen_at 30000) (seen_at 0 ∷ [])
