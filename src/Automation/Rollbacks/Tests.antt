-- ===== src/Automation/Rollbacks/Tests.antt =====
-- Runs of the rollback automation: one strategy, whose actions end in time and which allows two
-- rollbacks an hour.
use code_kit_ultra.Base.{
  ℕ, ◌+◌, ◌≤◌, ◌≡◌, refl, List, [], ◌∷◌, none, true, All, select, length, arith,
}
use code_kit_ultra.Automation.Samples.{naturals, no_decimals}
use code_kit_ultra.Automation.Timers.{greater_than, metric_value, is_in_time, timeout_or}
use code_kit_ultra.Automation.Rollbacks.{
  RollbackStrategy, TriggerType, ActionType, Cycle, new_service, run_cycles, set_strategies,
  evaluate_rollback_strategies, should_rollback, choose_strategy, get_all_strategies,
  is_in_cooldown, has_exceeded_rollback_limit, is_recent, times_of, check_limit, take_trigger,
  evaluate_trigger, roll_back_choice, execute_rollback, perform_actions, execute_rollback_action,
  action_delay, push_performed, complete_rollback, store_execution, record_rollback, push_execution,
}
use code_kit_ultra.Automation.Rollbacks.Counts.{in_hour, successes}
use code_kit_ultra.Automation.Rollbacks.Bounds.{rollbacks_per_hour}
use code_kit_ultra.Automation.Rollbacks.Defaults.{
  IsFailed, default_rollback_strategies, default_rollbacks_fail,
}

abbrev careful : RollbackStrategy ℕ
careful = record {
  id = "careful";
  enabled = true;
  priority = 50;
  triggers =
      record {
        trigger_type = TriggerType.error_rate;
        metric = "error_rate";
        threshold = 5;
        duration = 60;
        operator = greater_than;
      }
      ∷ [];
  rollback_actions =
      record { action_type = ActionType.switch_traffic; priority = 95; timeout = none } ∷ [];
  canary_percentage = none;
  cooldown_period = 60;
  max_rollbacks_per_hour = 2;
}

abbrev failing_at : ℕ → Cycle ℕ
failing_at t = record { now = t; done = t + 1000; metrics = ("error_rate", 9) ∷ [] }

-- The second cycle falls into the cooldown, and the fourth meets the limit.
abbrev busy : List (Cycle ℕ)
busy =
    failing_at 0 ∷ failing_at 30000 ∷ failing_at 90000 ∷ failing_at 180000 ∷ failing_at 3700000 ∷ []

busy_run :
    successes "careful" (run_cycles no_decimals naturals busy (new_service (careful ∷ []))).0
    ≡ 1000 ∷ 91000 ∷ 3701000 ∷ []
unfolding run_cycles new_service set_strategies evaluate_rollback_strategies should_rollback
    choose_strategy get_all_strategies is_in_cooldown has_exceeded_rollback_limit is_recent times_of
    check_limit take_trigger evaluate_trigger metric_value roll_back_choice execute_rollback
    perform_actions execute_rollback_action is_in_time timeout_or action_delay push_performed
    complete_rollback store_execution record_rollback push_execution
busy_run = refl

rollbacks_per_hour_example :
    length (
      select
        (in_hour 180000)
        (successes "careful" (run_cycles no_decimals naturals busy (new_service (careful ∷ []))).0))
    ≤ 2
rollbacks_per_hour_example =
    rollbacks_per_hour no_decimals naturals "careful" 2 (careful ∷ []) 0 busy
      ((λ _. omega arith), tt) (grind arith) 180000

default_rollbacks_fail_example :
    All IsFailed
      (run_cycles no_decimals naturals busy (new_service (default_rollback_strategies naturals))).0
    × ((run_cycles no_decimals naturals busy
          (new_service (default_rollback_strategies naturals))).1.last_rollbacks
        ≡ [])
default_rollbacks_fail_example = default_rollbacks_fail naturals no_decimals busy
