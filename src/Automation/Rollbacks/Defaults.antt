-- ===== src/Automation/Rollbacks/Defaults.antt =====
-- rollback-automation.ts, lines 458 to 540: the strategies that the service starts with.
use code_kit_ultra.Base.{
  String, ℕ, ◌≡◌, refl, List, [], ◌∷◌, Option, none, some, Bool, true, false, All,
}
use code_kit_ultra.Governance.Numbers.{Numbers}
use code_kit_ultra.Automation.Timers.{greater_than, is_in_time, timeout_or}
use code_kit_ultra.Automation.Rollbacks.{
  RollbackStrategy, RollbackTrigger, TriggerType, ActionType, RollbackStatus, Performed,
  RollbackExecution, RollbackAutomationService, Cycle, action_delay, perform_actions,
  execute_rollback_action, new_service, should_rollback, complete_rollback, execute_rollback,
  roll_back_choice, evaluate_rollback_strategies, push_execution, run_cycles,
}
use code_kit_ultra.Automation.Rollbacks.{store_execution}
use code_kit_ultra.Automation.Rollbacks.Choice.{
  Chosen, choose_strategy-Chosen, enabled-All, set_strategies-All,
}

abbrev pub IsFailed : {N : Type 0} → RollbackExecution N → Type 0
IsFailed e = e.status ≡ RollbackStatus.failed

module _ {N : Type 0} (num : Numbers N) where
  unfoldable pub high_error_rate : RollbackStrategy N
  high_error_rate = record {
    id = "rollback-high-error-rate";
    enabled = true;
    priority = 95;
    triggers =
        record {
          trigger_type = TriggerType.error_rate;
          metric = "error_rate";
          threshold = num.whole 5;
          duration = 60;
          operator = greater_than;
        }
        ∷ [];
    rollback_actions =
        record { action_type = ActionType.switch_traffic; priority = 95; timeout = some 30 }
        ∷ record { action_type = ActionType.revert_deployment; priority = 90; timeout = some 60 }
        ∷ record { action_type = ActionType.notify_team; priority = 70; timeout = none }
        ∷ record { action_type = ActionType.create_incident; priority = 75; timeout = none }
        ∷ [];
    canary_percentage = some 10;
    cooldown_period = 300;
    max_rollbacks_per_hour = 3;
  }

  unfoldable pub high_latency : RollbackStrategy N
  high_latency = record {
    id = "rollback-high-latency";
    enabled = true;
    priority = 85;
    triggers =
        record {
          trigger_type = TriggerType.latency;
          metric = "p99_latency";
          threshold = num.whole 10000;
          duration = 120;
          operator = greater_than;
        }
        ∷ [];
    rollback_actions =
        record { action_type = ActionType.switch_traffic; priority = 90; timeout = some 30 }
        ∷ record { action_type = ActionType.revert_deployment; priority = 85; timeout = some 60 }
        ∷ record { action_type = ActionType.notify_team; priority = 70; timeout = none }
        ∷ [];
    canary_percentage = some 20;
    cooldown_period = 600;
    max_rollbacks_per_hour = 2;
  }

  unfoldable pub default_rollback_strategies : List (RollbackStrategy N)
  default_rollback_strategies = high_error_rate ∷ high_latency ∷ []

  -- The actions of the strategy do not all end in time.
  abbrev Stops : RollbackStrategy N → Type 0
  Stops x = (perform_actions x.rollback_actions).1 ≡ false

  defaults-Stops : All Stops default_rollback_strategies
  unfolding default_rollback_strategies high_error_rate high_latency perform_actions
      execute_rollback_action is_in_time timeout_or action_delay
  defaults-Stops = (refl, (refl, tt))

  -- What holds as long as no rollback succeeds.
  record Idle (s : RollbackAutomationService N) : Type 0 where
    stops : All (λ (e : String × RollbackStrategy N). Stops e.1) s.strategies
    no_last : s.last_rollbacks ≡ []

  complete_rollback-IsFailed :
      (done : ℕ) (e : RollbackExecution N) (r : List Performed × Bool)
      (s : RollbackAutomationService N)
      → r.1 ≡ false
      → Idle s
      → IsFailed (complete_rollback done e r s).0 × Idle (complete_rollback done e r s).1
  unfolding complete_rollback store_execution
  complete_rollback-IsFailed done e (performed, true) s h i = cc
  complete_rollback-IsFailed done e (performed, false) s h i =
      (refl, record { stops = i.stops; no_last = i.no_last })

  module _ (decimal : ℕ → String) where
    -- What a cycle gives.
    abbrev Fails : Option (RollbackExecution N) × RollbackAutomationService N → Type 0
    Fails (none, s) = Idle s
    Fails (some e, s) = IsFailed e × Idle s

    roll_back_choice-Fails :
        (c : Cycle N) (o : Option (RollbackStrategy N × RollbackTrigger N))
        (s : RollbackAutomationService N)
        → Chosen Stops o
        → Idle s
        → Fails (roll_back_choice decimal num c (o, s))
    unfolding roll_back_choice execute_rollback
    roll_back_choice-Fails c none s h i = i
    roll_back_choice-Fails c (some (x, t)) s h i = complete_rollback-IsFailed c.done _ _ s h i

    cycle-Fails :
        (c : Cycle N) (s : RollbackAutomationService N)
        → Idle s
        → Fails (evaluate_rollback_strategies decimal num c s)
    unfolding evaluate_rollback_strategies should_rollback
    cycle-Fails c s i =
        roll_back_choice-Fails c _ _
          (choose_strategy-Chosen Stops num c.now c.metrics s.last_rollbacks _ s.rollback_counts
            (enabled-All Stops s i.stops))
          (record { stops = i.stops; no_last = i.no_last })

    record Finishes (r : List (RollbackExecution N) × RollbackAutomationService N) : Type 0 where
      all_failed : All IsFailed r.0
      no_last : r.1.last_rollbacks ≡ []

    push-Finishes :
        (r : Option (RollbackExecution N) × RollbackAutomationService N)
        (rest : RollbackAutomationService N
          → List (RollbackExecution N) × RollbackAutomationService N)
        → Fails r
        → ((s : RollbackAutomationService N) → Idle s → Finishes (rest s))
        → Finishes (push_execution decimal num r.0 (rest r.1))
    unfolding push_execution
    push-Finishes (none, s) rest f h = h s f
    push-Finishes (some e, s) rest f h =
        let k = h s f.1 in record { all_failed = (f.0, k.all_failed); no_last = k.no_last }

    run_cycles-Finishes :
        (cs : List (Cycle N)) (s : RollbackAutomationService N)
        → Idle s
        → Finishes (run_cycles decimal num cs s)
    unfolding run_cycles
    run_cycles-Finishes [] s i = record { all_failed = tt; no_last = i.no_last }
    run_cycles-Finishes (c ∷ cs) s i =
        push-Finishes _ (run_cycles decimal num cs) (cycle-Fails c s i)
          (λ s' k. run_cycles-Finishes cs s' k)

    -- Whatever the cycles and their metrics, every rollback that the service with its default
    -- strategies starts ends as failed, and none is ever recorded for the cooldown.
    pub default_rollbacks_fail :
        (cs : List (Cycle N))
        → All IsFailed (run_cycles decimal num cs (new_service default_rollback_strategies)).0
          × ((run_cycles decimal num cs (new_service default_rollback_strategies)).1.last_rollbacks
              ≡ [])
    unfolding new_service
    default_rollbacks_fail cs =
        let k = run_cycles-Finishes cs (new_service default_rollback_strategies) (record {
          stops = set_strategies-All Stops default_rollback_strategies [] defaults-Stops tt;
          no_last = refl;
        }) in
        (k.all_failed, k.no_last)
