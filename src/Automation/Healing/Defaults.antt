-- ===== src/Automation/Healing/Defaults.antt =====
-- healing-engine.ts, lines 397 to 488: the strategies that the engine starts with.
use code_kit_ultra.Base.{
  String, ℕ, ◌≡◌, refl, List, [], ◌∷◌, some, true, false, All, sort_by-All, map-All, insert,
  insert-All, if-split,
}
use code_kit_ultra.Governance.Numbers.{Numbers}
use code_kit_ultra.Automation.Timers.{greater_than, is_in_time, timeout_or}
use code_kit_ultra.Automation.Healing.{
  HealingStrategy, HealingExecution, HealingStatus, ConditionType, ActionType, Progress,
  action_delay, execute_action, perform_actions, set_strategies, new_engine, strategies_of,
  complete_execution, execute_strategy, heal, keep_if, track, find_applicable_strategies,
  evaluate_and_heal, is_success,
}
use code_kit_ultra.Automation.Healing.Tracking.{Evaluation, after, strategies-after}

module _ {N : Type 0} (num : Numbers N) where
  unfoldable pub high_cpu : HealingStrategy N
  high_cpu = record {
    id = "heal-high-cpu";
    priority = 85;
    enabled = true;
    condition = record {
      condition_type = ConditionType.resource_usage;
      metric = "cpu_usage";
      operator = greater_than;
      threshold = num.whole 85;
      duration = 30;
    };
    actions =
        record { action_type = ActionType.scale_up; priority = 90; timeout = some 60 }
        ∷ record { action_type = ActionType.rebalance_load; priority = 80; timeout = some 30 }
        ∷ [];
  }

  unfoldable pub high_error_rate : HealingStrategy N
  high_error_rate = record {
    id = "heal-high-error-rate";
    priority = 90;
    enabled = true;
    condition = record {
      condition_type = ConditionType.error_rate;
      metric = "error_rate";
      operator = greater_than;
      threshold = num.whole 10;
      duration = 20;
    };
    actions =
        record { action_type = ActionType.clear_cache; priority = 85; timeout = some 30 }
        ∷ record { action_type = ActionType.circuit_breaker; priority = 95; timeout = some 10 }
        ∷ [];
  }

  unfoldable pub high_latency : HealingStrategy N
  high_latency = record {
    id = "heal-high-latency";
    priority = 80;
    enabled = true;
    condition = record {
      condition_type = ConditionType.latency;
      metric = "p99_latency";
      operator = greater_than;
      threshold = num.whole 5000;
      duration = 60;
    };
    actions =
        record { action_type = ActionType.scale_up; priority = 85; timeout = some 60 }
        ∷ record { action_type = ActionType.rebalance_load; priority = 75; timeout = some 30 }
        ∷ [];
  }

  unfoldable pub default_healing_strategies : List (HealingStrategy N)
  default_healing_strategies = high_cpu ∷ high_error_rate ∷ high_latency ∷ []

-- Rolled back, before any action was performed.
abbrev pub IsUndone : {N : Type 0} → HealingExecution N → Type 0
IsUndone e = (e.status ≡ HealingStatus.rolled_back) × (e.actions_performed ≡ [])

module _ {κ} {N : Type 0} (P : HealingStrategy N → Type κ) where
  set_strategies-All :
      (xs : List (HealingStrategy N)) (m : List (String × HealingStrategy N))
      → All P xs
      → All (λ (e : String × HealingStrategy N). P e.1) m
      → All (λ (e : String × HealingStrategy N). P e.1) (set_strategies xs m)
  unfolding set_strategies
  set_strategies-All [] m h k = k
  set_strategies-All (x ∷ xs) m h k =
      set_strategies-All xs (insert x.id x m) h.1 (insert-All _ x.id x m (λ j. h.0) k)

  find-All :
      (num : Numbers N) (now : ℕ) (metrics : List (String × N)) (xs : List (HealingStrategy N))
      (tracker : List (String × ℕ))
      → All P xs
      → All P (find_applicable_strategies num now metrics xs tracker).0
  unfolding find_applicable_strategies keep_if
  find-All num now metrics [] tracker h = tt
  find-All num now metrics (x ∷ xs) tracker h =
      let r = track num now metrics x tracker in
      let rest = find-All num now metrics xs r.1 h.1 in
      if-split (All P) r.0 _ _ (λ _. (h.0, rest)) (λ _. rest)

module _ {N : Type 0} (decimal : ℕ → String) (num : Numbers N) where
  abbrev FailsAtOnce : HealingStrategy N → Type 0
  FailsAtOnce x =
      (now : ℕ)
      → ((perform_actions now x.actions).completed ≡ false)
        × ((perform_actions now x.actions).performed ≡ [])

  defaults-FailsAtOnce : All FailsAtOnce (default_healing_strategies num)
  unfolding default_healing_strategies high_cpu high_error_rate high_latency perform_actions
      execute_action is_in_time timeout_or action_delay
  defaults-FailsAtOnce =
      ((λ now. (refl, refl)), ((λ now. (refl, refl)), ((λ now. (refl, refl)), tt)))

  complete-IsUndone :
      (e : HealingExecution N) (r : Progress)
      → r.completed ≡ false
      → r.performed ≡ []
      → IsUndone (complete_execution e r).0
  unfolding complete_execution
  complete-IsUndone e r c p = rw c (refl, p)

  heal-IsUndone :
      (now : ℕ) (metrics : List (String × N)) (xs : List (HealingStrategy N))
      → All FailsAtOnce xs
      → All IsUndone (heal decimal now metrics xs)
  unfolding heal execute_strategy
  heal-IsUndone now metrics [] h = tt
  heal-IsUndone now metrics (x ∷ xs) h =
      let e = (execute_strategy decimal now x metrics).0 in
      let own : IsUndone e = complete-IsUndone _ _ (h.0 now).0 (h.0 now).1 in
      if-split (All IsUndone) (is_success e.status) (e ∷ [])
        (e ∷ heal decimal e.completed_at metrics xs) (λ _. (own, tt))
        (λ _. (own, heal-IsUndone e.completed_at metrics xs h.1))

  default_strategies-FailsAtOnce :
      All FailsAtOnce (strategies_of (new_engine (default_healing_strategies num)))
  unfolding strategies_of new_engine
  default_strategies-FailsAtOnce =
      map-All FailsAtOnce _ _
        (set_strategies-All FailsAtOnce (default_healing_strategies num) [] defaults-FailsAtOnce tt)

  -- Whatever the evaluations and their metrics, every execution of the engine with its default
  -- strategies is rolled back before any of its actions is performed.
  pub default_healing-IsUndone :
      (c : Evaluation N) (cs : List (Evaluation N))
      → All IsUndone
          (evaluate_and_heal num decimal c.now c.metrics
            (after decimal num cs (new_engine (default_healing_strategies num)))).0
  unfolding evaluate_and_heal
  default_healing-IsUndone c cs =
      let s = after decimal num cs (new_engine (default_healing_strategies num)) in
      heal-IsUndone c.now c.metrics _ (
        sort_by-All _ FailsAtOnce _ (
          find-All FailsAtOnce num c.now c.metrics (strategies_of s) s.condition_tracker (
            rw (strategies-after decimal num cs (new_engine (default_healing_strategies num)))
              default_strategies-FailsAtOnce)))
