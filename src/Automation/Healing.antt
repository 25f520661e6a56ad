-- ===== src/Automation/Healing.antt =====
-- apps/control-service/src/services/healing-engine.ts: the strategies that remedy a metric. The clock
-- is an argument, and an action takes the time of its delay or of its timeout. The actions that are
-- reversed are listed. The results of the actions, and the fields of a strategy that the engine does
-- not read, are left out.
mod Outcome
mod Tracking
mod Persisted
mod Defaults
mod Tests
use Prim.Native.String
use code_kit_ultra.Base.{
  String, ℕ, ◌+◌, ◌*◌, List, [], ◌∷◌, ◌++◌, map, Option, none, some, Bool, true, false, not, select,
  length, lookup, insert, delete, sort_by, take, leb, if◌then◌else◌,
}
use code_kit_ultra.Governance.Numbers.{Numbers}
use code_kit_ultra.Automation.Timers.{
  Operator, greater_than, less_than, equals, metric_value, timeout_or, is_in_time,
}

pub data ConditionType : Type 0 where
  error_rate latency resource_usage service_degradation manual : ConditionType

pub record HealingCondition (N : Type 0) : Type 0 where
  pub condition_type : ConditionType
  pub metric : String
  pub operator : Operator
  pub threshold : N
  pub duration : ℕ

pub data ActionType : Type 0 where
  restart_service scale_up clear_cache rebalance_load circuit_breaker custom : ActionType

pub record RemediationAction : Type 0 where
  pub action_type : ActionType
  pub priority : ℕ
  pub timeout : Option ℕ

pub record HealingStrategy (N : Type 0) : Type 0 where
  pub id : String
  pub priority : ℕ
  pub enabled : Bool
  pub condition : HealingCondition N
  pub actions : List RemediationAction

pub data HealingStatus : Type 0 where
  pending in_progress success failed rolled_back : HealingStatus

pub record Performed : Type 0 where
  pub action : RemediationAction
  pub succeeded : Bool

pub record HealingExecution (N : Type 0) : Type 0 where
  pub id : String
  pub strategy_id : String
  pub triggered_at : ℕ
  pub completed_at : ℕ
  pub status : HealingStatus
  pub trigger : HealingCondition N
  pub actions_performed : List Performed
  pub rolled_back : Bool
  pub before_metrics : List (String × N)

pub record HealingEngine (N : Type 0) : Type 0 where
  pub strategies : List (String × HealingStrategy N)
  pub executions : List (String × HealingExecution N)
  pub condition_tracker : List (String × ℕ)

-- The delays of `performAction`.
unfoldable pub action_delay : ActionType → ℕ
action_delay ActionType.restart_service = 500
action_delay ActionType.scale_up = 1000
action_delay ActionType.clear_cache = 300
action_delay ActionType.rebalance_load = 800
action_delay ActionType.circuit_breaker = 200
action_delay ActionType.custom = 1000

-- Whether `executeAction` resolves, and when it settles.
unfoldable pub execute_action : RemediationAction → Bool
execute_action a = is_in_time (action_delay a.action_type) a.timeout 30000

unfoldable pub action_time : RemediationAction → ℕ
action_time a = if execute_action a then action_delay a.action_type else timeout_or a.timeout 30000

-- What the loop of `executeStrategy` has reached.
pub record Progress : Type 0 where
  pub performed : List Performed
  pub completed : Bool
  pub time : ℕ

unfoldable pub push_performed : Performed → Progress → Progress
push_performed p r = record r { performed = p ∷ r.performed }

-- Lines 195 to 233: the loop ends at a critical action that fails, which is not recorded.
unfoldable pub perform_actions : ℕ → List RemediationAction → Progress
perform_actions now [] = record { performed = []; completed = true; time = now }
perform_actions now (a ∷ rest) =
    let later = perform_actions (now + action_time a) rest in
    if execute_action a
    then push_performed (record { action = a; succeeded = true }) later
    else if leb 80 a.priority
    then record { performed = []; completed = false; time = now + action_time a }
    else push_performed (record { action = a; succeeded = false }) later

-- Lines 327 to 337: the actions that are reversed, from the last to the first.
unfoldable pub rollback : List Performed → List RemediationAction
rollback [] = []
rollback (p ∷ ps) = rollback ps ++ (if p.succeeded then p.action ∷ [] else [])

unfoldable pub is_success : HealingStatus → Bool
is_success HealingStatus.success = true
is_success _ = false

module _ {N : Type 0} where
  unfoldable pub register_strategy : HealingStrategy N → HealingEngine N → HealingEngine N
  register_strategy x s =
      if not x.enabled then s else record s { strategies = insert x.id x s.strategies }

  unfoldable pub set_strategies :
      List (HealingStrategy N)
      → List (String × HealingStrategy N)
      → List (String × HealingStrategy N)
  set_strategies [] m = m
  set_strategies (x ∷ xs) m = set_strategies xs (insert x.id x m)

  unfoldable pub new_engine : List (HealingStrategy N) → HealingEngine N
  new_engine xs = record {
    strategies = set_strategies xs [];
    executions = [];
    condition_tracker = [];
  }

  -- `Array.from(this.strategies.values())`
  unfoldable pub strategies_of : HealingEngine N → List (HealingStrategy N)
  strategies_of s = map (λ (e : String × HealingStrategy N). e.1) s.strategies

  unfoldable pub get_all_strategies : HealingEngine N → List (HealingStrategy N)
  get_all_strategies s = select (λ (x : HealingStrategy N). x.enabled) (strategies_of s)

  unfoldable pub get_execution : String → HealingEngine N → Option (HealingExecution N)
  get_execution id s = lookup id s.executions

  unfoldable pub get_recent_executions : ℕ → HealingEngine N → List (HealingExecution N)
  get_recent_executions limit s = take limit (
      sort_by (λ (e : HealingExecution N). e.triggered_at)
        (map (λ (e : String × HealingExecution N). e.1) s.executions))

  unfoldable pub condition_key : HealingStrategy N → String
  condition_key x = String.◌++◌ x.id (String.◌++◌ "-" x.condition.metric)

  -- Lines 217 to 239: the execution at its end, with the actions that are reversed.
  unfoldable pub complete_execution :
      HealingExecution N → Progress → HealingExecution N × List RemediationAction
  complete_execution e r =
      if r.completed
      then (
        record e {
          status = HealingStatus.success;
          completed_at = r.time;
          actions_performed = r.performed;
        },
        [],
      )
      else (
        record e {
          status = HealingStatus.rolled_back;
          rolled_back = true;
          completed_at = r.time + 300 * length (rollback r.performed);
          actions_performed = r.performed;
        },
        rollback r.performed,
      )

  -- Lines 169 to 250. `decimal` is the text of a number.
  unfoldable pub execute_strategy :
      (ℕ → String)
      → ℕ
      → HealingStrategy N
      → List (String × N)
      → HealingExecution N × List RemediationAction
  execute_strategy decimal now x metrics =
      complete_execution
        (record {
          id = String.◌++◌ "heal-" (String.◌++◌ x.id (String.◌++◌ "-" (decimal now)));
          strategy_id = x.id;
          triggered_at = now;
          completed_at = now;
          status = HealingStatus.in_progress;
          trigger = x.condition;
          actions_performed = [];
          rolled_back = false;
          before_metrics = metrics;
        })
        (perform_actions now x.actions)

  -- Lines 98 to 110: the executions, the first that succeeds being the last.
  unfoldable pub heal :
      (ℕ → String) → ℕ → List (String × N) → List (HealingStrategy N) → List (HealingExecution N)
  heal decimal now metrics [] = []
  heal decimal now metrics (x ∷ xs) =
      let (e, reversed) = execute_strategy decimal now x metrics in
      let rest = heal decimal e.completed_at metrics xs in
      if is_success e.status then e ∷ [] else e ∷ rest

  unfoldable pub store_executions :
      List (HealingExecution N)
      → List (String × HealingExecution N)
      → List (String × HealingExecution N)
  store_executions [] m = m
  store_executions (e ∷ es) m = store_executions es (insert e.id e m)

  module _ (num : Numbers N) where
    unfoldable pub evaluate_condition : N → HealingCondition N → Bool
    evaluate_condition value c = elim c.operator [
      | greater_than ↦ num.lt c.threshold value
      | less_than ↦ num.lt value c.threshold
      | equals ↦ num.eq value c.threshold
    ]

    unfoldable pub condition_met : List (String × N) → HealingStrategy N → Bool
    condition_met metrics x =
        evaluate_condition (metric_value num metrics x.condition.metric) x.condition

    -- Lines 128 to 137, from the entry of the tracker.
    unfoldable pub track_since :
        ℕ → HealingStrategy N → List (String × ℕ) → Option ℕ → Bool × List (String × ℕ)
    track_since now x tracker none = (false, insert (condition_key x) now tracker)
    track_since now x tracker (some start) =
        (leb (start + x.condition.duration * 1000) now, tracker)

    -- Lines 120 to 146, for one strategy.
    unfoldable pub track :
        ℕ → List (String × N) → HealingStrategy N → List (String × ℕ) → Bool × List (String × ℕ)
    track now metrics x tracker =
        if not x.enabled
        then (false, tracker)
        else if condition_met metrics x
        then track_since now x tracker (lookup (condition_key x) tracker)
        else (false, delete (condition_key x) tracker)

    unfoldable pub keep_if :
        HealingStrategy N
        → Bool
        → List (HealingStrategy N) × List (String × ℕ)
        → List (HealingStrategy N) × List (String × ℕ)
    keep_if x applies (xs, tracker) = (if applies then x ∷ xs else xs, tracker)

    unfoldable pub find_applicable_strategies :
        ℕ
        → List (String × N)
        → List (HealingStrategy N)
        → List (String × ℕ)
        → List (HealingStrategy N) × List (String × ℕ)
    find_applicable_strategies now metrics [] tracker = ([], tracker)
    find_applicable_strategies now metrics (x ∷ xs) tracker =
        let (applies, tracker') = track now metrics x tracker in
        keep_if x applies (find_applicable_strategies now metrics xs tracker')

    unfoldable pub evaluate_and_heal :
        (ℕ → String)
        → ℕ
        → List (String × N)
        → HealingEngine N
        → List (HealingExecution N) × HealingEngine N
    evaluate_and_heal decimal now metrics s =
        let (xs, tracker) =
          find_applicable_strategies now metrics (strategies_of s) s.condition_tracker in
        let es = heal decimal now metrics (sort_by (λ (x : HealingStrategy N). x.priority) xs) in
        (
          es,
          record s { executions = store_executions es s.executions; condition_tracker = tracker },
        )
