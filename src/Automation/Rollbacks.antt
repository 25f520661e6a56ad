-- ===== src/Automation/Rollbacks.antt =====
-- apps/control-service/src/services/rollback-automation.ts: the strategies that roll a deployment
-- back. The clock is an argument: `now`, where a method starts, and `done`, where the awaited actions
-- have ended. The canary only waits. The times of the single actions and their results are left out.
mod Choice
mod Counts
mod Bounds
mod Defaults
mod Tests
use code_kit_ultra.Base.{
  String, ℕ, ◌+◌, ◌*◌, List, [], ◌∷◌, ◌++◌, map, Option, none, some, Bool, true, false, not, select,
  find, length, lookup, insert, or_default, sort_by, take, ltb, leb, if◌then◌else◌,
}
use Prim.Native.String
use code_kit_ultra.Governance.Numbers.{Numbers}
use code_kit_ultra.Automation.Timers.{
  Operator, greater_than, less_than, equals, metric_value, text_or, is_in_time,
}

pub data TriggerType : Type 0 where
  error_rate latency manual health_check : TriggerType

pub record RollbackTrigger (N : Type 0) : Type 0 where
  pub trigger_type : TriggerType
  pub metric : String
  pub threshold : N
  pub duration : ℕ
  pub operator : Operator

pub data ActionType : Type 0 where
  revert_deployment switch_traffic restore_database notify_team create_incident : ActionType

pub record RollbackAction : Type 0 where
  pub action_type : ActionType
  pub priority : ℕ
  pub timeout : Option ℕ

pub record RollbackStrategy (N : Type 0) : Type 0 where
  pub id : String
  pub enabled : Bool
  pub priority : ℕ
  pub triggers : List (RollbackTrigger N)
  pub rollback_actions : List RollbackAction
  pub canary_percentage : Option ℕ
  pub cooldown_period : ℕ
  pub max_rollbacks_per_hour : ℕ

pub data RollbackStatus : Type 0 where
  pending in_progress success failed partial : RollbackStatus

pub record Performed : Type 0 where
  pub action : RollbackAction
  pub succeeded : Bool

pub record RollbackExecution (N : Type 0) : Type 0 where
  pub id : String
  pub strategy_id : String
  pub deployment_id : String
  pub previous_version : String
  pub target_version : String
  pub triggered_at : ℕ
  pub completed_at : ℕ
  pub status : RollbackStatus
  pub trigger : RollbackTrigger N
  pub reason : String
  pub actions_performed : List Performed
  pub before_rollback : List (String × N)
  pub error : Option String

abbrev pub Times : Type 0
Times = List (String × List ℕ)

pub record RollbackAutomationService (N : Type 0) : Type 0 where
  pub strategies : List (String × RollbackStrategy N)
  pub executions : List (String × RollbackExecution N)
  pub last_rollbacks : List (String × ℕ)
  pub rollback_counts : Times
  pub deployment_versions : List (String × String)

-- The delays of `performRollbackAction`.
unfoldable pub action_delay : ActionType → ℕ
action_delay ActionType.revert_deployment = 2000
action_delay ActionType.switch_traffic = 1000
action_delay ActionType.restore_database = 5000
action_delay ActionType.notify_team = 500
action_delay ActionType.create_incident = 1000

-- Whether `executeRollbackAction` resolves.
unfoldable pub execute_rollback_action : RollbackAction → Bool
execute_rollback_action a = is_in_time (action_delay a.action_type) a.timeout 60000

unfoldable pub push_performed : Performed → List Performed × Bool → List Performed × Bool
push_performed p (rest, completed) = (p ∷ rest, completed)

-- Lines 184 to 219: the actions that are recorded, and whether the loop reached its end.
unfoldable pub perform_actions : List RollbackAction → List Performed × Bool
perform_actions [] = ([], true)
perform_actions (a ∷ rest) =
    if execute_rollback_action a
    then push_performed (record { action = a; succeeded = true }) (perform_actions rest)
    else if leb 90 a.priority
    then ([], false)
    else push_performed (record { action = a; succeeded = false }) (perform_actions rest)

-- `time > now - 60 * 60 * 1000`
unfoldable pub is_recent : ℕ → ℕ → Bool
is_recent now time = ltb now (time + 3600000)

unfoldable pub times_of : String → Times → List ℕ
times_of strategy_id counts = or_default (lookup strategy_id counts) []

unfoldable pub is_in_cooldown : ℕ → List (String × ℕ) → String → ℕ → Bool
is_in_cooldown now last strategy_id seconds = elim (lookup strategy_id last) [
  | none ↦ false
  | some time ↦ ltb now (time + seconds * 1000)
]

unfoldable pub has_exceeded_rollback_limit : ℕ → String → ℕ → Times → Bool × Times
has_exceeded_rollback_limit now strategy_id max counts =
    let times = select (is_recent now) (times_of strategy_id counts) in
    (leb max (length times), insert strategy_id times counts)

-- What starts a cycle, and when it ends.
pub record Cycle (N : Type 0) : Type 0 where
  pub now : ℕ
  pub done : ℕ
  pub metrics : List (String × N)

module _ {N : Type 0} where
  -- `registerStrategy`, and `forEach` of the constructor, which sets the disabled ones too.
  unfoldable pub register_strategy :
      RollbackStrategy N → RollbackAutomationService N → RollbackAutomationService N
  register_strategy x s =
      if not x.enabled then s else record s { strategies = insert x.id x s.strategies }

  unfoldable pub set_strategies :
      List (RollbackStrategy N)
      → List (String × RollbackStrategy N)
      → List (String × RollbackStrategy N)
  set_strategies [] m = m
  set_strategies (x ∷ xs) m = set_strategies xs (insert x.id x m)

  unfoldable pub new_service : List (RollbackStrategy N) → RollbackAutomationService N
  new_service xs = record {
    strategies = set_strategies xs [];
    executions = [];
    last_rollbacks = [];
    rollback_counts = [];
    deployment_versions = [];
  }

  unfoldable pub get_all_strategies : RollbackAutomationService N → List (RollbackStrategy N)
  get_all_strategies s =
      select (λ (x : RollbackStrategy N). x.enabled)
        (map (λ (e : String × RollbackStrategy N). e.1) s.strategies)

  unfoldable pub set_deployment_version :
      String → String → RollbackAutomationService N → RollbackAutomationService N
  set_deployment_version deployment version s = record s {
    deployment_versions = insert deployment version s.deployment_versions;
  }

  unfoldable pub record_rollback :
      ℕ → String → RollbackAutomationService N → RollbackAutomationService N
  record_rollback done strategy_id s = record s {
    last_rollbacks = insert strategy_id done s.last_rollbacks;
    rollback_counts =
        insert strategy_id (times_of strategy_id s.rollback_counts ++ done ∷ []) s.rollback_counts;
  }

  unfoldable pub store_execution :
      RollbackExecution N → RollbackAutomationService N → RollbackAutomationService N
  store_execution e s = record s { executions = insert e.id e s.executions }

  unfoldable pub get_execution : String → RollbackAutomationService N → Option (RollbackExecution N)
  get_execution id s = lookup id s.executions

  unfoldable pub get_recent_rollbacks : ℕ → RollbackAutomationService N → List (RollbackExecution N)
  get_recent_rollbacks limit s = take limit (
      sort_by (λ (e : RollbackExecution N). e.triggered_at)
        (map (λ (e : String × RollbackExecution N). e.1) s.executions))

  -- Lines 223 to 238: the status, and what is stored.
  unfoldable pub complete_rollback :
      ℕ
      → RollbackExecution N
      → List Performed × Bool
      → RollbackAutomationService N
      → RollbackExecution N × RollbackAutomationService N
  complete_rollback done e (performed, true) s =
      let e' = record e {
        status = RollbackStatus.success;
        completed_at = done;
        actions_performed = performed;
      } in
      (e', store_execution e' (record_rollback done e.strategy_id s))
  complete_rollback done e (performed, false) s =
      let e' = record e {
        status = RollbackStatus.failed;
        completed_at = done;
        actions_performed = performed;
        error = some "Action timeout";
      } in
      (e', store_execution e' s)

  module _ (num : Numbers N) where
    -- Lines 274 to 285.
    unfoldable pub evaluate_trigger : List (String × N) → RollbackTrigger N → Bool
    evaluate_trigger metrics t = elim t.operator [
      | greater_than ↦ num.lt t.threshold (metric_value num metrics t.metric)
      | less_than ↦ num.lt (metric_value num metrics t.metric) t.threshold
      | equals ↦ false
    ]

    -- The rest of the loop, where no trigger of the strategy is met.
    unfoldable pub take_trigger :
        (Times → Option (RollbackStrategy N × RollbackTrigger N) × Times)
        → RollbackStrategy N
        → Times
        → Option (RollbackTrigger N)
        → Option (RollbackStrategy N × RollbackTrigger N) × Times
    take_trigger rest x counts none = rest counts
    take_trigger rest x counts (some t) = (some (x, t), counts)

    unfoldable pub check_limit :
        (Times → Option (RollbackStrategy N × RollbackTrigger N) × Times)
        → List (String × N)
        → RollbackStrategy N
        → Bool × Times
        → Option (RollbackStrategy N × RollbackTrigger N) × Times
    check_limit rest metrics x (exceeded, counts) =
        if exceeded
        then rest counts
        else take_trigger rest x counts (find (evaluate_trigger metrics) x.triggers)

    -- Lines 107 to 133.
    unfoldable pub choose_strategy :
        ℕ
        → List (String × N)
        → List (String × ℕ)
        → List (RollbackStrategy N)
        → Times
        → Option (RollbackStrategy N × RollbackTrigger N) × Times
    choose_strategy now metrics last [] counts = (none, counts)
    choose_strategy now metrics last (x ∷ xs) counts =
        let rest = choose_strategy now metrics last xs in
        if is_in_cooldown now last x.id x.cooldown_period
        then rest counts
        else check_limit rest metrics x
            (has_exceeded_rollback_limit now x.id x.max_rollbacks_per_hour counts)

    unfoldable pub should_rollback :
        ℕ
        → List (String × N)
        → RollbackAutomationService N
        → Option (RollbackStrategy N × RollbackTrigger N) × RollbackAutomationService N
    should_rollback now metrics s =
        let (choice, counts) =
          choose_strategy now metrics s.last_rollbacks
            (sort_by (λ (x : RollbackStrategy N). x.priority) (get_all_strategies s))
            s.rollback_counts in
        (choice, record s { rollback_counts = counts })

  -- `decimal` is the text of a number.
  module _ (decimal : ℕ → String) (num : Numbers N) where
    unfoldable pub execute_rollback :
        ℕ
        → ℕ
        → RollbackStrategy N
        → String
        → List (String × N)
        → RollbackTrigger N
        → String
        → RollbackAutomationService N
        → RollbackExecution N × RollbackAutomationService N
    execute_rollback now done x deployment_id metrics trigger reason s =
        complete_rollback done
          (record {
            id =
                String.◌++◌ "rollback-" (String.◌++◌ deployment_id (String.◌++◌ "-" (decimal now)));
            strategy_id = x.id;
            deployment_id = deployment_id;
            previous_version = text_or (lookup deployment_id s.deployment_versions) "unknown";
            target_version = "previous";
            triggered_at = now;
            completed_at = done;
            status = RollbackStatus.in_progress;
            trigger = trigger;
            reason = reason;
            actions_performed = [];
            before_rollback = metrics;
            error = none;
          })
          (perform_actions x.rollback_actions) s

    -- automation-orchestrator.ts, lines 230 to 258
    unfoldable pub roll_back_choice :
        Cycle N
        → Option (RollbackStrategy N × RollbackTrigger N) × RollbackAutomationService N
        → Option (RollbackExecution N) × RollbackAutomationService N
    roll_back_choice c (none, s) = (none, s)
    roll_back_choice c (some (x, trigger), s) =
        let (e, s') =
          execute_rollback c.now c.done x "default-deployment" c.metrics trigger
            "Auto-triggered rollback" s in
        (some e, s')

    unfoldable pub evaluate_rollback_strategies :
        Cycle N
        → RollbackAutomationService N
        → Option (RollbackExecution N) × RollbackAutomationService N
    evaluate_rollback_strategies c s = roll_back_choice c (should_rollback num c.now c.metrics s)

    unfoldable pub push_execution :
        Option (RollbackExecution N)
        → List (RollbackExecution N) × RollbackAutomationService N
        → List (RollbackExecution N) × RollbackAutomationService N
    push_execution none r = r
    push_execution (some e) (es, s) = (e ∷ es, s)

    -- One cycle after the other, with the executions in their order.
    unfoldable pub run_cycles :
        List (Cycle N)
        → RollbackAutomationService N
        → List (RollbackExecution N) × RollbackAutomationService N
    run_cycles [] s = ([], s)
    run_cycles (c ∷ cs) s =
        let (e, s') = evaluate_rollback_strategies c s in push_execution e (run_cycles cs s')
