-- ===== src/Repair/Engine.antt =====
-- healing-engine.ts, healing-store.ts and revalidation.ts. The times, the id that is made of one, and
-- the rates and averages of the statistics are left out; the policy that is read from its file is an
-- argument. The in-memory list of a run's attempts is what its log was before, with the attempt itself
-- at the end.
use Prim.Native.String.{String, ◌++◌ as ◌<>◌}
use code_kit_ultra.Base.{
  ℕ, ◌+◌, ◌-◌, List, [], ◌∷◌, ◌++◌, map, Option, none, some, Bool, true, false, not, ◌&&◌, ◌||◌,
  same, includes, any, lookup, insert, or_default, sort_by, if◌then◌else◌,
}
use code_kit_ultra.Shared.{PlanTask}
use code_kit_ultra.Execution.Machine.{Call, ok, HealingReply}
use code_kit_ultra.Repair.Strategies.{
  HealingRisk, low, medium, high, HealingContext, HealingResult, HealingStrategy, Files,
  classify_failure, find_candidate_strategies, target_of,
}

pub data HealingMode : Type 0 where
  observe assist auto : HealingMode

-- The fields that are read.
pub record HealingPolicy : Type 0 where
  pub enabled : Bool
  pub mode : HealingMode
  pub allow_auto_apply_for_risk : List HealingRisk
  pub approval_required_for_strategies : List String

pub data HealingStatus : Type 0 where
  planned awaiting_approval applied verified failed escalated : HealingStatus

abbrev pub is_verified : HealingStatus → Bool
is_verified verified = true
is_verified status = false

pub record HealingAttempt : Type 0 where
  pub run_id : String
  pub step_id : String
  pub adapter_id : String
  pub failure_type : String
  pub selected_strategy_id : Option String
  pub candidate_strategy_ids : List String
  pub status : HealingStatus
  pub approval_required : Bool
  pub summary : String
  pub result : Option HealingResult

pub record HealingStats : Type 0 where
  pub strategy_id : String
  pub attempts : ℕ
  pub successes : ℕ

-- The logs of the runs, the statistics, and the files outside.
pub record HealingStore (W : Type 0) : Type 0 where
  pub logs : List (String × List HealingAttempt)
  pub stats : List HealingStats
  pub world : W

abbrev pub risk_order : HealingRisk → ℕ
risk_order low = 0
risk_order medium = 1
risk_order high = 2

abbrev is_risk : HealingRisk → HealingRisk → Bool
is_risk low low = true
is_risk medium medium = true
is_risk high high = true
is_risk r s = false

abbrev pub is_auto : HealingMode → Bool
is_auto auto = true
is_auto mode = false

abbrev pub is_observe : HealingMode → Bool
is_observe observe = true
is_observe mode = false

abbrev pub allows : HealingPolicy → HealingRisk → Bool
allows policy risk = any (is_risk risk) policy.allow_auto_apply_for_risk

unfoldable pub count_attempt : String → Bool → List HealingStats → List HealingStats
count_attempt id success [] =
    record { strategy_id = id; attempts = 1; successes = if success then 1 else 0 } ∷ []
count_attempt id success (x ∷ xs) =
    let rest = count_attempt id success xs in
    if same x.strategy_id id
    then record x {
      attempts = x.attempts + 1;
      successes = if success then x.successes + 1 else x.successes;
    }
      ∷ xs
    else x ∷ rest

abbrev pub escalate : HealingAttempt → String → HealingAttempt
escalate attempt summary = record attempt { status = escalated; summary = summary }

-- What the execution engine passes on of a failed step; the message of an error is given as
-- `String(error)`.
abbrev pub context_of : String → PlanTask → String → HealingContext
context_of run task message = record {
  run_id = run;
  step_id = task.id;
  adapter_id = task.adapter_id;
  error_message = "Error: " <> message;
  payload = task.payload;
}

module _ {W : Type 0} where
  -- Those of the least risk first.
  unfoldable pub rank_strategies : List (HealingStrategy W) → List (HealingStrategy W)
  rank_strategies strategies = sort_by (λ s. 2 - risk_order s.risk) strategies

  unfoldable pub requires_approval : HealingStrategy W → HealingPolicy → Bool
  requires_approval s policy =
      if is_observe policy.mode
      then false
      else if includes s.id policy.approval_required_for_strategies
      then true
      else if not (allows policy s.risk)
      then true
      else not (is_auto policy.mode) || not s.auto_apply

  unfoldable pub load_healing_attempts : String → HealingStore W → List HealingAttempt
  load_healing_attempts run s = or_default (lookup run s.logs) []

  unfoldable pub save_healing_attempts :
      String → List HealingAttempt → HealingStore W → HealingStore W
  save_healing_attempts run attempts s = record s { logs = insert run attempts s.logs }

  unfoldable pub update_healing_stats : String → Bool → HealingStore W → HealingStore W
  update_healing_stats id success s = record s { stats = count_attempt id success s.stats }

  -- Whether the repair shows, and what is said of it.
  unfoldable pub revalidate_after_heal : Files W → HealingContext → W → Bool × String
  revalidate_after_heal files c w =
      let target = target_of c in
      let found = if same target "" then false else files.exists_sync target w in
      if same c.adapter_id "file-system"
      then (
        found,
        if found
            then "Verified file path exists: " <> target
            else "File path still missing: " <> target,
      )
      else (true, "No specialized revalidation needed for adapter " <> c.adapter_id <> ".")

  -- `attempt` is given its last fields and saved behind the attempts before it.
  unfoldable pub close_attempt :
      List HealingAttempt → HealingAttempt → HealingStore W → HealingAttempt × HealingStore W
  close_attempt before attempt s =
      (attempt, save_healing_attempts attempt.run_id (before ++ attempt ∷ []) s)

  -- Lines 84 to 98.
  unfoldable pub apply_strategy :
      Files W
      → HealingContext
      → HealingStrategy W
      → List HealingAttempt
      → HealingAttempt
      → HealingStore W
      → HealingAttempt × HealingStore W
  apply_strategy files c chosen before attempt s =
      let (result, w) = chosen.apply c s.world in
      let (shows, said) =
        if result.requires_reverification
        then revalidate_after_heal files c w
        else (true, "No revalidation requested.") in
      let success = result.success && shows in
      close_attempt before
        (record attempt {
          result = some result;
          status = if success then verified else failed;
          summary = result.notes <> " Revalidation: " <> said;
        })
        (update_healing_stats chosen.id success (record s { world = w }))

  -- Lines 72 to 82.
  unfoldable pub try_strategy :
      Files W
      → HealingPolicy
      → HealingContext
      → HealingStrategy W
      → List HealingAttempt
      → HealingAttempt
      → HealingStore W
      → HealingAttempt × HealingStore W
  try_strategy files policy c chosen before attempt s =
      let selected = record attempt { selected_strategy_id = some chosen.id } in
      if requires_approval chosen policy
      then close_attempt before
          (record selected {
            approval_required = true;
            status = awaiting_approval;
            summary = "Healing strategy " <> chosen.id <> " requires approval.";
          })
          s
      else apply_strategy files c chosen before selected s

  -- Lines 53 to 98, from the candidates on.
  unfoldable pub decide :
      Files W
      → HealingPolicy
      → HealingContext
      → List (HealingStrategy W)
      → List HealingAttempt
      → HealingAttempt
      → HealingStore W
      → HealingAttempt × HealingStore W
  decide files policy c [] before attempt s =
      close_attempt before
        (escalate attempt ("No healing strategy found for " <> attempt.failure_type <> ".")) s
  decide files policy c (chosen ∷ rest) before attempt s =
      if not policy.enabled
      then close_attempt before (escalate attempt "Healing disabled by policy.") s
      else if is_observe policy.mode
      then close_attempt before
          (escalate attempt
            ("Observe mode: " <> attempt.failure_type <> " classified, no repair applied."))
          s
      else try_strategy files policy c chosen before attempt s

  abbrev pub candidates_of : (String → String) → Files W → HealingContext → List (HealingStrategy W)
  candidates_of lower files c =
      let found = classify_failure lower c.error_message c.adapter_id in
      rank_strategies (find_candidate_strategies files found.failure_type c.adapter_id)

  unfoldable pub attempt_healing :
      (String → String)
      → Files W
      → HealingPolicy
      → HealingContext
      → HealingStore W
      → HealingAttempt × HealingStore W
  attempt_healing to_lower_case files policy c s =
      let found = classify_failure to_lower_case c.error_message c.adapter_id in
      let candidates = candidates_of to_lower_case files c in
      let attempt : HealingAttempt = record {
        run_id = c.run_id;
        step_id = c.step_id;
        adapter_id = c.adapter_id;
        failure_type = found.failure_type;
        selected_strategy_id = none;
        candidate_strategy_ids = map (λ x. x.id) candidates;
        status = planned;
        approval_required = false;
        summary = found.reason;
        result = none;
      } in
      let before = load_healing_attempts c.run_id s in
      decide files policy c candidates before attempt
        (save_healing_attempts c.run_id (before ++ attempt ∷ []) s)

  -- `healFailedStep`, and what the execution engine reads of its answer.
  unfoldable pub heal_failed_step :
      (String → String)
      → Files W
      → HealingPolicy
      → String
      → PlanTask
      → String
      → Call (HealingStore W) HealingReply
  heal_failed_step to_lower_case files policy run task message s =
      let (a, t) = attempt_healing to_lower_case files policy (context_of run task message) s in
      (
        ok (record {
          verified = is_verified a.status;
          approval_required = a.approval_required;
          strategy = or_default a.selected_strategy_id "undefined";
        }),
        t,
      )
