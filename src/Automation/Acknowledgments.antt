-- ===== src/Automation/Acknowledgments.antt =====
-- apps/control-service/src/services/alert-acknowledgment-service.ts: the rules that acknowledge pending
-- alerts. The clock is an argument. The actions of a rule, which only log, are left out, as are the
-- names and the metadata.
pub mod Counted
pub mod Defaults
use Prim.Native.String
use code_kit_ultra.Base.{
  String, ℕ, zero, suc, ◌+◌, ◌*◌, List, [], ◌∷◌, map, Option, none, some, Bool, true, false, not,
  ◌&&◌, all, any, select, lookup, insert, delete, or_default, same, leb, if◌then◌else◌,
}
use code_kit_ultra.Governance.Numbers.{Numbers}
use code_kit_ultra.Automation.Timers.{metric_value, text_or, timeout_or}

pub data ResolutionMethod : Type 0 where
  auto manual : ResolutionMethod

pub record AlertAcknowledgment : Type 0 where
  pub id : String
  pub alert_id : String
  pub rule_id : String
  pub acknowledged_at : ℕ
  pub acknowledged_by : String
  pub reason : String
  pub resolution_method : ResolutionMethod

pub data ResolutionCondition (N : Type 0) : Type 0 where
  metric_below_threshold : Option String → Option N → ResolutionCondition N
  error_rate_recovered service_healthy : ResolutionCondition N
  time_elapsed : Option ℕ → ResolutionCondition N

pub record AutoAcknowledgmentRule (N : Type 0) : Type 0 where
  pub id : String
  pub description : String
  pub alert_rule_id : String
  pub enabled : Bool
  pub resolution_conditions : List (ResolutionCondition N)

pub record AlertAcknowledgmentService (N : Type 0) : Type 0 where
  pub rules : List (String × AutoAcknowledgmentRule N)
  pub acknowledgments : List (String × AlertAcknowledgment)
  pub pending_alerts : List (String × ℕ)

-- Lines 205 to 214.
unfoldable pub check_time_elapsed : ℕ → Option ℕ → ℕ → Bool
check_time_elapsed now none minutes = false
check_time_elapsed now (some time) minutes = leb (time + minutes * 60000) now

unfoldable pub count_if : Bool → ℕ → ℕ
count_if acknowledged n = if acknowledged then suc n else n

-- `decimal` is the text of a number.
unfoldable pub acknowledgment_id : (ℕ → String) → String → ℕ → String
acknowledgment_id decimal alert_id now =
    String.◌++◌ "ack-" (String.◌++◌ alert_id (String.◌++◌ "-" (decimal now)))

module _ {N : Type 0} where
  unfoldable pub set_rules :
      List (AutoAcknowledgmentRule N)
      → List (String × AutoAcknowledgmentRule N)
      → List (String × AutoAcknowledgmentRule N)
  set_rules [] m = m
  set_rules (r ∷ rs) m = set_rules rs (insert r.id r m)

  unfoldable pub new_acknowledgment_service :
      List (AutoAcknowledgmentRule N) → AlertAcknowledgmentService N
  new_acknowledgment_service rs = record {
    rules = set_rules rs [];
    acknowledgments = [];
    pending_alerts = [];
  }

  unfoldable pub register_rule :
      AutoAcknowledgmentRule N → AlertAcknowledgmentService N → AlertAcknowledgmentService N
  register_rule r s = if not r.enabled then s else record s { rules = insert r.id r s.rules }

  unfoldable pub record_alert :
      ℕ → String → String → AlertAcknowledgmentService N → AlertAcknowledgmentService N
  record_alert now alert_rule_id alert_id s = record s {
    pending_alerts = insert alert_id now s.pending_alerts;
  }

  unfoldable pub record_acknowledgment :
      AlertAcknowledgment → AlertAcknowledgmentService N → AlertAcknowledgmentService N
  record_acknowledgment ack s = record s {
    acknowledgments = insert ack.id ack s.acknowledgments;
    pending_alerts = delete ack.alert_id s.pending_alerts;
  }

  unfoldable pub get_acknowledgment :
      String → AlertAcknowledgmentService N → Option AlertAcknowledgment
  get_acknowledgment id s = lookup id s.acknowledgments

  unfoldable pub get_acknowledgments_for_alert :
      String → AlertAcknowledgmentService N → List AlertAcknowledgment
  get_acknowledgments_for_alert alert_id s =
      select (λ (a : AlertAcknowledgment). same a.alert_id alert_id)
        (map (λ (e : String × AlertAcknowledgment). e.1) s.acknowledgments)

  unfoldable pub get_pending_alerts : AlertAcknowledgmentService N → List (String × ℕ)
  get_pending_alerts s = s.pending_alerts

  unfoldable pub get_all_rules : AlertAcknowledgmentService N → List (AutoAcknowledgmentRule N)
  get_all_rules s =
      select (λ (r : AutoAcknowledgmentRule N). r.enabled)
        (map (λ (e : String × AutoAcknowledgmentRule N). e.1) s.rules)

  module _ (decimal : ℕ → String) where
    unfoldable pub acknowledge_alert :
        ℕ
        → String
        → AutoAcknowledgmentRule N
        → AlertAcknowledgmentService N
        → AlertAcknowledgmentService N
    acknowledge_alert now alert_id r s =
        record_acknowledgment
          (record {
            id = acknowledgment_id decimal alert_id now;
            alert_id = alert_id;
            rule_id = r.id;
            acknowledged_at = now;
            acknowledged_by = "system";
            reason = r.description;
            resolution_method = auto;
          })
          s

    unfoldable pub manually_acknowledge :
        ℕ
        → String
        → String
        → String
        → String
        → AlertAcknowledgmentService N
        → AlertAcknowledgmentService N
    manually_acknowledge now alert_id alert_rule_id actor reason s =
        record_acknowledgment
          (record {
            id = acknowledgment_id decimal alert_id now;
            alert_id = alert_id;
            rule_id = alert_rule_id;
            acknowledged_at = now;
            acknowledged_by = actor;
            reason = reason;
            resolution_method = manual;
          })
          s

  module _ (num : Numbers N) where
    -- `threshold || 0`
    unfoldable pub threshold_or_zero : Option N → N
    threshold_or_zero none = num.whole 0
    threshold_or_zero (some t) = if num.is_falsy t then num.whole 0 else t

    unfoldable pub check_error_rate_recovered : List (String × N) → Bool
    check_error_rate_recovered metrics =
        num.lt (metric_value num metrics "error_rate") (num.whole 1)

    unfoldable pub check_service_health : List (String × N) → Bool
    check_service_health metrics =
        num.lt (metric_value num metrics "cpu_usage") (num.whole 80)
        && num.lt (metric_value num metrics "memory_usage") (num.whole 85)
        && num.lt (metric_value num metrics "error_rate") (num.whole 1)

    unfoldable pub evaluate_resolution :
        ℕ → List (String × N) → String → AlertAcknowledgmentService N → ResolutionCondition N → Bool
    evaluate_resolution now metrics alert_id s (metric_below_threshold metric threshold) =
        num.lt (metric_value num metrics (text_or metric "")) (threshold_or_zero threshold)
    evaluate_resolution now metrics alert_id s error_rate_recovered =
        check_error_rate_recovered metrics
    evaluate_resolution now metrics alert_id s service_healthy = check_service_health metrics
    evaluate_resolution now metrics alert_id s (time_elapsed wait) =
        check_time_elapsed now (lookup alert_id s.pending_alerts) (timeout_or wait 5)

    module _ (decimal : ℕ → String) where
      -- Lines 98 to 113.
      unfoldable pub try_rules :
          ℕ
          → String
          → List (String × N)
          → List (AutoAcknowledgmentRule N)
          → AlertAcknowledgmentService N
          → Bool × AlertAcknowledgmentService N
      try_rules now alert_id metrics [] s = (false, s)
      try_rules now alert_id metrics (r ∷ rs) s =
          let rest = try_rules now alert_id metrics rs s in
          if all (evaluate_resolution now metrics alert_id s) r.resolution_conditions
          then (true, acknowledge_alert decimal now alert_id r s)
          else rest

      unfoldable pub evaluate_alert_for_acknowledgment :
          ℕ
          → String
          → String
          → List (String × N)
          → AlertAcknowledgmentService N
          → Bool × AlertAcknowledgmentService N
      evaluate_alert_for_acknowledgment now alert_rule_id alert_id metrics s =
          try_rules now alert_id metrics
            (select (λ (r : AutoAcknowledgmentRule N). same r.alert_rule_id alert_rule_id)
              (get_all_rules s))
            s

      -- automation-orchestrator.ts, lines 186 to 209: the alerts that were pending when the rule's turn
      -- came, one after the other.
      unfoldable pub evaluate_pending :
          ℕ
          → String
          → List (String × N)
          → List (String × ℕ)
          → ℕ × AlertAcknowledgmentService N
          → ℕ × AlertAcknowledgmentService N
      evaluate_pending now alert_rule_id metrics [] (count, s) = (count, s)
      evaluate_pending now alert_rule_id metrics ((alert_id, time) ∷ alerts) (count, s) =
          let (acknowledged, s') =
            evaluate_alert_for_acknowledgment now alert_rule_id alert_id metrics s in
          evaluate_pending now alert_rule_id metrics alerts (count_if acknowledged count, s')

      unfoldable pub evaluate_rules :
          ℕ
          → List (String × N)
          → List (AutoAcknowledgmentRule N)
          → ℕ × AlertAcknowledgmentService N
          → ℕ × AlertAcknowledgmentService N
      evaluate_rules now metrics [] (count, s) = (count, s)
      evaluate_rules now metrics (r ∷ rs) (count, s) =
          evaluate_rules now metrics rs
            (evaluate_pending now r.alert_rule_id metrics (get_pending_alerts s) (count, s))

      unfoldable pub evaluate_alert_acknowledgments :
          ℕ → List (String × N) → AlertAcknowledgmentService N → ℕ × AlertAcknowledgmentService N
      evaluate_alert_acknowledgments now metrics s =
          evaluate_rules now metrics (get_all_rules s) (0, s)
