-- ===== src/Automation/Acknowledgments/Defaults.antt =====
-- alert-acknowledgment-service.ts, lines 376 to 435: the rules that the service starts with.
use code_kit_ultra.Base.{List, [], ◌∷◌, some, true}
use code_kit_ultra.Governance.Numbers.{Numbers}
use code_kit_ultra.Automation.Acknowledgments.{
  AutoAcknowledgmentRule, metric_below_threshold, error_rate_recovered, service_healthy,
  time_elapsed,
}

module _ {N : Type 0} (num : Numbers N) where
  unfoldable pub default_auto_ack_rules : List (AutoAcknowledgmentRule N)
  default_auto_ack_rules =
      record {
        id = "auto-ack-5xx-recovered";
        description = "Auto-acknowledge 5xx error alerts once error rate recovers";
        alert_rule_id = "http-5xx-burst";
        enabled = true;
        resolution_conditions = error_rate_recovered ∷ time_elapsed (some 2) ∷ [];
      }
      ∷ record {
        id = "auto-ack-auth-recovery";
        description = "Auto-acknowledge auth failure alerts once auth recovers";
        alert_rule_id = "auth-failures";
        enabled = true;
        resolution_conditions =
            metric_below_threshold (some "auth_failures_per_minute") (some (num.whole 5))
            ∷ time_elapsed (some 3)
            ∷ [];
      }
      ∷ record {
        id = "auto-ack-service-healthy";
        description = "Auto-acknowledge any alert when overall service health is restored";
        alert_rule_id = "db-connection-pool-exhausted";
        enabled = true;
        resolution_conditions = service_healthy ∷ [];
      }
      ∷ []
