-- ===== src/Automation/AlertStore/Tests.antt =====
-- Runs of the store of alerts.
use code_kit_ultra.Base.{◌≡◌, refl, String, List, [], ◌∷◌, some, none, true, false}
use code_kit_ultra.Automation.AlertStore.{
  Alert, AlertUpdate, Filters, Call, recorded, updated, merge, get_alert, record_alert, list_alerts,
  update_alert, update_found, has_status, has_severity, is_same_flag, make_call, make_calls,
}
use code_kit_ultra.Automation.AlertStore.Abstract.{no_alerts, replay, listed}
use code_kit_ultra.Automation.AlertStore.Refines.{calls_refine}

abbrev alert : String → String → Alert
alert id severity = record {
  id = id;
  alert_type = "metric";
  severity = severity;
  title = "t";
  description = "d";
  is_resolved = false;
  created_at = 0;
  source = none;
  alert_id = none;
  escalation_level = none;
}

abbrev resolve : AlertUpdate
resolve = record {
  new_id = none;
  new_type = none;
  new_severity = none;
  new_title = none;
  new_description = none;
  new_is_resolved = some true;
  new_created_at = none;
  new_source = none;
  new_alert_id = none;
  new_escalation_level = none;
}

abbrev work : List Call
work =
    recorded (alert "a" "high")
    ∷ recorded (alert "b" "low")
    ∷ recorded (alert "c" "high")
    ∷ updated "a" resolve
    ∷ updated "d" resolve
    ∷ []

abbrev open_and_high : Filters
open_and_high = record { resolved = some false; by_severity = some "high" }

work_leaves : list_alerts open_and_high (make_calls work []) ≡ alert "c" "high" ∷ []
unfolding make_calls make_call record_alert update_alert update_found merge list_alerts has_status
    has_severity is_same_flag
work_leaves = refl

calls_refine_example :
    (get_alert "a" (make_calls work []) ≡ (replay work no_alerts).content "a")
    × (list_alerts open_and_high (make_calls work [])
        ≡ listed open_and_high (replay work no_alerts))
calls_refine_example = calls_refine work open_and_high "a"
