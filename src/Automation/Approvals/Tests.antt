-- ===== src/Automation/Approvals/Tests.antt =====
-- Runs of the auto-approval.
use code_kit_ultra.Base.{ℕ, ◌≡◌, refl, [], ◌∷◌, some, none, true, sort_by}
use code_kit_ultra.Automation.Samples.{naturals}
use code_kit_ultra.Automation.Approvals.{
  AutoApprovalRule, AutoApprovalEngine, ApprovalState, names, test_pass, coverage_threshold, waited,
  approve, log, approve_run, announce, approved, threw, new_approval_engine, set_approval_rules,
  get_rules_for_gate, check_test_pass, named_passed, is_passed, check_condition, value_or_zero,
  check_conditions, and_then, approve_or, check_dependencies, try_approval_rules,
  execute_approval_actions, run_effect, evaluate_gate_for_approval,
}
use code_kit_ultra.Automation.Approvals.Decides.{Decides, evaluate_gate-Decides}
use code_kit_ultra.Automation.Approvals.Defaults.{default_auto_approval_rules, default_rules_refuse}

abbrev state : ApprovalState ℕ
state = record {
  test_results = ("unit", "passed") ∷ ("e2e", "failed") ∷ [];
  coverage = some 90;
  quality = none;
  minutes = 12;
  approved_gates = "clarity" ∷ [];
}

abbrev patient : AutoApprovalRule ℕ
patient = record {
  id = "patient";
  gate_id = "build";
  priority = 90;
  enabled = true;
  conditions = waited 60 ∷ [];
  dependencies = [];
  actions = log ∷ [];
}

abbrev tested : AutoApprovalRule ℕ
tested = record {
  id = "tested";
  gate_id = "build";
  priority = 10;
  enabled = true;
  conditions = test_pass (names ("unit" ∷ [])) ∷ coverage_threshold 90 ∷ [];
  dependencies = "clarity" ∷ [];
  actions = approve ∷ log ∷ [];
}

abbrev engine : AutoApprovalEngine ℕ
engine = new_approval_engine (tested ∷ patient ∷ [])

build_is_approved :
    evaluate_gate_for_approval naturals "run" "build" (some state) (some state) engine
    ≡ approved (approve_run "run" "auto-approval:tested" ∷ announce log ∷ [])
unfolding new_approval_engine set_approval_rules get_rules_for_gate check_test_pass named_passed
    is_passed check_condition value_or_zero check_conditions and_then approve_or check_dependencies
    try_approval_rules execute_approval_actions run_effect evaluate_gate_for_approval
build_is_approved = refl

evaluate_gate-Decides_example :
    Decides naturals state
      (some state)
      "run"
      (sort_by (λ (r : AutoApprovalRule ℕ). r.priority) (get_rules_for_gate "build" engine))
      (evaluate_gate_for_approval naturals "run" "build" (some state) (some state) engine)
evaluate_gate-Decides_example =
    evaluate_gate-Decides naturals state (some state) "run" "build" engine

default_rules_refuse_example :
    evaluate_gate_for_approval naturals "run" "security"
      (some state)
      none
      (new_approval_engine (default_auto_approval_rules naturals))
    ≡ threw
default_rules_refuse_example = default_rules_refuse naturals "run" "security" state none
