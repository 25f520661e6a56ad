-- ===== src/Automation/Approvals/Defaults.antt =====
-- auto-approval-engine.ts, lines 331 to 374: the rules that the engine starts with.
use code_kit_ultra.Base.{
  String, ◌≡◌, refl, List, [], ◌∷◌, Option, some, Bool, true, false, ◌&&◌, sort_by, same,
  if◌then◌else◌,
}
use code_kit_ultra.Governance.Numbers.{Numbers}
use code_kit_ultra.Automation.Timers.{greater_than}
use code_kit_ultra.Automation.Approvals.{
  AutoApprovalRule, ApprovalState, threw, refused, flag, test_pass, coverage_threshold,
  quality_score, by_hand, approve, log, set_approval_rules, new_approval_engine, get_rules_for_gate,
  check_test_pass, check_condition, check_conditions, and_then, approve_or, try_approval_rules,
  evaluate_gate_for_approval,
}

module _ {N : Type 0} (num : Numbers N) where
  unfoldable pub low_risk_rule : AutoApprovalRule N
  low_risk_rule = record {
    id = "auto-approve-low-risk";
    gate_id = "security";
    priority = 80;
    enabled = true;
    conditions =
        test_pass (flag true)
        ∷ coverage_threshold (num.whole 85)
        ∷ quality_score greater_than (num.whole 90)
        ∷ [];
    dependencies = [];
    actions = approve ∷ log ∷ [];
  }

  unfoldable pub documentation_rule : AutoApprovalRule N
  documentation_rule = record {
    id = "auto-approve-documentation";
    gate_id = "architecture";
    priority = 90;
    enabled = true;
    conditions = by_hand ∷ [];
    dependencies = [];
    actions = approve ∷ [];
  }

  unfoldable pub default_auto_approval_rules : List (AutoApprovalRule N)
  default_auto_approval_rules = low_risk_rule ∷ documentation_rule ∷ []

  -- The rules of a gate, by whether it is the one of each.
  abbrev chosen_rules : Bool → Bool → List (AutoApprovalRule N)
  chosen_rules x y =
      let rest = if y && true then documentation_rule ∷ [] else [] in
      if x && true then low_risk_rule ∷ rest else rest

  chosen_rules_refuse :
      (run_id : String) (b : ApprovalState N) (again : Option (ApprovalState N)) (x y : Bool)
      → try_approval_rules num run_id b again
          (sort_by (λ (r : AutoApprovalRule N). r.priority) (chosen_rules x y))
        ≡ (if x then threw else refused)
  unfolding low_risk_rule documentation_rule try_approval_rules check_conditions check_condition
      check_test_pass and_then approve_or
  chosen_rules_refuse run_id b again true true = refl
  chosen_rules_refuse run_id b again true false = refl
  chosen_rules_refuse run_id b again false true = refl
  chosen_rules_refuse run_id b again false false = refl

  -- With the default rules no gate is ever approved, whatever the state of the run: the evaluation of the
  -- security gate ends with an error, and that of any other gate with a refusal.
  pub default_rules_refuse :
      (run_id gate_id : String) (b : ApprovalState N) (again : Option (ApprovalState N))
      → evaluate_gate_for_approval num run_id gate_id
          (some b)
          again
          (new_approval_engine default_auto_approval_rules)
        ≡ (if same "security" gate_id then threw else refused)
  unfolding evaluate_gate_for_approval new_approval_engine set_approval_rules
      default_auto_approval_rules low_risk_rule documentation_rule get_rules_for_gate
  default_rules_refuse run_id gate_id b again =
      chosen_rules_refuse run_id b again (same "security" gate_id) (same "architecture" gate_id)
