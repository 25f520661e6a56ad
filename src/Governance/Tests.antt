-- ===== src/Governance/Tests.antt =====
-- The gates and the table at concrete inputs: numbers are whole, the world counts the queries, and
-- the risk is always 35.
use code_kit_ultra.Base.{
  all, String, ℕ, suc, ◌≡◌, refl, List, [], ◌∷◌, none, some, true, ◌&&◌, ltb, ◌==◌, same, map_some,
}
use code_kit_ultra.Actions.Policy.{BuilderAction, write_file, run_command}
use code_kit_ultra.Governance.Constraints.{ConstraintPolicy, evaluate_constraints}
use code_kit_ultra.Governance.Permits.{within, permits, evaluate_constraints-permits}
use code_kit_ultra.Governance.Numbers.{Numbers}
use code_kit_ultra.Governance.Checks.{GateEvaluationContext, pass_result}
use code_kit_ultra.Governance.Store.{DecisionStatus, Row, override_gate_decision}
use code_kit_ultra.Governance.Sequence.{Services, get_gate_sequence, evaluate_gates}
use code_kit_ultra.Governance.Order.{Follows, evaluate_gates-Follows}
use code_kit_ultra.Governance.Decisions.{
  newest_status, settled, verdict, override_gate_decision-settles,
}

abbrev numbers : Numbers ℕ
numbers = record { lt = ltb; eq = ◌==◌; whole = λ n. n; is_falsy = λ n. n == 0 }

abbrev services : Services ℕ ℕ
services = record {
  random_risk = λ w. (35, w);
  now = λ w. ("1700000000000", w);
  query = λ w. (true, suc w);
}

abbrev context : String → GateEvaluationContext ℕ
context mode = record {
  run_id = "run-1";
  project_id = some "proj-api";
  mode = mode;
  proposed_changes = some (record { path = some "packages/auth/src/index.ts" } ∷ []);
  estimated_cost = some 40;
  test_coverage_delta = some 1;
  build_status = some "success";
  deployment_target = some "staging";
}

abbrev row : String → DecisionStatus → Row
row run status = record {
  id = run;
  gate_id = "Launch Gate";
  run_id = run;
  status = status;
  result = pass_result "Launch Gate";
  reviewer_id = none;
  reason = none;
}

abbrev table : List Row
table = row "run-1" DecisionStatus.needs_review ∷ row "run-2" DecisionStatus.needs_review ∷ []

evaluate_gates-Follows_example :
    Follows "safe"
      (get_gate_sequence numbers services "safe")
      (evaluate_gates numbers services (context "safe") [] 0).results
evaluate_gates-Follows_example =
    evaluate_gates-Follows numbers services (context "safe") [] 0 (λ w. refl)

-- An approval for one run is one for the other.
override_gate_decision-settles_example :
    newest_status "Launch Gate" "run-2"
      (override_gate_decision "Launch Gate" "run-1" "ann" true table)
    ≡ map_some (settled (verdict true)) (newest_status "Launch Gate" "run-2" table)
override_gate_decision-settles_example =
    override_gate_decision-settles "Launch Gate" "run-1" "ann" true "run-2" table

abbrev policy : ConstraintPolicy
policy = record {
  allowed_paths = some ("src/" ∷ []);
  blocked_paths = some ("src/secret" ∷ []);
  blocked_action_types = none;
  blocked_command_patterns = some ("rm" ∷ []);
  max_files_changed = some 1;
  max_commands = some 1;
  max_actions = none;
}

abbrev actions : List BuilderAction
actions = write_file "src/a.ts" "x" none ∷ run_command "npm test" none none ∷ []

evaluate_constraints-permits_example :
    (evaluate_constraints same actions policy).valid
    ≡ (within policy actions && all (permits same policy) actions)
evaluate_constraints-permits_example = evaluate_constraints-permits same policy actions
