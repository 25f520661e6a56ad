-- ===== src/Governance/Checks.antt =====
-- packages/governance/src/gates: the nine gates. The messages and details of a result are left out.
use code_kit_ultra.Base.{
  String, ℕ, List, [], ◌∷◌, Option, none, some, Bool, true, false, not, ◌&&◌, ◌||◌, ◌==◌, length,
  any, select, includes, lookup, same, starts_with, contains, codes, has_prefix, or_default,
  if◌then◌else◌,
}
use code_kit_ultra.Governance.Numbers.{Numbers}

pub record Change : Type 0 where
  pub path : Option String

pub record GateEvaluationContext (N : Type 0) : Type 0 where
  pub run_id : String
  pub project_id : Option String
  pub mode : String
  pub proposed_changes : Option (List Change)
  pub estimated_cost : Option N
  pub test_coverage_delta : Option N
  pub build_status : Option String
  pub deployment_target : Option String

pub data Severity : Type 0 where
  pass fail warning blocked : Severity

pub record GateResult : Type 0 where
  pub gate_name : String
  pub passed : Bool
  pub severity : Severity
  pub requires_review : Bool

-- The four results of `BaseGate`.
unfoldable pub pass_result : String → GateResult
pass_result name = record {
  gate_name = name;
  passed = true;
  severity = Severity.pass;
  requires_review = false;
}

unfoldable pub fail_result : String → Bool → GateResult
fail_result name review = record {
  gate_name = name;
  passed = false;
  severity = Severity.fail;
  requires_review = review;
}

unfoldable pub blocked_result : String → GateResult
blocked_result name = record {
  gate_name = name;
  passed = false;
  severity = Severity.blocked;
  requires_review = false;
}

unfoldable pub warning_result : String → GateResult
warning_result name = record {
  gate_name = name;
  passed = true;
  severity = Severity.warning;
  requires_review = false;
}

unfoldable pub project_boundaries : List (String × List String)
project_boundaries =
    ("proj-api", "packages/orchestrator" ∷ "packages/auth" ∷ "apps/control-service" ∷ [])
    ∷ ("proj-web", "apps/web-control-plane" ∷ [])
    ∷ ("proj-shared", "packages/shared" ∷ "packages/core" ∷ [])
    ∷ []

-- `change.path?.startsWith(boundary)`
unfoldable pub lies_in : Option String → String → Bool
lies_in none boundary = false
lies_in (some path) boundary = starts_with path boundary

unfoldable pub in_scope : List String → Change → Bool
in_scope boundaries change = any (lies_in change.path) boundaries

unfoldable pub boundaries_of : Option String → List String
boundaries_of project = or_default (lookup (or_default project "") project_boundaries) []

unfoldable pub scope_changes : List String → List Change → GateResult
scope_changes boundaries changes =
    if length changes == 0
    then pass_result "Scope Gate"
    else if length boundaries == 0
    then warning_result "Scope Gate"
    else if length (select (λ c. not (in_scope boundaries c)) changes) == 0
    then pass_result "Scope Gate"
    else blocked_result "Scope Gate"

-- A line terminator, which `.` does not match.
unfoldable pub is_line_end : ℕ → Bool
is_line_end c = (c == 10) || (c == 13) || (c == 8232) || (c == 8233)

-- The regular expression `.*q` at the start of a text, and `p.*q` anywhere in it.
unfoldable pub gap : List ℕ → List ℕ → Bool
gap q [] = has_prefix q []
gap q (c ∷ s) = has_prefix q (c ∷ s) || (not (is_line_end c) && gap q s)

unfoldable pub gap_after : List ℕ → List ℕ → List ℕ → Bool
gap_after [] q s = gap q s
gap_after (p ∷ ps) q [] = false
gap_after (p ∷ ps) q (c ∷ s) = (p == c) && gap_after ps q s

unfoldable pub matches_gap : List ℕ → List ℕ → List ℕ → Bool
matches_gap p q [] = gap_after p q []
matches_gap p q (c ∷ s) = gap_after p q (c ∷ s) || matches_gap p q s

-- The two rules that forbid a path.
unfoldable pub is_build_artifact : String → Bool
is_build_artifact path = matches_gap (codes "apps/") (codes "/dist/") (codes path)

unfoldable pub breaks_rule : Change → Bool
breaks_rule change =
    let path = or_default change.path "" in is_build_artifact path || contains path "node_modules"

unfoldable pub allowed_targets : List (String × List String)
allowed_targets =
    ("turbo", "staging" ∷ [])
    ∷ ("balanced", "staging" ∷ "canary" ∷ [])
    ∷ ("safe", "staging" ∷ [])
    ∷ ("expert", "staging" ∷ "canary" ∷ "production" ∷ [])
    ∷ ("god", "staging" ∷ "canary" ∷ "production" ∷ [])
    ∷ []

-- No target, or an empty one, is only a warning.
unfoldable pub deploy_to : String → Option String → GateResult
deploy_to mode none = warning_result "Deployment Gate"
deploy_to mode (some target) =
    if same target ""
    then warning_result "Deployment Gate"
    else if includes target (or_default (lookup mode allowed_targets) [])
    then pass_result "Deployment Gate"
    else blocked_result "Deployment Gate"

unfoldable pub build_result : Option String → GateResult
build_result none = blocked_result "Build Gate"
build_result (some status) =
    if same status "failed"
    then blocked_result "Build Gate"
    else if same status "success"
    then pass_result "Build Gate"
    else warning_result "Build Gate"

unfoldable pub risk_thresholds : List (String × ℕ)
risk_thresholds =
    ("turbo", 20)
    ∷ ("balanced", 40)
    ∷ ("safe", 30)
    ∷ ("builder", 50)
    ∷ ("pro", 60)
    ∷ ("expert", 80)
    ∷ ("god", 100)
    ∷ []

module _ {N : Type 0} where
  unfoldable pub scope_gate : GateEvaluationContext N → GateResult
  scope_gate context =
      scope_changes (boundaries_of context.project_id) (or_default context.proposed_changes [])

  unfoldable pub architecture_gate : GateEvaluationContext N → GateResult
  architecture_gate context =
      if any breaks_rule (or_default context.proposed_changes [])
      then blocked_result "Architecture Gate"
      else pass_result "Architecture Gate"

  unfoldable pub security_gate : GateEvaluationContext N → GateResult
  security_gate context = pass_result "Security Gate"

  unfoldable pub launch_gate : GateEvaluationContext N → GateResult
  launch_gate context =
      if same context.mode "expert" || same context.mode "god"
      then fail_result "Launch Gate" true
      else pass_result "Launch Gate"

  unfoldable pub deployment_gate : GateEvaluationContext N → GateResult
  deployment_gate context = deploy_to context.mode context.deployment_target

  unfoldable pub build_gate : GateEvaluationContext N → GateResult
  build_gate context = build_result context.build_status

  module _ (num : Numbers N) where
    unfoldable pub cost_of : Option N → GateResult
    cost_of none = warning_result "Cost Gate"
    cost_of (some cost) =
        if num.is_falsy cost
        then warning_result "Cost Gate"
        else if num.lt (num.whole 100) cost
        then blocked_result "Cost Gate"
        else pass_result "Cost Gate"

    unfoldable pub cost_gate : GateEvaluationContext N → GateResult
    cost_gate context = cost_of context.estimated_cost

    unfoldable pub coverage_of : Option N → GateResult
    coverage_of none = warning_result "QA Gate"
    coverage_of (some delta) =
        if num.lt delta (num.whole 0) then blocked_result "QA Gate" else pass_result "QA Gate"

    unfoldable pub qa_gate : GateEvaluationContext N → GateResult
    qa_gate context = coverage_of context.test_coverage_delta

    -- The risk is `Math.random() * 100`.
    unfoldable pub risk_threshold_gate : N → GateEvaluationContext N → GateResult
    risk_threshold_gate risk context =
        if num.lt (num.whole (or_default (lookup context.mode risk_thresholds) 50)) risk
        then blocked_result "Risk Threshold Gate"
        else pass_result "Risk Threshold Gate"
