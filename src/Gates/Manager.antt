-- ===== src/Gates/Manager.antt =====
-- packages/orchestrator/src/gate-manager.ts: the five gates before a run, the manual approvals and
-- the overall status. The texts of a decision are left out.
use code_kit_ultra.Base.{
  String, ℕ, suc, List, [], ◌∷◌, map, Option, Bool, true, false, not, ◌&&◌, ◌||◌, ltb, leb, ◌==◌,
  length, any, select, includes, same, or_default, if◌then◌else◌,
}
use code_kit_ultra.Shared.{Mode, GateStatus}
use code_kit_ultra.Gates.Modes.{GateThresholds, get_mode_policy}

-- A missing text is the empty one, and a missing list is empty: the gates treat them alike.
pub record ClarificationResult : Type 0 where
  pub normalized_idea : String
  pub inferred_project_type : String
  pub clarifying_questions : List String
  pub assumptions : List String

pub record PlannedTask : Type 0 where
  pub id : String
  pub dependencies : List String

pub record SelectedSkill : Type 0 where
  pub skill_id : String
  pub category : String

pub record GateEvaluationInput : Type 0 where
  pub clarification_result : ClarificationResult
  pub plan : List PlannedTask
  pub selected_skills : List SelectedSkill
  pub mode : Option Mode
  pub approved_gates : List String

pub record GateDecision : Type 0 where
  pub gate : String
  pub status : GateStatus
  pub should_pause : Bool

-- The numbers of the summary.
pub record GateSummary : Type 0 where
  pub pass : ℕ
  pub needs_review : ℕ
  pub blocked : ℕ

pub record GateEvaluationResult : Type 0 where
  pub overall_status : GateStatus
  pub decisions : List GateDecision
  pub summary : GateSummary

unfoldable pub is_pass : GateStatus → Bool
is_pass GateStatus.pass = true
is_pass _ = false

unfoldable pub is_blocked : GateStatus → Bool
is_blocked GateStatus.blocked = true
is_blocked _ = false

unfoldable pub is_needs_review : GateStatus → Bool
is_needs_review GateStatus.needs_review = true
is_needs_review _ = false

unfoldable pub is_turbo : Mode → Bool
is_turbo Mode.turbo = true
is_turbo _ = false

unfoldable pub create_gate_decision : String → GateStatus → GateDecision
create_gate_decision gate status = record {
  gate = gate;
  status = status;
  should_pause = not (is_pass status);
}

unfoldable pub objective_clarity : GateEvaluationInput → GateStatus
objective_clarity input =
    let c = input.clarification_result in
    if same c.normalized_idea ""
    then GateStatus.blocked
    else if includes c.inferred_project_type ("" ∷ "unknown" ∷ "unclear" ∷ [])
    then GateStatus.needs_review
    else GateStatus.pass

unfoldable pub requirements_completeness : GateEvaluationInput → GateThresholds → GateStatus
requirements_completeness input limits =
    let questions = length input.clarification_result.clarifying_questions in
    if leb limits.max_questions_before_block questions
    then GateStatus.blocked
    else if leb limits.max_questions_before_review questions
    then GateStatus.needs_review
    else GateStatus.pass

unfoldable pub has_dependencies : PlannedTask → Bool
has_dependencies task = ltb 0 (length task.dependencies)

unfoldable pub plan_readiness : GateEvaluationInput → GateThresholds → GateStatus
plan_readiness input limits =
    if length input.plan == 0
    then GateStatus.blocked
    else if ltb (length input.plan) limits.minimum_plan_tasks
        || not (any has_dependencies input.plan)
    then GateStatus.needs_review
    else GateStatus.pass

unfoldable pub is_specialist : SelectedSkill → Bool
is_specialist skill = not (same skill.category "fallback")

unfoldable pub skill_coverage : GateEvaluationInput → GateThresholds → GateStatus
skill_coverage input limits =
    let skills = input.selected_skills in
    if length skills == 0
    then GateStatus.blocked
    else if ltb (length skills) limits.minimum_selected_skills
        || (length (select is_specialist skills) == 0)
    then GateStatus.needs_review
    else GateStatus.pass

unfoldable pub ambiguity_risk : GateEvaluationInput → GateThresholds → GateStatus
ambiguity_risk input limits =
    let questions = length input.clarification_result.clarifying_questions in
    let assumptions = length input.clarification_result.assumptions in
    if leb limits.ambiguity_block_threshold questions
    then GateStatus.blocked
    else if ltb 6 assumptions || leb limits.ambiguity_review_threshold questions
    then GateStatus.needs_review
    else GateStatus.pass

-- The five decisions before the approvals are looked at.
unfoldable pub raw_decisions : GateEvaluationInput → GateThresholds → List GateDecision
raw_decisions input limits =
    create_gate_decision "objective-clarity" (objective_clarity input)
    ∷ create_gate_decision "requirements-completeness" (requirements_completeness input limits)
    ∷ create_gate_decision "plan-readiness" (plan_readiness input limits)
    ∷ create_gate_decision "skill-coverage" (skill_coverage input limits)
    ∷ create_gate_decision "ambiguity-risk" (ambiguity_risk input limits)
    ∷ []

unfoldable pub pass_decision : GateDecision → GateDecision
pass_decision d = record d { status = GateStatus.pass; should_pause = false }

-- Lines 38 to 60: a manual approval, and the automatic one of the turbo mode.
unfoldable pub settle : List String → Mode → GateDecision → GateDecision
settle approved mode d =
    if includes d.gate approved
    then pass_decision d
    else if is_turbo mode && is_needs_review d.status
    then pass_decision d
    else d

unfoldable pub overall_gate_status : List GateDecision → GateStatus
overall_gate_status ds =
    if any (λ d. is_blocked d.status) ds
    then GateStatus.blocked
    else if any (λ d. is_needs_review d.status) ds
    then GateStatus.needs_review
    else GateStatus.pass

-- How many decisions have a status.
unfoldable pub count : (GateStatus → Bool) → List GateDecision → ℕ
count p [] = 0
count p (d ∷ ds) = let n = count p ds in if p d.status then suc n else n

unfoldable pub build_gate_summary : List GateDecision → GateSummary
build_gate_summary ds = record {
  pass = count is_pass ds;
  needs_review = count is_needs_review ds;
  blocked = count is_blocked ds;
}

unfoldable pub evaluate_gates : GateEvaluationInput → GateEvaluationResult
evaluate_gates input =
    let mode = or_default input.mode Mode.builder in
    let ds =
      map (settle input.approved_gates mode)
        (raw_decisions input (get_mode_policy mode).gate_thresholds) in
    record {
      overall_status = overall_gate_status ds;
      decisions = ds;
      summary = build_gate_summary ds;
    }
