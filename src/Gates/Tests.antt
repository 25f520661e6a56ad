-- ===== src/Gates/Tests.antt =====
-- The gates and the trimming at concrete inputs.
use code_kit_ultra.Base.{String, ◌≡◌, refl, List, [], ◌∷◌, Option, none, some, Bool, true, false}
use code_kit_ultra.Shared.{Mode}
use code_kit_ultra.Gates.Modes.{
  Question, Priority, get_mode_policy, trim_questions_by_mode, sort, insert, priority_weight,
  weight_of,
}
use code_kit_ultra.Gates.Manager.{
  GateEvaluationInput, PlannedTask, is_pass, evaluate_gates, raw_decisions, overall_gate_status,
  settle, pass_decision, is_turbo, is_blocked, is_needs_review, create_gate_decision,
  objective_clarity, requirements_completeness, plan_readiness, skill_coverage, ambiguity_risk,
  has_dependencies, is_specialist,
}
use code_kit_ultra.Gates.Trim.{IsBest, trim_questions_by_mode-IsBest}

abbrev question : String → Option Priority → Bool → Question
question id p r = record { id = id; text = id; priority = p; required = r; blocking = r }

abbrev questions : List Question
questions =
    question "a" (some Priority.low) false
    ∷ question "b" none true
    ∷ question "c" (some Priority.critical) false
    ∷ []

-- The turbo mode keeps two questions of three.
trimmed :
    trim_questions_by_mode questions Mode.turbo
    ≡ question "b" none true ∷ question "c" (some Priority.critical) false ∷ []
unfolding trim_questions_by_mode get_mode_policy sort insert priority_weight weight_of
trimmed = refl

trim_questions_by_mode-IsBest_example :
    IsBest
      (get_mode_policy Mode.turbo).max_clarifying_questions
      questions
      (trim_questions_by_mode questions Mode.turbo)
trim_questions_by_mode-IsBest_example = trim_questions_by_mode-IsBest questions Mode.turbo

abbrev task : String → List String → PlannedTask
task id deps = record { id = id; dependencies = deps }

-- Two open questions, a plan of three tasks and one specialist skill: clear for the turbo mode.
abbrev input : Option Mode → GateEvaluationInput
input mode = record {
  clarification_result = record {
    normalized_idea = "a shop";
    inferred_project_type = "web-app";
    clarifying_questions = "who" ∷ "when" ∷ [];
    assumptions = [];
  };
  plan = task "a" [] ∷ task "b" ("a" ∷ []) ∷ task "c" [] ∷ [];
  selected_skills = record { skill_id = "react"; category = "frontend" } ∷ [];
  mode = mode;
  approved_gates = [];
}

turbo_passes : is_pass (evaluate_gates (input (some Mode.turbo))).overall_status ≡ true
unfolding is_pass evaluate_gates get_mode_policy overall_gate_status raw_decisions settle
    pass_decision is_turbo is_blocked is_needs_review create_gate_decision objective_clarity
    requirements_completeness plan_readiness skill_coverage ambiguity_risk has_dependencies
    is_specialist
turbo_passes = refl
