-- ===== src/Planning/Gated.antt =====
-- Which new runs pass the gates: phase-engine.ts, the handlers of the intake, the planning and the
-- gating, one after the other.
use Prim.Native.String.{String}
use code_kit_ultra.Base.{
  ℕ, zero, suc, ◌≤◌, ◌≡◌, refl, ap, ◌∙◌, List, [], ◌∷◌, map, take, some, Bool, true, false, not,
  ◌&&◌, ltb, leb, length, length-map, any, all, select, same, includes, if◌then◌else◌, arith,
}
use code_kit_ultra.Shared.{Mode}
use code_kit_ultra.Gates.Modes.{Question, get_mode_policy, sort, insert, trim_questions_by_mode}
use code_kit_ultra.Gates.Manager as Manager
use code_kit_ultra.Gates.Manager.{
  PlannedTask, SelectedSkill, GateEvaluationInput, is_pass, is_specialist, is_turbo,
  is_needs_review, has_dependencies, raw_decisions, create_gate_decision, evaluate_gates,
  objective_clarity, requirements_completeness, plan_readiness, skill_coverage, ambiguity_risk,
}
use code_kit_ultra.Gates.Overall.{clears, evaluate_gates-passes}
use code_kit_ultra.Planning.Intake.{
  Category, web_app, website, ai_agent, api, unknown, category_name, ClarificationResult,
  run_intake, infer_solution_category, normalize_idea_text, derive_assumptions,
  generate_clarifying_questions,
}
use code_kit_ultra.Planning.Planner.{
  Task, create_task, get_category_tasks, get_implementation_dependencies, planned_tasks, build_plan,
}
use code_kit_ultra.Planning.Blocking.{has_blocking}

-- What the gates read of a clarification and of a task.
unfoldable pub gate_clarification : ClarificationResult → Manager.ClarificationResult
gate_clarification c = record {
  normalized_idea = c.normalized_idea;
  inferred_project_type = c.inferred_project_type;
  clarifying_questions = map (λ q. q.text) c.clarifying_questions;
  assumptions = map (λ a. a.text) c.assumptions;
}

unfoldable pub gate_task : Task → PlannedTask
gate_task t = record { id = t.id; dependencies = t.dependencies }

-- What the gates are asked in a new run, before any is approved by hand.
unfoldable pub new_run_input :
    (String → String) → String → Mode → List SelectedSkill → GateEvaluationInput
new_run_input to_lower_case idea mode skills =
    let c = run_intake to_lower_case (record { idea = idea; mode = some mode }) in
    record {
      clarification_result = gate_clarification c;
      plan = map gate_task (build_plan to_lower_case c);
      selected_skills = skills;
      mode = some mode;
      approved_gates = [];
    }

abbrev pub is_known : Category → Bool
is_known unknown = false
is_known category = true

-- Which new runs pass: the mode, whether the category is known and has a blocking question, whether
-- the idea is blank, and how many skills and special skills there are.
abbrev pub passes : Mode → Bool → Bool → Bool → ℕ → ℕ → Bool
passes Mode.turbo known blocking blank skills special = not blank && ltb 0 skills
passes Mode.builder known blocking blank skills special =
    not blank && known && not blocking && ltb 1 skills && ltb 0 special
passes Mode.god known blocking blank skills special =
    not blank && known && ltb 0 skills && ltb 0 special
passes mode known blocking blank skills special = false

length-insert : (q : Question) (rs : List Question) → length (insert q rs) ≡ suc (length rs)
unfolding insert
length-insert q [] = refl
length-insert q (r ∷ rs) = ground (arith, length-insert q rs)

length-sort : (qs : List Question) → length (sort qs) ≡ length qs
unfolding sort
length-sort [] = refl
length-sort (q ∷ qs) = length-insert q (sort qs) ∙ ap suc (length-sort qs)

abbrev least : ℕ → ℕ → ℕ
least n m = if leb n m then n else m

length-take : (n : ℕ) (qs : List Question) → length (take n qs) ≡ least n (length qs)
length-take zero qs = ground arith
length-take (suc n) [] = ground arith
length-take (suc n) (q ∷ qs) = ground (arith, length-take n qs)

abbrev asked : Bool → ℕ
asked blocking = if blocking then 4 else 3

abbrev limit : Mode → ℕ
limit mode = (get_mode_policy mode).max_clarifying_questions

length-questions :
    (category : Category)
    → length (generate_clarifying_questions category) ≡ asked (has_blocking category)
unfolding generate_clarifying_questions
length-questions web_app = refl
length-questions website = refl
length-questions Category.automation = refl
length-questions ai_agent = refl
length-questions api = refl
length-questions unknown = refl

length-asked :
    (category : Category) (mode : Mode)
    → length (trim_questions_by_mode (generate_clarifying_questions category) mode)
      ≡ least (limit mode) (asked (has_blocking category))
unfolding trim_questions_by_mode
length-asked category mode =
    length-take _ (sort (generate_clarifying_questions category))
    ∙ ap (least (limit mode)) (length-sort _ ∙ length-questions category)

length-assumptions : (category : Category) → length (derive_assumptions category) ≤ 3
unfolding derive_assumptions
length-assumptions web_app = omega arith
length-assumptions website = omega arith
length-assumptions Category.automation = omega arith
length-assumptions ai_agent = omega arith
length-assumptions api = omega arith
length-assumptions unknown = omega arith

is_known-name :
    (category : Category)
    → includes (category_name category) ("" ∷ "unknown" ∷ "unclear" ∷ []) ≡ not (is_known category)
unfolding category_name
is_known-name web_app = refl
is_known-name website = refl
is_known-name Category.automation = refl
is_known-name ai_agent = refl
is_known-name api = refl
is_known-name unknown = refl

-- Every plan has six tasks at least, of which some depend on others.
abbrev IsReady : List PlannedTask → Type 0
IsReady tasks = (6 ≤ length tasks) × (any has_dependencies tasks ≡ true)

planned_tasks-IsReady :
    (category : Category) (c : ClarificationResult)
    → IsReady (map gate_task (planned_tasks category c))
unfolding planned_tasks create_task get_category_tasks get_implementation_dependencies gate_task
    has_dependencies
planned_tasks-IsReady web_app c = (omega arith, refl)
planned_tasks-IsReady website c = (omega arith, refl)
planned_tasks-IsReady Category.automation c = (omega arith, refl)
planned_tasks-IsReady ai_agent c = (omega arith, refl)
planned_tasks-IsReady api c = (omega arith, refl)
planned_tasks-IsReady unknown c = (omega arith, refl)

module _ (input : GateEvaluationInput) (known blocking : Bool) where
  -- The gates of a mode, from the numbers that they read.
  clear-passes :
      (mode : Mode)
      → length input.clarification_result.clarifying_questions ≡ least (limit mode) (asked blocking)
      → length input.clarification_result.assumptions ≤ 3
      → includes input.clarification_result.inferred_project_type ("" ∷ "unknown" ∷ "unclear" ∷ [])
        ≡ not known
      → IsReady input.plan
      → all (clears [] mode) (raw_decisions input (get_mode_policy mode).gate_thresholds)
        ≡ passes mode known blocking
            (same input.clarification_result.normalized_idea "")
            (length input.selected_skills)
            (length (select is_specialist input.selected_skills))
  unfolding raw_decisions create_gate_decision objective_clarity requirements_completeness
      plan_readiness skill_coverage ambiguity_risk get_mode_policy is_pass is_turbo is_needs_review
  clear-passes Mode.turbo q a t p = ground arith
  clear-passes Mode.builder q a t p = ground arith
  clear-passes Mode.pro q a t p = ground arith
  clear-passes Mode.expert q a t p = ground arith
  clear-passes Mode.safe q a t p = ground arith
  clear-passes Mode.balanced q a t p = ground arith
  clear-passes Mode.god q a t p = ground arith

-- Whatever the idea and the skills, a new run, before any gate is approved by hand, passes the gates
-- if and only if the idea is not blank and the mode is turbo, with a skill, or god, with a special
-- skill and an idea of a known category, or builder, with two skills, a special one among them, and
-- an idea of a known category that is not an application or a website. In the other four modes no
-- new run passes.
pub new_run-passes :
    (to_lower_case : String → String) (idea : String) (mode : Mode) (skills : List SelectedSkill)
    → let category = infer_solution_category to_lower_case (normalize_idea_text idea) in
      is_pass (evaluate_gates (new_run_input to_lower_case idea mode skills)).overall_status
      ≡ passes mode
          (is_known category)
          (has_blocking category)
          (same (normalize_idea_text idea) "")
          (length skills)
          (length (select is_specialist skills))
unfolding new_run_input gate_clarification run_intake build_plan
new_run-passes lower idea mode skills =
    let category = infer_solution_category lower (normalize_idea_text idea) in
    let input = new_run_input lower idea mode skills in
    evaluate_gates-passes input
    ∙ clear-passes input (is_known category) (has_blocking category) mode
        (length-map _ _ ∙ length-asked category mode)
        (rw (length-map {B = String}) (length-assumptions category)) (is_known-name category)
        (planned_tasks-IsReady _ _)
