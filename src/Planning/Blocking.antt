-- ===== src/Planning/Blocking.antt =====
-- What the intake asks: intake.ts, `runIntake`, and mode-controller.ts, `trimQuestionsByMode`.
use Prim.Native.String.{String}
use code_kit_ultra.Base.{◌≡◌, refl, Bool, true, false, or_default, if◌then◌else◌}
use code_kit_ultra.Shared.{Mode}
use code_kit_ultra.Gates.Modes.{
  trim_questions_by_mode, get_mode_policy, sort, insert, priority_weight, weight_of,
}
use code_kit_ultra.Planning.Intake.{
  Category, web_app, website, ai_agent, api, unknown, Completeness, needs_clarification,
  sufficient_for_initial_planning, IntakeInput, run_intake, completeness_of,
  generate_clarifying_questions, infer_solution_category, normalize_idea_text,
}

-- The categories that have a blocking question.
abbrev pub has_blocking : Category → Bool
has_blocking web_app = true
has_blocking website = true
has_blocking category = false

abbrev pub is_god : Mode → Bool
is_god Mode.god = true
is_god mode = false

abbrev not_god : Category → Completeness
not_god category =
    if has_blocking category then needs_clarification else sufficient_for_initial_planning

trimmed :
    (category : Category) (mode : Mode)
    → completeness_of (trim_questions_by_mode (generate_clarifying_questions category) mode)
      ≡ (if is_god mode then sufficient_for_initial_planning else not_god category)
unfolding completeness_of trim_questions_by_mode get_mode_policy sort insert priority_weight
    weight_of generate_clarifying_questions
trimmed web_app Mode.turbo = refl
trimmed web_app Mode.builder = refl
trimmed web_app Mode.pro = refl
trimmed web_app Mode.expert = refl
trimmed web_app Mode.safe = refl
trimmed web_app Mode.balanced = refl
trimmed web_app Mode.god = refl
trimmed website Mode.turbo = refl
trimmed website Mode.builder = refl
trimmed website Mode.pro = refl
trimmed website Mode.expert = refl
trimmed website Mode.safe = refl
trimmed website Mode.balanced = refl
trimmed website Mode.god = refl
trimmed Category.automation Mode.turbo = refl
trimmed Category.automation Mode.builder = refl
trimmed Category.automation Mode.pro = refl
trimmed Category.automation Mode.expert = refl
trimmed Category.automation Mode.safe = refl
trimmed Category.automation Mode.balanced = refl
trimmed Category.automation Mode.god = refl
trimmed ai_agent Mode.turbo = refl
trimmed ai_agent Mode.builder = refl
trimmed ai_agent Mode.pro = refl
trimmed ai_agent Mode.expert = refl
trimmed ai_agent Mode.safe = refl
trimmed ai_agent Mode.balanced = refl
trimmed ai_agent Mode.god = refl
trimmed api Mode.turbo = refl
trimmed api Mode.builder = refl
trimmed api Mode.pro = refl
trimmed api Mode.expert = refl
trimmed api Mode.safe = refl
trimmed api Mode.balanced = refl
trimmed api Mode.god = refl
trimmed unknown Mode.turbo = refl
trimmed unknown Mode.builder = refl
trimmed unknown Mode.pro = refl
trimmed unknown Mode.expert = refl
trimmed unknown Mode.safe = refl
trimmed unknown Mode.balanced = refl
trimmed unknown Mode.god = refl

-- Whatever the idea, the intake asks for a clarification if and only if the mode is not god and the
-- idea is one of a web application or a website: no other mode trims away a blocking question.
pub run_intake-completeness :
    (to_lower_case : String → String) (input : IntakeInput)
    → (run_intake to_lower_case input).completeness ≡ (
        if is_god (or_default input.mode Mode.builder)
        then sufficient_for_initial_planning
        else if has_blocking
            (infer_solution_category to_lower_case (normalize_idea_text input.idea))
        then needs_clarification
        else sufficient_for_initial_planning)
unfolding run_intake
run_intake-completeness lower input = trimmed _ _
