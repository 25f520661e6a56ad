-- ===== src/Planning/Categories.antt =====
-- The category of a project: intake.ts, `inferSolutionCategory`, and planner.ts, `normalizeCategory`.
use Prim.Native.String.{String}
use code_kit_ultra.Base.{◌≡◌, refl, ◌∙◌, ap, if◌then◌else◌}
use code_kit_ultra.Planning.Intake.{
  Category, web_app, website, ai_agent, api, unknown, category_name, contains_any, IntakeInput,
  run_intake, infer_solution_category, normalize_idea_text,
}
use code_kit_ultra.Planning.Planner.{category_of_type, category_of_idea, normalize_category}
use code_kit_ultra.Planning.Gated.{is_known}

category_of_type-name :
    (category other : Category)
    → category_of_type (category_name category) other
      ≡ (if is_known category then category else other)
unfolding category_of_type category_name contains_any
category_of_type-name web_app other = refl
category_of_type-name website other = refl
category_of_type-name Category.automation other = refl
category_of_type-name ai_agent other = refl
category_of_type-name api other = refl
category_of_type-name unknown other = refl

-- Where `toLowerCase` leaves the names of the categories as they are, the plan of an intake is one for
-- the category that the intake inferred, if it inferred one, and otherwise for what the planner's own
-- words find in the idea.
pub normalize_category-run_intake :
    (to_lower_case : String → String) (input : IntakeInput)
    → ((category : Category) → to_lower_case (category_name category) ≡ category_name category)
    → let category = infer_solution_category to_lower_case (normalize_idea_text input.idea) in
      normalize_category to_lower_case (run_intake to_lower_case input) ≡ (
        if is_known category
        then category
        else category_of_idea (to_lower_case (normalize_idea_text input.idea)))
unfolding normalize_category run_intake
normalize_category-run_intake lower input h =
    let idea = normalize_idea_text input.idea in
    let category = infer_solution_category lower idea in
    let other = category_of_idea (lower idea) in
    ap (λ name. category_of_type name other) (h category) ∙ category_of_type-name category other
