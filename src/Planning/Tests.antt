-- ===== src/Planning/Tests.antt =====
-- The intake and the planner at concrete inputs.
use Prim.Native.String.{String, ◌++◌ as ◌<>◌}
use code_kit_ultra.Base.{
  ℕ, ◌≡◌, refl, List, [], ◌∷◌, none, some, true, same, length, select, trim, trim_by, replace_runs,
}
use code_kit_ultra.Shared.{Mode}
use code_kit_ultra.Core.PolicyEngine.{default_rules}
use code_kit_ultra.Gates.Manager.{SelectedSkill, evaluate_gates, is_pass, is_specialist}
use code_kit_ultra.Execution.Machine.{Machine}
use code_kit_ultra.Execution.Run.{execute_run_bundle}
use code_kit_ultra.Execution.OneApproval.{IsUnfinished}
use code_kit_ultra.Execution.Tests.{adapters, machine, no_heal, store}
use code_kit_ultra.Planning.Intake.{
  web_app, IntakeInput, normalize_idea_text, infer_solution_category, category_of, contains_any,
  run_intake,
}
use code_kit_ultra.Planning.Planner.{build_plan}
use code_kit_ultra.Planning.Initial.{UserInput, is_alphanumeric, is_dash, slug, build_initial_plan}
use code_kit_ultra.Planning.Schedule.{IsOrdered, IsNeeded, build_plan-IsOrdered}
use code_kit_ultra.Planning.Blocking.{has_blocking}
use code_kit_ultra.Planning.Gated.{new_run_input, passes, is_known, new_run-passes}
use code_kit_ultra.Planning.Slug.{IsSafe, slug-IsSafe}
use code_kit_ultra.Planning.Checkpoint.{initial_plan-IsUnfinished}

-- A lower case for texts that have no capitals.
abbrev lower : String → String
lower s = s

abbrev idea : String
idea = "  a  crm for\nshops "

abbrev input : IntakeInput
input = record { idea = idea; mode = none }

normalized : normalize_idea_text idea ≡ "a crm for shops"
unfolding normalize_idea_text trim replace_runs
normalized = refl

inferred : infer_solution_category lower idea ≡ web_app
unfolding infer_solution_category category_of contains_any
inferred = refl

slug_runs : slug lower "../../etc" ≡ "etc"
unfolding slug is_alphanumeric is_dash trim_by replace_runs
slug_runs = refl

-- The cut to 48 characters comes last, so that a slug may end in a dash.
slug_ends_in_dash :
    slug lower "aaaaaaaaaaaaaaaaaaaaaaaaaaaaaaaaaaaaaaaaaaaaaaa b"
    ≡ "aaaaaaaaaaaaaaaaaaaaaaaaaaaaaaaaaaaaaaaaaaaaaaa-"
unfolding slug is_alphanumeric is_dash trim_by replace_runs
slug_ends_in_dash = refl

build_plan-IsOrdered_example :
    let plan = build_plan lower (run_intake lower input) in IsOrdered [] plan × IsNeeded plan
build_plan-IsOrdered_example = build_plan-IsOrdered lower (run_intake lower input)

abbrev skills : List SelectedSkill
skills = record { skill_id = "react"; category = "frontend" } ∷ []

new_run-passes_example :
    is_pass (evaluate_gates (new_run_input lower idea Mode.turbo skills)).overall_status
    ≡ passes Mode.turbo
        (is_known (infer_solution_category lower (normalize_idea_text idea)))
        (has_blocking (infer_solution_category lower (normalize_idea_text idea)))
        (same (normalize_idea_text idea) "")
        (length skills)
        (length (select is_specialist skills))
new_run-passes_example = new_run-passes lower idea Mode.turbo skills

slug-IsSafe_example : IsSafe (slug lower "../../etc")
slug-IsSafe_example = slug-IsSafe lower "../../etc"

abbrev user_input : UserInput
user_input = record {
  idea = idea;
  mode = Mode.builder;
  deliverable = none;
  allow_command_execution = some true;
}

abbrev join : List String → String
join [] = ""
join (s ∷ ss) = s <> "/" <> join ss

abbrev new_run : Machine ℕ
new_run = machine (build_initial_plan lower join user_input) true

initial_plan-IsUnfinished_example :
    IsUnfinished (execute_run_bundle default_rules no_heal adapters store 5 new_run)
initial_plan-IsUnfinished_example =
    initial_plan-IsUnfinished default_rules no_heal adapters lower join store 5 user_input new_run
      refl refl
