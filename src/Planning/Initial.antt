-- ===== src/Planning/Initial.antt =====
-- planner.ts, `buildInitialPlan`: the tasks that a new run executes.
use Prim.Native.Char.{Char, code}
use Prim.Native.String.{String, ◌++◌ as ◌<>◌}
use code_kit_ultra.Base.{
  List, [], ◌∷◌, Option, some, none, Bool, true, false, not, ◌&&◌, ◌||◌, leb, ◌==◌, or_default,
  if◌then◌else◌, is_empty, take_chars, trim_by, replace_runs,
}
use code_kit_ultra.Shared.{Mode, PlanTask}

pub record UserInput : Type 0 where
  pub idea : String
  pub mode : Mode
  pub deliverable : Option String
  pub allow_command_execution : Option Bool

abbrev mode_name : Mode → String
mode_name Mode.turbo = "turbo"
mode_name Mode.builder = "builder"
mode_name Mode.pro = "pro"
mode_name Mode.expert = "expert"
mode_name Mode.safe = "safe"
mode_name Mode.balanced = "balanced"
mode_name Mode.god = "god"

-- `[a-z0-9]`
unfoldable pub is_alphanumeric : Char → Bool
is_alphanumeric c = (leb 97 (code c) && leb (code c) 122) || (leb 48 (code c) && leb (code c) 57)

unfoldable pub is_dash : Char → Bool
is_dash c = code c == 45

-- Lines 119 to 123.
unfoldable pub slug : (String → String) → String → String
slug to_lower_case idea =
    let dashed = replace_runs (λ c. not (is_alphanumeric c)) "-" false (to_lower_case idea) in
    let text = take_chars 48 (trim_by is_dash dashed) in if is_empty text then "project" else text

-- A task as the engine reads it; each value of a payload stands by its text.
abbrev plan_task : String → String → String → List (String × String) → PlanTask
plan_task id title adapter payload = record {
  id = id;
  title = title;
  adapter_id = adapter;
  payload = payload;
  requires_approval = false;
  max_attempts = some 1;
  rollback_payload = none;
}

unfoldable pub command_task : UserInput → PlanTask
command_task input = plan_task "p3" "Prepare workspace command" "terminal" (
    ("command", "echo")
    ∷ ("args", "Phase 8 workspace prepared")
    ∷ ("allowExecution", if or_default input.allow_command_execution false then "true" else "false")
    ∷ [])

unfoldable pub checkpoint_task : PlanTask
checkpoint_task =
    record (plan_task "p4" "Approval checkpoint" "terminal"
      (("command", "echo") ∷ ("args", "Checkpoint reached") ∷ [])) { requires_approval = true }

module _ (to_lower_case : String → String) (join : List String → String) where
  -- A task that writes a file of the run.
  unfoldable pub file_task : String → String → String → String → String → PlanTask
  file_task id title idea name content =
      let path = join (".codekit/generated" ∷ slug to_lower_case idea ∷ name ∷ []) in
      record (plan_task id title "fs" (("path", path) ∷ ("content", content) ∷ [])) {
        rollback_payload = some (("path", path) ∷ []);
      }

  unfoldable pub intake_task : UserInput → PlanTask
  intake_task input = file_task "p1" "Capture normalized intake" input.idea "00-intake-note.md" (
      "# Intake\n\nIdea: "
      <> input.idea
      <> "\nMode: "
      <> mode_name input.mode
      <> "\nDeliverable: "
      <> or_default input.deliverable "app"
      <> "\n")

  unfoldable pub scaffold_task : UserInput → PlanTask
  scaffold_task input =
      record (file_task "p2" "Generate MVP scaffold plan" input.idea "01-plan.md"
        "# MVP Plan\n\n- Define user journeys\n- Implement core entities\n- Build UI and APIs\n- Add QA and deployment checks\n") {
          max_attempts = some 2;
        }

  unfoldable pub build_initial_plan : UserInput → List PlanTask
  build_initial_plan input =
      intake_task input ∷ scaffold_task input ∷ command_task input ∷ checkpoint_task ∷ []
