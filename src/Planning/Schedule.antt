-- ===== src/Planning/Schedule.antt =====
-- The order of a plan: planner.ts, `buildPlan`.
use Prim.Native.String.{String}
use code_kit_ultra.Base.{◌≡◌, List, [], ◌∷◌, true, false, any, includes, All}
use code_kit_ultra.Planning.Intake.{
  Category, web_app, website, ai_agent, api, unknown, ClarificationResult,
}
use code_kit_ultra.Planning.Planner.{
  Task, create_task, get_category_tasks, get_implementation_dependencies, normalize_category,
  planned_tasks, build_plan,
}

-- The tasks can be done one after the other: none repeats the id of one before it, and each depends
-- on tasks before it only.
abbrev pub IsOrdered : List String → List Task → Type 0
IsOrdered done [] = Unit
IsOrdered done (t ∷ ts) =
    (includes t.id done ≡ false)
    × All (λ d. includes d done ≡ true) t.dependencies
    × IsOrdered (t.id ∷ done) ts

-- Each task but the last is needed for a later one.
abbrev pub IsNeeded : List Task → Type 0
IsNeeded [] = Unit
IsNeeded (t ∷ []) = Unit
IsNeeded (t ∷ u ∷ ts) =
    (any (λ v. includes t.id v.dependencies) (u ∷ ts) ≡ true) × IsNeeded (u ∷ ts)

planned_tasks-IsOrdered :
    (category : Category) (c : ClarificationResult)
    → IsOrdered [] (planned_tasks category c) × IsNeeded (planned_tasks category c)
unfolding planned_tasks create_task get_category_tasks get_implementation_dependencies
planned_tasks-IsOrdered web_app c = search tt
planned_tasks-IsOrdered website c = search tt
planned_tasks-IsOrdered Category.automation c = search tt
planned_tasks-IsOrdered ai_agent c = search tt
planned_tasks-IsOrdered api c = search tt
planned_tasks-IsOrdered unknown c = search tt

-- Whatever the clarification, the tasks of the plan have distinct ids, each depends only on tasks
-- that stand before it, and each but the last is one that a later task depends on.
pub build_plan-IsOrdered :
    (to_lower_case : String → String) (c : ClarificationResult)
    → IsOrdered [] (build_plan to_lower_case c) × IsNeeded (build_plan to_lower_case c)
unfolding build_plan
build_plan-IsOrdered lower c = planned_tasks-IsOrdered (normalize_category lower c) c
