-- ===== src/Planning/Planner.antt =====
-- packages/orchestrator/src/planner.ts: `buildPlan`.
use Prim.Native.String.{String, ◌++◌ as ◌<>◌}
use code_kit_ultra.Base.{
  ℕ, ◌+◌, ◌-◌, ◌*◌, List, [], ◌∷◌, ◌++◌, ◌&&◌, leb, ltb, ◌==◌, same, length, if◌then◌else◌, decimal,
}
use code_kit_ultra.Shared.{StepStatus}
use code_kit_ultra.Planning.Intake.{
  Category, web_app, website, ai_agent, api, unknown, sufficient_for_initial_planning,
  needs_clarification, ClarificationResult, contains_any,
}

pub data TaskType : Type 0 where
  planning implementation skills automation deployment general : TaskType

pub record Task : Type 0 where
  pub id : String
  pub title : String
  pub description : String
  pub status : StepStatus
  pub type : TaskType
  pub dependencies : List String

-- `createTask`
unfoldable pub create_task : String → String → String → StepStatus → TaskType → List String → Task
create_task id title description status type dependencies = record {
  id = id;
  title = title;
  description = description;
  status = status;
  type = type;
  dependencies = dependencies;
}

abbrev min : ℕ → ℕ → ℕ
min a b = if leb a b then a else b

unfoldable pub clamp : ℕ → ℕ → ℕ → ℕ
clamp value low high = min (if leb value low then low else value) high

unfoldable pub category_of_type : String → Category → Category
category_of_type source otherwise =
    if contains_any source ("crm" ∷ "saas" ∷ "platform" ∷ "dashboard" ∷ "web-app" ∷ "app" ∷ [])
    then web_app
    else if contains_any source ("website" ∷ "landing page" ∷ "marketing site" ∷ "site" ∷ [])
    then website
    else if contains_any source ("automation" ∷ "workflow" ∷ "integration" ∷ "zap" ∷ "process" ∷ [])
    then Category.automation
    else if contains_any source
        ("agent" ∷ "copilot" ∷ "assistant" ∷ "multi-agent" ∷ "ai-agent" ∷ "agent-system" ∷ [])
    then ai_agent
    else if contains_any source ("api" ∷ "backend" ∷ "service" ∷ [])
    then api
    else otherwise

unfoldable pub category_of_idea : String → Category
category_of_idea idea =
    if contains_any idea ("website" ∷ "landing page" ∷ [])
    then website
    else if contains_any idea ("automation" ∷ "workflow" ∷ [])
    then Category.automation
    else if contains_any idea ("agent" ∷ "assistant" ∷ "copilot" ∷ [])
    then ai_agent
    else if contains_any idea ("api" ∷ "backend" ∷ [])
    then api
    else if same idea ""
    then unknown
    else web_app

unfoldable pub normalize_category : (String → String) → ClarificationResult → Category
normalize_category to_lower_case c =
    category_of_type (to_lower_case c.inferred_project_type)
      (category_of_idea (to_lower_case c.normalized_idea))

-- In hundredths; the difference is never below 0.
unfoldable pub get_completeness_score : ClarificationResult → ℕ
get_completeness_score c = elim (c.completeness) [
  | sufficient_for_initial_planning ↦ 90
  | needs_clarification ↦
      clamp (50 + min (length c.assumptions) 4 * 8 - min (length c.clarifying_questions) 5 * 6) 0
        100
]

unfoldable pub build_clarification_description : ClarificationResult → ℕ → String
build_clarification_description c completeness =
    let objective =
      if same c.normalized_idea "" then "Unspecified objective" else c.normalized_idea in
    let questions = length c.clarifying_questions in
    if questions == 0 && leb 80 completeness
    then "Objective is already fairly well defined: " <> objective
      <> ". Confirm acceptance criteria, MVP boundary, and delivery priorities before execution."
    else "Refine the project objective ("
      <> objective
      <> ") and resolve the remaining "
      <> decimal questions
      <> " open clarification item(s) before deeper implementation planning."

unfoldable pub build_architecture_description : Category → String
build_architecture_description web_app =
    "Define frontend, backend, data model, user roles, and deployment boundaries for the application."
build_architecture_description website =
    "Define page structure, content model, CMS needs, analytics, and hosting/deployment approach for the site."
build_architecture_description Category.automation =
    "Map triggers, actions, systems, data handoffs, failure paths, and operational ownership for the automation."
build_architecture_description ai_agent =
    "Define agent boundaries, tools, workflows, memory behavior, escalation points, and evaluation approach."
build_architecture_description api =
    "Define service boundaries, endpoints, authentication, data contracts, and deployment/runtime assumptions."
build_architecture_description unknown =
    "Define the core system shape, main components, interfaces, and delivery boundaries."

-- What a category adds to the description of the risks.
unfoldable pub risk_attention : Category → String
risk_attention web_app =
    " Pay special attention to data model drift, role complexity, and multi-user workflows."
risk_attention website =
    " Pay special attention to content readiness, SEO, analytics, and publication workflow."
risk_attention Category.automation =
    " Pay special attention to integration reliability, auth, retries, and error recovery."
risk_attention ai_agent =
    " Pay special attention to tool safety, hallucination boundaries, memory scope, and evaluation."
risk_attention api =
    " Pay special attention to auth, versioning, service dependencies, and contract stability."
risk_attention unknown = ""

unfoldable pub build_risk_description : Category → ClarificationResult → String
build_risk_description category c =
    let questions = length c.clarifying_questions in
    let base =
      if ltb 0 questions
      then "Review unresolved clarification items ("
        <> decimal questions
        <> ") and identify delivery risks created by missing inputs."
      else "Review scope, dependencies, and delivery assumptions for hidden implementation risk." in
    base <> risk_attention category

unfoldable pub get_category_tasks : Category → List Task
get_category_tasks web_app =
    create_task "design-core-user-flows" "Design core user flows and data model"
      "Define the primary user journeys, system entities, permissions, and essential application workflows."
      StepStatus.pending planning ("clarify-scope" ∷ "define-architecture" ∷ [])
    ∷ create_task "plan-delivery-slices" "Plan delivery slices and MVP sequence"
        "Break the application into practical vertical slices for implementation, testing, and staged rollout."
        StepStatus.pending planning ("design-core-user-flows" ∷ "validate-risks" ∷ [])
    ∷ []
get_category_tasks website =
    create_task "design-content-structure" "Design page and content structure"
      "Outline the required pages, sections, messaging flow, calls to action, and supporting content needed for launch."
      StepStatus.pending planning ("clarify-scope" ∷ "define-architecture" ∷ [])
    ∷ create_task "plan-launch-analytics" "Plan launch, analytics, and publishing setup"
        "Define analytics, forms, SEO basics, deployment flow, and go-live readiness for the website."
        StepStatus.pending planning ("design-content-structure" ∷ "validate-risks" ∷ [])
    ∷ []
get_category_tasks Category.automation =
    create_task "map-workflow-systems" "Map workflow triggers and connected systems"
      "Document the start conditions, external systems, data movement, transformation rules, and ownership of each step."
      StepStatus.pending planning ("clarify-scope" ∷ "define-architecture" ∷ [])
    ∷ create_task "define-failure-handling" "Define failure handling and observability"
        "Specify retry logic, fallbacks, alerting, manual overrides, and audit visibility for the automation flow."
        StepStatus.pending planning ("map-workflow-systems" ∷ "validate-risks" ∷ [])
    ∷ []
get_category_tasks ai_agent =
    create_task "define-agent-workflows" "Define agent workflows and tool boundaries"
      "Specify what the agent can do, which tools it may use, where it must ask for confirmation, and how handoffs occur."
      StepStatus.pending planning ("clarify-scope" ∷ "define-architecture" ∷ [])
    ∷ create_task "design-evaluation-safety" "Design evaluation and safety checks"
        "Define how the agent output will be reviewed, measured, and constrained before broader rollout."
        StepStatus.pending planning ("define-agent-workflows" ∷ "validate-risks" ∷ [])
    ∷ []
get_category_tasks api =
    create_task "define-api-contracts" "Define API contracts and auth approach"
      "Outline resources, endpoints, request/response contracts, auth model, and key non-functional requirements."
      StepStatus.pending planning ("clarify-scope" ∷ "define-architecture" ∷ [])
    ∷ []
get_category_tasks unknown = []

abbrev common : List String
common = "identify-skills" ∷ "validate-risks" ∷ []

unfoldable pub get_implementation_dependencies : Category → List String
get_implementation_dependencies web_app = "design-core-user-flows" ∷ "plan-delivery-slices" ∷ common
get_implementation_dependencies website =
    "design-content-structure" ∷ "plan-launch-analytics" ∷ common
get_implementation_dependencies Category.automation =
    "map-workflow-systems" ∷ "define-failure-handling" ∷ common
get_implementation_dependencies ai_agent =
    "define-agent-workflows" ∷ "design-evaluation-safety" ∷ common
get_implementation_dependencies api = "define-api-contracts" ∷ common
get_implementation_dependencies unknown = common

-- Lines 36 to 106: the tasks of a project of a category.
unfoldable pub planned_tasks : Category → ClarificationResult → List Task
planned_tasks category c =
    let completeness = get_completeness_score c in
    create_task "clarify-scope" "Clarify scope and acceptance criteria"
      (build_clarification_description c completeness)
      (if leb 80 completeness then StepStatus.running else StepStatus.pending) planning []
    ∷ create_task "define-architecture" "Define architecture and system boundaries"
        (build_architecture_description category) StepStatus.pending planning ("clarify-scope" ∷ [])
    ∷ create_task "identify-skills" "Identify required skills and implementation patterns"
        "Determine the key technical skills, domain patterns, and delivery capabilities required for this project type."
        StepStatus.pending skills ("define-architecture" ∷ [])
    ∷ create_task "validate-risks" "Validate risks, dependencies, and constraints"
        (build_risk_description category c) StepStatus.pending planning
        ("clarify-scope" ∷ "define-architecture" ∷ [])
    ∷ (get_category_tasks category
        ++ create_task "choose-implementation-path" "Choose implementation path"
            "Select the most practical implementation route, sequencing, and delivery approach based on scope clarity, architecture, and risk profile."
            StepStatus.pending planning (get_implementation_dependencies category)
          ∷ create_task "prepare-execution-report" "Prepare execution report"
              "Assemble the clarified objective, assumptions, open questions, planned tasks, and implementation recommendation into a single run report."
              StepStatus.pending general
              ("choose-implementation-path" ∷ "identify-skills" ∷ "validate-risks" ∷ [])
          ∷ [])

unfoldable pub build_plan : (String → String) → ClarificationResult → List Task
build_plan to_lower_case c = planned_tasks (normalize_category to_lower_case c) c
