-- ===== src/Planning/Intake.antt =====
-- packages/orchestrator/src/intake.ts
use Prim.Native.String.{String}
use code_kit_ultra.Base.{
  List, [], ◌∷◌, Option, some, Bool, true, false, any, select, length, ltb, or_default,
  if◌then◌else◌, contains, trim, replace_runs, is_space,
}
use code_kit_ultra.Shared.{Mode}
use code_kit_ultra.Gates.Modes.{Question, Priority, trim_questions_by_mode}

pub data Category : Type 0 where
  web_app website automation ai_agent api unknown : Category

pub data Confidence : Type 0 where
  low medium high : Confidence

pub record Assumption : Type 0 where
  pub id : String
  pub text : String
  pub confidence : Confidence

pub data Completeness : Type 0 where
  sufficient_for_initial_planning needs_clarification : Completeness

pub record ClarificationResult : Type 0 where
  pub normalized_idea : String
  pub inferred_project_type : String
  pub assumptions : List Assumption
  pub clarifying_questions : List Question
  pub completeness : Completeness

pub record IntakeInput : Type 0 where
  pub idea : String
  pub mode : Option Mode

unfoldable pub category_name : Category → String
category_name web_app = "web-app"
category_name website = "website"
category_name automation = "automation"
category_name ai_agent = "ai-agent"
category_name api = "api"
category_name unknown = "unknown"

-- `terms.some(term => text.includes(term))`, and `test` of a regular expression that is a choice of
-- words.
unfoldable pub contains_any : String → List String → Bool
contains_any text terms = any (contains text) terms

-- `/\s+/g` is replaced by a blank.
unfoldable pub normalize_idea_text : String → String
normalize_idea_text idea = replace_runs is_space " " false (trim idea)

-- A category of a text that is in lower case.
unfoldable pub category_of : String → Category
category_of text =
    if contains_any text ("crm" ∷ "platform" ∷ "portal" ∷ "dashboard" ∷ "app" ∷ "saas" ∷ [])
    then web_app
    else if contains_any text ("landing page" ∷ "website" ∷ "homepage" ∷ "marketing site" ∷ [])
    then website
    else if contains_any text
        ("automation" ∷ "automate" ∷ "workflow" ∷ "zapier" ∷ "make.com" ∷ "n8n" ∷ "reminder" ∷ [])
    then automation
    else if contains_any text
        ("agent" ∷ "triage" ∷ "tool-using" ∷ "assistant system" ∷ "autonomous" ∷ [])
    then ai_agent
    else if contains_any text ("api" ∷ "backend" ∷ "endpoint" ∷ "microservice" ∷ [])
    then api
    else unknown

unfoldable pub infer_solution_category : (String → String) → String → Category
infer_solution_category to_lower_case idea = category_of (to_lower_case idea)

abbrev assumption : String → String → Confidence → Assumption
assumption id text confidence = record { id = id; text = text; confidence = confidence }

abbrev question : String → String → Bool → Priority → Question
question id text blocking priority = record {
  id = id;
  text = text;
  priority = some priority;
  required = false;
  blocking = blocking;
}

abbrev mvp : Assumption
mvp =
    assumption "assumption-mvp" "Interpreting this request as a vertical slice or MVP scope." medium

unfoldable pub derive_assumptions : Category → List Assumption
derive_assumptions website =
    mvp
    ∷ assumption "assumption-browser" "Assuming a web-first responsive experience." high
    ∷ assumption "assumption-content" "Assuming content assets are provided or can be generated."
        medium
    ∷ []
derive_assumptions web_app =
    mvp
    ∷ assumption "assumption-auth" "Assuming the need for authentication and multi-user access."
        medium
    ∷ assumption "assumption-db" "Assuming a relational data model is required." high
    ∷ []
derive_assumptions automation =
    mvp
    ∷ assumption "assumption-integration" "Assuming the use of third-party APIs for coordination."
        high
    ∷ assumption "assumption-error-handling" "Assuming standard failure notification requirements."
        medium
    ∷ []
derive_assumptions category = mvp ∷ []

abbrev scope : Question
scope =
    question "question-scope" "What is the primary success metric for this phase?" false
      Priority.high

abbrev audience : Question
audience =
    question "question-target-audience" "Who are the primary end-users?" false Priority.medium

unfoldable pub generate_clarifying_questions : Category → List Question
generate_clarifying_questions web_app =
    question "question-rbac" "Do you have specific role-based access requirements?" true
      Priority.critical
    ∷ scope
    ∷ audience
    ∷ question "question-data-volume" "What is the expected data volume for this system?" false
        Priority.low
    ∷ []
generate_clarifying_questions website =
    question "question-domain" "Do you have a preferred domain or hosting provider?" false
      Priority.low
    ∷ scope
    ∷ audience
    ∷ question "question-cta" "What is the main call to action for the landing page?" true
        Priority.high
    ∷ []
generate_clarifying_questions category =
    question "question-missing-reqs" "Are there any specific constraints we must follow?" false
      Priority.medium
    ∷ scope
    ∷ audience
    ∷ []

unfoldable pub completeness_of : List Question → Completeness
completeness_of questions =
    if ltb 0 (length (select (λ q. q.blocking) questions))
    then needs_clarification
    else sufficient_for_initial_planning

unfoldable pub run_intake : (String → String) → IntakeInput → ClarificationResult
run_intake to_lower_case input =
    let idea = normalize_idea_text input.idea in
    let category = infer_solution_category to_lower_case idea in
    let questions =
      trim_questions_by_mode (generate_clarifying_questions category)
        (or_default input.mode Mode.builder) in
    record {
      normalized_idea = idea;
      inferred_project_type = category_name category;
      assumptions = derive_assumptions category;
      clarifying_questions = questions;
      completeness = completeness_of questions;
    }
