-- ===== src/Actions/Policy.antt =====
-- packages/agents/src/action-types.ts and packages/security/src/action-policy.ts: the actions of a
-- batch and their assessment.
use code_kit_ultra.Base.{
  String, List, [], ◌∷◌, Option, Bool, true, false, ◌||◌, any, same, starts_with, contains,
  if◌then◌else◌,
}
use code_kit_ultra.Shared.{ExecutionRisk}

pub data BuilderAction : Type 0 where
  write_file : (path content : String) (reason : Option String) → BuilderAction
  append_file : (path content : String) (reason : Option String) → BuilderAction
  create_dir : (path : String) (reason : Option String) → BuilderAction
  run_command : (command : String) (cwd reason : Option String) → BuilderAction

pub data Phase : Type 0 where
  build review qa deploy : Phase

pub record BuilderActionBatch : Type 0 where
  pub run_id : String
  pub phase : Phase
  pub generated_by : String
  pub summary : String
  pub actions : List BuilderAction

pub record ActionAssessment : Type 0 where
  pub action : BuilderAction
  pub allowed : Bool
  pub risk : ExecutionRisk
  pub requires_approval : Bool

-- Node's path module, and the test of a case-insensitive regular expression, by its text, on a text.
pub record Host : Type 0 where
  pub is_absolute : String → Bool
  pub normalize : String → String
  pub test : String → String → Bool

unfoldable pub blocked_command_patterns : List String
blocked_command_patterns =
    "rm\\s+-rf" ∷ "del\\s+\\/f" ∷ "shutdown" ∷ "reboot" ∷ "mkfs" ∷ "format\\s+"
    ∷ "curl\\s+.*\\|\\s*(sh|bash)" ∷ "wget\\s+.*\\|\\s*(sh|bash)" ∷ []

unfoldable pub high_risk_command_patterns : List String
high_risk_command_patterns =
    "git\\s+push" ∷ "npm\\s+publish" ∷ "pnpm\\s+publish" ∷ "docker\\s+push" ∷ "vercel\\s+deploy"
    ∷ "netlify\\s+deploy" ∷ []

module _ (host : Host) where
  unfoldable pub is_safe_relative_path : String → Bool
  is_safe_relative_path path =
      let normalized = host.normalize path in
      if same path "" || host.is_absolute path
      then false
      else if starts_with normalized ".."
      then false
      else if contains normalized ".ck/"
      then false
      else true

  unfoldable pub assess_path : BuilderAction → String → ActionAssessment
  assess_path action path =
      if is_safe_relative_path path
      then record {
        action = action;
        allowed = true;
        risk = ExecutionRisk.low;
        requires_approval = false;
      }
      else record {
        action = action;
        allowed = false;
        risk = ExecutionRisk.high;
        requires_approval = false;
      }

  unfoldable pub assess_command : BuilderAction → String → ActionAssessment
  assess_command action command =
      if any (λ p. host.test p command) blocked_command_patterns
      then record {
        action = action;
        allowed = false;
        risk = ExecutionRisk.high;
        requires_approval = false;
      }
      else if any (λ p. host.test p command) high_risk_command_patterns
      then record {
        action = action;
        allowed = true;
        risk = ExecutionRisk.high;
        requires_approval = true;
      }
      else record {
        action = action;
        allowed = true;
        risk = ExecutionRisk.medium;
        requires_approval = false;
      }

  unfoldable pub assess_action : BuilderAction → ActionAssessment
  assess_action (write_file path content reason) = assess_path (write_file path content reason) path
  assess_action (append_file path content reason) =
      assess_path (append_file path content reason) path
  assess_action (create_dir path reason) = assess_path (create_dir path reason) path
  assess_action (run_command command cwd reason) =
      assess_command (run_command command cwd reason) command
