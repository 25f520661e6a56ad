-- ===== src/Governance/Constraints.antt =====
-- packages/governance/src/constraint-engine.ts: the constraints on a batch of actions. The test of a
-- case-insensitive regular expression, by its text, on a text is a parameter, and the messages are
-- left out.
use code_kit_ultra.Base.{
  String, ℕ, ◌+◌, List, [], ◌∷◌, ◌++◌, Option, none, some, Bool, true, false, not, any, select,
  length, includes, starts_with, or_default, ltb, if◌then◌else◌,
}
use code_kit_ultra.Actions.Policy.{BuilderAction, write_file, append_file, create_dir, run_command}

pub record ConstraintPolicy : Type 0 where
  pub allowed_paths : Option (List String)
  pub blocked_paths : Option (List String)
  pub blocked_action_types : Option (List String)
  pub blocked_command_patterns : Option (List String)
  pub max_files_changed : Option ℕ
  pub max_commands : Option ℕ
  pub max_actions : Option ℕ

pub data ViolationCode : Type 0 where
  max_actions_exceeded max_files_changed_exceeded max_commands_exceeded : ViolationCode
  blocked_action_type path_not_allowed blocked_command_pattern : ViolationCode

pub record ConstraintViolation : Type 0 where
  pub violation : ViolationCode
  pub action_index : Option ℕ

pub record ConstraintResult : Type 0 where
  pub valid : Bool
  pub violations : List ConstraintViolation

unfoldable pub path_allowed : String → Option (List String) → Option (List String) → Bool
path_allowed path allowed blocked =
    let prefixes = or_default allowed [] in
    if any (starts_with path) (or_default blocked [])
    then false
    else if not (ltb 0 (length prefixes))
    then true
    else any (starts_with path) prefixes

-- `typeof max === "number" && n > max`
unfoldable pub exceeds : ℕ → Option ℕ → Bool
exceeds n none = false
exceeds n (some max) = ltb max n

unfoldable pub type_name : BuilderAction → String
type_name (write_file path content reason) = "write_file"
type_name (append_file path content reason) = "append_file"
type_name (create_dir path reason) = "create_dir"
type_name (run_command line cwd reason) = "run_command"

-- `action.path`, where there is one, and the command of a `run_command`
unfoldable pub action_path : BuilderAction → Option String
action_path (write_file path content reason) = some path
action_path (append_file path content reason) = some path
action_path (create_dir path reason) = some path
action_path (run_command line cwd reason) = none

unfoldable pub action_command : BuilderAction → Option String
action_command (run_command line cwd reason) = some line
action_command _ = none

unfoldable pub has_text : Option String → Bool
has_text none = false
has_text (some t) = true

unfoldable pub report_if : Bool → ViolationCode → Option ℕ → List ConstraintViolation
report_if b c i = if b then record { violation = c; action_index = i } ∷ [] else []

unfoldable pub path_violation : ConstraintPolicy → ℕ → Option String → List ConstraintViolation
path_violation policy i none = []
path_violation policy i (some path) =
    report_if (not (path_allowed path policy.allowed_paths policy.blocked_paths))
      ViolationCode.path_not_allowed (some i)

module _ (test : String → String → Bool) where
  unfoldable pub pattern_violations : List String → ℕ → Option String → List ConstraintViolation
  pattern_violations patterns i none = []
  pattern_violations [] i (some line) = []
  pattern_violations (p ∷ ps) i (some line) =
      report_if (test p line) ViolationCode.blocked_command_pattern (some i)
      ++ pattern_violations ps i (some line)

  -- Lines 47 to 62, for the action at the index `i` counted from one.
  unfoldable pub action_violations : ConstraintPolicy → ℕ → BuilderAction → List ConstraintViolation
  action_violations policy i action =
      report_if (includes (type_name action) (or_default policy.blocked_action_types []))
        ViolationCode.blocked_action_type (some i)
      ++ path_violation policy i (action_path action)
      ++ pattern_violations (or_default policy.blocked_command_patterns []) i
          (action_command action)

  unfoldable pub batch_violations :
      ConstraintPolicy → ℕ → List BuilderAction → List ConstraintViolation
  batch_violations policy i [] = []
  batch_violations policy i (a ∷ actions) =
      action_violations policy (i + 1) a ++ batch_violations policy (i + 1) actions

  unfoldable pub limit_violations : ConstraintPolicy → List BuilderAction → List ConstraintViolation
  limit_violations policy actions =
      report_if (exceeds (length actions) policy.max_actions) ViolationCode.max_actions_exceeded
        none
      ++ report_if
          (exceeds (length (select (λ a. has_text (action_path a)) actions))
            policy.max_files_changed)
          ViolationCode.max_files_changed_exceeded none
      ++ report_if
          (exceeds (length (select (λ a. has_text (action_command a)) actions)) policy.max_commands)
          ViolationCode.max_commands_exceeded none

  unfoldable pub evaluate_constraints : List BuilderAction → ConstraintPolicy → ConstraintResult
  evaluate_constraints actions policy =
      let violations = limit_violations policy actions ++ batch_violations policy 0 actions in
      record { valid = not (ltb 0 (length violations)); violations = violations }
