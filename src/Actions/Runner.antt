-- ===== src/Actions/Runner.antt =====
-- packages/orchestrator/src/action-runner.ts, lines 35 to 261: a batch of actions, one after the
-- other. The artifact and the logs that it writes at the end are left out.
use code_kit_ultra.Base.{
  String, List, [], ◌∷◌, ◌++◌, map, Option, Bool, true, false, not, ◌&&◌, includes, or_default,
  if◌then◌else◌,
}
use code_kit_ultra.Shared.{Mode, ExecutionRisk}
use code_kit_ultra.Gates.Modes.{ExecutionPolicy, get_mode_policy}
use code_kit_ultra.Actions.Policy.{
  BuilderAction, write_file, append_file, create_dir, run_command, Phase, BuilderActionBatch,
  ActionAssessment, Host, assess_action,
}

pub data ActionStatus : Type 0 where
  executed skipped blocked approval_required dry_run : ActionStatus

pub record ActionExecutionResult : Type 0 where
  pub action : BuilderAction
  pub status : ActionStatus

pub data EntryType : Type 0 where
  file_write file_append dir_create command : EntryType

pub record RollbackEntry : Type 0 where
  pub entry_type : EntryType
  pub target : String

-- The file system and the shell: each operation says whether it succeeded, or threw.
pub record System (W : Type 0) : Type 0 where
  pub apply_file : BuilderAction → W → Bool × W
  pub execute : String → Option String → W → Bool × W

-- What a run of a batch has reached.
pub record Ledger (W : Type 0) : Type 0 where
  pub results : List ActionExecutionResult
  pub entries : List RollbackEntry
  pub world : W

unfoldable pub phase_name : Phase → String
phase_name Phase.build = "build"
phase_name Phase.review = "review"
phase_name Phase.qa = "qa"
phase_name Phase.deploy = "deploy"

unfoldable pub entry_of : BuilderAction → RollbackEntry
entry_of (write_file path content reason) = record {
  entry_type = EntryType.file_write;
  target = path;
}
entry_of (append_file path content reason) = record {
  entry_type = EntryType.file_append;
  target = path;
}
entry_of (create_dir path reason) = record { entry_type = EntryType.dir_create; target = path }
entry_of (run_command line cwd reason) = record { entry_type = EntryType.command; target = line }

-- Lines 141 to 157: the mode asks for an approval of the risk.
unfoldable pub approval_needed : ExecutionPolicy → ExecutionRisk → Bool
approval_needed policy ExecutionRisk.high = policy.require_approval_for_high_risk
approval_needed policy ExecutionRisk.medium = policy.require_approval_for_medium_risk
approval_needed policy ExecutionRisk.low = false

unfoldable pub is_dry : Mode → Option Bool → Bool
is_dry mode asked = or_default asked (get_mode_policy mode).execution.dry_run_by_default

module _ {W : Type 0} where
  unfoldable pub push_result : BuilderAction → ActionStatus → Ledger W → Ledger W
  push_result action status l = record l {
    results = l.results ++ record { action = action; status = status } ∷ [];
  }

  -- The result and the rollback entry of an operation that succeeded, or the `catch`.
  unfoldable pub finish : BuilderAction → Bool → Ledger W → Ledger W
  finish action true l =
      let l' = push_result action ActionStatus.executed l in
      record l' { entries = l'.entries ++ entry_of action ∷ [] }
  finish action false l = push_result action ActionStatus.blocked l

  module _ (system : System W) where
    unfoldable pub execute_file : BuilderAction → Ledger W → Ledger W
    execute_file action l =
        let (ok, w) = system.apply_file action l.world in finish action ok (record l { world = w })

    -- Lines 176 to 216.
    unfoldable pub execute_action : ExecutionPolicy → BuilderAction → Ledger W → Ledger W
    execute_action policy (write_file path content reason) l =
        execute_file (write_file path content reason) l
    execute_action policy (append_file path content reason) l =
        execute_file (append_file path content reason) l
    execute_action policy (create_dir path reason) l = execute_file (create_dir path reason) l
    execute_action policy (run_command line cwd reason) l =
        let action = run_command line cwd reason in
        let (ok, w) = system.execute line cwd l.world in
        if policy.allow_command_execution
        then finish action ok (record l { world = w })
        else push_result action ActionStatus.blocked l

    -- Lines 127 to 216, for one assessment.
    unfoldable pub run_action :
        ExecutionPolicy → Bool → Bool → ActionAssessment → Ledger W → Ledger W
    run_action policy approved dry a l =
        if not a.allowed
        then push_result a.action ActionStatus.blocked l
        else if approval_needed policy a.risk && not approved
        then push_result a.action ActionStatus.approval_required l
        else if dry
        then push_result a.action ActionStatus.dry_run l
        else execute_action policy a.action l

    unfoldable pub run_actions :
        ExecutionPolicy → Bool → Bool → List ActionAssessment → Ledger W → Ledger W
    run_actions policy approved dry [] l = l
    run_actions policy approved dry (a ∷ rest) l =
        run_actions policy approved dry rest (run_action policy approved dry a l)

    unfoldable pub run_action_batch :
        Host → Mode → BuilderActionBatch → List String → Option Bool → W → Ledger W
    run_action_batch host mode batch approved_gates asked w =
        run_actions (get_mode_policy mode).execution
          (includes (phase_name batch.phase) approved_gates) (is_dry mode asked)
          (map (assess_action host) batch.actions)
          (record { results = []; entries = []; world = w })
