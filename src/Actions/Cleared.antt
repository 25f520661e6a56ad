-- ===== src/Actions/Cleared.antt =====
-- What the runner of actions may execute and what it reports: action-runner.ts, lines 108 to 217.
use code_kit_ultra.Base.{
  String, ◌≡◌, refl, ◌≢◌, ◌∙◌, ap, sym, List, [], ◌∷◌, ◌++◌, map, Option, Bool, true, false, not,
  ◌&&◌, includes, if-split, arith,
}
use mathlib.Core.List.{append_assoc, append-nil}
use code_kit_ultra.Shared.{Mode, ExecutionRisk}
use code_kit_ultra.Gates.Modes.{ExecutionPolicy, get_mode_policy}
use code_kit_ultra.Actions.Policy.{
  BuilderAction, write_file, append_file, create_dir, run_command, BuilderActionBatch,
  ActionAssessment, Host, assess_action,
}
use code_kit_ultra.Actions.Runner.{
  ActionStatus, ActionExecutionResult, RollbackEntry, System, Ledger, phase_name, entry_of,
  approval_needed, is_dry, push_result, finish, execute_file, execute_action, run_action,
  run_actions, run_action_batch,
}

unfoldable pub is_command : BuilderAction → Bool
is_command (run_command line cwd reason) = true
is_command _ = false

-- All that an action needs to be executed.
pub record IsCleared (policy : ExecutionPolicy) (approved dry : Bool) (a : ActionAssessment)
    : Type 0 where
  pub is_allowed : a.allowed ≡ true
  pub is_approved : approval_needed policy a.risk ≡ true → approved ≡ true
  pub is_real : dry ≡ false
  pub may_run : is_command a.action ≡ true → policy.allow_command_execution ≡ true

-- The result and the rollback entries of one assessment.
pub data Report (policy : ExecutionPolicy) (approved dry : Bool) (a : ActionAssessment)
    : ActionExecutionResult → List RollbackEntry → Type 0 where
  held :
      (r : ActionExecutionResult)
      → r.action ≡ a.action
      → r.status ≢ ActionStatus.executed
      → Report policy approved dry a r []
  performed :
      (r : ActionExecutionResult)
      → r.action ≡ a.action
      → r.status ≡ ActionStatus.executed
      → IsCleared policy approved dry a
      → Report policy approved dry a r (entry_of a.action ∷ [])

-- One report for each assessment, in their order.
pub data Reports (policy : ExecutionPolicy) (approved dry : Bool)
    : List ActionAssessment → List ActionExecutionResult → List RollbackEntry → Type 0 where
  nothing : Reports policy approved dry [] [] []
  next :
      {a : ActionAssessment} {r : ActionExecutionResult} {es : List RollbackEntry}
      {rest : List ActionAssessment} {rs : List ActionExecutionResult} {fs : List RollbackEntry}
      → Report policy approved dry a r es
      → Reports policy approved dry rest rs fs
      → Reports policy approved dry (a ∷ rest) (r ∷ rs) (es ++ fs)

blocked_not_executed : ActionStatus.blocked ≢ ActionStatus.executed
blocked_not_executed = λ e. cc e

approval_required_not_executed : ActionStatus.approval_required ≢ ActionStatus.executed
approval_required_not_executed = λ e. cc e

dry_run_not_executed : ActionStatus.dry_run ≢ ActionStatus.executed
dry_run_not_executed = λ e. cc e

module _ {W : Type 0} (policy : ExecutionPolicy) (approved dry : Bool) where
  record Steps (a : ActionAssessment) (p q : Ledger W) : Type 0 where
    result : ActionExecutionResult
    undo : List RollbackEntry
    is_result : q.results ≡ p.results ++ result ∷ []
    is_undo : q.entries ≡ p.entries ++ undo
    report : Report policy approved dry a result undo

  Steps-push :
      (a : ActionAssessment) (status : ActionStatus) (p : Ledger W)
      → status ≢ ActionStatus.executed
      → Steps a p (push_result a.action status p)
  unfolding push_result
  Steps-push a status p h = record {
    result = record { action = a.action; status = status };
    undo = [];
    is_result = refl;
    is_undo = sym (append-nil p.entries);
    report = held _ refl h;
  }

  Steps-finish :
      (a : ActionAssessment) (ok : Bool) (p : Ledger W) (w : W)
      → IsCleared policy approved dry a
      → Steps a p (finish a.action ok (record p { world = w }))
  unfolding finish push_result
  Steps-finish a true p w h = record {
    result = record { action = a.action; status = ActionStatus.executed };
    undo = entry_of a.action ∷ [];
    is_result = refl;
    is_undo = refl;
    report = performed _ refl refl h;
  }
  Steps-finish a false p w h = record {
    result = record { action = a.action; status = ActionStatus.blocked };
    undo = [];
    is_result = refl;
    is_undo = sym (append-nil p.entries);
    report = held _ refl blocked_not_executed;
  }

  module _ (system : System W) where
    Steps-execute :
        (action : BuilderAction) (allowed : Bool) (risk : ExecutionRisk) (asks : Bool)
        (p : Ledger W)
        → let a : ActionAssessment = record {
          action = action;
          allowed = allowed;
          risk = risk;
          requires_approval = asks;
        } in
          (((is_command action ≡ true) → policy.allow_command_execution ≡ true)
            → IsCleared policy approved dry a)
          → Steps a p (execute_action system policy action p)
    unfolding execute_action execute_file is_command
    Steps-execute (write_file path content reason) allowed risk asks p h =
        Steps-finish _ _ p _ (h (λ e. cc))
    Steps-execute (append_file path content reason) allowed risk asks p h =
        Steps-finish _ _ p _ (h (λ e. cc))
    Steps-execute (create_dir path reason) allowed risk asks p h =
        Steps-finish _ _ p _ (h (λ e. cc))
    Steps-execute (run_command line cwd reason) allowed risk asks p h =
        if-split (Steps _ p) policy.allow_command_execution _ _
          (λ e. Steps-finish _ _ p _ (h (λ _. e)))
          (λ e. Steps-push _ ActionStatus.blocked p blocked_not_executed)

    Steps-run_action :
        (a : ActionAssessment) (p : Ledger W)
        → Steps a p (run_action system policy approved dry a p)
    unfolding run_action
    Steps-run_action a p =
        if-split (Steps a p) (not a.allowed) _ _ (λ _. Steps-push a _ p blocked_not_executed)
          (λ allowed.
            if-split (Steps a p) (approval_needed policy a.risk && not approved) _ _
              (λ _. Steps-push a _ p approval_required_not_executed)
              (λ cleared.
                if-split (Steps a p) dry _ _ (λ _. Steps-push a _ p dry_run_not_executed)
                  (λ real. Steps-execute a.action a.allowed a.risk a.requires_approval p (λ run.
                    record {
                      is_allowed = ground (arith, allowed);
                      is_approved = λ e. ground (arith, cleared, e);
                      is_real = real;
                      may_run = run;
                    }))))

    -- What a run of the assessments adds to the ledger.
    record Adds (xs : List ActionAssessment) (p q : Ledger W) : Type 0 where
      results : List ActionExecutionResult
      undos : List RollbackEntry
      is_results : q.results ≡ p.results ++ results
      is_undos : q.entries ≡ p.entries ++ undos
      reports : Reports policy approved dry xs results undos

    run_actions-Adds :
        (xs : List ActionAssessment) (p : Ledger W)
        → Adds xs p (run_actions system policy approved dry xs p)
    unfolding run_actions
    run_actions-Adds [] p = record {
      results = [];
      undos = [];
      is_results = sym (append-nil p.results);
      is_undos = sym (append-nil p.entries);
      reports = nothing;
    }
    run_actions-Adds (a ∷ xs) p =
        let s = Steps-run_action a p in
        let r = run_actions-Adds xs (run_action system policy approved dry a p) in
        record {
          results = s.result ∷ r.results;
          undos = s.undo ++ r.undos;
          is_results =
              r.is_results
              ∙ ap (λ x. x ++ r.results) s.is_result
              ∙ append_assoc p.results (s.result ∷ []) r.results;
          is_undos =
              r.is_undos ∙ ap (λ x. x ++ r.undos) s.is_undo ∙ append_assoc p.entries s.undo r.undos;
          reports = next s.report r.reports;
        }

-- A batch reports on each of its actions, in their order. An action is executed only where its
-- assessment allows it, the phase is approved if the mode wants that for its risk, the run is not
-- dry, and the mode allows commands if it is one; and the rollback entries are those of the executed
-- actions, in their order.
pub run_action_batch-Reports :
    {W : Type 0} (system : System W) (host : Host) (mode : Mode) (batch : BuilderActionBatch)
    (gates : List String) (asked : Option Bool) (w : W)
    → let l = run_action_batch system host mode batch gates asked w in
      Reports
        (get_mode_policy mode).execution
        (includes (phase_name batch.phase) gates)
        (is_dry mode asked)
        (map (assess_action host) batch.actions)
        l.results
        l.entries
unfolding run_action_batch
run_action_batch-Reports system host mode batch gates asked w =
    let r =
      run_actions-Adds (get_mode_policy mode).execution (includes (phase_name batch.phase) gates)
        (is_dry mode asked) system (map (assess_action host) batch.actions)
        (record { results = []; entries = []; world = w }) in
    rw (r.is_results, r.is_undos) r.reports
