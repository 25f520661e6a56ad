-- ===== src/Actions/Dry.antt =====
-- What a dry run and the safe mode leave alone: action-runner.ts, lines 154 to 200.
use code_kit_ultra.Base.{
  String, ◌≡◌, refl, ◌∙◌, ap, List, [], ◌∷◌, map, Option, Bool, true, false, not, ◌&&◌, includes,
  if-split, if_false,
}
use code_kit_ultra.Shared.{Mode}
use code_kit_ultra.Gates.Modes.{ExecutionPolicy, get_mode_policy}
use code_kit_ultra.Actions.Policy.{
  BuilderAction, write_file, append_file, create_dir, run_command, BuilderActionBatch,
  ActionAssessment, Host, assess_action,
}
use code_kit_ultra.Actions.Runner.{
  System, Ledger, phase_name, approval_needed, is_dry, push_result, execute_file, execute_action,
  run_action, run_actions, run_action_batch,
}

module _ {W : Type 0} (system : System W) where
  -- Nothing outside the results has changed.
  abbrev IsUntouched : Ledger W → Ledger W → Type 0
  IsUntouched p q = (q.world ≡ p.world) × (q.entries ≡ p.entries)

  run_action-IsUntouched :
      (policy : ExecutionPolicy) (approved : Bool) (a : ActionAssessment) (p : Ledger W)
      → IsUntouched p (run_action system policy approved true a p)
  unfolding run_action push_result
  run_action-IsUntouched policy approved a p =
      if-split (IsUntouched p) (not a.allowed) _ _ (λ _. (refl, refl))
        (λ _.
          if-split (IsUntouched p) (approval_needed policy a.risk && not approved) _ _
            (λ _. (refl, refl)) (λ _. (refl, refl)))

  run_actions-IsUntouched :
      (policy : ExecutionPolicy) (approved : Bool) (xs : List ActionAssessment) (p : Ledger W)
      → IsUntouched p (run_actions system policy approved true xs p)
  unfolding run_actions
  run_actions-IsUntouched policy approved [] p = (refl, refl)
  run_actions-IsUntouched policy approved (a ∷ xs) p =
      let h = run_action-IsUntouched policy approved a p in
      let k =
        run_actions-IsUntouched policy approved xs (run_action system policy approved true a p) in
      (k.0 ∙ h.0, k.1 ∙ h.1)

  -- A dry run touches neither the files nor the shell, and leaves no rollback entry, whatever its
  -- batch and its approvals.
  pub run_action_batch-IsUntouched :
      (host : Host) (mode : Mode) (batch : BuilderActionBatch) (gates : List String)
      (asked : Option Bool) (w : W)
      → is_dry mode asked ≡ true
      → let l = run_action_batch system host mode batch gates asked w in
        (l.world ≡ w) × (l.entries ≡ [])
  unfolding run_action_batch
  run_action_batch-IsUntouched host mode batch gates asked w dry = rw dry (
      run_actions-IsUntouched (get_mode_policy mode).execution
        (includes (phase_name batch.phase) gates) (map (assess_action host) batch.actions)
        (record { results = []; entries = []; world = w }))

  module _ (shell : String → Option String → W → Bool × W) (policy : ExecutionPolicy)
      (off : policy.allow_command_execution ≡ false) where
    other : System W
    other = record system { execute = shell }

    execute_action-same :
        (action : BuilderAction) (p : Ledger W)
        → execute_action other policy action p ≡ execute_action system policy action p
    unfolding execute_action execute_file other
    execute_action-same (write_file path content reason) p = refl
    execute_action-same (append_file path content reason) p = refl
    execute_action-same (create_dir path reason) p = refl
    execute_action-same (run_command line cwd reason) p =
        if_false policy.allow_command_execution _ _ _ off

    run_action-same :
        (approved dry : Bool) (a : ActionAssessment) (p : Ledger W)
        → run_action other policy approved dry a p ≡ run_action system policy approved dry a p
    unfolding run_action
    run_action-same approved dry a p = rw (execute_action-same a.action p) refl

    run_actions-same :
        (approved dry : Bool) (xs : List ActionAssessment) (p : Ledger W)
        → run_actions other policy approved dry xs p ≡ run_actions system policy approved dry xs p
    unfolding run_actions
    run_actions-same approved dry [] p = refl
    run_actions-same approved dry (a ∷ xs) p =
        run_actions-same approved dry xs _
        ∙ ap (run_actions system policy approved dry xs) (run_action-same approved dry a p)

  -- In the safe mode no command is executed, whatever is approved: the run does not depend on what
  -- the shell does.
  pub run_action_batch-same :
      (shell : String → Option String → W → Bool × W) (host : Host) (batch : BuilderActionBatch)
      (gates : List String) (asked : Option Bool) (w : W)
      → run_action_batch (record system { execute = shell }) host Mode.safe batch gates asked w
        ≡ run_action_batch system host Mode.safe batch gates asked w
  unfolding run_action_batch other get_mode_policy
  run_action_batch-same shell host batch gates asked w =
      run_actions-same shell (get_mode_policy Mode.safe).execution refl _ _ _ _
