-- ===== src/Phases/Finish.antt =====
-- run-vertical-slice.ts: where a run through the phases ends.
use code_kit_ultra.Base.{
  ◌≡◌, ◌≢◌, refl, ap, ◌⊎◌, inl, inr, List, [], ◌∷◌, Option, none, some, Bool, true, false,
}
use code_kit_ultra.Shared.{Mode, RunStatus, GateStatus}
use code_kit_ultra.Phases.{
  Phase, intake, planning, skills, gating, building, testing, reviewing, succeeded, is_blocked,
  awaits_approval, RunReport, Components, StepResult, step_status_of, after_gating, after_building,
  building_status, close_step, is_in_progress, new_report, lead_to, gated, skilled, built, handle,
  finish_step, run_orchestration_step, is_running, Slice, threw, ended, persist, record_slice,
  then_continue, continue_steps, in_mode, run_vertical_slice,
}

-- The statuses in which the execution leaves a run.
pub data IsEnd : RunStatus → Type 0 where
  is_completed : IsEnd RunStatus.completed
  is_failed : IsEnd RunStatus.failed
  is_paused : IsEnd RunStatus.paused

abbrev until_gating : List Phase
until_gating = intake ∷ planning ∷ skills ∷ []

-- Where a run is when its slice has ended.
pub data Stands (r : RunReport) : Bool → Type 0 where
  at_the_end :
      r.status ≡ succeeded
      → r.overall_gate_status ≡ GateStatus.pass
      → r.completed_phases
        ≡ intake ∷ planning ∷ skills ∷ gating ∷ building ∷ testing ∷ reviewing ∷ []
      → Stands r true
  at_the_gates :
      r.current_phase ≡ gating
      → (r.status ≡ is_blocked) ⊎ (r.status ≡ awaits_approval)
      → r.overall_gate_status ≢ GateStatus.pass
      → r.completed_phases ≡ intake ∷ planning ∷ skills ∷ []
      → Stands r false
  at_the_building :
      r.current_phase ≡ building
      → r.status ≡ awaits_approval
      → r.overall_gate_status ≡ GateStatus.pass
      → r.completed_phases ≡ intake ∷ planning ∷ skills ∷ gating ∷ []
      → Stands r false

module _ {W : Type 0} (components : Components W) where
  -- What may have thrown.
  pub data Fails : Type 0 where
    no_skills : (w : W) → (components.select_skills w).0 ≡ false → Fails
    no_execution : (w : W) → (components.execute_run w).0 ≡ none → Fails
    no_record : (w : W) → (components.record_run w).0 ≡ false → Fails

  -- How the slice ends.
  pub data Ends : Slice components → Type 0 where
    ends : (s : StepResult W) → Stands s.report s.is_finished → Ends (ended s)
    throws : Fails → Ends threw

  persist-Ends :
      (s : StepResult W) (o : Bool × W)
      → components.record_run s.world ≡ o
      → Stands s.report s.is_finished
      → Ends (persist components s o)
  unfolding persist
  persist-Ends s (true, w) e h = ends _ h
  persist-Ends s (false, w) e h = throws (no_record s.world (ap (λ (o : Bool × W). o.0) e))

  record_slice-Ends : (s : Slice components) → Ends s → Ends (record_slice components s)
  unfolding record_slice
  record_slice-Ends _ (ends s h) = persist-Ends s _ refl h
  record_slice-Ends _ (throws f) = throws f

  after_gates : RunReport
  after_gates = record new_report {
    has_intake = true;
    current_phase = building;
    completed_phases = intake ∷ planning ∷ skills ∷ gating ∷ [];
    overall_gate_status = GateStatus.pass;
  }

  built-Ends :
      (w : W) (o : Option RunStatus × W)
      → components.execute_run w ≡ o
      → ((s : RunStatus) → o.0 ≡ some s → IsEnd s)
      → Ends (
          then_continue components
            (continue_steps components 3)
            (finish_step components building (built components after_gates o)))
  unfolding after_gates new_report then_continue finish_step built close_step after_building
      building_status continue_steps is_running is_in_progress run_orchestration_step handle lead_to
  built-Ends v (none, w) q e = throws (no_execution v (ap (λ (o : Option RunStatus × W). o.0) q))
  built-Ends v (some RunStatus.completed, w) q e = ends _ (at_the_end refl refl refl)
  built-Ends v (some RunStatus.failed, w) q e = ends _ (at_the_building refl refl refl refl)
  built-Ends v (some RunStatus.paused, w) q e = ends _ (at_the_building refl refl refl refl)
  built-Ends v (some RunStatus.planned, w) q e = elim (e RunStatus.planned refl) [ ]
  built-Ends v (some RunStatus.running, w) q e = elim (e RunStatus.running refl) [ ]
  built-Ends v (some RunStatus.cancelled, w) q e = elim (e RunStatus.cancelled refl) [ ]

  before_gates : RunReport
  before_gates = record new_report {
    has_intake = true;
    current_phase = gating;
    completed_phases = intake ∷ planning ∷ skills ∷ [];
  }

  before_skills : RunReport
  before_skills = record new_report {
    has_intake = true;
    current_phase = skills;
    completed_phases = intake ∷ planning ∷ [];
  }

  module _
      (ending : (w : W) (s : RunStatus) → (components.execute_run w).0 ≡ some s → IsEnd s) where
    gated-Ends :
        (o : GateStatus × W)
        → Ends (
            then_continue components
              (continue_steps components 4)
              (finish_step components gating (some (gated components before_gates o))))
    unfolding before_gates after_gates new_report then_continue finish_step gated close_step
        step_status_of after_gating continue_steps is_running is_in_progress run_orchestration_step
        handle
    gated-Ends (GateStatus.pass, w) = built-Ends w (components.execute_run w) refl (ending w)
    gated-Ends (GateStatus.blocked, w) = ends _ (at_the_gates refl (inl refl) (λ e. cc) refl)
    gated-Ends (GateStatus.fail, w) = ends _ (at_the_gates refl (inr refl) (λ e. cc) refl)
    gated-Ends (GateStatus.needs_review, w) = ends _ (at_the_gates refl (inr refl) (λ e. cc) refl)
    gated-Ends (GateStatus.pending, w) = ends _ (at_the_gates refl (inr refl) (λ e. cc) refl)

    skilled-Ends :
        (w : W) (o : Bool × W)
        → components.select_skills w ≡ o
        → Ends (
            then_continue components
              (continue_steps components 5)
              (finish_step components skills (skilled components before_skills o)))
    unfolding before_skills before_gates new_report then_continue finish_step skilled close_step
        continue_steps is_running is_in_progress run_orchestration_step handle lead_to
    skilled-Ends w (true, v) q = gated-Ends (components.evaluate_gates v)
    skilled-Ends w (false, v) q = throws (no_skills w (ap (λ (o : Bool × W). o.0) q))

    -- Where the execution leaves every run from which it returns completed, failed or paused, a new run
    -- in a mode other than expert is over within seven further steps: with an error only where the
    -- selection of the skills, the execution or the recording throws, and otherwise at the end, with
    -- every phase but the last recorded once and in order, or at the gates, which did not pass, or at
    -- the building, behind gates that passed, waiting for an approval.
    pub run_vertical_slice-Ends :
        (mode : Mode) (w : W)
        → mode ≢ Mode.expert
        → Ends (run_vertical_slice components 7 mode none w)
    unfolding run_vertical_slice in_mode new_report before_skills then_continue finish_step
        close_step lead_to continue_steps is_running is_in_progress run_orchestration_step handle
    run_vertical_slice-Ends Mode.turbo w n =
        record_slice-Ends _ (skilled-Ends w (components.select_skills w) refl)
    run_vertical_slice-Ends Mode.builder w n =
        record_slice-Ends _ (skilled-Ends w (components.select_skills w) refl)
    run_vertical_slice-Ends Mode.pro w n =
        record_slice-Ends _ (skilled-Ends w (components.select_skills w) refl)
    run_vertical_slice-Ends Mode.expert w n = absurd (n refl)
    run_vertical_slice-Ends Mode.safe w n =
        record_slice-Ends _ (skilled-Ends w (components.select_skills w) refl)
    run_vertical_slice-Ends Mode.balanced w n =
        record_slice-Ends _ (skilled-Ends w (components.select_skills w) refl)
    run_vertical_slice-Ends Mode.god w n =
        record_slice-Ends _ (skilled-Ends w (components.select_skills w) refl)
