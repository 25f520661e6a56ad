-- ===== src/Phases.antt =====
-- packages/orchestrator/src/phase-engine.ts and run-vertical-slice.ts: the phases of a run. What the
-- phases call is an interface, of which only the answers that lead on matter here. The texts, the plan,
-- the skills, the events and the file of the report are left out.
mod Finish
mod Tests
use code_kit_ultra.Base.{
  ℕ, zero, suc, List, [], ◌∷◌, ◌++◌, Option, none, some, Bool, true, false, not, ◌&&◌, or_default,
  if◌then◌else◌,
}
use code_kit_ultra.Shared.{Mode, RunStatus, GateStatus}

pub data Phase : Type 0 where
  intake planning skills gating building testing reviewing deployment : Phase

pub data PhaseStatus : Type 0 where
  success blocked awaiting_approval failure : PhaseStatus

pub data ReportStatus : Type 0 where
  succeeded failed in_progress is_blocked awaits_approval : ReportStatus

pub record RunReport : Type 0 where
  pub has_intake : Bool
  pub current_phase : Phase
  pub completed_phases : List Phase
  pub status : ReportStatus
  pub overall_gate_status : GateStatus

-- Whether the skills can be selected, which throws where their registry cannot be read; the gates'
-- overall status; the status in which the execution leaves the run, if it returns; and whether the
-- report can be recorded.
pub record Components (W : Type 0) : Type 0 where
  pub select_skills : W → Bool × W
  pub evaluate_gates : W → GateStatus × W
  pub execute_run : W → Option RunStatus × W
  pub record_run : W → Bool × W

-- What a handler answers, with the report as it updates it.
pub record HandlerResult (W : Type 0) : Type 0 where
  pub next_phase : Option Phase
  pub report : RunReport
  pub status : PhaseStatus
  pub world : W

pub record StepResult (W : Type 0) : Type 0 where
  pub report : RunReport
  pub is_finished : Bool
  pub world : W

unfoldable pub step_status_of : GateStatus → PhaseStatus
step_status_of GateStatus.pass = success
step_status_of GateStatus.blocked = blocked
step_status_of _ = awaiting_approval

unfoldable pub after_gating : PhaseStatus → Phase
after_gating success = building
after_gating _ = gating

unfoldable pub after_building : RunStatus → Phase
after_building RunStatus.completed = testing
after_building _ = building

unfoldable pub building_status : RunStatus → PhaseStatus
building_status RunStatus.paused = awaiting_approval
building_status RunStatus.failed = failure
building_status _ = success

-- Lines 216 to 228: the report after a step, and whether the run is finished.
unfoldable pub close_step : Phase → Option Phase → PhaseStatus → RunReport → RunReport × Bool
close_step phase (some next) success r = (
  record r {
    completed_phases = r.completed_phases ++ phase ∷ [];
    current_phase = next;
    status = in_progress;
  },
  false,
)
close_step phase none success r = (record r { status = succeeded }, true)
close_step phase next blocked r = (record r { status = is_blocked }, false)
close_step phase next _ r = (record r { status = awaits_approval }, false)

unfoldable pub is_in_progress : ReportStatus → Bool
is_in_progress in_progress = true
is_in_progress _ = false

unfoldable pub new_report : RunReport
new_report = record {
  has_intake = false;
  current_phase = intake;
  completed_phases = [];
  status = in_progress;
  overall_gate_status = GateStatus.pending;
}

module _ {W : Type 0} (components : Components W) where
  unfoldable pub lead_to : Option Phase → RunReport → W → HandlerResult W
  lead_to next r w = record { next_phase = next; report = r; status = success; world = w }

  unfoldable pub gated : RunReport → GateStatus × W → HandlerResult W
  gated r (overall, w) = record {
    next_phase = some (after_gating (step_status_of overall));
    report = record r { overall_gate_status = overall };
    status = step_status_of overall;
    world = w;
  }

  unfoldable pub skilled : RunReport → Bool × W → Option (HandlerResult W)
  skilled r (false, w) = none
  skilled r (true, w) = some (lead_to (some gating) r w)

  unfoldable pub built : RunReport → Option RunStatus × W → Option (HandlerResult W)
  built r (none, w) = none
  built r (some status, w) = some (record {
    next_phase = some (after_building status);
    report = r;
    status = building_status status;
    world = w;
  })

  -- `none` is an error that is thrown.
  unfoldable pub handle : Phase → RunReport → W → Option (HandlerResult W)
  handle intake r w = some (lead_to (some planning) (record r { has_intake = true }) w)
  handle planning r w = if r.has_intake then some (lead_to (some skills) r w) else none
  handle skills r w = if r.has_intake then skilled r (components.select_skills w) else none
  handle gating r w = some (gated r (components.evaluate_gates w))
  handle building r w = built r (components.execute_run w)
  handle testing r w = some (lead_to (some reviewing) r w)
  handle reviewing r w = some (lead_to (some deployment) r w)
  handle deployment r w = some (lead_to none r w)

  unfoldable pub finish_step : Phase → Option (HandlerResult W) → Option (StepResult W)
  finish_step phase none = none
  finish_step phase (some h) =
      let (r, finished) = close_step phase h.next_phase h.status h.report in
      some (record { report = r; is_finished = finished; world = h.world })

  unfoldable pub run_orchestration_step : RunReport → W → Option (StepResult W)
  run_orchestration_step r w = finish_step r.current_phase (handle r.current_phase r w)

  unfoldable pub is_running : StepResult W → Bool
  is_running s = not s.is_finished && is_in_progress s.report.status

  -- How a slice ends; the loop has a bound on its steps.
  pub data Slice : Type 0 where
    threw out_of_fuel : Slice
    ended : StepResult W → Slice

  unfoldable pub then_continue : (StepResult W → Slice) → Option (StepResult W) → Slice
  then_continue loop none = threw
  then_continue loop (some s) = loop s

  -- Lines 63 to 68.
  unfoldable pub continue_steps : ℕ → StepResult W → Slice
  continue_steps zero s = if is_running s then out_of_fuel else ended s
  continue_steps (suc fuel) s =
      let next = then_continue (continue_steps fuel) (run_orchestration_step s.report s.world) in
      if is_running s then next else ended s

  unfoldable pub in_mode : ℕ → Mode → StepResult W → Slice
  in_mode fuel Mode.expert s = ended s
  in_mode fuel mode s = continue_steps fuel s

  unfoldable pub persist : StepResult W → Bool × W → Slice
  persist s (false, w) = threw
  persist s (true, w) = ended (record s { world = w })

  -- Lines 70 to 79: `recordRun`, which may throw.
  unfoldable pub record_slice : Slice → Slice
  record_slice threw = threw
  record_slice out_of_fuel = out_of_fuel
  record_slice (ended s) = persist s (components.record_run s.world)

  unfoldable pub run_vertical_slice : ℕ → Mode → Option RunReport → W → Slice
  run_vertical_slice fuel mode given w =
      record_slice
        (then_continue (in_mode fuel mode) (run_orchestration_step (or_default given new_report) w))
