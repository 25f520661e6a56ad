-- ===== src/Phases/Tests.antt =====
-- A run through the phases.
use code_kit_ultra.Base.{◌≡◌, ℕ, none, some, true}
use mathlib.Core.Option.{some_inj}
use mathlib.Core.Path.{subst}
use code_kit_ultra.Shared.{Mode, RunStatus, GateStatus}
use code_kit_ultra.Phases.{Components, run_vertical_slice}
use code_kit_ultra.Phases.Finish.{IsEnd, Ends, is_failed, run_vertical_slice-Ends}

-- The gates pass and the execution fails.
abbrev broken : Components ℕ
broken = record {
  select_skills = λ w. (true, w);
  evaluate_gates = λ w. (GateStatus.pass, w);
  execute_run = λ w. (some RunStatus.failed, w);
  record_run = λ w. (true, w);
}

ends_failed : (w : ℕ) (s : RunStatus) → (broken.execute_run w).0 ≡ some s → IsEnd s
ends_failed w s e = subst IsEnd (some_inj.0 e) is_failed

run_vertical_slice-Ends_example : Ends broken (run_vertical_slice broken 7 Mode.turbo none 0)
run_vertical_slice-Ends_example = run_vertical_slice-Ends broken ends_failed Mode.turbo 0 (λ e. cc)
