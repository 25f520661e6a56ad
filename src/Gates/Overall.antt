-- ===== src/Gates/Overall.antt =====
-- The overall status of the gates: gate-manager.ts, lines 28 to 82.
use code_kit_ultra.Base.{
  String, ℕ, suc, ◌+◌, ◌≡◌, refl, ◌∙◌, List, [], ◌∷◌, map, Bool, true, false, not, ◌&&◌, ◌||◌,
  length, any, all, includes, or_default, if◌then◌else◌, All, all_mono, sym, ap, if-split, arith,
}
use code_kit_ultra.Shared.{Mode, GateStatus}
use code_kit_ultra.Gates.Modes.{GateThresholds, get_mode_policy}
use code_kit_ultra.Gates.Manager.{
  GateEvaluationInput, GateDecision, is_pass, is_blocked, is_needs_review, is_turbo,
  create_gate_decision, raw_decisions, pass_decision, settle, overall_gate_status, count,
  build_gate_summary, evaluate_gates, objective_clarity, requirements_completeness, plan_readiness,
  skill_coverage, ambiguity_risk,
}

-- The three statuses that the gates give.
data IsVerdict : GateStatus → Type 0 where
  verdict_pass : IsVerdict GateStatus.pass
  verdict_review : IsVerdict GateStatus.needs_review
  verdict_blocked : IsVerdict GateStatus.blocked

if-IsVerdict :
    (b c : Bool)
    → IsVerdict
        (if b then GateStatus.blocked else if c then GateStatus.needs_review else GateStatus.pass)
if-IsVerdict true c = verdict_blocked
if-IsVerdict false true = verdict_review
if-IsVerdict false false = verdict_pass

raw_decisions-IsVerdict :
    (input : GateEvaluationInput) (limits : GateThresholds)
    → All (λ d. IsVerdict d.status) (raw_decisions input limits)
unfolding raw_decisions create_gate_decision objective_clarity requirements_completeness
    plan_readiness skill_coverage ambiguity_risk
raw_decisions-IsVerdict input limits = (
  if-IsVerdict _ _,
  (if-IsVerdict _ _, (if-IsVerdict _ _, (if-IsVerdict _ _, (if-IsVerdict _ _, tt)))),
)

settle-case :
    (P : GateDecision → Type 0) (approved : List String) (mode : Mode) (d : GateDecision)
    → P (pass_decision d)
    → P d
    → P (settle approved mode d)
unfolding settle
settle-case P approved mode d h k =
    if-split P (includes d.gate approved) (pass_decision d)
      (if is_turbo mode && is_needs_review d.status then pass_decision d else d) (λ _. h)
      (λ _.
        if-split P (is_turbo mode && is_needs_review d.status) (pass_decision d) d (λ _. h)
          (λ _. k))

-- A property that all decisions have before the approvals, and all that are made to pass.
All-settle :
    (P : GateDecision → Type 0) (approved : List String) (mode : Mode)
    → ((d : GateDecision) → P (pass_decision d))
    → (ds : List GateDecision) → All P ds
    → All P (map (settle approved mode) ds)
All-settle P approved mode f [] h = tt
All-settle P approved mode f (d ∷ ds) h =
    (settle-case P approved mode d (f d) h.0, All-settle P approved mode f ds h.1)

-- A gate lets the run through: it is approved, or it passes, or it is for review in the turbo mode.
abbrev pub clears : List String → Mode → GateDecision → Bool
clears approved mode d =
    includes d.gate approved || (is_pass d.status || (is_turbo mode && is_needs_review d.status))

pick-passes :
    (a t r : Bool) (d : GateDecision)
    → is_pass (if a then pass_decision d else if t && r then pass_decision d else d).status
      ≡ (a || (is_pass d.status || (t && r)))
unfolding pass_decision is_pass
pick-passes true t r d = refl
pick-passes false true true d = ground arith
pick-passes false true false d = ground arith
pick-passes false false r d = ground arith

settle-passes :
    (approved : List String) (mode : Mode) (d : GateDecision)
    → is_pass (settle approved mode d).status ≡ clears approved mode d
unfolding settle
settle-passes approved mode d =
    pick-passes (includes d.gate approved) (is_turbo mode) (is_needs_review d.status) d

all-passes :
    (approved : List String) (mode : Mode) (ds : List GateDecision)
    → all (λ d. is_pass d.status) (map (settle approved mode) ds) ≡ all (clears approved mode) ds
all-passes approved mode [] = refl
all-passes approved mode (d ∷ ds) =
    rw (settle-passes approved mode d, all-passes approved mode ds) refl

verdict-passes :
    (s : GateStatus) (b r p : Bool)
    → IsVerdict s
    → not (b || r) ≡ p
    → not ((is_blocked s || b) || (is_needs_review s || r)) ≡ (is_pass s && p)
unfolding is_pass is_blocked is_needs_review
verdict-passes GateStatus.pass b r p v h = h
verdict-passes GateStatus.needs_review b r p v h = ground arith
verdict-passes GateStatus.blocked b r p v h = refl
verdict-passes GateStatus.fail b r p v h = elim v [ ]
verdict-passes GateStatus.pending b r p v h = elim v [ ]

none-passes :
    (ds : List GateDecision)
    → All (λ d. IsVerdict d.status) ds
    → not (any (λ d. is_blocked d.status) ds || any (λ d. is_needs_review d.status) ds)
      ≡ all (λ d. is_pass d.status) ds
none-passes [] v = refl
none-passes (d ∷ ds) v = verdict-passes d.status _ _ _ v.0 (none-passes ds v.1)

overall-passes :
    (b r : Bool)
    → is_pass
        (if b then GateStatus.blocked else if r then GateStatus.needs_review else GateStatus.pass)
      ≡ not (b || r)
unfolding is_pass
overall-passes true r = refl
overall-passes false true = refl
overall-passes false false = refl

-- The overall status of the gates is a pass exactly when each of the five gates is approved by hand,
-- or passes its check, or asks for a review in the turbo mode.
pub evaluate_gates-passes :
    (input : GateEvaluationInput)
    → let mode = or_default input.mode Mode.builder in
      is_pass (evaluate_gates input).overall_status
      ≡ all
          (clears input.approved_gates mode)
          (raw_decisions input (get_mode_policy mode).gate_thresholds)
unfolding evaluate_gates overall_gate_status pass_decision
evaluate_gates-passes input =
    let mode = or_default input.mode Mode.builder in
    let ds = raw_decisions input (get_mode_policy mode).gate_thresholds in
    overall-passes _ _
    ∙ none-passes _ (
        All-settle (λ d. IsVerdict d.status) input.approved_gates mode (λ d. verdict_pass) ds
          (raw_decisions-IsVerdict input _))
    ∙ all-passes input.approved_gates mode ds

clears-more :
    (approved : List String) (mode : Mode) (gate : String) (d : GateDecision)
    → clears approved mode d ≡ true
    → clears (gate ∷ approved) mode d ≡ true
clears-more approved mode gate d h = ground arith

raw_decisions-approve :
    (input : GateEvaluationInput) (gates : List String) (limits : GateThresholds)
    → raw_decisions (record input { approved_gates = gates }) limits ≡ raw_decisions input limits
unfolding raw_decisions objective_clarity requirements_completeness plan_readiness skill_coverage
    ambiguity_risk
raw_decisions-approve input gates limits = refl

-- One more manual approval never turns a pass into something else.
pub evaluate_gates-approve :
    (input : GateEvaluationInput) (gate : String)
    → is_pass (evaluate_gates input).overall_status ≡ true
    → is_pass
        (evaluate_gates
          (record input { approved_gates = gate ∷ input.approved_gates })).overall_status
      ≡ true
evaluate_gates-approve input gate h =
    evaluate_gates-passes (record input { approved_gates = gate ∷ input.approved_gates })
    ∙ ap (all _) (raw_decisions-approve input (gate ∷ input.approved_gates) _)
    ∙ all_mono _ _ _ (clears-more input.approved_gates (or_default input.mode Mode.builder) gate)
        (sym (evaluate_gates-passes input) ∙ h)

count-one :
    (s : GateStatus) (a b c n : ℕ)
    → IsVerdict s
    → a + b + c ≡ n
    → (if is_pass s then suc a else a)
        + (if is_needs_review s then suc b else b)
        + (if is_blocked s then suc c else c)
      ≡ suc n
unfolding is_pass is_needs_review is_blocked
count-one GateStatus.pass a b c n v h = omega (arith, h)
count-one GateStatus.needs_review a b c n v h = omega (arith, h)
count-one GateStatus.blocked a b c n v h = omega (arith, h)
count-one GateStatus.fail a b c n v h = elim v [ ]
count-one GateStatus.pending a b c n v h = elim v [ ]

count-total :
    (ds : List GateDecision)
    → All (λ d. IsVerdict d.status) ds
    → count is_pass ds + count is_needs_review ds + count is_blocked ds ≡ length ds
unfolding count
count-total [] v = refl
count-total (d ∷ ds) v = count-one d.status _ _ _ _ v.0 (count-total ds v.1)

-- Each of the five decisions asks for a pause exactly when it does not pass, and the summary counts every
-- decision once.
pub evaluate_gates-counts :
    (input : GateEvaluationInput)
    → let r = evaluate_gates input in
      All (λ d. d.should_pause ≡ not (is_pass d.status)) r.decisions
      × (r.summary.pass + r.summary.needs_review + r.summary.blocked ≡ length r.decisions)
unfolding evaluate_gates build_gate_summary pass_decision is_pass raw_decisions create_gate_decision
evaluate_gates-counts input =
    let mode = or_default input.mode Mode.builder in
    let limits = (get_mode_policy mode).gate_thresholds in
    let ds = raw_decisions input limits in
    (
      All-settle (λ d. d.should_pause ≡ not (is_pass d.status)) input.approved_gates mode
          (λ d. refl) ds (refl, (refl, (refl, (refl, (refl, tt))))),
      count-total _ (
          All-settle (λ d. IsVerdict d.status) input.approved_gates mode (λ d. verdict_pass) ds
            (raw_decisions-IsVerdict input limits)),
    )
