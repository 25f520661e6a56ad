-- ===== src/Governance/Sequence.antt =====
-- packages/governance/src/gate-manager.ts: the gates that a mode asks for, their evaluation one
-- after the other with a record of each in the table, and the pauses that they call for.
use code_kit_ultra.Base.{
  String, List, [], ◌∷◌, ◌++◌, map, Option, none, some, Bool, true, false, not, ◌&&◌, ◌||◌, any,
  select, lookup, same, if◌then◌else◌,
}
use code_kit_ultra.Governance.Numbers.{Numbers}
use code_kit_ultra.Governance.Checks.{
  GateEvaluationContext, Severity, GateResult, fail_result, scope_gate, architecture_gate,
  security_gate, cost_gate, deployment_gate, qa_gate, build_gate, launch_gate, risk_threshold_gate,
}
use code_kit_ultra.Governance.Store.{DecisionStatus, Row, record_gate_decision}
use Prim.Native.String

unfoldable pub is_blocked : Severity → Bool
is_blocked Severity.blocked = true
is_blocked _ = false

unfoldable pub should_pause : Severity → Bool → Bool
should_pause Severity.pass is_safe = false
should_pause Severity.blocked is_safe = true
should_pause Severity.fail is_safe = is_safe
should_pause Severity.warning is_safe = is_safe

unfoldable pub is_unattended : String → Bool
is_unattended mode = same mode "god" || same mode "turbo"

unfoldable pub should_pause_for_gate : GateResult → String → Bool
should_pause_for_gate result mode =
    not (is_unattended mode) && should_pause result.severity (same mode "safe")

unfoldable pub requires_review : List GateResult → String → Bool
requires_review results mode = any (λ r. should_pause_for_gate r mode) results

unfoldable pub has_blocked : List GateResult → Bool
has_blocked results = any (λ r. is_blocked r.severity) results

unfoldable pub status_of : GateResult → DecisionStatus
status_of r =
    if r.passed
    then DecisionStatus.pass
    else if is_blocked r.severity
    then DecisionStatus.blocked
    else DecisionStatus.needs_review

-- The rest of the program that the manager calls: the random numbers, the clock's text, and
-- whether a query to the database succeeds.
pub record Services (N W : Type 0) : Type 0 where
  pub random_risk : W → N × W
  pub now : W → String × W
  pub query : W → Bool × W

-- What an evaluation has reached.
pub record Progress (W : Type 0) : Type 0 where
  pub results : List GateResult
  pub table : List Row
  pub world : W

unfoldable pub row_of : String → String → String → GateResult → Row
row_of name run_id time result = record {
  id =
      String.◌++◌ "gate-"
        (String.◌++◌ run_id (String.◌++◌ "-" (String.◌++◌ name (String.◌++◌ "-" time))));
  gate_id = name;
  run_id = run_id;
  status = status_of result;
  result = result;
  reviewer_id = none;
  reason = none;
}

-- Line 125: the first blocked gate ends the evaluation.
unfoldable pub breaks : String → GateResult → Bool
breaks mode result = is_blocked result.severity && not (is_unattended mode)

module _ {N W : Type 0} (num : Numbers N) (services : Services N W) where
  -- The gates by name, in the order of their registration.
  unfoldable pub gates : List (String × (GateEvaluationContext N → W → GateResult × W))
  gates =
      ("Scope Gate", λ c w. (scope_gate c, w))
      ∷ ("Architecture Gate", λ c w. (architecture_gate c, w))
      ∷ ("Security Gate", λ c w. (security_gate c, w))
      ∷ ("Cost Gate", λ c w. (cost_gate num c, w))
      ∷ ("Deployment Gate", λ c w. (deployment_gate c, w))
      ∷ ("QA Gate", λ c w. (qa_gate num c, w))
      ∷ ("Build Gate", λ c w. (build_gate c, w))
      ∷ ("Launch Gate", λ c w. (launch_gate c, w))
      ∷ (
        "Risk Threshold Gate",
        λ c w. let (risk, w') = services.random_risk w in (risk_threshold_gate num risk c, w'),
      )
      ∷ []

  unfoldable pub all_gates : List String
  all_gates = map (λ g. g.0) gates

  unfoldable pub get_gate_sequence : String → List String
  get_gate_sequence mode =
      if same mode "turbo"
      then "Risk Threshold Gate" ∷ []
      else if same mode "balanced"
      then select (λ g. not (same g "Cost Gate")) all_gates
      else if same mode "god"
      then []
      else all_gates

  -- Lines 108 to 117: the result is kept, and then recorded; whether the query succeeded.
  unfoldable pub evaluate_gate :
      GateEvaluationContext N
      → String
      → (GateEvaluationContext N → W → GateResult × W)
      → Progress W
      → Bool × GateResult × Progress W
  evaluate_gate context name gate p =
      let (result, w) = gate context p.world in
      let (time, w') = services.now w in
      let (ok, w'') = services.query w' in
      let row = row_of name context.run_id time result in
      let table = if ok then record_gate_decision row p.table else p.table in
      (ok, result, record { results = p.results ++ result ∷ []; table = table; world = w'' })

  -- Lines 119 to 138, given whether the query succeeded: a failed query is caught, and leaves a
  -- second result of the gate.
  unfoldable pub after_gate :
      (Progress W → Progress W) → String → String → Bool × GateResult × Progress W → Progress W
  after_gate rest mode name (true, result, p) = if breaks mode result then p else rest p
  after_gate rest mode name (false, result, p) =
      rest (record p { results = p.results ++ fail_result name false ∷ [] })

  unfoldable pub step_by :
      (Progress W → Progress W)
      → GateEvaluationContext N
      → String
      → Option (GateEvaluationContext N → W → GateResult × W)
      → Progress W
      → Progress W
  step_by rest context name none p = rest p
  step_by rest context name (some gate) p =
      after_gate rest context.mode name (evaluate_gate context name gate p)

  unfoldable pub evaluate_sequence : GateEvaluationContext N → List String → Progress W → Progress W
  evaluate_sequence context [] p = p
  evaluate_sequence context (name ∷ names) p =
      step_by (evaluate_sequence context names) context name (lookup name gates) p

  unfoldable pub evaluate_gates : GateEvaluationContext N → List Row → W → Progress W
  evaluate_gates context table w =
      evaluate_sequence context (get_gate_sequence context.mode)
        (record { results = []; table = table; world = w })
