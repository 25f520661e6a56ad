-- ===== src/Governance/Store.antt =====
-- packages/governance/src/gate-store.ts: the table of the gates' decisions. The rows stand in the
-- order of `created_at`, the newest first.
use code_kit_ultra.Base.{
  String, List, ◌∷◌, map, Option, some, Bool, true, false, ◌&&◌, any, select, find, same,
  if◌then◌else◌,
}
use code_kit_ultra.Governance.Checks.{GateResult}

pub data DecisionStatus : Type 0 where
  pass fail needs_review blocked : DecisionStatus

pub record Row : Type 0 where
  pub id : String
  pub gate_id : String
  pub run_id : String
  pub status : DecisionStatus
  pub result : GateResult
  pub reviewer_id : Option String
  pub reason : Option String

unfoldable pub is_pending : DecisionStatus → Bool
is_pending DecisionStatus.needs_review = true
is_pending _ = false

-- `ON CONFLICT (id) DO UPDATE`
unfoldable pub replace_row : Row → Row → Row
replace_row new old =
    if same old.id new.id
    then record old { status = new.status; result = new.result; reviewer_id = new.reviewer_id }
    else old

unfoldable pub record_gate_decision : Row → List Row → List Row
record_gate_decision row table =
    if any (λ r. same r.id row.id) table then map (replace_row row) table else row ∷ table

unfoldable pub get_pending_gates : String → List Row → List Row
get_pending_gates run_id table = select (λ r. same r.run_id run_id && is_pending r.status) table

unfoldable pub waits_for : String → Row → Bool
waits_for gate_id row = same row.gate_id gate_id && is_pending row.status

unfoldable pub approve_row : String → String → Row → Row
approve_row gate_id reviewer r =
    if waits_for gate_id r
    then record r { status = DecisionStatus.pass; reviewer_id = some reviewer }
    else r

unfoldable pub approve_gate : String → String → List Row → List Row
approve_gate gate_id reviewer table = map (approve_row gate_id reviewer) table

unfoldable pub reject_row : String → String → String → Row → Row
reject_row gate_id reviewer reason r =
    if waits_for gate_id r
    then record r {
      status = DecisionStatus.blocked;
      reviewer_id = some reviewer;
      reason = some reason;
    }
    else r

unfoldable pub reject_gate : String → String → String → List Row → List Row
reject_gate gate_id reviewer reason table = map (reject_row gate_id reviewer reason) table

unfoldable pub is_decision_of : String → String → Row → Bool
is_decision_of gate_id run_id r = same r.gate_id gate_id && same r.run_id run_id

unfoldable pub get_gate_decision : String → String → List Row → Option Row
get_gate_decision gate_id run_id table = find (is_decision_of gate_id run_id) table

-- gate-manager.ts, lines 171 to 187: the run is not used.
unfoldable pub override_gate_decision : String → String → String → Bool → List Row → List Row
override_gate_decision gate_id run_id reviewer true table = approve_gate gate_id reviewer table
override_gate_decision gate_id run_id reviewer false table =
    reject_gate gate_id reviewer "Manual rejection by reviewer" table
