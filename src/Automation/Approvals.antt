-- ===== src/Automation/Approvals.antt =====
-- apps/control-service/src/services/auto-approval-engine.ts: the rules that approve a gate. The bundle of
-- a run is read twice, once for the conditions and once for the dependencies. The effects of a rule are
-- listed and not carried out, since an error of one does not stop the others. The operator contains, which
-- no check knows, is left out.
mod Decides
mod Defaults
mod Tests
use Prim.Native.String
use code_kit_ultra.Base.{
  String, ℕ, List, [], ◌∷◌, map, Option, none, some, Bool, true, false, not, ◌&&◌, ◌||◌, all,
  select, lookup, insert, includes, or_default, same, length, sort_by, ltb, if◌then◌else◌,
}
use code_kit_ultra.Governance.Numbers.{Numbers}
use code_kit_ultra.Automation.Timers.{Operator, greater_than, less_than, equals}

-- The value of a test condition may be anything: these are the ones that are used.
pub data TestValue : Type 0 where
  absent : TestValue
  flag : Bool → TestValue
  names : List String → TestValue

-- A condition with the value that its check expects; only the check of the quality reads the operator.
pub data ApprovalCondition (N : Type 0) : Type 0 where
  test_pass : TestValue → ApprovalCondition N
  coverage_threshold : N → ApprovalCondition N
  quality_score : Operator → N → ApprovalCondition N
  waited : N → ApprovalCondition N
  by_hand : ApprovalCondition N

pub data AutoApprovalAction : Type 0 where
  approve log escalate notify : AutoApprovalAction

pub record AutoApprovalRule (N : Type 0) : Type 0 where
  pub id : String
  pub gate_id : String
  pub priority : ℕ
  pub enabled : Bool
  pub conditions : List (ApprovalCondition N)
  pub dependencies : List String
  pub actions : List AutoApprovalAction

-- What the engine reads of a bundle's state, with the minutes since it was created.
pub record ApprovalState (N : Type 0) : Type 0 where
  pub test_results : List (String × String)
  pub coverage : Option N
  pub quality : Option N
  pub minutes : N
  pub approved_gates : List String

pub data ApprovalEffect : Type 0 where
  approve_run : (run_id actor : String) → ApprovalEffect
  announce : AutoApprovalAction → ApprovalEffect

pub data ApprovalOutcome : Type 0 where
  threw refused : ApprovalOutcome
  approved : List ApprovalEffect → ApprovalOutcome

pub record GateNode : Type 0 where
  pub gate_id : String
  pub is_pending : Bool

pub record ApprovalChain : Type 0 where
  pub run_id : String
  pub chain_id : String
  pub gates : List GateNode
  pub created_at : ℕ

pub record AutoApprovalEngine (N : Type 0) : Type 0 where
  pub rules : List (String × AutoApprovalRule N)
  pub chains : List (String × ApprovalChain)

unfoldable pub is_passed : Option String → Bool
is_passed none = false
is_passed (some status) = same status "passed"

unfoldable pub all_passed : List (String × String) → Bool
all_passed results = all (λ (e : String × String). same e.1 "passed") results

unfoldable pub named_passed : List (String × String) → List String → Option Bool
named_passed results wanted = some (all (λ name. is_passed (lookup name results)) wanted)

-- Lines 202 to 212; `none` is a TypeError, since `true` has no method `every`.
unfoldable pub check_test_pass : List (String × String) → TestValue → Option Bool
check_test_pass results absent = some (all_passed results)
check_test_pass results (flag false) = some (all_passed results)
check_test_pass results (flag true) = none
check_test_pass results (names []) = some (all_passed results)
check_test_pass results (names (t ∷ ts)) = named_passed results (t ∷ ts)

unfoldable pub run_effect : String → String → AutoApprovalAction → ApprovalEffect
run_effect run_id rule_id approve = approve_run run_id (String.◌++◌ "auto-approval:" rule_id)
run_effect run_id rule_id a = announce a

module _ {N : Type 0} where
  unfoldable pub set_approval_rules :
      List (AutoApprovalRule N)
      → List (String × AutoApprovalRule N)
      → List (String × AutoApprovalRule N)
  set_approval_rules [] m = m
  set_approval_rules (r ∷ rs) m = set_approval_rules rs (insert r.id r m)

  unfoldable pub new_approval_engine : List (AutoApprovalRule N) → AutoApprovalEngine N
  new_approval_engine rs = record { rules = set_approval_rules rs []; chains = [] }

  unfoldable pub register_approval_rule :
      AutoApprovalRule N → AutoApprovalEngine N → AutoApprovalEngine N
  register_approval_rule r s =
      if not r.enabled then s else record s { rules = insert r.id r s.rules }

  -- `decimal` is the text of a number.
  unfoldable pub create_approval_chain :
      (ℕ → String)
      → ℕ
      → String
      → List String
      → AutoApprovalEngine N
      → ApprovalChain × AutoApprovalEngine N
  create_approval_chain decimal now run_id gate_ids s =
      let chain : ApprovalChain = record {
        run_id = run_id;
        chain_id = String.◌++◌ "chain-" (String.◌++◌ run_id (String.◌++◌ "-" (decimal now)));
        gates = map (λ (g : String). record { gate_id = g; is_pending = true }) gate_ids;
        created_at = now;
      } in
      (chain, record s { chains = insert chain.chain_id chain s.chains })

  unfoldable pub get_rules_for_gate : String → AutoApprovalEngine N → List (AutoApprovalRule N)
  get_rules_for_gate gate_id s =
      select (λ (r : AutoApprovalRule N). same r.gate_id gate_id && r.enabled)
        (map (λ (e : String × AutoApprovalRule N). e.1) s.rules)

  unfoldable pub get_approval_chain : String → AutoApprovalEngine N → Option ApprovalChain
  get_approval_chain chain_id s = lookup chain_id s.chains

  unfoldable pub get_chains_for_run : String → AutoApprovalEngine N → List ApprovalChain
  get_chains_for_run run_id s =
      select (λ (c : ApprovalChain). same c.run_id run_id)
        (map (λ (e : String × ApprovalChain). e.1) s.chains)

  unfoldable pub execute_approval_actions : String → AutoApprovalRule N → List ApprovalEffect
  execute_approval_actions run_id r = map (run_effect run_id r.id) r.actions

  -- Lines 184 to 197, with the bundle as it is read again.
  unfoldable pub check_dependencies : Option (ApprovalState N) → List String → Bool
  check_dependencies state [] = true
  check_dependencies none (d ∷ ds) = false
  check_dependencies (some b) (d ∷ ds) = all (λ g. includes g b.approved_gates) (d ∷ ds)

  module _ (num : Numbers N) where
    -- `value || 0`
    unfoldable pub value_or_zero : Option N → N
    value_or_zero none = num.whole 0
    value_or_zero (some v) = if num.is_falsy v then num.whole 0 else v

    unfoldable pub check_quality_score : N → Operator → N → Bool
    check_quality_score score greater_than threshold = num.lt threshold score
    check_quality_score score equals threshold = num.eq score threshold
    check_quality_score score less_than threshold = num.lt score threshold

    unfoldable pub check_condition : ApprovalState N → ApprovalCondition N → Option Bool
    check_condition b (test_pass value) = check_test_pass b.test_results value
    check_condition b (coverage_threshold t) =
        some (num.lt t (value_or_zero b.coverage) || num.eq (value_or_zero b.coverage) t)
    check_condition b (quality_score operator t) =
        some (check_quality_score (value_or_zero b.quality) operator t)
    check_condition b (waited t) = some (num.lt t b.minutes)
    check_condition b by_hand = some false

    -- The rest is evaluated only where the condition is met.
    unfoldable pub and_then : Option Bool → Option Bool → Option Bool
    and_then (some true) rest = rest
    and_then o rest = o

    unfoldable pub check_conditions : ApprovalState N → List (ApprovalCondition N) → Option Bool
    check_conditions b [] = some true
    check_conditions b (c ∷ cs) = and_then (check_condition b c) (check_conditions b cs)

    unfoldable pub approve_or :
        String → AutoApprovalRule N → Option Bool → Bool → ApprovalOutcome → ApprovalOutcome
    approve_or run_id r none deps rest = threw
    approve_or run_id r (some met) deps rest =
        if met && deps then approved (execute_approval_actions run_id r) else rest

    -- Lines 125 to 138.
    unfoldable pub try_approval_rules :
        String
        → ApprovalState N
        → Option (ApprovalState N)
        → List (AutoApprovalRule N)
        → ApprovalOutcome
    try_approval_rules run_id b again [] = refused
    try_approval_rules run_id b again (r ∷ rs) =
        approve_or run_id r (check_conditions b r.conditions)
          (check_dependencies again r.dependencies) (try_approval_rules run_id b again rs)

    unfoldable pub evaluate_gate_for_approval :
        String
        → String
        → Option (ApprovalState N)
        → Option (ApprovalState N)
        → AutoApprovalEngine N
        → ApprovalOutcome
    evaluate_gate_for_approval run_id gate_id none again s = refused
    evaluate_gate_for_approval run_id gate_id (some b) again s =
        try_approval_rules run_id b again
          (sort_by (λ (r : AutoApprovalRule N). r.priority) (get_rules_for_gate gate_id s))
