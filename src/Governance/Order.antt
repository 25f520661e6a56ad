-- ===== src/Governance/Order.antt =====
-- The order in which the gates are evaluated: gate-manager.ts, lines 94 to 152.
use code_kit_ultra.Base.{
  String, ◌≡◌, refl, ◌∙◌, ap, sym, List, [], ◌∷◌, ◌++◌, Option, none, some, Bool, true, false, not,
  ◌&&◌, lookup, lookup-All, same, if◌then◌else◌, if-split, All, is_some,
}
use mathlib.Core.List.{append_assoc, append-nil}
use code_kit_ultra.Governance.Numbers.{Numbers}
use code_kit_ultra.Governance.Checks.{
  GateEvaluationContext, Change, GateResult, pass_result, fail_result, blocked_result,
  warning_result, scope_gate, scope_changes, architecture_gate, security_gate, cost_gate, cost_of,
  deployment_gate, deploy_to, qa_gate, coverage_of, build_gate, build_result, launch_gate,
  risk_threshold_gate,
}
use code_kit_ultra.Governance.Store.{Row}
use code_kit_ultra.Governance.Sequence.{
  is_blocked, is_unattended, Services, Progress, gates, all_gates, get_gate_sequence, evaluate_gate,
  breaks, after_gate, step_by, evaluate_sequence, evaluate_gates,
}

-- `results` are those of the gates `names` in their order, up to the first that is blocked in a
-- mode other than god and turbo.
pub data Follows (mode : String) : List String → List GateResult → Type 0 where
  finished : Follows mode [] []
  broken_off :
      {name : String} {names : List String} (r : GateResult)
      → r.gate_name ≡ name
      → (is_blocked r.severity && not (is_unattended mode)) ≡ true
      → Follows mode (name ∷ names) (r ∷ [])
  evaluated :
      {name : String} {names : List String} {rest : List GateResult} (r : GateResult)
      → r.gate_name ≡ name
      → (is_blocked r.severity && not (is_unattended mode)) ≡ false
      → Follows mode names rest
      → Follows mode (name ∷ names) (r ∷ rest)

-- The result carries the name of its gate.
record IsOf (name : String) (r : GateResult) : Type 0 where
  named : r.gate_name ≡ name

if-IsOf :
    (n : String) (b : Bool) (x y : GateResult) → IsOf n x → IsOf n y → IsOf n (if b then x else y)
if-IsOf n true x y h k = h
if-IsOf n false x y h k = k

pass-IsOf : (n : String) → IsOf n (pass_result n)
unfolding pass_result
pass-IsOf n = record { named = refl }

fail-IsOf : (n : String) (b : Bool) → IsOf n (fail_result n b)
unfolding fail_result
fail-IsOf n b = record { named = refl }

blocked-IsOf : (n : String) → IsOf n (blocked_result n)
unfolding blocked_result
blocked-IsOf n = record { named = refl }

warning-IsOf : (n : String) → IsOf n (warning_result n)
unfolding warning_result
warning-IsOf n = record { named = refl }

ruleset named_results = (if-IsOf, pass-IsOf, fail-IsOf, blocked-IsOf, warning-IsOf)

scope-IsOf :
    (boundaries : List String) (changes : List Change)
    → IsOf "Scope Gate" (scope_changes boundaries changes)
unfolding scope_changes
scope-IsOf boundaries changes = search named_results

deploy-IsOf :
    (mode : String) (target : Option String) → IsOf "Deployment Gate" (deploy_to mode target)
unfolding deploy_to
deploy-IsOf mode none = search named_results
deploy-IsOf mode (some t) = search named_results

build-IsOf : (status : Option String) → IsOf "Build Gate" (build_result status)
unfolding build_result
build-IsOf none = search named_results
build-IsOf (some t) = search named_results

module _ {N W : Type 0} where
  -- The results of a gate carry its name.
  abbrev IsNamed : String × (GateEvaluationContext N → W → GateResult × W) → Type 0
  IsNamed (name, gate) = (c : GateEvaluationContext N) (w : W) → IsOf name (gate c w).0

  module _ (num : Numbers N) (services : Services N W) where
    cost-IsOf : (cost : Option N) → IsOf "Cost Gate" (cost_of num cost)
    unfolding cost_of
    cost-IsOf none = search named_results
    cost-IsOf (some c) = search named_results

    coverage-IsOf : (delta : Option N) → IsOf "QA Gate" (coverage_of num delta)
    unfolding coverage_of
    coverage-IsOf none = search named_results
    coverage-IsOf (some c) = search named_results

    risk-IsOf :
        (risk : N) (c : GateEvaluationContext N)
        → IsOf "Risk Threshold Gate" (risk_threshold_gate num risk c)
    unfolding risk_threshold_gate
    risk-IsOf risk c = search named_results

    gates-IsNamed : All IsNamed (gates num services)
    unfolding gates scope_gate architecture_gate security_gate cost_gate deployment_gate qa_gate
        build_gate launch_gate
    gates-IsNamed = (
      λ c w. scope-IsOf _ _,
      (
        λ c w. search named_results,
        (
          λ c w. search named_results,
          (
            λ c w. cost-IsOf c.estimated_cost,
            (
              λ c w. deploy-IsOf c.mode c.deployment_target,
              (
                λ c w. coverage-IsOf c.test_coverage_delta,
                (
                  λ c w. build-IsOf c.build_status,
                  (
                    λ c w. search named_results,
                    (λ c w. risk-IsOf (services.random_risk w).0 c, tt),
                  ),
                ),
              ),
            ),
          ),
        ),
      ),
    )

    abbrev IsRegistered : String → Type 0
    IsRegistered name = is_some (lookup name (gates num services)) ≡ true

    registered : (mode : String) → All IsRegistered (get_gate_sequence num services mode)
    unfolding gates get_gate_sequence all_gates
    registered mode =
        if-split (All IsRegistered) (same mode "turbo") _ _ (λ _. (refl, tt))
          (λ _.
            if-split (All IsRegistered) (same mode "balanced") _ _
              (λ _. (refl, (refl, (refl, (refl, (refl, (refl, (refl, (refl, tt)))))))))
              (λ _.
                if-split (All IsRegistered) (same mode "god") _ _ (λ _. tt)
                  (λ _.
                    (refl, (refl, (refl, (refl, (refl, (refl, (refl, (refl, (refl, tt))))))))))))

    -- What the evaluation of `names` adds to the results.
    record Evaluates (mode : String) (names : List String) (p q : Progress W) : Type 0 where
      added : List GateResult
      is_added : q.results ≡ p.results ++ added
      follows : Follows mode names added

    module _ (stored : (w : W) → (services.query w).0 ≡ true) (c : GateEvaluationContext N) where
      after_gate-Evaluates :
          (rest : Progress W → Progress W) (name : String) (names : List String)
          (h : (q : Progress W) → Evaluates c.mode names q (rest q)) (p : Progress W) (ok : Bool)
          (r : GateResult) (q : Progress W)
          → ok ≡ true
          → q.results ≡ p.results ++ r ∷ []
          → IsOf name r
          → Evaluates c.mode (name ∷ names) p (after_gate num services rest c.mode name (ok, r, q))
      unfolding after_gate breaks
      after_gate-Evaluates rest name names h p false r q t e n = cc
      after_gate-Evaluates rest name names h p true r q t e n =
          if-split (Evaluates c.mode (name ∷ names) p) (breaks c.mode r) q (rest q)
            (λ b. record { added = r ∷ []; is_added = e; follows = broken_off r n.named b })
            (λ b.
              let k = h q in
              record {
                added = r ∷ k.added;
                is_added =
                    k.is_added
                    ∙ ap (λ rs. rs ++ k.added) e
                    ∙ append_assoc p.results (r ∷ []) k.added;
                follows = evaluated r n.named b k.follows;
              })

      step_by-Evaluates :
          (rest : Progress W → Progress W) (name : String) (names : List String)
          (h : (q : Progress W) → Evaluates c.mode names q (rest q)) (p : Progress W)
          (o : Option (GateEvaluationContext N → W → GateResult × W))
          → lookup name (gates num services) ≡ o
          → is_some o ≡ true
          → Evaluates c.mode (name ∷ names) p (step_by num services rest c name o p)
      unfolding step_by evaluate_gate
      step_by-Evaluates rest name names h p none e t = cc
      step_by-Evaluates rest name names h p (some gate) e t =
          after_gate-Evaluates rest name names h p _ _ _ (stored _) refl
            (lookup-All IsNamed name gate (gates num services) gates-IsNamed e c p.world)

      evaluate_sequence-Evaluates :
          (names : List String) (p : Progress W)
          → All IsRegistered names
          → Evaluates c.mode names p (evaluate_sequence num services c names p)
      unfolding evaluate_sequence
      evaluate_sequence-Evaluates [] p h = record {
        added = [];
        is_added = sym (append-nil p.results);
        follows = finished;
      }
      evaluate_sequence-Evaluates (name ∷ names) p h =
          step_by-Evaluates _ name names (λ q. evaluate_sequence-Evaluates names q h.1) p
            (lookup name (gates num services)) refl h.0

    -- Where the database takes every record, the results are those of the mode's gates, in their
    -- order and each once, up to the first blocked gate, which ends the evaluation except in the god
    -- and turbo modes.
    pub evaluate_gates-Follows :
        (c : GateEvaluationContext N) (table : List Row) (w : W)
        → ((w : W) → (services.query w).0 ≡ true)
        → Follows c.mode
            (get_gate_sequence num services c.mode)
            (evaluate_gates num services c table w).results
    unfolding evaluate_gates
    evaluate_gates-Follows c table w stored =
        let start : Progress W = record { results = []; table = table; world = w } in
        let e =
          evaluate_sequence-Evaluates stored c (get_gate_sequence num services c.mode) start
            (registered c.mode) in
        rw e.is_added e.follows
