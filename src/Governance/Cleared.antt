-- ===== src/Governance/Cleared.antt =====
-- governed-pipeline.ts: what lets a batch through.
use code_kit_ultra.Base.{
  String, ◌≡◌, refl, ◌⊎◌, inl, inr, List, [], ◌∷◌, Option, Bool, true, false, not, ◌&&◌, ◌||◌,
  or_default, and_true, arith, Bool-cases,
}
use code_kit_ultra.Actions.Policy.{BuilderActionBatch}
use code_kit_ultra.Governance.Constraints.{ConstraintPolicy, ConstraintResult}
use code_kit_ultra.Governance.Consensus.{
  Arithmetic, RiskLevel, low, medium, high, SpecialistDecision, AgentVote, AgentProfile, Scores,
  AdaptiveConsensusResult, is_approve, same_risk, at_least, threshold_for_risk,
  default_adaptive_policy, decide, run_adaptive_consensus,
}
use code_kit_ultra.Governance.Pipeline.{
  Texts, Poll, ConfidenceScore, GovernedResult, wait_for_approval, is_high_risk,
  evaluate_kill_switch, run_governed_autonomy,
}

-- A poll finds an approval, and none before it finds a signal.
pub data IsSignalled : List Poll → Type 0 where
  now : {p : Poll} {ps : List Poll} → p.is_approved ≡ true → IsSignalled (p ∷ ps)
  later :
      {p : Poll} {ps : List Poll}
      → p.is_approved ≡ false
      → p.is_rejected ≡ false
      → IsSignalled ps
      → IsSignalled (p ∷ ps)

wait-IsSignalled : (ps : List Poll) → wait_for_approval ps ≡ true → IsSignalled ps
unfolding wait_for_approval
wait-IsSignalled [] h = cc
wait-IsSignalled (p ∷ ps) h = elim (Bool-cases p.is_approved) [
  | inl e ↦ now e
  | inr e ↦ elim (Bool-cases p.is_rejected) [
    | inl f ↦ cc (rw (e, f) at h)
    | inr f ↦ later e f (wait-IsSignalled ps (rw (e, f) at h))
  ]
]

or_false : (b c : Bool) → (b || c) ≡ false → (b ≡ false) × (c ≡ false)
or_false true c h = cc
or_false false c h = (refl, h)

not-false : (b : Bool) → not b ≡ false → b ≡ true
not-false true h = refl
not-false false h = cc

not-true : (b : Bool) → not b ≡ true → b ≡ false
not-true true h = cc
not-true false h = refl

module _ {N : Type 0} (a : Arithmetic N) where
  -- The votes approve a batch of low risk, its constraints hold, and the confidence is not below the
  -- threshold.
  pub record IsClear (threshold : N) (r : GovernedResult N) : Type 0 where
    pub low_risk : r.consensus.risk_level ≡ low
    pub enough_approve : at_least a r.consensus.scores.approval (a.literal 55 2) ≡ true
    pub few_reject : a.numbers.lt r.consensus.scores.rejection (a.literal 20 2) ≡ true
    pub holds : r.constraints.valid ≡ true
    pub is_confident : a.numbers.lt r.confidence.overall threshold ≡ false

  decide-approves :
      (vetoed : Bool) (threshold : N) (s : Scores N)
      → is_approve (decide a vetoed threshold s) ≡ true
      → (at_least a s.approval threshold && a.numbers.lt s.rejection (a.literal 20 2)) ≡ true
  unfolding decide is_approve
  decide-approves true threshold s h = cc
  decide-approves false threshold s h =
      elim (Bool-cases
        (at_least a s.approval threshold && a.numbers.lt s.rejection (a.literal 20 2))) [
          | inl e ↦ e
          | inr e ↦ elim (Bool-cases (at_least a s.rejection (a.literal 35 2))) [
            | inl f ↦ cc (rw (e, f) at h)
            | inr f ↦ cc (rw (e, f) at h)
          ]
        ]

  -- A consensus that does not pause.
  record Passes (c : AdaptiveConsensusResult N) : Type 0 where
    low_risk : c.risk_level ≡ low
    enough_approve : at_least a c.scores.approval (a.literal 55 2) ≡ true
    few_reject : a.numbers.lt c.scores.rejection (a.literal 20 2) ≡ true

  consensus-Passes :
      (risk : RiskLevel) (votes : List (AgentVote N)) (given : List (AgentProfile N))
      → (run_adaptive_consensus a risk votes given).should_pause ≡ false
      → Passes (run_adaptive_consensus a risk votes given)
  unfolding run_adaptive_consensus same_risk threshold_for_risk default_adaptive_policy
  consensus-Passes low votes given h =
      let k = and_true _ _ (decide-approves _ _ _ (not-false _ (or_false _ _ h).0)) in
      record { low_risk = refl; enough_approve = k.0; few_reject = k.1 }
  consensus-Passes medium votes given h =
      let c = run_adaptive_consensus a medium votes given in
      cc (or_false (not (is_approve c.final_decision)) true h).1
  consensus-Passes high votes given h =
      let c = run_adaptive_consensus a high votes given in
      cc (or_false (not (is_approve c.final_decision)) true h).1

  kill_switch-passes :
      (c : ConfidenceScore N) (k : ConstraintResult) (d : SpecialistDecision) (t : Option N)
      → (evaluate_kill_switch a c k d t).blocked ≡ false
      → (k.valid ≡ true) × (a.numbers.lt c.overall (or_default t (a.literal 7 1)) ≡ false)
  unfolding evaluate_kill_switch
  kill_switch-passes c k d t h = ground arith

  -- A batch is let through only where the votes approve it at a low risk, its constraints hold and its
  -- confidence reaches the threshold, or else where a person approves it before any rejection and before
  -- the timeout.
  pub governed-IsClear :
      (texts : Texts) (idea : String) (batch : BuilderActionBatch) (policy : ConstraintPolicy)
      (votes : List (AgentVote N)) (risk : Option RiskLevel) (threshold : Option N)
      (polls : List Poll)
      → (run_governed_autonomy a texts idea batch policy votes risk threshold polls).allowed ≡ true
      → IsClear
          (or_default threshold (a.literal 7 1))
          (run_governed_autonomy a texts idea batch policy votes risk threshold polls)
        ⊎ IsSignalled polls
  unfolding run_governed_autonomy
  governed-IsClear texts idea batch policy votes risk threshold polls h =
      let c = run_adaptive_consensus a (or_default risk medium) votes [] in
      elim (Bool-cases (c.should_pause || is_high_risk a risk)) [
        | inl e ↦ inr (wait-IsSignalled polls (rw e at h))
        | inr e ↦
            let p = consensus-Passes (or_default risk medium) votes [] (or_false _ _ e).0 in
            let k = kill_switch-passes _ _ _ threshold (not-true _ (rw e at h)) in
            inl (record {
              low_risk = p.low_risk;
              enough_approve = p.enough_approve;
              few_reject = p.few_reject;
              holds = k.0;
              is_confident = k.1;
            })
      ]
