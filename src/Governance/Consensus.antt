-- ===== src/Governance/Consensus.antt =====
-- packages/governance/src/adaptive-consensus.ts, with the profiles of packages/agents/src/profiles.ts:
-- the weighted votes of the agents. JavaScript's arithmetic is a parameter. The overrides of the policy,
-- which no caller gives, the explanations and the summary are left out.
use code_kit_ultra.Base.{
  ℕ, List, [], ◌∷◌, Option, none, some, Bool, true, false, not, ◌&&◌, ◌||◌, any, find, map_some,
  is_some, if◌then◌else◌,
}
use code_kit_ultra.Governance.Numbers.{Numbers}

-- `literal n k` is the number with the digits `n`, the last `k` of them after the point, and `to_fixed x`
-- is `Number(x.toFixed(2))`.
pub record Arithmetic (N : Type 0) : Type 0 where
  pub numbers : Numbers N
  pub add : N → N → N
  pub sub : N → N → N
  pub mul : N → N → N
  pub div : N → N → N
  pub max : N → N → N
  pub min : N → N → N
  pub literal : ℕ → ℕ → N
  pub to_fixed : N → N

pub data RiskLevel : Type 0 where
  low medium high : RiskLevel

pub data SpecialistAgent : Type 0 where
  planner builder reviewer security : SpecialistAgent

pub data SpecialistDecision : Type 0 where
  approve needs_review reject : SpecialistDecision

pub record AgentVote (N : Type 0) : Type 0 where
  pub agent : SpecialistAgent
  pub decision : SpecialistDecision
  pub confidence : N

pub record AgentProfile (N : Type 0) : Type 0 where
  pub agent : SpecialistAgent
  pub base_weight : N
  pub reliability : N
  pub can_veto : Bool

pub record AdaptiveConsensusPolicy (N : Type 0) : Type 0 where
  pub threshold_low_risk : N
  pub threshold_medium_risk : N
  pub threshold_high_risk : N
  pub reviewer_veto_at_risk : List RiskLevel
  pub security_veto_at_risk : List RiskLevel
  pub reliability_influence : N
  pub confidence_influence : N

pub record Scores (N : Type 0) : Type 0 where
  pub total : N
  pub approval : N
  pub review : N
  pub rejection : N

pub record AdaptiveConsensusResult (N : Type 0) : Type 0 where
  pub risk_level : RiskLevel
  pub threshold : N
  pub scores : Scores N
  pub veto_by : Option SpecialistAgent
  pub final_decision : SpecialistDecision
  pub should_pause : Bool

unfoldable pub same_agent : SpecialistAgent → SpecialistAgent → Bool
same_agent planner planner = true
same_agent builder builder = true
same_agent reviewer reviewer = true
same_agent security security = true
same_agent _ _ = false

unfoldable pub same_risk : RiskLevel → RiskLevel → Bool
same_risk low low = true
same_risk medium medium = true
same_risk high high = true
same_risk _ _ = false

unfoldable pub is_reject : SpecialistDecision → Bool
is_reject reject = true
is_reject _ = false

unfoldable pub is_approve : SpecialistDecision → Bool
is_approve approve = true
is_approve _ = false

module _ {N : Type 0} where
  unfoldable pub profile_of : List (AgentProfile N) → SpecialistAgent → Option (AgentProfile N)
  profile_of profiles agent = find (λ (p : AgentProfile N). same_agent p.agent agent) profiles

  unfoldable pub threshold_for_risk : RiskLevel → AdaptiveConsensusPolicy N → N
  threshold_for_risk high policy = policy.threshold_high_risk
  threshold_for_risk medium policy = policy.threshold_medium_risk
  threshold_for_risk low policy = policy.threshold_low_risk

  -- Whether the risk lets the agent veto.
  unfoldable pub vetoes_at : AdaptiveConsensusPolicy N → RiskLevel → SpecialistAgent → Bool
  vetoes_at policy risk reviewer = any (same_risk risk) policy.reviewer_veto_at_risk
  vetoes_at policy risk security = any (same_risk risk) policy.security_veto_at_risk
  vetoes_at policy risk _ = false

  unfoldable pub has_veto : Option (AgentProfile N) → Bool
  has_veto none = false
  has_veto (some p) = p.can_veto

  unfoldable pub is_veto :
      List (AgentProfile N) → RiskLevel → AdaptiveConsensusPolicy N → AgentVote N → Bool
  is_veto profiles risk policy v =
      has_veto (profile_of profiles v.agent)
      && is_reject v.decision
      && vetoes_at policy risk v.agent

  unfoldable pub check_veto :
      List (AgentVote N)
      → List (AgentProfile N)
      → RiskLevel
      → AdaptiveConsensusPolicy N
      → Option SpecialistAgent
  check_veto votes profiles risk policy =
      map_some (λ (v : AgentVote N). v.agent) (find (is_veto profiles risk policy) votes)

  module _ (a : Arithmetic N) where
    -- `x >= y`
    unfoldable pub at_least : N → N → Bool
    at_least x y = a.numbers.lt y x || a.numbers.eq x y

    unfoldable pub default_agent_profiles : List (AgentProfile N)
    default_agent_profiles =
        record {
          agent = planner;
          base_weight = a.literal 10 1;
          reliability = a.literal 82 2;
          can_veto = false;
        }
        ∷ record {
          agent = builder;
          base_weight = a.literal 10 1;
          reliability = a.literal 84 2;
          can_veto = false;
        }
        ∷ record {
          agent = reviewer;
          base_weight = a.literal 11 1;
          reliability = a.literal 88 2;
          can_veto = true;
        }
        ∷ record {
          agent = security;
          base_weight = a.literal 12 1;
          reliability = a.literal 92 2;
          can_veto = true;
        }
        ∷ []

    unfoldable pub default_adaptive_policy : AdaptiveConsensusPolicy N
    default_adaptive_policy = record {
      threshold_low_risk = a.literal 55 2;
      threshold_medium_risk = a.literal 65 2;
      threshold_high_risk = a.literal 75 2;
      reviewer_veto_at_risk = medium ∷ high ∷ [];
      security_veto_at_risk = high ∷ [];
      reliability_influence = a.literal 35 2;
      confidence_influence = a.literal 65 2;
    }

    unfoldable pub resolve_profiles : List (AgentProfile N) → List (AgentProfile N)
    resolve_profiles [] = default_agent_profiles
    resolve_profiles (p ∷ ps) = p ∷ ps

    unfoldable pub clamp01 : N → N
    clamp01 x = a.max (a.numbers.whole 0) (a.min (a.numbers.whole 1) x)

    -- `1 + ((x - 0.5) * 2) * influence`
    unfoldable pub factor : N → N → N
    factor x influence =
        a.add (a.numbers.whole 1)
          (a.mul (a.mul (a.sub x (a.literal 5 1)) (a.numbers.whole 2)) influence)

    unfoldable pub get_effective_weight :
        AgentProfile N → AgentVote N → AdaptiveConsensusPolicy N → N
    get_effective_weight p v policy = a.max (a.literal 5 2) (
        a.mul (a.mul p.base_weight (factor (clamp01 p.reliability) policy.reliability_influence))
          (factor (clamp01 v.confidence) policy.confidence_influence))

    unfoldable pub add_score : SpecialistDecision → N → Scores N → Scores N
    add_score approve w s = record s { total = a.add s.total w; approval = a.add s.approval w }
    add_score needs_review w s = record s { total = a.add s.total w; review = a.add s.review w }
    add_score reject w s = record s { total = a.add s.total w; rejection = a.add s.rejection w }

    -- A vote of an agent without a profile does not count.
    unfoldable pub add_vote :
        AdaptiveConsensusPolicy N → AgentVote N → Option (AgentProfile N) → Scores N → Scores N
    add_vote policy v none s = s
    add_vote policy v (some p) s = add_score v.decision (get_effective_weight p v policy) s

    unfoldable pub tally :
        AdaptiveConsensusPolicy N → List (AgentProfile N) → List (AgentVote N) → Scores N → Scores N
    tally policy profiles [] s = s
    tally policy profiles (v ∷ vs) s =
        tally policy profiles vs (add_vote policy v (profile_of profiles v.agent) s)

    unfoldable pub share : N → N → N
    share total x =
        if a.numbers.lt (a.numbers.whole 0) total then a.div x total else a.numbers.whole 0

    unfoldable pub normalize_scores : Scores N → Scores N
    normalize_scores s = record s {
      approval = share s.total s.approval;
      review = share s.total s.review;
      rejection = share s.total s.rejection;
    }

    -- Lines 100 to 109.
    unfoldable pub decide : Bool → N → Scores N → SpecialistDecision
    decide vetoed threshold s =
        if vetoed
        then reject
        else if at_least s.approval threshold && a.numbers.lt s.rejection (a.literal 20 2)
        then approve
        else if at_least s.rejection (a.literal 35 2)
        then reject
        else needs_review

    unfoldable pub run_adaptive_consensus :
        RiskLevel → List (AgentVote N) → List (AgentProfile N) → AdaptiveConsensusResult N
    run_adaptive_consensus risk votes given =
        let policy = default_adaptive_policy in
        let profiles = resolve_profiles given in
        let zero_score = a.numbers.whole 0 in
        let scores = normalize_scores (
          tally policy profiles votes (record {
            total = zero_score;
            approval = zero_score;
            review = zero_score;
            rejection = zero_score;
          })) in
        let veto = check_veto votes profiles risk policy in
        let threshold = threshold_for_risk risk policy in
        let decision = decide (is_some veto) threshold scores in
        record {
          risk_level = risk;
          threshold = threshold;
          scores = scores;
          veto_by = veto;
          final_decision = decision;
          should_pause = not (is_approve decision) || not (same_risk risk low);
        }
