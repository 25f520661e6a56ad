-- ===== src/Repair/Applied.antt =====
-- Which attempts change anything: healing-engine.ts, lines 53 to 98.
use Prim.Native.String.{String}
use code_kit_ultra.Base.{
  ◌≡◌, refl, ◌⊎◌, inl, inr, ap, ◌∙◌, sym, List, [], ◌∷◌, true, false, not, ◌||◌, same, includes,
  if-split, arith, All, eq_iff, and_true, select, sort_by-All,
}
use code_kit_ultra.Repair.Strategies.{
  low, HealingContext, HealingStrategy, Files, find_candidate_strategies, get_healing_strategies,
  suits,
}
use code_kit_ultra.Repair.Engine.{
  HealingPolicy, HealingStore, HealingAttempt, is_verified, is_verified, is_auto, is_observe,
  allows, requires_approval, save_healing_attempts, close_attempt, try_strategy, decide,
  candidates_of, attempt_healing, rank_strategies,
}

module _ {W : Type 0} (policy : HealingPolicy) where
  -- What lets a strategy be applied.
  record IsLet (s : HealingStrategy W) : Type 0 where
    pub enabled : policy.enabled ≡ true
    pub mode : is_auto policy.mode ≡ true
    pub risk : allows policy s.risk ≡ true
    pub unlisted : includes s.id policy.approval_required_for_strategies ≡ false
    pub auto_apply : s.auto_apply ≡ true

  requires_approval-false :
      (s : HealingStrategy W)
      → policy.enabled ≡ true
      → is_observe policy.mode ≡ false
      → requires_approval s policy ≡ false
      → IsLet s
  unfolding requires_approval
  requires_approval-false s e o h = record {
    enabled = e;
    mode = ground (arith, h, o);
    risk = ground (arith, h, o);
    unlisted = ground (arith, h, o);
    auto_apply = ground (arith, h, o);
  }

  -- Nothing is repaired, and the files outside and the statistics stay as they are, or the strategy
  -- may be applied.
  abbrev Spared : HealingStrategy W → HealingStore W → HealingAttempt × HealingStore W → Type 0
  Spared chosen s (a, t) =
      ((t.world ≡ s.world) × (t.stats ≡ s.stats) × (is_verified a.status ≡ false)) ⊎ IsLet chosen

  close_attempt-Spared :
      (chosen : HealingStrategy W) (before : List HealingAttempt) (a : HealingAttempt)
      (s : HealingStore W)
      → is_verified a.status ≡ false
      → Spared chosen s (close_attempt before a s)
  unfolding close_attempt save_healing_attempts
  close_attempt-Spared chosen before a s h = inl (refl, refl, h)

  module _ (files : Files W) (c : HealingContext) where
    decide-Spared :
        (chosen : HealingStrategy W) (rest : List (HealingStrategy W))
        (before : List HealingAttempt) (a : HealingAttempt) (s : HealingStore W)
        → Spared chosen s (decide files policy c (chosen ∷ rest) before a s)
    unfolding decide try_strategy
    decide-Spared chosen rest before a s =
        let P = Spared chosen s in
        if-split P (not policy.enabled) _ _ (λ _. close_attempt-Spared chosen before _ s refl)
          (λ e.
            if-split P (is_observe policy.mode) _ _
              (λ _. close_attempt-Spared chosen before _ s refl)
              (λ o.
                if-split P (requires_approval chosen policy) _ _
                  (λ _. close_attempt-Spared chosen before _ s refl)
                  (λ h. inr (requires_approval-false chosen (ground (arith, e)) o h))))

pub same-or : (adapter name : String) → (same name adapter || false) ≡ true → adapter ≡ name
same-or adapter name h = sym ((eq_iff name adapter).0 (ground (arith, h)))

module _ {W : Type 0} (adapter : String) where
  -- The risk of a strategy, and the adapter it is for if it applies itself.
  abbrev IsFor : HealingStrategy W → Type 0
  IsFor s =
      (s.risk ≡ low) × (s.auto_apply ≡ true → (adapter ≡ "terminal") ⊎ (adapter ≡ "file-system"))

  abbrev Fits : HealingStrategy W → Type 0
  Fits s = (same s.adapter_id adapter || same s.adapter_id "any") ≡ true → IsFor s

  registry-Fits : (files : Files W) → All Fits (get_healing_strategies files)
  unfolding get_healing_strategies
  registry-Fits files = (
    λ h. (refl, λ e. inr (same-or adapter "file-system" h)),
    (
      λ h. (refl, λ e. inr (same-or adapter "file-system" h)),
      (
        λ h. (refl, λ e. inl (same-or adapter "terminal" h)),
        ((λ h. (refl, λ e. absurd (cc))), ((λ h. (refl, λ e. absurd (cc))), tt)),
      ),
    ),
  )

-- What those strategies of a list that are for an adapter have in common, its candidates have.
pub select-All :
    {W : Type 0} (P : HealingStrategy W → Type 0) (adapter failure_type : String)
    (ss : List (HealingStrategy W))
    → All (λ s. (same s.adapter_id adapter || same s.adapter_id "any") ≡ true → P s) ss
    → All P (select (suits failure_type adapter) ss)
select-All P adapter failure_type [] h = tt
select-All P adapter failure_type (s ∷ ss) h =
    let rest = select-All P adapter failure_type ss h.1 in
    if-split (All P) (suits failure_type adapter s) _ _
      (λ e. (h.0 (and_true (same s.failure_type failure_type) _ e).1, rest)) (λ _. rest)

-- What a repair needs: a policy that is enabled, in the auto mode, and that allows a low risk, and one
-- of two adapters.
pub record MayRepair (policy : HealingPolicy) (adapter : String) : Type 0 where
  pub enabled : policy.enabled ≡ true
  pub mode : is_auto policy.mode ≡ true
  pub risk : allows policy low ≡ true
  pub adapter_known : (adapter ≡ "terminal") ⊎ (adapter ≡ "file-system")

module _ {W : Type 0} (files : Files W) (policy : HealingPolicy) (c : HealingContext) where
  candidates-Spared :
      (candidates : List (HealingStrategy W)) (before : List HealingAttempt) (a : HealingAttempt)
      (s : HealingStore W)
      → All (IsFor c.adapter_id) candidates
      → let (b, t) = decide files policy c candidates before a s in
        ((t.world ≡ s.world) × (t.stats ≡ s.stats) × (is_verified b.status ≡ false))
        ⊎ MayRepair policy c.adapter_id
  unfolding decide close_attempt save_healing_attempts
  candidates-Spared [] before a s h = inl (refl, refl, refl)
  candidates-Spared (chosen ∷ rest) before a s h =
      elim (decide-Spared policy files c chosen rest before a s) [
        | inl spared ↦ inl spared
        | inr l ↦ inr (record {
          enabled = l.enabled;
          mode = l.mode;
          risk = ap (allows policy) (sym h.0.0) ∙ l.risk;
          adapter_known = h.0.1 l.auto_apply;
        })
      ]

  -- An attempt to heal is not verified, changes nothing outside and counts nothing, unless the policy is enabled, in
  -- the auto mode, and allows a low risk, and the adapter is called terminal or file-system.
  pub attempt_healing-MayRepair :
      (lower : String → String) (s : HealingStore W)
      → let (a, t) = attempt_healing lower files policy c s in
        ((t.world ≡ s.world) × (t.stats ≡ s.stats) × (is_verified a.status ≡ false))
        ⊎ MayRepair policy c.adapter_id
  unfolding attempt_healing rank_strategies find_candidate_strategies save_healing_attempts
  attempt_healing-MayRepair lower s = candidates-Spared (candidates_of lower files c) _ _ _ (
      sort_by-All _ (IsFor c.adapter_id) _
        (select-All (IsFor c.adapter_id) c.adapter_id _ _ (registry-Fits c.adapter_id files)))
