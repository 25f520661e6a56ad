-- ===== src/Repair/Endless.antt =====
-- The repair that never ends: the strategy for a transient failure of the terminal, in
-- healing-strategy-registry.ts, with healing-engine.ts and execution-engine.ts, lines 344 to 388.
use Prim.Native.String.{String, ◌++◌ as ◌<>◌}
use code_kit_ultra.Base.{
  ℕ, ◌≤◌, ◌≡◌, refl, ap, List, [], ◌∷◌, some, true, false, not, includes, if-split,
}
use code_kit_ultra.Shared.{Payload}
use code_kit_ultra.Execution.Machine.{Machine, Call, ok, raised, HealingReply}
use code_kit_ultra.Execution.Attempt.{Step, attempts, perform}
use code_kit_ultra.Execution.Endless.{IsCut, attempts-diverges}
use code_kit_ultra.Repair.Strategies.{
  low, HealingContext, HealingStrategy, Files, classify_failure, find_candidate_strategies,
  get_healing_strategies, retry_transient_command, strategy,
}
use code_kit_ultra.Repair.Engine.{
  auto, HealingPolicy, HealingStore, HealingAttempt, is_verified, is_observe, allows,
  requires_approval, rank_strategies, candidates_of, decide, try_strategy, apply_strategy,
  close_attempt, revalidate_after_heal, attempt_healing, heal_failed_step, context_of,
}

-- The policy lets the retry of a transient command be applied at once.
pub record AllowsRetry (policy : HealingPolicy) : Type 0 where
  pub enabled : policy.enabled ≡ true
  pub mode : policy.mode ≡ auto
  pub risk : allows policy low ≡ true
  pub unlisted : includes "retry-transient-command" policy.approval_required_for_strategies ≡ false

-- The error, as the engine tells it, looks like one of the network.
abbrev pub IsTransient : (String → String) → String → Type 0
IsTransient lower e =
    (classify_failure lower ("Error: " <> e) "terminal").failure_type ≡ "network-transient"

module _ {W : Type 0} (files : Files W) where
  abbrev retry : HealingStrategy W
  retry =
      strategy "retry-transient-command" "network-transient" "terminal" true
        (retry_transient_command files)

  candidates-retry :
      (failure_type adapter : String)
      → failure_type ≡ "network-transient"
      → adapter ≡ "terminal"
      → rank_strategies (find_candidate_strategies files failure_type adapter) ≡ retry ∷ []
  unfolding rank_strategies find_candidate_strategies get_healing_strategies
  candidates-retry failure_type adapter e f = rw (e, f) refl

  module _ (policy : HealingPolicy) (allowed : AllowsRetry policy) (c : HealingContext)
      (terminal : c.adapter_id ≡ "terminal") where
    approval-retry : requires_approval retry policy ≡ false
    unfolding requires_approval
    approval-retry = rw (allowed.mode, allowed.unlisted, allowed.risk) refl

    revalidate-terminal : (w : W) → (revalidate_after_heal files c w).0 ≡ true
    unfolding revalidate_after_heal
    revalidate-terminal w = rw terminal refl

    apply-verified :
        (before : List HealingAttempt) (a : HealingAttempt) (s : HealingStore W)
        → is_verified (apply_strategy files c retry before a s).0.status ≡ true
    unfolding apply_strategy close_attempt retry_transient_command
    apply-verified before a s = rw (revalidate-terminal s.world) refl

    decide-verified :
        (candidates : List (HealingStrategy W)) (before : List HealingAttempt) (a : HealingAttempt)
        (s : HealingStore W)
        → candidates ≡ retry ∷ []
        → is_verified (decide files policy c candidates before a s).0.status ≡ true
    unfolding decide try_strategy
    decide-verified candidates before a s e =
        let P = λ (r : HealingAttempt × HealingStore W). is_verified r.0.status ≡ true in
        rw e (
          if-split P (not policy.enabled) _ _ (λ t. absurd (cc (t, ap not allowed.enabled)))
            (λ _.
              if-split P (is_observe policy.mode) _ _
                (λ t. absurd (cc (t, ap is_observe allowed.mode)))
                (λ _.
                  if-split P (requires_approval retry policy) _ _
                    (λ t. absurd (cc (t, approval-retry))) (λ _. apply-verified before _ s))))

module _ {W : Type 0} (lower : String → String) (files : Files W) (policy : HealingPolicy)
    (run : String) (allowed : AllowsRetry policy) (s : Step (HealingStore W))
    (terminal : s.task.adapter_id ≡ "terminal") where
  heal-verified :
      (e : String) (w : HealingStore W)
      → IsTransient lower e
      → (h : HealingReply) × ((heal_failed_step lower files policy run s.task e w).0 ≡ ok h)
        × (h.verified ≡ true)
  unfolding heal_failed_step attempt_healing
  heal-verified e w t =
      let c = context_of run s.task e in
      let found = (classify_failure lower c.error_message c.adapter_id).failure_type in
      let transient : found ≡ "network-transient" = rw terminal t in
      (
        _,
        refl,
        decide-verified files policy allowed c terminal (candidates_of lower files c) _ _ _
            (candidates-retry files found c.adapter_id transient terminal),
      )

  -- With the repository's own healing under a policy in the auto mode that allows a low risk, a task of
  -- the terminal whose attempts fail each time with an error that is classified as transient, while its
  -- suggestions of fixes return, is attempted for ever once an attempt is started within the retry
  -- limit: no fuel is enough.
  pub attempts_transient-diverges :
      ((w : HealingStore W) → (e : String) × ((perform s w).0 ≡ raised e) × IsTransient lower e)
      → ((f : String → Payload → Call (HealingStore W) String) (e : String) (w : HealingStore W)
          → s.adapter.suggest_fix ≡ some f
          → (text : String) × ((f e s.task.payload w).0 ≡ ok text))
      → (fuel n limit : ℕ) (m : Machine (HealingStore W)) → n ≤ limit
      → IsCut (attempts (heal_failed_step lower files policy run) fuel s n limit m)
  attempts_transient-diverges fails suggests fuel n limit m started =
      attempts-diverges s (heal_failed_step lower files policy run) (IsTransient lower) fails
        suggests heal-verified fuel n limit m started
