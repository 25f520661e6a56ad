-- ===== src/Repair/Ends.antt =====
-- The repairs in the execution engine: healing-integration.ts, and execution-engine.ts, lines 344 to
-- 430.
use Prim.Native.String.{String}
use code_kit_ultra.Base.{ℕ, ◌<◌, ◌≡◌, sym, ap, ◌∙◌, inl, inr, Bool, false, arith}
use code_kit_ultra.Shared.{PlanTask}
use code_kit_ultra.Execution.Machine.{Machine, Call, Reply, ok, raised, HealingReply}
use code_kit_ultra.Execution.Attempt.{Step, attempts}
use code_kit_ultra.Execution.Termination.{IsTotal, IsBudget, attempts-IsTotal}
use code_kit_ultra.Repair.Strategies.{Files}
use code_kit_ultra.Repair.Engine.{HealingPolicy, HealingStore, context_of, heal_failed_step}
use code_kit_ultra.Repair.Applied.{MayRepair, attempt_healing-MayRepair}

abbrev verified_of : Reply HealingReply → Bool
verified_of (ok h) = h.verified
verified_of (raised e) = false

module _ {W : Type 0} (lower : String → String) (files : Files W) (policy : HealingPolicy)
    (run : String) where
  abbrev repair : PlanTask → String → Call (HealingStore W) HealingReply
  repair = heal_failed_step lower files policy run

  unverified :
      (task : PlanTask) (message : String) (w : HealingStore W) (h : HealingReply)
      → ¬ MayRepair policy task.adapter_id
      → (repair task message w).0 ≡ ok h
      → h.verified ≡ false
  unfolding heal_failed_step
  unverified task message w h never e =
      let c = context_of run task message in
      elim (attempt_healing-MayRepair files policy c lower w) [
        | inl spared ↦ sym (ap verified_of e) ∙ spared.2
        | inr may ↦ absurd (never may)
      ]

  unrepaired-IsBudget :
      (s : Step (HealingStore W))
      → ¬ MayRepair policy s.task.adapter_id
      → IsBudget repair s (λ w. 0)
  unrepaired-IsBudget s never = record {
    spends = λ e w h eq v. absurd (cc (unverified s.task e w h never eq, v));
    performs = λ w. omega arith;
    suggests = λ f e w q. omega arith;
  }

  -- Where the policy lets nothing be repaired, or the task's adapter is neither terminal nor
  -- file-system, the attempts of the task end, whatever the adapter does: as much fuel as the attempts
  -- allowed, and one more, is enough.
  pub attempts_unrepaired-IsTotal :
      (s : Step (HealingStore W)) (fuel limit : ℕ) (m : Machine (HealingStore W))
      → ¬ MayRepair policy s.task.adapter_id
      → limit < fuel
      → IsTotal (attempts (heal_failed_step lower files policy run) fuel s 1 limit m)
  attempts_unrepaired-IsTotal s fuel limit m never h =
      attempts-IsTotal s (heal_failed_step lower files policy run) (λ w. 0)
        (unrepaired-IsBudget s never) fuel limit m (omega (arith, h))
