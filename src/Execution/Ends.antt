-- ===== src/Execution/Ends.antt =====
-- How a task and a run end: the state that execution-engine.ts leaves for each result.
use code_kit_ultra.Base.{
  String, ℕ, zero, suc, ◌+◌, ◌≡◌, refl, List, Option, none, some, Bool, true, false, if◌then◌else◌,
  leb, ◌==◌,
}
use code_kit_ultra.Shared.{PlanTask, RunStatus, ExecutionRisk}
use code_kit_ultra.Core.PolicyEngine.{PolicyRules, PolicyResult}
use code_kit_ultra.Execution.Machine.{
  Machine, M, Result, returned, threw, out_of_fuel, Call, Reply, ok, raised, continue, ◌>>=◌,
  Adapter, Simulation, HealingReply,
}
use code_kit_ultra.Execution.Writes.{
  write_audit, push_step_log, upsert_adapter_summary, update_state,
}
use code_kit_ultra.Execution.Attempt.{
  StepResult, done, stopped, waiting, Step, fail_task, succeed, give_up, pause_healing,
  after_healing, fail_attempt, after_suggest, after_perform, attempt_once, attempts,
}
use code_kit_ultra.Execution.Task.{
  fail_early, pause_for_approval, reject_invalid, validate_and_run, gate, run_with, with_adapter,
  with_policy, execute_task,
}

module _ {W : Type 0} where
  -- What `executeTask` leaves in the state for the task at index `i`.
  abbrev pub Ended : ℕ → Result StepResult → Machine W → Type 0
  Ended i (returned done) m =
      (m.bundle.state.current_step_index ≡ i + 1)
      × (m.bundle.state.approved ≡ false)
      × (m.bundle.state.approval_required ≡ false)
  Ended i (returned stopped) m =
      (m.bundle.state.status ≡ RunStatus.failed) × (m.bundle.state.current_step_index ≡ i)
  Ended i (returned waiting) m =
      (m.bundle.state.status ≡ RunStatus.paused)
      × (m.bundle.state.current_step_index ≡ i)
      × (m.bundle.state.approval_required ≡ true)
  Ended i (threw e) m = Unit
  Ended i out_of_fuel m = Unit

  record Ends (i : ℕ) (c : M W StepResult) : Type 0 where
    at : (m : Machine W) → Ended i (c m).0 (c m).1

module _ {W : Type 0} (i : ℕ) where
  continue-Ended :
      {A : Type 0} (f : A → M W StepResult)
      → ((a : A) → Ends i (f a))
      → (r : Result A) (m : Machine W) → Ended i (continue r f m).0 (continue r f m).1
  continue-Ended f k (returned a) m = (k a).at m
  continue-Ended f k (threw e) m = tt
  continue-Ended f k out_of_fuel m = tt

  -- Only the last step of a sequence counts.
  Ends-bind :
      {A : Type 0} (c : M W A) (f : A → M W StepResult)
      → ((a : A) → Ends i (f a))
      → Ends i (c >>= f)
  unfolding ◌>>=◌
  Ends-bind c f k = record { at = λ m. continue-Ended f k (c m).0 (c m).1 }

  Ends-if : (b : Bool) (c d : M W StepResult) → Ends i c → Ends i d → Ends i (if b then c else d)
  Ends-if true c d h k = h
  Ends-if false c d h k = k

  Ends-fail_early :
      (t : PlanTask) (e : String) (r : Option ExecutionRisk) (s : Option Simulation)
      (fix : Option String)
      → Ends i (fail_early {W = W} t i e r s fix)
  unfolding fail_early fail_task ◌>>=◌ push_step_log upsert_adapter_summary update_state
  Ends-fail_early t e r s fix = record { at = λ m. (refl, refl) }

  Ends-pause :
      (t : PlanTask) (p : PolicyResult) (s : Option Simulation) (r : ExecutionRisk)
      → Ends i (pause_for_approval {W = W} t i p s r)
  unfolding pause_for_approval ◌>>=◌ push_step_log write_audit update_state
  Ends-pause t p s r = record { at = λ m. (refl, refl, refl) }

  Ends-fail_task : Ends {W = W} i (fail_task i)
  unfolding fail_task ◌>>=◌ update_state
  Ends-fail_task = record { at = λ m. (refl, refl) }

module _ {W : Type 0} (s : Step W) where
  Ends-succeed : (n : ℕ) (out : String × String) → Ends s.index (succeed s n out)
  unfolding succeed ◌>>=◌ push_step_log write_audit upsert_adapter_summary update_state
  Ends-succeed n (output, verification) = record { at = λ m. (refl, refl, refl) }

  Ends-give_up : (n : ℕ) (e : String) (fix : Option String) → Ends s.index (give_up s n e fix)
  unfolding give_up
  Ends-give_up n e fix =
      Ends-bind s.index _ _ λ _. Ends-bind s.index _ _ λ _. Ends-fail_task s.index

  Ends-pause_healing : (t : String) → Ends s.index (pause_healing s t)
  unfolding pause_healing ◌>>=◌ update_state
  Ends-pause_healing t = record { at = λ m. (refl, refl, refl) }

  Ends-after_healing :
      (again : ℕ → M W StepResult) (n limit : ℕ) (e : String) (fix : Option String)
      (h : Reply HealingReply)
      → ((l : ℕ) → Ends s.index (again l))
      → Ends s.index (after_healing again s n limit e fix h)
  unfolding after_healing
  Ends-after_healing again n limit e fix (raised t) k =
      Ends-bind s.index _ _ λ _. Ends-give_up n e fix
  Ends-after_healing again n limit e fix (ok h) k =
      Ends-if s.index h.verified _ _ (Ends-bind s.index _ _ λ _. k (limit + 1)) (
        Ends-if s.index h.approval_required _ _ (Ends-pause_healing h.strategy)
          (Ends-bind s.index _ _ λ _. Ends-give_up n e fix))

  module _ (heal : PlanTask → String → Call W HealingReply) where
    Ends-fail_attempt :
        (again : ℕ → M W StepResult) (n limit : ℕ) (e : String)
        → ((l : ℕ) → Ends s.index (again l))
        → Ends s.index (fail_attempt heal again s n limit e)
    unfolding fail_attempt after_suggest
    Ends-fail_attempt again n limit e k = Ends-bind s.index _ _ λ fix. Ends-bind s.index _ _ λ _.
        Ends-bind s.index _ _ λ _.
          Ends-if s.index (n == limit) _ _
            (Ends-bind s.index _ _ λ h. Ends-after_healing again n limit e fix h k) (k limit)

    Ends-after_perform :
        (again : ℕ → M W StepResult) (n limit : ℕ) (r : Reply (String × String))
        → ((l : ℕ) → Ends s.index (again l))
        → Ends s.index (after_perform heal again s n limit r)
    unfolding after_perform
    Ends-after_perform again n limit (ok out) k = Ends-succeed n out
    Ends-after_perform again n limit (raised e) k = Ends-fail_attempt again n limit e k

    Ends-attempts : (fuel n limit : ℕ) → Ends s.index (attempts heal fuel s n limit)
    unfolding attempts attempt_once
    Ends-attempts zero n limit = record { at = λ m. tt }
    Ends-attempts (suc fuel) n limit =
        Ends-if s.index (leb n limit) _ _
          (Ends-bind s.index _ _ λ _.
            Ends-bind s.index _ _
              λ r. Ends-after_perform _ n limit r (λ l. Ends-attempts fuel (n + 1) l))
          (Ends-fail_task s.index)

module _ {W : Type 0} (rules : PolicyRules) (heal : PlanTask → String → Call W HealingReply) where
  Ends-gate : (fuel : ℕ) (s : Step W) (p : PolicyResult) → Ends s.index (gate rules heal fuel s p)
  unfolding gate validate_and_run reject_invalid
  Ends-gate fuel s p = Ends-bind s.index _ _ λ approved.
      Ends-if s.index _ _ _ (Ends-pause s.index s.task p s.simulation s.risk) (
        Ends-bind s.index _ _ λ valid. Ends-if s.index valid _ _ (Ends-attempts s heal fuel 1 _) (
          Ends-bind s.index _ _
            λ fix. Ends-bind s.index _ _ λ _. Ends-fail_early s.index s.task _ _ s.simulation fix))

  Ends-with_adapter :
      (fuel : ℕ) (t : PlanTask) (i : ℕ) (p : PolicyResult) (a : Option (Adapter W))
      → Ends i (with_adapter rules heal fuel t i p a)
  unfolding with_adapter run_with
  Ends-with_adapter fuel t i p none = Ends-bind i _ _ λ _. Ends-fail_early i t _ _ _ _
  Ends-with_adapter fuel t i p (some a) =
      Ends-bind i _ _ λ s. Ends-bind i _ _ λ r. Ends-gate fuel _ p

  Ends-with_policy :
      (adapters : List (Adapter W)) (fuel : ℕ) (t : PlanTask) (i : ℕ) (p : PolicyResult)
      → Ends i (with_policy rules heal adapters fuel t i p)
  unfolding with_policy
  Ends-with_policy adapters fuel t i p =
      Ends-if i p.allowed _ _ (Ends-with_adapter fuel t i p _)
        (Ends-bind i _ _ λ _. Ends-fail_early i t _ _ _ _)

  Ends-execute_task :
      (adapters : List (Adapter W)) (fuel : ℕ) (t : PlanTask) (i : ℕ)
      → Ends i (execute_task rules heal adapters fuel t i)
  unfolding execute_task
  Ends-execute_task adapters fuel t i = Ends-bind i _ _ λ _. Ends-with_policy adapters fuel t i _

  -- A task that completes moves the run to the next index and uses the approval up; one that fails
  -- or pauses leaves the run at its own index, failed, or paused and asking for approval.
  pub execute_task-Ended :
      (adapters : List (Adapter W)) (fuel : ℕ) (t : PlanTask) (i : ℕ) (m : Machine W)
      → let r = execute_task rules heal adapters fuel t i m in Ended i r.0 r.1
  execute_task-Ended adapters fuel t i m = (Ends-execute_task adapters fuel t i).at m
