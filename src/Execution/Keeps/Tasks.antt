-- ===== src/Execution/Keeps/Tasks.antt =====
-- One task keeps every stable relation: execution-engine.ts, `executeTask`.
use code_kit_ultra.Base.{String, ℕ, zero, suc, ◌+◌, List, Option, none, some, ◌==◌, leb}
use code_kit_ultra.Shared.{PlanTask, Payload, ExecutionRisk}
use code_kit_ultra.Core.PolicyEngine.{PolicyRules, PolicyResult}
use code_kit_ultra.Execution.Machine.{
  Machine, M, Reply, ok, raised, Call, Adapter, Simulation, HealingReply,
}
use code_kit_ultra.Execution.Attempt.{
  StepResult, Step, succeed, suggest_by, roll_back_by, fail_task, give_up, pause_healing,
  after_healing, fail_attempt, after_suggest, after_perform, attempt_once, attempts,
}
use code_kit_ultra.Execution.Task.{
  fail_early, simulate_by, estimate_by, pause_for_approval, reject_invalid, validate_and_run, gate,
  run_with, with_adapter, with_policy, execute_task,
}
use code_kit_ultra.Execution.Keeps.{
  IsStable, Keeps, Keeps-bind, Keeps-if, Keeps-audit, Keeps-log, Keeps-call, Keeps-try_call,
  Keeps-gets, writes,
}

module _ {W : Type 0} (R : Machine W → Machine W → Type 0) (st : IsStable R) where
  Keeps-succeed : (s : Step W) (n : ℕ) (out : String × String) → Keeps R (succeed s n out)
  unfolding succeed
  Keeps-succeed s n (output, verification) = search writes

  Keeps-suggest :
      (o : Option (String → Payload → Call W String)) (e : String) (p : Payload)
      → Keeps R (suggest_by o e p)
  unfolding suggest_by
  Keeps-suggest none e p = search writes
  Keeps-suggest (some fix) e p = search writes

  Keeps-roll_back :
      (s : Step W) (n : ℕ) (p : Option Payload) (u : Option (Payload → Call W (Unit {0})))
      → Keeps R (roll_back_by s n p u)
  unfolding roll_back_by
  Keeps-roll_back s n none u = search writes
  Keeps-roll_back s n (some p) none = search writes
  Keeps-roll_back s n (some p) (some u) = search writes

  Keeps-give_up :
      (s : Step W) (n : ℕ) (e : String) (fix : Option String) → Keeps R (give_up s n e fix)
  unfolding give_up fail_task
  Keeps-give_up s n e fix = search (writes, Keeps-roll_back)

  Keeps-after_healing :
      (again : ℕ → M W StepResult) (s : Step W) (n limit : ℕ) (e : String) (fix : Option String)
      (h : Reply HealingReply)
      → ((l : ℕ) → Keeps R (again l))
      → Keeps R (after_healing again s n limit e fix h)
  unfolding after_healing pause_healing
  Keeps-after_healing again s n limit e fix (raised t) k = search (writes, Keeps-give_up)
  Keeps-after_healing again s n limit e fix (ok h) k =
      Keeps-if R st h.verified _ _ (search writes)
        (Keeps-if R st h.approval_required _ _ (search writes) (search (writes, Keeps-give_up)))

  module _ (heal : PlanTask → String → Call W HealingReply) where
    Keeps-fail_attempt :
        (again : ℕ → M W StepResult) (s : Step W) (n limit : ℕ) (e : String)
        → ((l : ℕ) → Keeps R (again l))
        → Keeps R (fail_attempt heal again s n limit e)
    unfolding fail_attempt after_suggest
    Keeps-fail_attempt again s n limit e k =
        Keeps-bind R st _ _ (Keeps-suggest s.adapter.suggest_fix e s.task.payload) λ fix.
          Keeps-bind R st _ _ (Keeps-audit R st _ _) λ _.
            Keeps-bind R st _ _ (Keeps-log R st _) λ _.
              Keeps-if R st (n == limit) _ _
                (Keeps-bind R st _ _ (Keeps-try_call R st _)
                  λ h. Keeps-after_healing again s n limit e fix h k)
                (k limit)

    Keeps-outcome :
        (again : ℕ → M W StepResult) (s : Step W) (n limit : ℕ) (r : Reply (String × String))
        → ((l : ℕ) → Keeps R (again l))
        → Keeps R (after_perform heal again s n limit r)
    unfolding after_perform
    Keeps-outcome again s n limit (ok out) k = Keeps-succeed s n out
    Keeps-outcome again s n limit (raised e) k = Keeps-fail_attempt again s n limit e k

    Keeps-attempt_once :
        (again : ℕ → M W StepResult) (s : Step W) (n limit : ℕ)
        → ((l : ℕ) → Keeps R (again l))
        → Keeps R (attempt_once heal again s n limit)
    unfolding attempt_once
    Keeps-attempt_once again s n limit k =
        Keeps-bind R st _ _ (Keeps-audit R st _ _)
          λ _. Keeps-bind R st _ _ (Keeps-try_call R st _) λ r. Keeps-outcome again s n limit r k

    pub Keeps-attempts :
        (fuel : ℕ) (s : Step W) (n limit : ℕ) → Keeps R (attempts heal fuel s n limit)
    unfolding attempts fail_task
    Keeps-attempts zero s n limit = record { at = λ m. st.reflexive m }
    Keeps-attempts (suc fuel) s n limit =
        Keeps-if R st (leb n limit) _ _
          (Keeps-attempt_once _ s n limit (λ l. Keeps-attempts fuel s (n + 1) l)) (search writes)

  Keeps-fail_early :
      (t : PlanTask) (i : ℕ) (e : String) (r : Option ExecutionRisk) (s : Option Simulation)
      (fix : Option String)
      → Keeps R (fail_early {W = W} t i e r s fix)
  unfolding fail_early fail_task
  Keeps-fail_early t i e r s fix = search writes

  Keeps-pause :
      (t : PlanTask) (i : ℕ) (p : PolicyResult) (s : Option Simulation) (r : ExecutionRisk)
      → Keeps R (pause_for_approval {W = W} t i p s r)
  unfolding pause_for_approval
  Keeps-pause t i p s r = search writes

  Keeps-simulate :
      (o : Option (Payload → Call W Simulation)) (p : Payload) → Keeps R (simulate_by o p)
  unfolding simulate_by
  Keeps-simulate none p = search writes
  Keeps-simulate (some f) p = search writes

  Keeps-estimate :
      (o : Option (Payload → Call W ExecutionRisk)) (p : Payload) (s : Option Simulation)
      → Keeps R (estimate_by o p s)
  unfolding estimate_by
  Keeps-estimate none p none = search writes
  Keeps-estimate (some f) p none = search writes
  Keeps-estimate o p (some s) = search writes

  module _ (rules : PolicyRules) (heal : PlanTask → String → Call W HealingReply) where
    pub Keeps-validate_and_run :
        (fuel : ℕ) (s : Step W) → Keeps R (validate_and_run rules heal fuel s)
    unfolding validate_and_run reject_invalid
    Keeps-validate_and_run fuel s = Keeps-bind R st _ _ (Keeps-call R st _) λ valid.
        Keeps-if R st valid _ _ (Keeps-attempts heal fuel s 1 _)
          (search (writes, Keeps-suggest, Keeps-fail_early))

    Keeps-gate : (fuel : ℕ) (s : Step W) (p : PolicyResult) → Keeps R (gate rules heal fuel s p)
    unfolding gate
    Keeps-gate fuel s p =
        Keeps-bind R st _ _ (Keeps-gets R st _)
          λ approved. Keeps-if R st _ _ _ (Keeps-pause _ _ _ _ _) (Keeps-validate_and_run fuel s)

    Keeps-with_adapter :
        (fuel : ℕ) (t : PlanTask) (i : ℕ) (p : PolicyResult) (a : Option (Adapter W))
        → Keeps R (with_adapter rules heal fuel t i p a)
    unfolding with_adapter run_with
    Keeps-with_adapter fuel t i p none = search (writes, Keeps-fail_early)
    Keeps-with_adapter fuel t i p (some a) =
        Keeps-bind R st _ _ (Keeps-simulate a.simulate t.payload) λ s.
          Keeps-bind R st _ _ (Keeps-estimate a.estimate_risk t.payload s) λ r. Keeps-gate fuel _ p

    Keeps-with_policy :
        (adapters : List (Adapter W)) (fuel : ℕ) (t : PlanTask) (i : ℕ) (p : PolicyResult)
        → Keeps R (with_policy rules heal adapters fuel t i p)
    unfolding with_policy
    Keeps-with_policy adapters fuel t i p =
        Keeps-if R st p.allowed _ _ (Keeps-with_adapter fuel t i p _)
          (search (writes, Keeps-fail_early))

    pub Keeps-execute_task :
        (adapters : List (Adapter W)) (fuel : ℕ) (t : PlanTask) (i : ℕ)
        → Keeps R (execute_task rules heal adapters fuel t i)
    unfolding execute_task
    Keeps-execute_task adapters fuel t i =
        Keeps-bind R st _ _ (Keeps-audit R st _ _) λ _. Keeps-with_policy adapters fuel t i _
