-- ===== src/Execution/Approval.antt =====
-- The approval gate of execution-engine.ts: lines 152 to 187.
use code_kit_ultra.Base.{
  String, ℕ, ◌+◌, ◌≡◌, refl, ◌≢◌, ◌∙◌, List, [], ◌∷◌, ◌++◌, Option, none, some, Bool, true, false,
  not, ◌&&◌, arith, if◌then◌else◌,
}
use code_kit_ultra.Shared.{PlanTask, Payload, ExecutionRisk}
use code_kit_ultra.Core.PolicyEngine.{PolicyRules, PolicyResult, needs_approval, evaluate_policy}
use code_kit_ultra.Execution.Machine.{
  Machine, Result, returned, threw, Call, ◌>>=◌, AuditAction, AuditEntry, Adapter, Simulation,
  HealingReply,
}
use code_kit_ultra.Execution.Cases.{call-case, call_some-case, if-case}
use code_kit_ultra.Execution.Writes.{
  write_audit, push_step_log, upsert_adapter_summary, update_state,
}
use code_kit_ultra.Execution.Attempt.{StepResult, done, Step, fail_task}
use code_kit_ultra.Execution.Task.{
  requires_approval, fail_early, simulate_by, estimate_by, pause_for_approval, gate, run_with,
  with_adapter, with_policy, execute_task,
}

abbrev is_start : AuditAction → Bool
is_start AuditAction.step_execution_started = true
is_start _ = false

-- How often an audit log says that an adapter's `execute` was about to be called.
pub starts : List AuditEntry → ℕ
starts [] = 0
starts (e ∷ es) = if is_start e.action then 1 + starts es else starts es

starts-append : (xs ys : List AuditEntry) → starts (xs ++ ys) ≡ starts xs + starts ys
unfolding starts
starts-append [] ys = omega arith
starts-append (x ∷ xs) ys = ground (arith, starts-append xs ys)

module _ {W : Type 0} where
  -- The task did not complete, and no attempt was started.
  abbrev pub IsHeld : Machine W → Result StepResult × Machine W → Type 0
  IsHeld m r = (r.0 ≢ returned done) × (starts r.1.audit ≡ starts m.audit)

  fail_early-IsHeld :
      (t : PlanTask) (i : ℕ) (e : String) (r : Option ExecutionRisk) (s : Option Simulation)
      (fix : Option String) (a : AuditAction) (m : Machine W)
      → is_start a ≡ false
      → IsHeld m ((write_audit a (some t.id) >>= λ _. fail_early t i e r s fix) m)
  unfolding fail_early fail_task ◌>>=◌ push_step_log upsert_adapter_summary update_state write_audit
      starts
  fail_early-IsHeld t i e r s fix a m h = (λ eq. cc, starts-append m.audit _ ∙ ground arith)

  pause-IsHeld :
      (t : PlanTask) (i : ℕ) (p : PolicyResult) (s : Option Simulation) (r : ExecutionRisk)
      (m : Machine W)
      → IsHeld m (pause_for_approval t i p s r m)
  unfolding pause_for_approval ◌>>=◌ push_step_log write_audit update_state starts
  pause-IsHeld t i p s r m = (λ eq. cc, starts-append m.audit _ ∙ ground arith)

gate_test :
    (t : PlanTask) (p : PolicyResult) (s : Option Simulation) (r : ExecutionRisk) (b : Bool)
    → p.requires_approval ≡ true
    → b ≡ false
    → (requires_approval t p s r && not b) ≡ true
unfolding requires_approval
gate_test t p s r b h e = ground arith

module _ {W : Type 0} (rules : PolicyRules) (heal : PlanTask → String → Call W HealingReply) where
  gate-IsHeld :
      (fuel : ℕ) (s : Step W) (p : PolicyResult) (m : Machine W)
      → p.requires_approval ≡ true
      → m.bundle.state.approved ≡ false
      → IsHeld m (gate rules heal fuel s p m)
  unfolding gate ◌>>=◌
  gate-IsHeld fuel s p m h a =
      rw (gate_test s.task p s.simulation s.risk m.bundle.state.approved h a)
        (pause-IsHeld s.task s.index p s.simulation s.risk m)

  raised-IsHeld : (m : Machine W) (e : String) (w : W) → IsHeld m (threw e, record m { world = w })
  raised-IsHeld m e w = (λ eq. cc, refl)

  module _ (fuel : ℕ) (t : PlanTask) (i : ℕ) (p : PolicyResult)
      (h : p.requires_approval ≡ true) where
    estimate-IsHeld :
        (a : Adapter W) (o : Option (Payload → Call W ExecutionRisk)) (s : Option Simulation)
        (m : Machine W)
        → m.bundle.state.approved ≡ false
        → IsHeld m (
            (estimate_by o t.payload s >>= λ r.
            gate rules heal fuel
              (record { task = t; index = i; adapter = a; simulation = s; risk = r })
              p)
              m)
    unfolding estimate_by ◌>>=◌
    estimate-IsHeld a none none m e = gate-IsHeld fuel _ p m h e
    estimate-IsHeld a none (some s) m e = gate-IsHeld fuel _ p m h e
    estimate-IsHeld a (some f) (some s) m e = gate-IsHeld fuel _ p m h e
    estimate-IsHeld a (some f) none m e =
        call-case (IsHeld m) (f t.payload) _ m
          (λ r. gate-IsHeld fuel _ p (record m { world = _ }) h e)
          (λ x. raised-IsHeld m x (f t.payload m.world).1)

    simulate-IsHeld :
        (a : Adapter W) (o : Option (Payload → Call W Simulation)) (m : Machine W)
        → m.bundle.state.approved ≡ false
        → IsHeld m (
            (simulate_by o t.payload >>= λ s. estimate_by a.estimate_risk t.payload s >>= λ r.
            gate rules heal fuel
              (record { task = t; index = i; adapter = a; simulation = s; risk = r })
              p)
              m)
    unfolding simulate_by ◌>>=◌
    simulate-IsHeld a none m e = estimate-IsHeld a a.estimate_risk none m e
    simulate-IsHeld a (some f) m e =
        call_some-case (IsHeld m) (f t.payload) _ m
          (λ r. estimate-held r (record m { world = _ }) e)
          (λ x. raised-IsHeld m x (f t.payload m.world).1)
      where
        estimate-held :
            (r : Simulation) (m' : Machine W)
            → m'.bundle.state.approved ≡ false
            → IsHeld m' (
                (estimate_by a.estimate_risk t.payload (some r) >>= λ k.
                gate rules heal fuel
                  (record { task = t; index = i; adapter = a; simulation = some r; risk = k })
                  p)
                  m')
        estimate-held r m' e' = estimate-IsHeld a a.estimate_risk (some r) m' e'

    with_adapter-IsHeld :
        (a : Option (Adapter W)) (m : Machine W)
        → m.bundle.state.approved ≡ false
        → IsHeld m (with_adapter rules heal fuel t i p a m)
    unfolding with_adapter run_with
    with_adapter-IsHeld none m e =
        fail_early-IsHeld t i _ _ _ _ AuditAction.adapter_not_found m refl
    with_adapter-IsHeld (some a) m e = simulate-IsHeld a a.simulate m e

  policy-needs_approval :
      (t : PlanTask)
      → needs_approval rules t ≡ true
      → (evaluate_policy rules t).allowed ≡ true
      → (evaluate_policy rules t).requires_approval ≡ true
  unfolding evaluate_policy
  policy-needs_approval t h e = ground arith

  with_policy-IsHeld :
      (adapters : List (Adapter W)) (fuel : ℕ) (t : PlanTask) (i : ℕ) (p : PolicyResult)
      (m : Machine W)
      → (p.allowed ≡ true → p.requires_approval ≡ true)
      → m.bundle.state.approved ≡ false
      → IsHeld m (with_policy rules heal adapters fuel t i p m)
  unfolding with_policy
  with_policy-IsHeld adapters fuel t i p m h e =
      if-case (IsHeld m) p.allowed _ _ m (λ a. with_adapter-IsHeld fuel t i p (h a) _ m e)
        (λ a. fail_early-IsHeld t i _ _ _ _ AuditAction.policy_block m refl)

  -- A task that its plan or the policy puts behind an approval does not complete in a run that is
  -- not approved, and no attempt to execute it is started.
  pub execute_task-IsHeld :
      (adapters : List (Adapter W)) (fuel : ℕ) (t : PlanTask) (i : ℕ) (m : Machine W)
      → needs_approval rules t ≡ true
      → m.bundle.state.approved ≡ false
      → IsHeld m (execute_task rules heal adapters fuel t i m)
  unfolding execute_task ◌>>=◌ write_audit starts
  execute_task-IsHeld adapters fuel t i m h e =
      let held =
        with_policy-IsHeld adapters fuel t i (evaluate_policy rules t)
          (record m {
            audit =
                m.audit
                ++ record { action = AuditAction.task_execution_attempt; step_id = some t.id } ∷ [];
          })
          (policy-needs_approval t h) e in
      (held.0, held.1 ∙ (starts-append m.audit _ ∙ ground arith))
