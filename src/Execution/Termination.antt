-- ===== src/Execution/Termination.antt =====
-- The end of the attempts of a task: execution-engine.ts, lines 234 to 478.
use code_kit_ultra.Base.{
  String, ℕ, zero, suc, ◌+◌, ◌≤◌, ◌<◌, ◌≡◌, refl, ◌≢◌, Option, none, some, true, leb, ◌==◌, arith,
  if◌then◌else◌,
}
use native.Mathlib.Nat.{le_refl, le_trans}
use code_kit_ultra.Shared.{PlanTask, Payload, StepLog, AdapterSummary, RunState}
use code_kit_ultra.Execution.Machine.{
  Machine, M, Result, returned, threw, out_of_fuel, Reply, ok, raised, Call, pure, call, try_call,
  settle, continue, AuditAction, ◌>>=◌, HealingReply,
}
use code_kit_ultra.Execution.Cases.{call_some-case, if-case}
use code_kit_ultra.Execution.Writes.{
  write_audit, push_step_log, upsert_adapter_summary, update_state,
}
use code_kit_ultra.Execution.Attempt.{
  StepResult, Step, perform, fail_task, succeed, suggest_by, roll_back_by, give_up, pause_healing,
  after_healing, fail_attempt, after_suggest, after_perform, attempt_once, attempts,
}

settle-ne : {A : Type 0} (r : Reply A) → settle r ≢ out_of_fuel
settle-ne (ok a) = λ e. cc
settle-ne (raised t) = λ e. cc

module _ {W : Type 0} where
  abbrev pub IsTotal : {A : Type 0} → Result A × Machine W → Type 0
  IsTotal r = r.0 ≢ out_of_fuel

  -- A number that each verified healing lowers, and that the adapter does not raise.
  pub record IsBudget (heal : PlanTask → String → Call W HealingReply) (s : Step W) (left : W → ℕ)
      : Type 0 where
    pub spends :
        (e : String) (w : W) (h : HealingReply)
        → (heal s.task e w).0 ≡ ok h
        → h.verified ≡ true
        → left (heal s.task e w).1 < left w
    pub performs : (w : W) → left (perform s w).1 ≤ left w
    pub suggests :
        (f : String → Payload → Call W String) (e : String) (w : W)
        → s.adapter.suggest_fix ≡ some f
        → left (f e s.task.payload w).1 ≤ left w

  -- The function never runs out of fuel.
  record Total {A : Type 0} (c : M W A) : Type 0 where
    at : (m : Machine W) → IsTotal (c m)

  continue-IsTotal :
      {A B : Type 0} (f : A → M W B)
      → ((a : A) → Total (f a))
      → (r : Result A) (m : Machine W) → r ≢ out_of_fuel
      → IsTotal (continue r f m)
  continue-IsTotal f k (returned a) m h = (k a).at m
  continue-IsTotal f k (threw e) m h = λ eq. cc
  continue-IsTotal f k out_of_fuel m h = absurd (h refl)

  Total-bind :
      {A B : Type 0} (c : M W A) (f : A → M W B)
      → Total c
      → ((a : A) → Total (f a))
      → Total (c >>= f)
  unfolding ◌>>=◌
  Total-bind c f h k = record { at = λ m. continue-IsTotal f k (c m).0 (c m).1 (h.at m) }

  Total-call : {A : Type 0} (c : Call W A) → Total (call c)
  Total-call c = record { at = λ m. settle-ne (c m.world).0 }

  Total-pure : {A : Type 0} (a : A) → Total (pure a)
  Total-pure a = record { at = λ m e. cc }

  Total-audit : (a : AuditAction) (t : Option String) → Total (write_audit a t)
  unfolding write_audit
  Total-audit a t = record { at = λ m e. cc }

  Total-log : (e : StepLog) → Total (push_step_log e)
  unfolding push_step_log
  Total-log l = record { at = λ m e. cc }

  Total-summary : (a : AdapterSummary) → Total (upsert_adapter_summary a)
  unfolding upsert_adapter_summary
  Total-summary a = record { at = λ m e. cc }

  Total-update : (f : RunState → RunState) → Total (update_state f)
  unfolding update_state
  Total-update f = record { at = λ m e. cc }

  ruleset totals =
      (Total-bind, Total-call, Total-pure, Total-audit, Total-log, Total-summary, Total-update)

module _ {W : Type 0} (s : Step W) where
  Total-roll_back :
      (n : ℕ) (p : Option Payload) (u : Option (Payload → Call W (Unit {0})))
      → Total (roll_back_by s n p u)
  unfolding roll_back_by
  Total-roll_back n none u = search totals
  Total-roll_back n (some p) none = search totals
  Total-roll_back n (some p) (some u) = search totals

  Total-give_up : (n : ℕ) (e : String) (fix : Option String) → Total (give_up s n e fix)
  unfolding give_up fail_task
  Total-give_up n e fix = search (totals, Total-roll_back)

  Total-fail_task : Total (fail_task {W = W} s.index)
  unfolding fail_task
  Total-fail_task = search totals

  Total-succeed : (n : ℕ) (out : String × String) → Total (succeed s n out)
  unfolding succeed
  Total-succeed n (output, verification) = search totals

  Total-pause_healing : (t : String) → Total (pause_healing s t)
  unfolding pause_healing
  Total-pause_healing t = search totals

  module _ (heal : PlanTask → String → Call W HealingReply) (left : W → ℕ)
      (b : IsBudget heal s left) (again : ℕ → M W StepResult) (n limit room : ℕ) (low : n ≤ limit)
      (goes_on : (l : ℕ) (m : Machine W)
        → n < limit + room
        → l + left m.world ≤ limit + room
        → IsTotal (again l m)) where
    after_healing-IsTotal :
        (e : String) (fix : Option String) (r : Reply HealingReply) (m : Machine W)
        → ((h : HealingReply) → r ≡ ok h → h.verified ≡ true → left m.world < room)
        → IsTotal (after_healing again s n limit e fix r m)
    unfolding after_healing ◌>>=◌ write_audit
    after_healing-IsTotal e fix (raised t) m k = (Total-give_up n e fix).at _
    after_healing-IsTotal e fix (ok h) m k =
        if-case IsTotal h.verified _ _ m
          (λ v. goes_on (limit + 1) _ (omega (arith, k h refl v)) (omega (arith, k h refl v)))
          λ _.
            if-case IsTotal h.approval_required _ _ m (λ _. (Total-pause_healing h.strategy).at m)
              λ _. (Total-give_up n e fix).at _

    after_log-IsTotal :
        (e : String) (fix : Option String) (m : Machine W)
        → left m.world ≤ room
        → IsTotal (
            (if n == limit
                then (try_call (heal s.task e) >>= after_healing again s n limit e fix)
                else again limit)
              m)
    unfolding ◌>>=◌
    after_log-IsTotal e fix m h =
        if-case IsTotal (n == limit) _ _ m
          (λ _. after_healing-IsTotal e fix _ _ λ r q v. le_trans (b.spends e m.world r q v) h)
          (λ ne. goes_on limit m (ground arith) (omega arith))

    suggest-IsTotal :
        (e : String) (o : Option (String → Payload → Call W String)) (m : Machine W)
        → s.adapter.suggest_fix ≡ o
        → left m.world ≤ room
        → IsTotal
            ((suggest_by o e s.task.payload >>= λ fix. after_suggest heal again s n limit e fix) m)
    unfolding suggest_by after_suggest ◌>>=◌ write_audit push_step_log
    suggest-IsTotal e none m q h = after_log-IsTotal e none _ h
    suggest-IsTotal e (some f) m q h =
        call_some-case IsTotal (f e s.task.payload) _ m
          (λ fix. after_log-IsTotal e (some fix) _ (le_trans (b.suggests f e m.world q) h))
          (λ t x. cc)

    attempt_once-IsTotal :
        (m : Machine W) → left m.world ≤ room → IsTotal (attempt_once heal again s n limit m)
    unfolding attempt_once after_perform fail_attempt ◌>>=◌ write_audit
    attempt_once-IsTotal m h =
        perform-IsTotal (perform s m.world).0 _ (le_trans (b.performs m.world) h)
      where
        perform-IsTotal :
            (r : Reply (String × String)) (m' : Machine W)
            → left m'.world ≤ room
            → IsTotal (after_perform heal again s n limit r m')
        perform-IsTotal (ok out) m' h' = (Total-succeed n out).at m'
        perform-IsTotal (raised e) m' h' = suggest-IsTotal e s.adapter.suggest_fix m' refl h'

  module _ (heal : PlanTask → String → Call W HealingReply) (left : W → ℕ)
      (b : IsBudget heal s left) where
    attempts-IsTotal_from :
        (fuel n limit : ℕ) (m : Machine W)
        → limit + left m.world < fuel + n
        → 0 < fuel
        → IsTotal (attempts heal fuel s n limit m)
    unfolding attempts after_perform
    attempts-IsTotal_from zero n limit m h k = elim k [ ]
    attempts-IsTotal_from (suc fuel) n limit m h k =
        if-case IsTotal (leb n limit) _ _ m
          (λ low.
            attempt_once-IsTotal heal left b _ n limit (left m.world) (ground arith)
              (λ l m' p q. attempts-IsTotal_from fuel (n + 1) l m' (omega arith) (omega arith)) m
              (le_refl _))
          (λ _. Total-fail_task.at m)

    -- Where each verified healing spends of a budget that nothing refills, the attempts of a task
    -- end, and as much fuel as the attempts allowed and the budget left, and one more, is enough.
    pub attempts-IsTotal :
        (fuel limit : ℕ) (m : Machine W)
        → limit + left m.world < fuel
        → IsTotal (attempts heal fuel s 1 limit m)
    attempts-IsTotal fuel limit m h =
        attempts-IsTotal_from fuel 1 limit m (omega arith) (omega arith)
