-- ===== src/Execution/Endless.antt =====
-- Attempts that never end: execution-engine.ts, lines 309 to 470.
use mathlib.Core.Path.{subst}
use code_kit_ultra.Base.{
  String, ℕ, zero, suc, ◌+◌, ◌≤◌, ◌<◌, ◌≡◌, refl, sym, ap, Option, none, some, true, leb, ◌==◌,
  arith,
}
use code_kit_ultra.Shared.{PlanTask, Payload}
use code_kit_ultra.Execution.Machine.{
  Machine, M, Result, out_of_fuel, Reply, ok, raised, Call, pure, settle, ◌>>=◌, HealingReply,
}
use code_kit_ultra.Execution.Cases.{if-case}
use code_kit_ultra.Execution.Writes.{write_audit, push_step_log}
use code_kit_ultra.Execution.Attempt.{
  StepResult, Step, perform, suggest_by, after_healing, fail_attempt, after_suggest, after_perform,
  attempt_once, attempts,
}

message_of : {A : Type 0} → Reply A → String
message_of (ok a) = ""
message_of (raised e) = e

raised_inj : {A : Type 0} {e t : String} → ◌≡◌ {A = Reply A} (raised t) (raised e) → e ≡ t
unfolding message_of
raised_inj q = sym (ap message_of q)

module _ {W : Type 0} where
  abbrev pub IsCut : {A : Type 0} → Result A × Machine W → Type 0
  IsCut r = r.0 ≡ out_of_fuel

module _ {W : Type 0} (s : Step W) where
  module _ (heal : PlanTask → String → Call W HealingReply) (P : String → Type 0)
      (fails : (w : W) → (e : String) × ((perform s w).0 ≡ raised e) × P e)
      (suggests : (f : String → Payload → Call W String) (e : String) (w : W)
        → s.adapter.suggest_fix ≡ some f
        → (text : String) × ((f e s.task.payload w).0 ≡ ok text))
      (heals : (e : String) (w : W)
        → P e
        → (h : HealingReply) × ((heal s.task e w).0 ≡ ok h) × (h.verified ≡ true)) where
    -- What goes on with a later attempt is cut.
    abbrev Loops : ℕ → (ℕ → M W StepResult) → Type 0
    Loops n again = (l : ℕ) (m : Machine W) → n < l → IsCut (again l m)

    verified-diverges :
        (again : ℕ → M W StepResult) (n limit : ℕ) (e : String) (fix : Option String)
        (h : HealingReply) (r : Reply HealingReply) (m : Machine W)
        → r ≡ ok h
        → h.verified ≡ true
        → Loops n again
        → n ≤ limit
        → IsCut (after_healing again s n limit e fix r m)
    unfolding after_healing ◌>>=◌ write_audit
    verified-diverges again n limit e fix h (raised t) m q v k low = cc
    verified-diverges again n limit e fix h (ok h') m q v k low =
        if-case IsCut h'.verified _ _ m (λ _. k (limit + 1) _ (omega arith)) (λ ne. cc)

    log-diverges :
        (again : ℕ → M W StepResult) (n limit : ℕ) (e : String) (fix : Option String)
        (m : Machine W)
        → P e
        → Loops n again
        → n ≤ limit
        → IsCut (after_suggest heal again s n limit e fix m)
    unfolding after_suggest ◌>>=◌ write_audit push_step_log
    log-diverges again n limit e fix m p k low =
        let (h, q, v) = heals e m.world p in
        if-case IsCut (n == limit) _ _ _
          (λ _. verified-diverges again n limit e fix h _ _ q v k low)
          (λ ne. k limit _ (ground arith))

    answered-diverges :
        (again : ℕ → M W StepResult) (n limit : ℕ) (e text : String) (r : Reply String)
        (m : Machine W)
        → r ≡ ok text
        → P e
        → Loops n again
        → n ≤ limit
        → IsCut (
            ((λ (m' : Machine W). (settle r, m'))
                >>= (λ t. pure (some t))
                >>= after_suggest heal again s n limit e)
              m)
    unfolding ◌>>=◌
    answered-diverges again n limit e text (ok t) m q p k low =
        log-diverges again n limit e (some t) m p k low
    answered-diverges again n limit e text (raised t) m q p k low = cc

    suggest-diverges :
        (again : ℕ → M W StepResult) (n limit : ℕ) (e : String)
        (o : Option (String → Payload → Call W String)) (m : Machine W)
        → s.adapter.suggest_fix ≡ o
        → P e
        → Loops n again
        → n ≤ limit
        → IsCut ((suggest_by o e s.task.payload >>= after_suggest heal again s n limit e) m)
    unfolding suggest_by ◌>>=◌
    suggest-diverges again n limit e none m q p k low = log-diverges again n limit e none m p k low
    suggest-diverges again n limit e (some f) m q p k low =
        let (text, z) = suggests f e m.world q in
        let (r, w) = f e s.task.payload m.world in
        answered-diverges again n limit e text r (record m { world = w }) z p k low

    perform-diverges :
        (again : ℕ → M W StepResult) (n limit : ℕ) (e : String) (r : Reply (String × String))
        (m : Machine W)
        → r ≡ raised e
        → P e
        → Loops n again
        → n ≤ limit
        → IsCut (after_perform heal again s n limit r m)
    unfolding after_perform fail_attempt
    perform-diverges again n limit e (ok out) m q p k low = cc
    perform-diverges again n limit e (raised t) m q p k low =
        suggest-diverges again n limit t s.adapter.suggest_fix m refl (subst P (raised_inj q) p) k
          low

    -- Where an adapter keeps failing, its suggestions of fixes return, and every healing of such a
    -- failure is verified, the attempts of a task never end once one is started within the retry limit:
    -- no fuel is enough.
    pub attempts-diverges :
        (fuel n limit : ℕ) (m : Machine W) → n ≤ limit → IsCut (attempts heal fuel s n limit m)
    unfolding attempts attempt_once ◌>>=◌ write_audit
    attempts-diverges zero n limit m low = refl
    attempts-diverges (suc fuel) n limit m low =
        let (e, q, p) = fails m.world in
        if-case IsCut (leb n limit) _ _ m
          (λ _.
            perform-diverges _ n limit e _ _ q p
              (λ l m' h. attempts-diverges fuel (n + 1) l m' (omega arith)) low)
          (λ ne. absurd (ground arith))
