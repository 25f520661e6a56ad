-- ===== src/Execution/Keeps.antt =====
-- A relation between the machine before and after, shown for the primitive writes and the calls,
-- holds across every function of the engine, whether it returns or raises. Here are the rules; the
-- children go through the engine.
pub mod Tasks
pub mod Runs
use code_kit_ultra.Base.{String, List, [], ◌∷◌, ◌++◌, Option, Bool, true, false, if◌then◌else◌}
use code_kit_ultra.Shared.{RunState, StepLog, AdapterSummary}
use code_kit_ultra.Execution.Machine.{
  Machine, M, Result, returned, threw, out_of_fuel, Call, pure, gets, throw, call, try_call,
  continue, ◌>>=◌, AuditAction, AuditEntry,
}
use code_kit_ultra.Execution.Writes.{
  write_audit, push_step_log, upsert_adapter_summary, update_state,
}

module _ {W : Type 0} where
  -- The relation holds across each primitive step.
  pub record IsStable (R : Machine W → Machine W → Type 0) : Type 0 where
    pub reflexive : (m : Machine W) → R m m
    pub transitive : (a b c : Machine W) → R a b → R b c → R a c
    pub audited : (m : Machine W) (e : AuditEntry) → R m (record m { audit = m.audit ++ e ∷ [] })
    pub logged : (m : Machine W) (e : StepLog) → R m (push_step_log e m).1
    pub summarized : (m : Machine W) (s : AdapterSummary) → R m (upsert_adapter_summary s m).1
    pub updated : (m : Machine W) (f : RunState → RunState) → R m (update_state f m).1
    pub called : (m : Machine W) (w : W) → R m (record m { world = w })

  pub record Keeps {A : Type 0} (R : Machine W → Machine W → Type 0) (c : M W A) : Type 0 where
    pub at : (m : Machine W) → R m (c m).1

module _ {W : Type 0} (R : Machine W → Machine W → Type 0) (st : IsStable R) where
  pub Keeps-pure : {A : Type 0} (a : A) → Keeps R (pure a)
  Keeps-pure a = record { at = λ m. st.reflexive m }

  pub Keeps-gets : {A : Type 0} (f : Machine W → A) → Keeps R (gets f)
  Keeps-gets f = record { at = λ m. st.reflexive m }

  pub Keeps-throw : {A : Type 0} (e : String) → Keeps R (throw {A = A} e)
  Keeps-throw e = record { at = λ m. st.reflexive m }

  continue-R :
      {A B : Type 0} (f : A → M W B) (k : (a : A) → Keeps R (f a)) (m : Machine W) (r : Result A)
      (m' : Machine W)
      → R m m'
      → R m (continue r f m').1
  continue-R f k m (returned a) m' e = st.transitive m m' _ e ((k a).at m')
  continue-R f k m (threw t) m' e = e
  continue-R f k m out_of_fuel m' e = e

  pub Keeps-bind :
      {A B : Type 0} (c : M W A) (f : A → M W B)
      → Keeps R c
      → ((a : A) → Keeps R (f a))
      → Keeps R (c >>= f)
  unfolding ◌>>=◌
  Keeps-bind c f h k = record { at = λ m. continue-R f k m (c m).0 (c m).1 (h.at m) }

  pub Keeps-audit : (a : AuditAction) (s : Option String) → Keeps R (write_audit a s)
  unfolding write_audit
  Keeps-audit a s = record { at = λ m. st.audited m _ }

  pub Keeps-call : {A : Type 0} (c : Call W A) → Keeps R (call c)
  Keeps-call c = record { at = λ m. st.called m _ }

  pub Keeps-try_call : {A : Type 0} (c : Call W A) → Keeps R (try_call c)
  Keeps-try_call c = record { at = λ m. st.called m _ }

  pub Keeps-log : (e : StepLog) → Keeps R (push_step_log e)
  Keeps-log e = record { at = λ m. st.logged m e }

  pub Keeps-summary : (s : AdapterSummary) → Keeps R (upsert_adapter_summary s)
  Keeps-summary s = record { at = λ m. st.summarized m s }

  pub Keeps-update : (f : RunState → RunState) → Keeps R (update_state f)
  Keeps-update f = record { at = λ m. st.updated m f }

  pub ruleset writes = (
    Keeps-pure, Keeps-gets, Keeps-throw, Keeps-bind, Keeps-audit, Keeps-call, Keeps-try_call,
    Keeps-log, Keeps-summary, Keeps-update,
  )

  pub Keeps-if :
      {A : Type 0} (b : Bool) (c d : M W A) → Keeps R c → Keeps R d → Keeps R (if b then c else d)
  Keeps-if true c d h k = h
  Keeps-if false c d h k = k
