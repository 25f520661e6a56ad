-- ===== src/Automation/Healing/Outcome.antt =====
-- healing-engine.ts, lines 90 to 113 and 169 to 250: how the execution of a strategy ends.
use mathlib.Core.List.{reverse, reverse-cons, append-nil}
use code_kit_ultra.Base.{
  String, ℕ, ◌+◌, ◌≡◌, refl, ap, List, [], ◌∷◌, ◌++◌, map, Bool, true, false, not, ◌&&◌, select,
  All, leb, if-split, Bool-cases, inl, inr,
}
use code_kit_ultra.Automation.Healing.{
  HealingStrategy, HealingExecution, HealingStatus, Performed, Progress, RemediationAction,
  execute_action, action_time, push_performed, perform_actions, rollback, complete_execution,
  execute_strategy,
}

-- The record of an action.
abbrev pub mark : RemediationAction → Performed
mark a = record { action = a; succeeded = execute_action a }

-- The action fails, and is critical.
abbrev pub is_fatal : RemediationAction → Bool
is_fatal a = not (execute_action a) && leb 80 a.priority

abbrev pub IsSurvived : RemediationAction → Type 0
IsSurvived a = is_fatal a ≡ false

-- How an execution of the actions ends: all are performed, none of them fatal, or the first fatal one
-- ends it, and those before it that succeeded are reversed, the last first.
pub data Outcome {N : Type 0} (actions : List RemediationAction)
    : HealingExecution N × List RemediationAction → Type 0 where
  completed :
      {e : HealingExecution N}
      → All IsSurvived actions
      → e.status ≡ HealingStatus.success
      → e.actions_performed ≡ map mark actions
      → Outcome actions (e, [])
  undone :
      {e : HealingExecution N} (before after : List RemediationAction) (a : RemediationAction)
      → actions ≡ before ++ a ∷ after
      → All IsSurvived before
      → is_fatal a ≡ true
      → e.status ≡ HealingStatus.rolled_back
      → e.actions_performed ≡ map mark before
      → Outcome actions (e, reverse (select execute_action before))

rollback-map :
    (xs : List RemediationAction) → rollback (map mark xs) ≡ reverse (select execute_action xs)
unfolding rollback
rollback-map [] = refl
rollback-map (x ∷ xs) = elim (Bool-cases (execute_action x)) [
  | inl e ↦ rw (e, reverse-cons x (select execute_action xs), rollback-map xs) refl
  | inr e ↦ rw (e, append-nil (rollback (map mark xs))) (rollback-map xs)
]

-- What the loop has reached.
data Performs (actions : List RemediationAction) (r : Progress) : Type 0 where
  all_of :
      All IsSurvived actions
      → r.completed ≡ true
      → r.performed ≡ map mark actions
      → Performs actions r
  up_to :
      (before after : List RemediationAction) (a : RemediationAction)
      → actions ≡ before ++ a ∷ after
      → All IsSurvived before
      → is_fatal a ≡ true
      → r.completed ≡ false
      → r.performed ≡ map mark before
      → Performs actions r

push-Performs :
    (x : RemediationAction) (xs : List RemediationAction) (b : Bool) (r : Progress)
    → execute_action x ≡ b
    → IsSurvived x
    → Performs xs r
    → Performs (x ∷ xs) (push_performed (record { action = x; succeeded = b }) r)
unfolding push_performed
push-Performs x xs b r e s (all_of a c p) = all_of (s, a) c (rw (e, p) refl)
push-Performs x xs b r e s (up_to before after a i v f c p) =
    up_to (x ∷ before) after a (ap (λ l. x ∷ l) i) (s, v) f c (rw (e, p) refl)

perform_actions-Performs :
    (now : ℕ) (xs : List RemediationAction) → Performs xs (perform_actions now xs)
unfolding perform_actions
perform_actions-Performs now [] = all_of tt refl refl
perform_actions-Performs now (x ∷ xs) =
    let later = perform_actions-Performs (now + action_time x) xs in
    if-split (Performs (x ∷ xs)) (execute_action x) _ _
      (λ e. push-Performs x xs true _ e (rw e refl) later)
      (λ e.
        if-split (Performs (x ∷ xs)) (leb 80 x.priority) _ _
          (λ f. up_to [] xs x refl tt (rw (e, f) refl) refl refl)
          (λ f. push-Performs x xs false _ e (rw (e, f) refl) later))

module _ {N : Type 0} where
  complete-Outcome :
      (xs : List RemediationAction) (e : HealingExecution N) (r : Progress)
      → Performs xs r
      → Outcome xs (complete_execution e r)
  unfolding complete_execution
  complete-Outcome xs e r (all_of a c p) = rw c (completed a refl p)
  complete-Outcome xs e r (up_to before after a i v f c p) =
      rw (c, p, rollback-map before) (undone before after a i v f refl refl)

  -- A strategy succeeds if and only if none of its actions is fatal, and then each is performed once,
  -- in order; otherwise the execution ends at the first fatal action, and those before it that
  -- succeeded, and no others, are reversed, the last first.
  pub execute_strategy-Outcome :
      (decimal : ℕ → String) (now : ℕ) (x : HealingStrategy N) (metrics : List (String × N))
      → Outcome x.actions (execute_strategy decimal now x metrics)
  unfolding execute_strategy
  execute_strategy-Outcome decimal now x metrics =
      complete-Outcome x.actions _ _ (perform_actions-Performs now x.actions)
