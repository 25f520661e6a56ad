-- ===== src/Automation/Approvals/Decides.antt =====
-- auto-approval-engine.ts, lines 106 to 197: which rule decides.
use code_kit_ultra.Base.{
  String, ◌≡◌, refl, ap, List, [], ◌∷◌, ◌++◌, Option, none, some, Bool, true, false, All, sort_by,
}
use code_kit_ultra.Governance.Numbers.{Numbers}
use code_kit_ultra.Automation.Approvals.{
  AutoApprovalRule, AutoApprovalEngine, ApprovalState, ApprovalCondition, ApprovalOutcome, threw,
  refused, approved, execute_approval_actions, get_rules_for_gate, check_dependencies,
  check_condition, check_conditions, and_then, approve_or, try_approval_rules,
  evaluate_gate_for_approval,
}

module _ {N : Type 0} (num : Numbers N) (b : ApprovalState N)
    (again : Option (ApprovalState N)) where
  -- Every condition is met.
  abbrev pub AreMet : List (ApprovalCondition N) → Type 0
  AreMet cs = All (λ c. check_condition num b c ≡ some true) cs

  -- The conditions before one hold, and that one is not met, or its check throws.
  pub data StopsAt (o : Option Bool) : List (ApprovalCondition N) → Type 0 where
    here :
        {c : ApprovalCondition N} {cs : List (ApprovalCondition N)}
        → check_condition num b c ≡ o
        → StopsAt o (c ∷ cs)
    there :
        {c : ApprovalCondition N} {cs : List (ApprovalCondition N)}
        → check_condition num b c ≡ some true
        → StopsAt o cs
        → StopsAt o (c ∷ cs)

  -- The rule does not apply: a condition is not met, or a dependency is not approved.
  pub data IsPassed (r : AutoApprovalRule N) : Type 0 where
    unmet : StopsAt (some false) r.conditions → IsPassed r
    dependent : AreMet r.conditions → check_dependencies again r.dependencies ≡ false → IsPassed r

  -- The rules before one do not apply, and that one does, or the check of one of its conditions throws.
  pub data Decides (run_id : String) (rs : List (AutoApprovalRule N))
      : ApprovalOutcome → Type 0 where
    by_none : All IsPassed rs → Decides run_id rs refused
    by_error :
        (before after : List (AutoApprovalRule N)) (r : AutoApprovalRule N)
        → rs ≡ before ++ r ∷ after
        → All IsPassed before
        → StopsAt none r.conditions
        → Decides run_id rs threw
    by_rule :
        (before after : List (AutoApprovalRule N)) (r : AutoApprovalRule N)
        → rs ≡ before ++ r ∷ after
        → All IsPassed before
        → AreMet r.conditions
        → check_dependencies again r.dependencies ≡ true
        → Decides run_id rs (approved (execute_approval_actions run_id r))

  -- What the conditions come to.
  abbrev Comes : List (ApprovalCondition N) → Option Bool → Type 0
  Comes cs none = StopsAt none cs
  Comes cs (some false) = StopsAt (some false) cs
  Comes cs (some true) = AreMet cs

  and_then-Comes :
      (c : ApprovalCondition N) (cs : List (ApprovalCondition N)) (o rest : Option Bool)
      → check_condition num b c ≡ o
      → Comes cs rest
      → Comes (c ∷ cs) (and_then num o rest)
  unfolding and_then
  and_then-Comes c cs none rest e h = here e
  and_then-Comes c cs (some false) rest e h = here e
  and_then-Comes c cs (some true) none e h = there e h
  and_then-Comes c cs (some true) (some false) e h = there e h
  and_then-Comes c cs (some true) (some true) e h = (e, h)

  conditions-Comes : (cs : List (ApprovalCondition N)) → Comes cs (check_conditions num b cs)
  unfolding check_conditions
  conditions-Comes [] = tt
  conditions-Comes (c ∷ cs) =
      and_then-Comes c cs (check_condition num b c) (check_conditions num b cs) refl
        (conditions-Comes cs)

  pass-Decides :
      (run_id : String) (r : AutoApprovalRule N) (rs : List (AutoApprovalRule N))
      (o : ApprovalOutcome)
      → IsPassed r
      → Decides run_id rs o
      → Decides run_id (r ∷ rs) o
  pass-Decides run_id r rs refused p (by_none a) = by_none (p, a)
  pass-Decides run_id r rs threw p (by_error before after q e a s) =
      by_error (r ∷ before) after q (ap (λ l. r ∷ l) e) (p, a) s
  pass-Decides run_id r rs _ p (by_rule before after q e a m d) =
      by_rule (r ∷ before) after q (ap (λ l. r ∷ l) e) (p, a) m d

  approve_or-Decides :
      (run_id : String) (r : AutoApprovalRule N) (rs : List (AutoApprovalRule N)) (o : Option Bool)
      (deps : Bool) (rest : ApprovalOutcome)
      → Comes r.conditions o
      → check_dependencies again r.dependencies ≡ deps
      → Decides run_id rs rest
      → Decides run_id (r ∷ rs) (approve_or num run_id r o deps rest)
  unfolding approve_or
  approve_or-Decides run_id r rs none deps rest c d h = by_error [] rs r refl tt c
  approve_or-Decides run_id r rs (some false) deps rest c d h =
      pass-Decides run_id r rs rest (unmet c) h
  approve_or-Decides run_id r rs (some true) true rest c d h = by_rule [] rs r refl tt c d
  approve_or-Decides run_id r rs (some true) false rest c d h =
      pass-Decides run_id r rs rest (dependent c d) h

  try_rules-Decides :
      (run_id : String) (rs : List (AutoApprovalRule N))
      → Decides run_id rs (try_approval_rules num run_id b again rs)
  unfolding try_approval_rules
  try_rules-Decides run_id [] = by_none tt
  try_rules-Decides run_id (r ∷ rs) =
      approve_or-Decides run_id r rs (check_conditions num b r.conditions)
        (check_dependencies again r.dependencies) (try_approval_rules num run_id b again rs)
        (conditions-Comes r.conditions) refl (try_rules-Decides run_id rs)

  -- Of the enabled rules of the gate, the greatest priority first, the first decides whose conditions are
  -- all met and whose dependencies are approved: its actions are executed, and no other rule's. A
  -- condition before it whose check throws ends the evaluation with the error, and without such a rule
  -- the gate is refused.
  pub evaluate_gate-Decides :
      (run_id gate_id : String) (s : AutoApprovalEngine N)
      → Decides run_id
          (sort_by (λ (r : AutoApprovalRule N). r.priority) (get_rules_for_gate gate_id s))
          (evaluate_gate_for_approval num run_id gate_id (some b) again s)
  unfolding evaluate_gate_for_approval
  evaluate_gate-Decides run_id gate_id s = try_rules-Decides run_id _
