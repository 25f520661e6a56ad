-- ===== src/Automation/Healing/Persisted.antt =====
-- healing-engine.ts, lines 90 to 148: how long the condition of a strategy has held when it is executed.
use mathlib.Core.Path.{subst}
use code_kit_ultra.Base.{
  String, ℕ, ◌≡◌, refl, sym, List, [], ◌∷◌, map, some, same, lookup, insert, insert-IsMap, IsMap,
  IsMap-All, eq_iff, All, All-intro, All-zip, arith, sort_by-All, if-split,
}
use code_kit_ultra.Governance.Numbers.{Numbers}
use code_kit_ultra.Automation.Healing.{
  HealingStrategy, HealingExecution, Progress, strategies_of, new_engine, set_strategies,
  find_applicable_strategies, complete_execution, execute_strategy, heal, evaluate_and_heal,
  is_success,
}
use code_kit_ultra.Automation.Healing.Tracking.{
  Evaluation, after, strategies-after, HasOwnKeys, IsDue, IsTracked, Finds, find-Finds, find-All,
}

-- Each strategy stands under its own id.
abbrev IsKeyed : {N : Type 0} → List (String × HealingStrategy N) → Type 0
IsKeyed m = All (λ e. e.0 ≡ e.1.id) m

-- The strategy is the engine's.
abbrev IsOwn : {N : Type 0} → List (HealingStrategy N) → HealingStrategy N → Type 0
IsOwn xs x = lookup x.id (new_engine xs).strategies ≡ some x

module _ {N : Type 0} where
  insert-IsKeyed :
      (x : HealingStrategy N) (m : List (String × HealingStrategy N))
      → IsKeyed m
      → IsKeyed (insert x.id x m)
  insert-IsKeyed x [] h = (refl, tt)
  insert-IsKeyed x ((j, y) ∷ m) h =
      if-split IsKeyed (same j x.id) ((j, x) ∷ m) ((j, y) ∷ insert x.id x m)
        (λ e. ((eq_iff j x.id).0 e, h.1)) (λ _. (h.0, insert-IsKeyed x m h.1))

  set_strategies-IsKeyed :
      (xs : List (HealingStrategy N)) (m : List (String × HealingStrategy N))
      → IsMap m × IsKeyed m
      → IsMap (set_strategies xs m) × IsKeyed (set_strategies xs m)
  unfolding set_strategies
  set_strategies-IsKeyed [] m h = h
  set_strategies-IsKeyed (x ∷ xs) m h =
      set_strategies-IsKeyed xs _ (insert-IsMap x.id x m h.0, insert-IsKeyed x m h.1)

  All-values :
      (P : HealingStrategy N → Type 0) (m : List (String × HealingStrategy N))
      → All (λ e. P e.1) m
      → All P (map (λ (e : String × HealingStrategy N). e.1) m)
  All-values P [] h = tt
  All-values P (e ∷ m) h = (h.0, All-values P m h.1)

  strategies-IsOwn :
      (xs : List (HealingStrategy N)) → All (IsOwn xs) (strategies_of (new_engine xs))
  unfolding new_engine strategies_of
  strategies-IsOwn xs =
      let m = set_strategies xs [] in
      let h = set_strategies-IsKeyed xs [] (tt, tt) in
      All-values (λ x. lookup x.id m ≡ some x) m
        (All-zip {P = λ (e : String × HealingStrategy N). e.0 ≡ e.1.id}
          {Q = λ (e : String × HealingStrategy N). lookup e.0 m ≡ some e.1}
          {R = λ (e : String × HealingStrategy N). lookup e.1.id m ≡ some e.1}
          (λ (e : String × HealingStrategy N) k f. subst (λ i. lookup i m ≡ some e.1) k f) m h.1
          (IsMap-All m h.0))

module _ {N : Type 0} (decimal : ℕ → String) (num : Numbers N) (xs : List (HealingStrategy N)) where
  -- The execution is one of the engine's strategy of that id, which was due.
  abbrev pub IsWarranted : List (Evaluation N) → ℕ → HealingExecution N → Type 0
  IsWarranted cs now e =
      (x : HealingStrategy N) × (lookup e.strategy_id (new_engine xs).strategies ≡ some x)
      × IsDue num cs now x

  complete_execution-id :
      (e : HealingExecution N) (r : Progress)
      → (complete_execution e r).0.strategy_id ≡ e.strategy_id
  unfolding complete_execution
  complete_execution-id e r = ground arith

  own_id :
      (id : String) (x : HealingStrategy N)
      → id ≡ x.id
      → IsOwn xs x
      → lookup id (new_engine xs).strategies ≡ some x
  own_id id x e h = subst (λ i. lookup i (new_engine xs).strategies ≡ some x) (sym e) h

  heal-IsWarranted :
      (cs : List (Evaluation N)) (t now : ℕ) (metrics : List (String × N))
      (ys : List (HealingStrategy N))
      → All (λ y. IsOwn xs y × IsDue num cs t y) ys
      → All (IsWarranted cs t) (heal decimal now metrics ys)
  unfolding heal execute_strategy
  heal-IsWarranted cs t now metrics [] h = tt
  heal-IsWarranted cs t now metrics (x ∷ ys) h =
      let e = (execute_strategy decimal now x metrics).0 in
      let own : IsWarranted cs t e =
        (x, own_id e.strategy_id x (complete_execution-id _ _) h.0.0, h.0.1) in
      let rest = heal-IsWarranted cs t e.completed_at metrics ys h.1 in
      if-split (All (IsWarranted cs t)) (is_success e.status) (e ∷ [])
        (e ∷ heal decimal e.completed_at metrics ys) (λ _. (own, tt)) (λ _. (own, rest))

  module _ (own : HasOwnKeys (strategies_of (new_engine xs))) where
    found :
        (c : Evaluation N) (cs : List (Evaluation N))
        → All
            (IsTracked num cs (after decimal num cs (new_engine xs)).condition_tracker)
            (strategies_of (new_engine xs))
        → Finds num c cs (strategies_of (new_engine xs)) (
            find_applicable_strategies num c.now c.metrics
              (strategies_of (after decimal num cs (new_engine xs)))
              (after decimal num cs (new_engine xs)).condition_tracker)
    found c cs t =
        rw (strategies-after decimal num cs (new_engine xs))
          (find-Finds num c cs (strategies_of (new_engine xs)) _ own t)

    after-IsTracked :
        (cs : List (Evaluation N))
        → All
            (IsTracked num cs (after decimal num cs (new_engine xs)).condition_tracker)
            (strategies_of (new_engine xs))
    unfolding after evaluate_and_heal new_engine
    after-IsTracked [] = All-intro (λ x. record { tracked = λ start e. cc }) _
    after-IsTracked (c ∷ cs) = (found c cs (after-IsTracked cs)).all_tracked

    -- Where no two strategies share an entry of the tracker, an execution is always one of the strategy
    -- that the engine has under that id, which is enabled and whose condition held at every evaluation
    -- since some start, at least the duration of the condition back.
    pub healed_persisted :
        (c : Evaluation N) (cs : List (Evaluation N))
        → All
            (IsWarranted (c ∷ cs) c.now)
            (evaluate_and_heal num decimal c.now c.metrics (after decimal num cs (new_engine xs))).0
    unfolding evaluate_and_heal
    healed_persisted c cs =
        let e = after decimal num cs (new_engine xs) in
        let owned =
          find-All num c cs (IsOwn xs) (strategies_of e) e.condition_tracker
            (rw (strategies-after decimal num cs (new_engine xs)) (strategies-IsOwn xs)) in
        heal-IsWarranted (c ∷ cs) c.now c.now c.metrics _ (
          sort_by-All _ (λ y. IsOwn xs y × IsDue num (c ∷ cs) c.now y) _
            (All-zip {P = IsOwn xs} {Q = IsDue num (c ∷ cs) c.now} (λ y o d. (o, d)) _ owned
              (found c cs (after-IsTracked cs)).all_due))
