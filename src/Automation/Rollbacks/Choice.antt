-- ===== src/Automation/Rollbacks/Choice.antt =====
-- rollback-automation.ts, lines 98 to 136: the strategies that are considered.
use code_kit_ultra.Base.{
  String, ℕ, List, [], ◌∷◌, Option, none, some, Bool, true, false, find, insert-All, select-All,
  map-All, All, sort_by, sort_by-All, if-split, insert,
}
use code_kit_ultra.Governance.Numbers.{Numbers}
use code_kit_ultra.Automation.Rollbacks.{
  RollbackStrategy, RollbackTrigger, RollbackAutomationService, Times, set_strategies,
  get_all_strategies, take_trigger, check_limit, choose_strategy, is_in_cooldown,
  has_exceeded_rollback_limit, evaluate_trigger,
}

module _ {κ} {N : Type 0} (P : RollbackStrategy N → Type κ) where
  -- The strategy that is chosen, where one is, has the property.
  abbrev pub Chosen : Option (RollbackStrategy N × RollbackTrigger N) → Type κ
  Chosen none = Unit
  Chosen (some (x, t)) = P x

  take_trigger-Chosen :
      (num : Numbers N) (rest : Times → Option (RollbackStrategy N × RollbackTrigger N) × Times)
      (x : RollbackStrategy N) (counts : Times) (t : Option (RollbackTrigger N))
      → ((c : Times) → Chosen (rest c).0)
      → P x
      → Chosen (take_trigger num rest x counts t).0
  unfolding take_trigger
  take_trigger-Chosen num rest x counts none h p = h counts
  take_trigger-Chosen num rest x counts (some t) h p = p

  check_limit-Chosen :
      (num : Numbers N) (rest : Times → Option (RollbackStrategy N × RollbackTrigger N) × Times)
      (metrics : List (String × N)) (x : RollbackStrategy N) (r : Bool × Times)
      → ((c : Times) → Chosen (rest c).0)
      → P x
      → Chosen (check_limit num rest metrics x r).0
  unfolding check_limit
  check_limit-Chosen num rest metrics x (true, counts) h p = h counts
  check_limit-Chosen num rest metrics x (false, counts) h p =
      take_trigger-Chosen num rest x counts (find (evaluate_trigger num metrics) x.triggers) h p

  pub choose_strategy-Chosen :
      (num : Numbers N) (now : ℕ) (metrics : List (String × N)) (last : List (String × ℕ))
      (xs : List (RollbackStrategy N)) (counts : Times)
      → All P xs
      → Chosen (choose_strategy num now metrics last xs counts).0
  unfolding choose_strategy
  choose_strategy-Chosen num now metrics last [] counts h = tt
  choose_strategy-Chosen num now metrics last (x ∷ xs) counts h =
      let rest = choose_strategy num now metrics last xs in
      let ok = λ (c : Times). choose_strategy-Chosen num now metrics last xs c h.1 in
      let r = has_exceeded_rollback_limit now x.id x.max_rollbacks_per_hour counts in
      if-split (λ (o : Option (RollbackStrategy N × RollbackTrigger N) × Times). Chosen o.0)
        (is_in_cooldown now last x.id x.cooldown_period) (rest counts)
        (check_limit num rest metrics x r) (λ _. ok counts)
        (λ _. check_limit-Chosen num rest metrics x r ok h.0)

  -- What holds of all the strategies holds of the enabled ones in their order.
  pub enabled-All :
      (s : RollbackAutomationService N)
      → All (λ (e : String × RollbackStrategy N). P e.1) s.strategies
      → All P (sort_by (λ (x : RollbackStrategy N). x.priority) (get_all_strategies s))
  unfolding get_all_strategies
  enabled-All s h = sort_by-All _ P _ (select-All P _ _ (map-All P _ s.strategies h))

  pub set_strategies-All :
      (xs : List (RollbackStrategy N)) (m : List (String × RollbackStrategy N))
      → All P xs
      → All (λ (e : String × RollbackStrategy N). P e.1) m
      → All (λ (e : String × RollbackStrategy N). P e.1) (set_strategies xs m)
  unfolding set_strategies
  set_strategies-All [] m h k = k
  set_strategies-All (x ∷ xs) m h k =
      set_strategies-All xs (insert x.id x m) h.1 (insert-All _ x.id x m (λ j. h.0) k)
