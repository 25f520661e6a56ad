-- ===== src/Automation/Rollbacks/Bounds.antt =====
-- rollback-automation.ts, lines 98 to 243: how often a strategy rolls back, where one cycle ends before
-- the next begins.
use code_kit_ultra.Base.{
  String, ℕ, ◌≤◌, ◌<◌, ◌≡◌, refl, sym, List, [], ◌∷◌, ◌++◌, Option, none, some, Bool, true, false,
  ◌&&◌, select, length, insert, lookup-insert_self, lookup-insert_other, All, sort_by, same,
  if◌then◌else◌, if-split, if_map, Bool-cases, inl, inr, arith, eq_iff, same→ne,
}
use mathlib.Core.Path.{subst}
use mathlib.Core.List.{append_assoc, append-nil}
use code_kit_ultra.Governance.Numbers.{Numbers}
use code_kit_ultra.Automation.Rollbacks.{
  RollbackStrategy, RollbackTrigger, Performed, RollbackExecution, RollbackAutomationService, Times,
  Cycle, is_recent, times_of, new_service, get_all_strategies, should_rollback, complete_rollback,
  execute_rollback, roll_back_choice, evaluate_rollback_strategies, push_execution, run_cycles,
  record_rollback, store_execution,
}
use code_kit_ultra.Automation.Rollbacks.Choice.{
  Chosen, choose_strategy-Chosen, enabled-All, set_strategies-All,
}
use code_kit_ultra.Automation.Rollbacks.Counts.{
  Chronological, in_hour, ended_well, successes, Agrees, later-Agrees, append-Agrees, Within,
  append-Within, IsBelow, choose_strategy-Guarded,
}

successes-append :
    {N : Type 0} (k : String) (ds es : List (RollbackExecution N))
    → successes k (ds ++ es) ≡ successes k ds ++ successes k es
successes-append k [] es = refl
successes-append k (d ∷ ds) es =
    let p = ended_well d.status && same d.strategy_id k in
    rw (successes-append k ds es) (
      sym
        (if_map (λ ts. ts ++ successes k es) p (d.completed_at ∷ successes k ds) (successes k ds)))

-- What is kept for `k` once a rollback of `j` is recorded.
times_of-record :
    (now done : ℕ) (j k : String) (counts : Times) (log : List ℕ)
    → now ≤ done
    → Agrees now (times_of k counts) log
    → Agrees done
        (times_of k (insert j (times_of j counts ++ done ∷ []) counts))
        (log ++ (if same j k then done ∷ [] else []))
unfolding times_of
times_of-record now done j k counts log h a = elim (Bool-cases (same j k)) [
  | inl e ↦
      subst
        (λ i.
          Agrees done (times_of k (insert i (times_of i counts ++ done ∷ []) counts))
            (log ++ (if same j k then done ∷ [] else [])))
        (sym ((eq_iff j k).0 e))
        (rw (lookup-insert_self k (times_of k counts ++ done ∷ []) counts, e)
          (append-Agrees done done (times_of k counts) log (later-Agrees now done h a)))
  | inr e ↦
      rw
        (
          lookup-insert_other j k (times_of j counts ++ done ∷ []) counts (same→ne j k e),
          e,
          append-nil log,
        )
        (later-Agrees now done h a)
]

record-Within :
    (m now done : ℕ) (j k : String) (log : List ℕ)
    → now ≤ done
    → (j ≡ k → length (select (is_recent now) log) < m)
    → Within m log
    → Within m (log ++ (if same j k then done ∷ [] else []))
record-Within m now done j k log h l w =
    if-split (λ ts. Within m (log ++ ts)) (same j k) (done ∷ []) []
      (λ e. append-Within m now done log h (l ((eq_iff j k).0 e)) w) (λ _. rw (append-nil log) w)

module _ {N : Type 0} (decimal : ℕ → String) (num : Numbers N) (k : String) (m : ℕ) where
  -- No strategy `k` allows more than `m`.
  abbrev pub Allows : RollbackStrategy N → Type 0
  Allows x = x.id ≡ k → x.max_rollbacks_per_hour ≤ m

  record Bounded (now : ℕ) (log : List ℕ) (s : RollbackAutomationService N) : Type 0 where
    allows : All (λ (e : String × RollbackStrategy N). Allows e.1) s.strategies
    counted : Agrees now (times_of k s.rollback_counts) log
    bound : Within m log

  abbrev listed : Option (RollbackExecution N) → List (RollbackExecution N)
  listed none = []
  listed (some e) = e ∷ []

  complete_rollback-Bounded :
      (now done : ℕ) (log : List ℕ) (e : RollbackExecution N) (r : List Performed × Bool)
      (s : RollbackAutomationService N)
      → now ≤ done
      → (e.strategy_id ≡ k → length (select (is_recent now) log) < m)
      → Bounded now log s
      → Bounded done
          (log ++ successes k ((complete_rollback done e r s).0 ∷ []))
          (complete_rollback done e r s).1
  unfolding complete_rollback store_execution record_rollback times_of
  complete_rollback-Bounded now done log e (p, false) s h l b = record {
    allows = b.allows;
    counted = rw (append-nil log) (later-Agrees now done h b.counted);
    bound = rw (append-nil log) b.bound;
  }
  complete_rollback-Bounded now done log e (p, true) s h l b = record {
    allows = b.allows;
    counted = times_of-record now done e.strategy_id k s.rollback_counts log h b.counted;
    bound = record-Within m now done e.strategy_id k log h l b.bound;
  }

  -- What a cycle gives.
  abbrev Extends : ℕ → List ℕ → Option (RollbackExecution N) × RollbackAutomationService N → Type 0
  Extends done log (e, s) = Bounded done (log ++ successes k (listed e)) s

  chosen_below :
      (now : ℕ) (log : List ℕ) (x : RollbackStrategy N)
      → Allows x × IsBelow num k now log x
      → x.id ≡ k
      → length (select (is_recent now) log) < m
  chosen_below now log x p e = omega (arith, p.0 e, p.1 e)

  roll_back_choice-Extends :
      (c : Cycle N) (log : List ℕ) (o : Option (RollbackStrategy N × RollbackTrigger N))
      (s : RollbackAutomationService N)
      → c.now ≤ c.done
      → Chosen Allows o
      → Chosen (IsBelow num k c.now log) o
      → Bounded c.now log s
      → Extends c.done log (roll_back_choice decimal num c (o, s))
  unfolding roll_back_choice execute_rollback
  roll_back_choice-Extends c log none s h a l b = record {
    allows = b.allows;
    counted = rw (append-nil log) (later-Agrees c.now c.done h b.counted);
    bound = rw (append-nil log) b.bound;
  }
  roll_back_choice-Extends c log (some (x, t)) s h a l b =
      complete_rollback-Bounded c.now c.done log _ _ s h (chosen_below c.now log x (a, l)) b

  cycle-Extends :
      (t : ℕ) (c : Cycle N) (log : List ℕ) (s : RollbackAutomationService N)
      → t ≤ c.now
      → c.now ≤ c.done
      → Bounded t log s
      → Extends c.done log (evaluate_rollback_strategies decimal num c s)
  unfolding evaluate_rollback_strategies should_rollback
  cycle-Extends t c log s h g b =
      let xs = sort_by (λ (x : RollbackStrategy N). x.priority) (get_all_strategies s) in
      let r =
        choose_strategy-Guarded num k c.now log c.metrics s.last_rollbacks xs s.rollback_counts
          (later-Agrees t c.now h b.counted) in
      roll_back_choice-Extends c log _ _ g
        (choose_strategy-Chosen Allows num c.now c.metrics s.last_rollbacks xs s.rollback_counts
          (enabled-All Allows s b.allows))
        r.below (record { allows = b.allows; counted = r.counted; bound = b.bound })

  push-Within :
      (c : Cycle N) (cs : List (Cycle N)) (log : List ℕ)
      (r : Option (RollbackExecution N) × RollbackAutomationService N)
      (rest : RollbackAutomationService N
        → List (RollbackExecution N) × RollbackAutomationService N)
      → Extends c.done log r
      → ((l : List ℕ) (s : RollbackAutomationService N)
          → Bounded c.done l s
          → Within m (l ++ successes k (rest s).0))
      → Within m (log ++ successes k (push_execution decimal num r.0 (rest r.1)).0)
  unfolding push_execution
  push-Within c cs log (none, s) rest f h = h log s (rw (← append-nil log) f)
  push-Within c cs log (some e, s) rest f h =
      rw
        (
          successes-append k (e ∷ []) (rest s).0,
          ← append_assoc log (successes k (e ∷ [])) (successes k (rest s).0),
        )
        (h (log ++ successes k (e ∷ [])) s f)

  run_cycles-Within :
      (t : ℕ) (cs : List (Cycle N)) (log : List ℕ) (s : RollbackAutomationService N)
      → Chronological t cs
      → Bounded t log s
      → Within m (log ++ successes k (run_cycles decimal num cs s).0)
  unfolding run_cycles
  run_cycles-Within t [] log s h b = rw (append-nil log) b.bound
  run_cycles-Within t (c ∷ cs) log s (h, g, l) b =
      push-Within c cs log _ (run_cycles decimal num cs) (cycle-Extends t c log s h g b)
        (λ log' s' b'. run_cycles-Within c.done cs log' s' l b')

  -- Where no strategy `k` allows more than `m` rollbacks in an hour, and the clock does not go back,
  -- no hour holds more than `m` successful rollbacks of `k`, however many cycles the service runs.
  pub rollbacks_per_hour :
      (xs : List (RollbackStrategy N)) (t : ℕ) (cs : List (Cycle N))
      → All Allows xs
      → Chronological t cs
      → (end : ℕ)
      → length (select (in_hour end) (successes k (run_cycles decimal num cs (new_service xs)).0))
        ≤ m
  unfolding new_service times_of
  rollbacks_per_hour xs t cs a h =
      (run_cycles-Within t cs [] (new_service xs) h (record {
        allows = set_strategies-All Allows xs [] a tt;
        counted = record { agrees = λ c l. refl };
        bound = record { within = λ t'. omega arith };
      })).within
