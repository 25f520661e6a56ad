-- ===== src/Automation/Rollbacks/Counts.antt =====
-- rollback-automation.ts, lines 98 to 243: how often a strategy rolls back, where one cycle ends before
-- the next begins.
use code_kit_ultra.Base.{
  String, ℕ, ◌+◌, ◌≤◌, ◌<◌, ◌≡◌, refl, sym, ◌∙◌, ap, List, [], ◌∷◌, ◌++◌, Option, none, some, Bool,
  true, false, ◌&&◌, select, select-append, select-select, length-select_mono, length-append,
  length, insert, lookup-insert_self, lookup-insert_other, same, ltb, leb, if◌then◌else◌, if-split,
  Bool-cases, inl, inr, arith, eq_iff, find, same→ne,
}
use mathlib.Core.Path.{subst}
use code_kit_ultra.Governance.Numbers.{Numbers}
use code_kit_ultra.Automation.Rollbacks.{
  RollbackStrategy, RollbackTrigger, RollbackStatus, RollbackExecution, Times, Cycle, is_recent,
  times_of, take_trigger, check_limit, choose_strategy, is_in_cooldown, has_exceeded_rollback_limit,
  evaluate_trigger,
}
use code_kit_ultra.Automation.Rollbacks.Choice.{Chosen}

-- The clock does not go back, within a cycle and from one to the next.
abbrev pub Chronological : {N : Type 0} → ℕ → List (Cycle N) → Type 0
Chronological t [] = Unit
Chronological t (c ∷ cs) = (t ≤ c.now) × (c.now ≤ c.done) × Chronological c.done cs

-- The hour that ends at `t`.
abbrev pub in_hour : ℕ → ℕ → Bool
in_hour t time = ltb t (time + 3600000) && leb time t

abbrev pub ended_well : RollbackStatus → Bool
ended_well RollbackStatus.success = true
ended_well _ = false

-- When the successful rollbacks of a strategy ended.
abbrev pub successes : {N : Type 0} → String → List (RollbackExecution N) → List ℕ
successes k [] = []
successes k (e ∷ es) =
    if ended_well e.status && same e.strategy_id k
    then e.completed_at ∷ successes k es
    else successes k es

-- Two lists that no test from `now` on tells apart.
pub record Agrees (now : ℕ) (xs ys : List ℕ) : Type 0 where
  pub agrees : (c : ℕ) → now ≤ c → select (is_recent c) xs ≡ select (is_recent c) ys

pub later-Agrees : (t now : ℕ) {xs ys : List ℕ} → t ≤ now → Agrees t xs ys → Agrees now xs ys
later-Agrees t now h a = record { agrees = λ c k. a.agrees c (omega arith) }

prune-Agrees :
    (now : ℕ) (xs ys : List ℕ) → Agrees now xs ys → Agrees now (select (is_recent now) xs) ys
unfolding is_recent
prune-Agrees now xs ys a = record {
  agrees =
      λ c h. select-select (is_recent now) (is_recent c) (λ t e. ground arith) xs ∙ a.agrees c h;
}

pub append-Agrees :
    (now d : ℕ) (xs ys : List ℕ) → Agrees now xs ys → Agrees now (xs ++ d ∷ []) (ys ++ d ∷ [])
append-Agrees now d xs ys a = record {
  agrees = λ c h.
      select-append (is_recent c) xs (d ∷ [])
      ∙ ap (λ zs. zs ++ select (is_recent c) (d ∷ [])) (a.agrees c h)
      ∙ sym (select-append (is_recent c) ys (d ∷ []));
}

-- No hour holds more than `m` of the times.
pub record Within (m : ℕ) (log : List ℕ) : Type 0 where
  pub within : (t : ℕ) → length (select (in_hour t) log) ≤ m

within_recent :
    (t now d a : ℕ) → now ≤ d → in_hour t d ≡ true → in_hour t a ≡ true → is_recent now a ≡ true
unfolding is_recent
within_recent t now d a h e g = ground arith

pub append-Within :
    (m now d : ℕ) (log : List ℕ)
    → now ≤ d
    → length (select (is_recent now) log) < m
    → Within m log
    → Within m (log ++ d ∷ [])
unfolding is_recent
append-Within m now d log h l w = record {
  within = λ t.
      rw
        (
          select-append (in_hour t) log (d ∷ []),
          length-append (select (in_hour t) log) (select (in_hour t) (d ∷ [])),
        )
        (elim (Bool-cases (in_hour t d)) [
          | inl e ↦
              let k =
                length-select_mono (in_hour t) (is_recent now)
                  (λ a g. within_recent t now d a h e g) log in
              rw e (omega (arith, k, l))
          | inr e ↦ rw e (omega (arith, w.within t))
        ]);
}

-- The list that the service keeps for `k`, after it has looked at the strategy `j`.
times_of-prune :
    (now : ℕ) (j k : String) (counts : Times) (log : List ℕ)
    → Agrees now (times_of k counts) log
    → Agrees now (times_of k (insert j (select (is_recent now) (times_of j counts)) counts)) log
unfolding times_of
times_of-prune now j k counts log a =
    let times = select (is_recent now) (times_of j counts) in
    elim (Bool-cases (same j k)) [
      | inl e ↦
          subst
            (λ i.
              Agrees now (times_of k (insert i (select (is_recent now) (times_of i counts)) counts))
                log)
            (sym ((eq_iff j k).0 e))
            (rw (lookup-insert_self k (select (is_recent now) (times_of k counts)) counts)
              (prune-Agrees now _ log a))
      | inr e ↦ rw (lookup-insert_other j k times counts (same→ne j k e)) a
    ]

module _ {N : Type 0} (num : Numbers N) (k : String) where
  -- Where the strategy `k` is chosen, it was below its limit.
  abbrev pub IsBelow : ℕ → List ℕ → RollbackStrategy N → Type 0
  IsBelow now log x = x.id ≡ k → length (select (is_recent now) log) < x.max_rollbacks_per_hour

  pub record Guarded (now : ℕ) (log : List ℕ)
      (r : Option (RollbackStrategy N × RollbackTrigger N) × Times) : Type 0 where
    pub below : Chosen (IsBelow now log) r.0
    pub counted : Agrees now (times_of k r.1) log

  module _ (now : ℕ) (log : List ℕ) where
    take_trigger-Guarded :
        (rest : Times → Option (RollbackStrategy N × RollbackTrigger N) × Times)
        (x : RollbackStrategy N) (counts : Times) (t : Option (RollbackTrigger N))
        → ((c : Times) → Agrees now (times_of k c) log → Guarded now log (rest c))
        → IsBelow now log x
        → Agrees now (times_of k counts) log
        → Guarded now log (take_trigger num rest x counts t)
    unfolding take_trigger
    take_trigger-Guarded rest x counts none h b a = h counts a
    take_trigger-Guarded rest x counts (some t) h b a = record { below = b; counted = a }

    check_limit-Guarded :
        (rest : Times → Option (RollbackStrategy N × RollbackTrigger N) × Times)
        (metrics : List (String × N)) (x : RollbackStrategy N) (r : Bool × Times)
        → ((c : Times) → Agrees now (times_of k c) log → Guarded now log (rest c))
        → (r.0 ≡ false → IsBelow now log x)
        → Agrees now (times_of k r.1) log
        → Guarded now log (check_limit num rest metrics x r)
    unfolding check_limit
    check_limit-Guarded rest metrics x (true, counts) h b a = h counts a
    check_limit-Guarded rest metrics x (false, counts) h b a =
        take_trigger-Guarded rest x counts (find (evaluate_trigger num metrics) x.triggers) h
          (b refl) a

    limit-IsBelow :
        (x : RollbackStrategy N) (counts : Times)
        → Agrees now (times_of k counts) log
        → leb x.max_rollbacks_per_hour (length (select (is_recent now) (times_of x.id counts)))
          ≡ false
        → IsBelow now log x
    limit-IsBelow x counts a h e =
        let f = a.agrees now (omega arith) in
        let g = ap (λ i. length (select (is_recent now) (times_of i counts))) e in
        let f' = ap length f in ground (arith, h, f', g)

    pub choose_strategy-Guarded :
        (metrics : List (String × N)) (last : List (String × ℕ)) (xs : List (RollbackStrategy N))
        (counts : Times)
        → Agrees now (times_of k counts) log
        → Guarded now log (choose_strategy num now metrics last xs counts)
    unfolding choose_strategy has_exceeded_rollback_limit
    choose_strategy-Guarded metrics last [] counts a = record { below = tt; counted = a }
    choose_strategy-Guarded metrics last (x ∷ xs) counts a =
        let rest = choose_strategy num now metrics last xs in
        let ok = choose_strategy-Guarded metrics last xs in
        let r = has_exceeded_rollback_limit now x.id x.max_rollbacks_per_hour counts in
        if-split (Guarded now log) (is_in_cooldown now last x.id x.cooldown_period) (rest counts)
          (check_limit num rest metrics x r) (λ _. ok counts a)
          (λ _.
            check_limit-Guarded rest metrics x r ok (limit-IsBelow x counts a)
              (times_of-prune now x.id k counts log a))
