-- ===== src/Automation/Healing/Tracking.antt =====
-- healing-engine.ts, lines 90 to 148: the tracker of the conditions.
use code_kit_ultra.Base.{
  String, ℕ, ◌+◌, ◌*◌, ◌≤◌, ◌≡◌, ◌≢◌, refl, sym, ◌∙◌, List, [], ◌∷◌, Option, none, some, Bool, true,
  false, not, ◌&&◌, lookup, delete, lookup-insert_self, lookup-insert_other, lookup-delete_self,
  lookup-delete_other, All, All-zip, if◌then◌else◌, if-split, arith,
}
use mathlib.Core.Path.{subst}
use mathlib.Core.Option.{some_inj}
use code_kit_ultra.Governance.Numbers.{Numbers}
use code_kit_ultra.Automation.Healing.{
  HealingStrategy, HealingEngine, condition_key, strategies_of, condition_met, track_since, track,
  keep_if, find_applicable_strategies, evaluate_and_heal,
}

pub record Evaluation (N : Type 0) : Type 0 where
  pub now : ℕ
  pub metrics : List (String × N)

-- The engine after the evaluations, the last of which stands first.
unfoldable pub after :
    {N : Type 0}
    → (ℕ → String)
    → Numbers N
    → List (Evaluation N)
    → HealingEngine N
    → HealingEngine N
after decimal num [] s = s
after decimal num (c ∷ cs) s =
    (evaluate_and_heal num decimal c.now c.metrics (after decimal num cs s)).1

pub strategies-after :
    {N : Type 0} (decimal : ℕ → String) (num : Numbers N) (cs : List (Evaluation N))
    (s : HealingEngine N)
    → strategies_of (after decimal num cs s) ≡ strategies_of s
unfolding after evaluate_and_heal strategies_of
strategies-after decimal num [] s = refl
strategies-after decimal num (c ∷ cs) s = strategies-after decimal num cs s

-- No two strategies share an entry of the tracker.
abbrev pub HasOwnKeys : {N : Type 0} → List (HealingStrategy N) → Type 0
HasOwnKeys [] = Unit
HasOwnKeys (x ∷ xs) = All (λ y. condition_key y ≢ condition_key x) xs × HasOwnKeys xs

module _ {N : Type 0} (num : Numbers N) where
  -- The enabled strategy's condition holds.
  abbrev pub Holds : Evaluation N → HealingStrategy N → Type 0
  Holds c x = (x.enabled && condition_met num c.metrics x) ≡ true

  -- The condition held at the evaluation at `start` and at each one since.
  pub data Persisted (x : HealingStrategy N) : ℕ → List (Evaluation N) → Type 0 where
    since : (c : Evaluation N) (cs : List (Evaluation N)) → Holds c x → Persisted x c.now (c ∷ cs)
    still :
        {start : ℕ} (c : Evaluation N) (cs : List (Evaluation N))
        → Holds c x
        → Persisted x start cs
        → Persisted x start (c ∷ cs)

  -- It did so for as long as the strategy asks for.
  abbrev pub IsDue : List (Evaluation N) → ℕ → HealingStrategy N → Type 0
  IsDue cs now x = (start : ℕ) × Persisted x start cs × (start + x.condition.duration * 1000 ≤ now)

  Persisted-enabled :
      (x : HealingStrategy N) {start : ℕ} {cs : List (Evaluation N)}
      → Persisted x start cs
      → x.enabled ≡ true
  Persisted-enabled x (since c cs h) = ground arith
  Persisted-enabled x (still c cs h p) = Persisted-enabled x p

  -- The entry of the strategy is right.
  pub record IsTracked (cs : List (Evaluation N)) (tracker : List (String × ℕ))
      (x : HealingStrategy N) : Type 0 where
    pub tracked : (start : ℕ) → lookup (condition_key x) tracker ≡ some start → Persisted x start cs

  record Tracks (cs : List (Evaluation N)) (now : ℕ) (x : HealingStrategy N)
      (r : Bool × List (String × ℕ)) : Type 0 where
    due : r.0 ≡ true → IsDue cs now x
    kept : IsTracked cs r.1 x

  module _ (c : Evaluation N) (cs : List (Evaluation N)) where
    track_since-Tracks :
        (x : HealingStrategy N) (tracker : List (String × ℕ)) (o : Option ℕ)
        → lookup (condition_key x) tracker ≡ o
        → Holds c x
        → IsTracked cs tracker x
        → Tracks (c ∷ cs) c.now x (track_since num c.now x tracker o)
    unfolding track_since
    track_since-Tracks x tracker none e h t = record {
      due = λ b. cc;
      kept = record {
        tracked = λ start f.
            subst (λ t'. Persisted x t' (c ∷ cs))
              (some_inj.0 (sym (lookup-insert_self (condition_key x) c.now tracker) ∙ f))
              (since c cs h);
      };
    }
    track_since-Tracks x tracker (some start) e h t =
        let p = still c cs h (t.tracked start e) in
        record {
          due = λ b. (start, p, ground arith);
          kept = record {
            tracked = λ s f. subst (λ t'. Persisted x t' (c ∷ cs)) (some_inj.0 (sym e ∙ f)) p;
          };
        }

    track-Tracks :
        (x : HealingStrategy N) (tracker : List (String × ℕ))
        → IsTracked cs tracker x
        → Tracks (c ∷ cs) c.now x (track num c.now c.metrics x tracker)
    unfolding track
    track-Tracks x tracker t =
        if-split (Tracks (c ∷ cs) c.now x) (not x.enabled) _ _
          (λ e. record {
            due = λ b. cc;
            kept = record { tracked = λ s f. absurd (cc (Persisted-enabled x (t.tracked s f), e)) };
          })
          (λ e.
            if-split (Tracks (c ∷ cs) c.now x) (condition_met num c.metrics x) _ _
              (λ f. track_since-Tracks x tracker _ refl (ground arith) t)
              (λ f. record {
                due = λ b. cc;
                kept = record {
                  tracked = λ s g. cc (lookup-delete_self (condition_key x) tracker);
                };
              }))

    track_since_other :
        (k : String) (x : HealingStrategy N) (tracker : List (String × ℕ)) (o : Option ℕ)
        → condition_key x ≢ k
        → lookup k (track_since num c.now x tracker o).1 ≡ lookup k tracker
    unfolding track_since
    track_since_other k x tracker none n = lookup-insert_other (condition_key x) k c.now tracker n
    track_since_other k x tracker (some start) n = refl

    -- An entry of another key is not touched.
    track_other :
        (k : String) (x : HealingStrategy N) (tracker : List (String × ℕ))
        → condition_key x ≢ k
        → lookup k (track num c.now c.metrics x tracker).1 ≡ lookup k tracker
    unfolding track
    track_other k x tracker n =
        if-split (λ (r : Bool × List (String × ℕ)). lookup k r.1 ≡ lookup k tracker) (not x.enabled)
          (false, tracker)
          (if condition_met num c.metrics x
            then track_since num c.now x tracker (lookup (condition_key x) tracker)
            else (false, delete (condition_key x) tracker))
          (λ _. refl)
          (λ _.
            if-split (λ (r : Bool × List (String × ℕ)). lookup k r.1 ≡ lookup k tracker)
              (condition_met num c.metrics x)
              (track_since num c.now x tracker (lookup (condition_key x) tracker))
              (false, delete (condition_key x) tracker)
              (λ _. track_since_other k x tracker (lookup (condition_key x) tracker) n)
              (λ _. lookup-delete_other (condition_key x) k tracker n))

    find_other :
        (k : String) (xs : List (HealingStrategy N)) (tracker : List (String × ℕ))
        → All (λ x. condition_key x ≢ k) xs
        → lookup k (find_applicable_strategies num c.now c.metrics xs tracker).1 ≡ lookup k tracker
    unfolding find_applicable_strategies keep_if
    find_other k [] tracker n = refl
    find_other k (x ∷ xs) tracker n = find_other k xs _ n.1 ∙ track_other k x tracker n.0

    other-IsTracked :
        {ds : List (Evaluation N)} (x : HealingStrategy N) (t t' : List (String × ℕ))
        → lookup (condition_key x) t' ≡ lookup (condition_key x) t
        → IsTracked ds t x
        → IsTracked ds t' x
    other-IsTracked x t t' e k = record { tracked = λ start f. k.tracked start (sym e ∙ f) }

    pub record Finds (xs : List (HealingStrategy N))
        (r : List (HealingStrategy N) × List (String × ℕ)) : Type 0 where
      pub all_due : All (IsDue (c ∷ cs) c.now) r.0
      pub all_tracked : All (IsTracked (c ∷ cs) r.1) xs

    pub find-Finds :
        (xs : List (HealingStrategy N)) (tracker : List (String × ℕ))
        → HasOwnKeys xs
        → All (IsTracked cs tracker) xs
        → Finds xs (find_applicable_strategies num c.now c.metrics xs tracker)
    unfolding find_applicable_strategies keep_if
    find-Finds [] tracker h t = record { all_due = tt; all_tracked = tt }
    find-Finds (x ∷ xs) tracker h t =
        let r = track num c.now c.metrics x tracker in
        let own = track-Tracks x tracker t.0 in
        let rest = find-Finds xs r.1 h.1 (
          All-zip
            (λ y n k.
              other-IsTracked y tracker r.1
                (track_other (condition_key y) x tracker (λ e. n (sym e))) k)
            xs h.0 t.1) in
        record {
          all_due =
              if-split (All (IsDue (c ∷ cs) c.now)) r.0 _ _ (λ e. (own.due e, rest.all_due))
                (λ _. rest.all_due);
          all_tracked = (
            other-IsTracked x r.1 _ (find_other (condition_key x) xs r.1 h.0) own.kept,
            rest.all_tracked,
          );
        }

    -- What holds of the strategies holds of those that apply.
    pub find-All :
        (P : HealingStrategy N → Type 0) (xs : List (HealingStrategy N))
        (tracker : List (String × ℕ))
        → All P xs
        → All P (find_applicable_strategies num c.now c.metrics xs tracker).0
    unfolding find_applicable_strategies keep_if
    find-All P [] tracker h = tt
    find-All P (x ∷ xs) tracker h =
        let r = track num c.now c.metrics x tracker in
        let rest = find-All P xs r.1 h.1 in if-split (All P) r.0 _ _ (λ _. (h.0, rest)) (λ _. rest)
