-- ===== src/Repair/Verified.antt =====
-- What a verified repair of a file shows: healing-engine.ts, lines 84 to 98, and revalidation.ts.
use Prim.Native.String.{String}
use code_kit_ultra.Base.{
  ◌≡◌, eq_iff, refl, List, [], ◌∷◌, Bool, true, false, not, ◌||◌, same, if◌then◌else◌, if-split,
  All, and_true, sort_by-All,
}
use code_kit_ultra.Repair.Strategies.{
  HealingContext, HealingStrategy, Files, find_candidate_strategies, get_healing_strategies,
  target_of, create_missing_directory, normalize_relative_path,
}
use code_kit_ultra.Repair.Engine.{
  HealingPolicy, HealingStore, HealingAttempt, verified, failed, is_verified, is_observe,
  requires_approval, save_healing_attempts, close_attempt, apply_strategy, try_strategy, decide,
  candidates_of, attempt_healing, rank_strategies, update_healing_stats, revalidate_after_heal,
}
use code_kit_ultra.Repair.Applied.{same-or, select-All}

verified_if : (b : Bool) → is_verified (if b then verified else failed) ≡ true → b ≡ true
verified_if true h = refl
verified_if false h = h

first-if : (b : Bool) (x y : Bool × String) → b ≡ true → (if b then x else y).0 ≡ true → x.0 ≡ true
first-if true x y h e = e
first-if false x y h e = absurd (cc (h))

unless_true : (b x : Bool) → (if b then false else x) ≡ true → x ≡ true
unless_true true x e = absurd (cc (e))
unless_true false x e = e

module _ {W : Type 0} (files : Files W) (c : HealingContext)
    (h : c.adapter_id ≡ "file-system") where
  -- The result of the strategy is checked.
  abbrev IsChecked : HealingStrategy W → Type 0
  IsChecked s = (w : W) → (s.apply c w).0.requires_reverification ≡ true

  registry-IsChecked :
      All
        (λ s. (same s.adapter_id c.adapter_id || same s.adapter_id "any") ≡ true → IsChecked s)
        (get_healing_strategies files)
  unfolding get_healing_strategies create_missing_directory normalize_relative_path
  registry-IsChecked = (
    λ _ w. refl,
    (
      λ _ w. refl,
      (
        λ e. absurd (cc (h, same-or c.adapter_id "terminal" e)),
        (
          λ e. absurd (cc (h, same-or c.adapter_id "terminal" e)),
          (λ e. absurd (cc (h, same-or c.adapter_id "github" e)), tt),
        ),
      ),
    ),
  )

  revalidate-shows :
      (w : W)
      → (revalidate_after_heal files c w).0 ≡ true
      → files.exists_sync (target_of c) w ≡ true
  unfolding revalidate_after_heal
  revalidate-shows w e =
      unless_true (same (target_of c) "") _
        (first-if (same c.adapter_id "file-system") _ _ ((eq_iff c.adapter_id "file-system").1 h) e)

  -- If the attempt is verified, the file is there.
  abbrev Shown : HealingAttempt × HealingStore W → Type 0
  Shown (a, t) = is_verified a.status ≡ true → files.exists_sync (target_of c) t.world ≡ true

  apply_strategy-Shown :
      (chosen : HealingStrategy W) (before : List HealingAttempt) (a : HealingAttempt)
      (s : HealingStore W)
      → IsChecked chosen
      → Shown (apply_strategy files c chosen before a s)
  unfolding apply_strategy close_attempt save_healing_attempts update_healing_stats
  apply_strategy-Shown chosen before a s checked e =
      let (result, w) = chosen.apply c s.world in
      revalidate-shows w (
        first-if result.requires_reverification _ _ (checked s.world)
          (and_true result.success _ (verified_if _ e)).1)

  decide-Shown :
      (policy : HealingPolicy) (candidates : List (HealingStrategy W))
      (before : List HealingAttempt) (a : HealingAttempt) (s : HealingStore W)
      → All IsChecked candidates
      → Shown (decide files policy c candidates before a s)
  unfolding decide try_strategy close_attempt
  decide-Shown policy [] before a s checked = λ e. absurd (cc (e))
  decide-Shown policy (chosen ∷ rest) before a s checked =
      if-split Shown (not policy.enabled) _ _ (λ _ e. absurd (cc (e)))
        (λ _.
          if-split Shown (is_observe policy.mode) _ _ (λ _ e. absurd (cc (e)))
            (λ _.
              if-split Shown (requires_approval chosen policy) _ _ (λ _ e. absurd (cc (e)))
                (λ _. apply_strategy-Shown chosen before _ s checked.0)))

-- An attempt to heal a step of the adapter called file-system that comes back verified leaves the
-- step's file in place.
pub attempt_healing-shows :
    {W : Type 0} (lower : String → String) (files : Files W) (policy : HealingPolicy)
    (c : HealingContext) (s : HealingStore W)
    → c.adapter_id ≡ "file-system"
    → is_verified (attempt_healing lower files policy c s).0.status ≡ true
    → files.exists_sync (target_of c) (attempt_healing lower files policy c s).1.world ≡ true
unfolding attempt_healing rank_strategies find_candidate_strategies
attempt_healing-shows lower files policy c s h =
    decide-Shown files c h policy (candidates_of lower files c) _ _ _ (
      sort_by-All _ (IsChecked files c h) _
        (select-All (IsChecked files c h) c.adapter_id _ _ (registry-IsChecked files c h)))
