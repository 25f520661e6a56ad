-- ===== src/Gates/Trim.antt =====
-- What `trimQuestionsByMode` keeps: mode-controller.ts, lines 186 to 206.
use code_kit_ultra.Base.{
  ℕ, zero, suc, ◌≤◌, ◌≡◌, refl, List, [], ◌∷◌, ◌++◌, ltb, take, drop, length, All, All-map, arith,
  if-split, ap, ◌<◌,
}
use mathlib.Core.List.{Perm}
use mathlib.Core.List.Perm
use code_kit_ultra.Shared.{Mode}
use code_kit_ultra.Gates.Modes.{
  Question, priority_weight, insert, sort, get_mode_policy, trim_questions_by_mode,
}

-- `q` weighs at least as much as all of the list.
abbrev pub Leads : Question → List Question → Type 0
Leads q rs = All (λ r. priority_weight r ≤ priority_weight q) rs

abbrev pub IsSorted : List Question → Type 0
IsSorted [] = Unit
IsSorted (q ∷ qs) = Leads q qs × IsSorted qs

insert-Leads :
    (p q : Question) (rs : List Question)
    → priority_weight q ≤ priority_weight p
    → Leads p rs
    → Leads p (insert q rs)
unfolding insert
insert-Leads p q [] h k = (h, tt)
insert-Leads p q (r ∷ rs) h k =
    if-split (Leads p) _ (r ∷ insert q rs) (q ∷ r ∷ rs) (λ _. (k.0, insert-Leads p q rs h k.1))
      (λ _. (h, k))

insert-IsSorted : (q : Question) (rs : List Question) → IsSorted rs → IsSorted (insert q rs)
unfolding insert
insert-IsSorted q [] h = (tt, tt)
insert-IsSorted q (r ∷ rs) h =
    if-split IsSorted (ltb (priority_weight q) (priority_weight r)) _ _
      (λ e. (insert-Leads r q rs (ground (arith, e)) h.0, insert-IsSorted q rs h.1))
      (λ e.
        let low : priority_weight r ≤ priority_weight q = ground (arith, e) in
        ((low, All-map (λ a k. omega (arith, k, low)) rs h.0), h))

sort-IsSorted : (qs : List Question) → IsSorted (sort qs)
unfolding sort
sort-IsSorted [] = tt
sort-IsSorted (q ∷ qs) = insert-IsSorted q (sort qs) (sort-IsSorted qs)

insert-Perm : (q : Question) (rs : List Question) → Perm (insert q rs) (q ∷ rs)
unfolding insert
insert-Perm q [] = Perm.refl _
insert-Perm q (r ∷ rs) =
    if-split (λ qs. Perm qs (q ∷ r ∷ rs)) _ _ _
      (λ _. Perm.trans (Perm.cons r (insert-Perm q rs)) (Perm.swap q r rs)) (λ _. Perm.refl _)

sort-Perm : (qs : List Question) → Perm (sort qs) qs
unfolding sort
sort-Perm [] = Perm.refl _
sort-Perm (q ∷ qs) = Perm.trans (insert-Perm q (sort qs)) (Perm.cons q (sort-Perm qs))

take-drop : (n : ℕ) (qs : List Question) → take n qs ++ drop n qs ≡ qs
take-drop zero qs = refl
take-drop (suc n) [] = refl
take-drop (suc n) (q ∷ qs) = ap (λ rs. q ∷ rs) (take-drop n qs)

All-take : (P : Question → Type 0) (n : ℕ) (qs : List Question) → All P qs → All P (take n qs)
All-take P zero qs h = tt
All-take P (suc n) [] h = tt
All-take P (suc n) (q ∷ qs) h = (h.0, All-take P n qs h.1)

All-drop : (P : Question → Type 0) (n : ℕ) (qs : List Question) → All P qs → All P (drop n qs)
All-drop P zero qs h = h
All-drop P (suc n) [] h = tt
All-drop P (suc n) (q ∷ qs) h = All-drop P n qs h.1

IsSorted-take : (n : ℕ) (qs : List Question) → IsSorted qs → IsSorted (take n qs)
IsSorted-take zero qs h = tt
IsSorted-take (suc n) [] h = tt
IsSorted-take (suc n) (q ∷ qs) h = (All-take _ n qs h.0, IsSorted-take n qs h.1)

-- Every kept question leads all those that are left out.
IsSorted-split :
    (n : ℕ) (qs : List Question) → IsSorted qs → All (λ q. Leads q (drop n qs)) (take n qs)
IsSorted-split zero qs h = tt
IsSorted-split (suc n) [] h = tt
IsSorted-split (suc n) (q ∷ qs) h = (All-drop _ n qs h.0, IsSorted-split n qs h.1)

length-take_le : (n : ℕ) (qs : List Question) → length (take n qs) ≤ n
length-take_le zero qs = omega arith
length-take_le (suc n) [] = omega arith
length-take_le (suc n) (q ∷ qs) = omega (arith, length-take_le n qs)

drop-cons : (n : ℕ) (qs : List Question) → 0 < length (drop n qs) → length (take n qs) ≡ n
drop-cons zero qs h = refl
drop-cons (suc n) [] h = omega (arith, h)
drop-cons (suc n) (q ∷ qs) h = ap suc (drop-cons n qs h)

-- `kept` is a choice of at most `n` of the questions, heaviest first, and none that is left out
-- weighs more than one that is kept; one is left out only when `n` are kept.
pub record IsBest (n : ℕ) (qs kept : List Question) : Type 0 where
  pub dropped : List Question
  pub is_choice : Perm (kept ++ dropped) qs
  pub is_short : length kept ≤ n
  pub is_sorted : IsSorted kept
  pub leads : All (λ q. Leads q dropped) kept
  pub is_full : 0 < length dropped → length kept ≡ n

-- The trimmed questions are, heaviest first, as many of the heaviest questions as the mode's limit
-- allows: no question that is left out weighs more than one that is kept, and one is left out only
-- when the limit is reached.
pub trim_questions_by_mode-IsBest :
    (qs : List Question) (mode : Mode)
    → IsBest (get_mode_policy mode).max_clarifying_questions qs (trim_questions_by_mode qs mode)
unfolding trim_questions_by_mode
trim_questions_by_mode-IsBest qs mode =
    let n = (get_mode_policy mode).max_clarifying_questions in
    record {
      dropped = drop n (sort qs);
      is_choice = rw (take-drop n (sort qs)) (sort-Perm qs);
      is_short = length-take_le n (sort qs);
      is_sorted = IsSorted-take n (sort qs) (sort-IsSorted qs);
      leads = IsSorted-split n (sort qs) (sort-IsSorted qs);
      is_full = drop-cons n (sort qs);
    }
