-- ===== src/Base/Sorting.antt =====
-- `xs.sort((a, b) => f(b) - f(a))`: stable, the greatest first.
use Prim.Native.Nat.{ℕ}
use mathlib.Core.List.{List, [], ◌∷◌}
use code_kit_ultra.Base.Tests.{if◌then◌else◌, if-split, leb}
use code_kit_ultra.Base.Lists.{All}

module _ {ℓ} {A : Type ℓ} (f : A → ℕ) where
  abbrev pub place : A → List A → List A
  place x [] = x ∷ []
  place x (y ∷ ys) = if leb (f y) (f x) then x ∷ y ∷ ys else y ∷ place x ys

  abbrev pub sort_by : List A → List A
  sort_by [] = []
  sort_by (x ∷ xs) = place x (sort_by xs)

  pub place-All {κ} : (P : A → Type κ) (x : A) (ys : List A) → P x → All P ys → All P (place x ys)
  place-All P x [] p h = (p, tt)
  place-All P x (y ∷ ys) p h =
      if-split (All P) (leb (f y) (f x)) (x ∷ y ∷ ys) (y ∷ place x ys) (λ _. (p, h))
        (λ _. (h.0, place-All P x ys p h.1))

  pub sort_by-All {κ} : (P : A → Type κ) (xs : List A) → All P xs → All P (sort_by xs)
  sort_by-All P [] h = tt
  sort_by-All P (x ∷ xs) h = place-All P x (sort_by xs) h.0 (sort_by-All P xs h.1)
