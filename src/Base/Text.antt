-- ===== src/Base/Text.antt =====
-- Texts: equality, membership, lookup in association lists, and search of a text in a text.
use Prim.Native.Char.{code}
use Prim.Native.Nat.{ℕ}
use Prim.Native.String.{String}
use mathlib.Core.Bool.{Bool, true, false, ◌&&◌, ◌||◌}
use mathlib.Core.Option.{Option, none, some, some_inj}
use mathlib.Core.List.{List, [], ◌∷◌}
use text.Mathlib.Text.{◌==◌ as str_eq}
use mathlib.Core.Path.{◌≡◌, ap, ◌∙◌, subst}
use text.Mathlib.TextEquality.{eq_iff}
use code_kit_ultra.Base.Tests.{◌==◌, if◌then◌else◌, if-split}
use code_kit_ultra.Base.Lists.{All}

-- `s === t`
abbrev pub same : String → String → Bool
same s t = str_eq s t

-- `xs.includes(s)`
abbrev pub includes : String → List String → Bool
includes s [] = false
includes s (x ∷ xs) = same x s || includes s xs

-- `m[k]`, `undefined` on a missing key
abbrev pub lookup {ℓ} : {V : Type ℓ} → String → List (String × V) → Option V
lookup k [] = none
lookup k ((j, v) ∷ m) = if same j k then some v else lookup k m

-- The code points of a text.
abbrev pub codes : String → List ℕ
codes String.[] = []
codes (String.◌∷◌ c s) = code c ∷ codes s

abbrev pub has_prefix : List ℕ → List ℕ → Bool
has_prefix [] s = true
has_prefix (p ∷ ps) [] = false
has_prefix (p ∷ ps) (c ∷ s) = (p == c) && has_prefix ps s

abbrev pub has_infix : List ℕ → List ℕ → Bool
has_infix p [] = has_prefix p []
has_infix p (c ∷ s) = has_prefix p (c ∷ s) || has_infix p s

-- `s.startsWith(p)`, `s.includes(p)`
abbrev pub starts_with : String → String → Bool
starts_with s p = has_prefix (codes p) (codes s)

abbrev pub contains : String → String → Bool
contains s p = has_infix (codes p) (codes s)

-- What holds of all the entries holds of the one that is found.
pub lookup-All {ℓ κ} :
    {V : Type ℓ} (P : String × V → Type κ) (k : String) (v : V) (m : List (String × V))
    → All P m
    → lookup k m ≡ some v
    → P (k, v)
lookup-All P k v [] h e = absurd (cc e)
lookup-All P k v ((j, x) ∷ m) h e =
    if-split (λ o. o ≡ some v → P (k, v)) (same j k) (some x) (lookup k m)
      (λ s f. subst P (ap (λ i. (i, x)) ((eq_iff j k).0 s) ∙ ap (λ y. (k, y)) (some_inj.0 f)) h.0)
      (λ _ f. lookup-All P k v m h.1 f) e
