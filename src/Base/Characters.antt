-- ===== src/Base/Characters.antt =====
-- Methods of JavaScript's strings that go character by character.
use Prim.Native.Char.{Char, code}
use Prim.Native.Nat.{ℕ, zero, suc, ◌≤◌, ◌/◌, ◌%◌}
use Prim.Native.String.{String, ◌++◌ as ◌<>◌}
use mathlib.Core.Bool.{Bool, true, false, not, ◌&&◌, ◌||◌}
use mathlib.Core.List.{[], ◌∷◌}
use mathlib.Core.Path.{◌≡◌, refl}
use native.Mathlib.Omega.{arith}
use code_kit_ultra.Base.Tests.{◌==◌, leb, if◌then◌else◌, or_default, and_true}
use code_kit_ultra.Base.Lists.{get_elem?}

-- `\s` of the regular expressions, and what `trim` removes.
unfoldable pub is_space : Char → Bool
is_space c =
    let n = code c in
    leb 9 n && leb n 13
    || n == 32
    || n == 160
    || n == 5760
    || leb 8192 n && leb n 8202
    || leb 8232 n && leb n 8233
    || n == 8239
    || n == 8287
    || n == 12288
    || n == 65279

abbrev pub is_empty : String → Bool
is_empty String.[] = true
is_empty (String.◌∷◌ c s) = false

abbrev pub size : String → ℕ
size String.[] = 0
size (String.◌∷◌ c s) = suc (size s)

abbrev pub all_chars : (Char → Bool) → String → Bool
all_chars p String.[] = true
all_chars p (String.◌∷◌ c s) = p c && all_chars p s

-- The first character, if there is one, is not of the kind.
abbrev pub begins : (Char → Bool) → String → Bool
begins p String.[] = true
begins p (String.◌∷◌ c s) = not (p c)

-- `s.slice(0, n)`, in characters
abbrev pub take_chars : ℕ → String → String
take_chars zero s = String.[]
take_chars (suc n) String.[] = String.[]
take_chars (suc n) (String.◌∷◌ c s) = String.◌∷◌ c (take_chars n s)

module _ (p : Char → Bool) where
  unfoldable pub trim_start : String → String
  trim_start String.[] = String.[]
  trim_start (String.◌∷◌ c s) = if p c then trim_start s else String.◌∷◌ c s

  unfoldable pub trim_end : String → String
  trim_end String.[] = String.[]
  trim_end (String.◌∷◌ c s) =
      let rest = trim_end s in if p c && is_empty rest then String.[] else String.◌∷◌ c rest

  -- `s.replace(/[p]+/g, d)`, behind a character of the run or not.
  unfoldable pub replace_runs : Char → Bool → String → String
  replace_runs d within String.[] = String.[]
  replace_runs d within (String.◌∷◌ c s) =
      let rest = replace_runs d (p c) s in
      if p c then if within then rest else String.◌∷◌ d rest else String.◌∷◌ c rest

unfoldable pub trim_by : (Char → Bool) → String → String
unfolding trim_start trim_end
trim_by p s = trim_end p (trim_start p s)

-- `s.trim()`
unfoldable pub trim : String → String
unfolding trim_by is_space
trim s = trim_by is_space s

-- The text of a digit.
abbrev pub digit : ℕ → String
digit n =
    or_default (get_elem? ("0" ∷ "1" ∷ "2" ∷ "3" ∷ "4" ∷ "5" ∷ "6" ∷ "7" ∷ "8" ∷ "9" ∷ []) n) ""

unfoldable pub digits : ℕ → ℕ → String → String
digits zero n rest = rest
digits (suc fuel) n rest =
    let text = digit (n % 10) <> rest in
    let more = digits fuel (n / 10) text in if n / 10 == 0 then text else more

-- `${n}`
unfoldable pub decimal : ℕ → String
unfolding digits
decimal n = digits (suc n) n ""

decimal_runs : decimal 207 ≡ "207"
unfolding decimal
decimal_runs = refl

-- Trimming and cutting keep the kind of the characters.
module _ (q : Char → Bool) where
  all_chars-trim_start :
      (p : Char → Bool) (s : String) → all_chars q s ≡ true → all_chars q (trim_start p s) ≡ true
  unfolding trim_start
  all_chars-trim_start p String.[] h = refl
  all_chars-trim_start p (String.◌∷◌ c s) h =
      ground (arith, all_chars-trim_start p s (and_true (q c) _ h).1)

  all_chars-trim_end :
      (p : Char → Bool) (s : String) → all_chars q s ≡ true → all_chars q (trim_end p s) ≡ true
  unfolding trim_end
  all_chars-trim_end p String.[] h = refl
  all_chars-trim_end p (String.◌∷◌ c s) h =
      ground (arith, all_chars-trim_end p s (and_true (q c) _ h).1)

  pub all_chars-trim_by :
      (p : Char → Bool) (s : String) → all_chars q s ≡ true → all_chars q (trim_by p s) ≡ true
  unfolding trim_by
  all_chars-trim_by p s h = all_chars-trim_end p _ (all_chars-trim_start p s h)

  pub all_chars-take_chars :
      (n : ℕ) (s : String) → all_chars q s ≡ true → all_chars q (take_chars n s) ≡ true
  all_chars-take_chars zero s h = refl
  all_chars-take_chars (suc n) String.[] h = refl
  all_chars-take_chars (suc n) (String.◌∷◌ c s) h =
      ground (arith, all_chars-take_chars n s (and_true (q c) _ h).1)

pub size-take_chars : (n : ℕ) (s : String) → size (take_chars n s) ≤ n
size-take_chars zero s = omega arith
size-take_chars (suc n) String.[] = omega arith
size-take_chars (suc n) (String.◌∷◌ c s) = omega (arith, size-take_chars n s)

module _ (p : Char → Bool) where
  begins-trim_start : (s : String) → begins p (trim_start p s) ≡ true
  unfolding trim_start
  begins-trim_start String.[] = refl
  begins-trim_start (String.◌∷◌ c s) = ground (arith, begins-trim_start s)

  begins-trim_end : (s : String) → begins p s ≡ true → begins p (trim_end p s) ≡ true
  unfolding trim_end
  begins-trim_end String.[] h = refl
  begins-trim_end (String.◌∷◌ c s) h = ground arith

  pub begins-trim_by : (s : String) → begins p (trim_by p s) ≡ true
  unfolding trim_by
  begins-trim_by s = begins-trim_end _ (begins-trim_start s)

  pub begins-take_chars :
      (n : ℕ) (s : String) → begins p s ≡ true → begins p (take_chars n s) ≡ true
  begins-take_chars zero s h = refl
  begins-take_chars (suc n) String.[] h = refl
  begins-take_chars (suc n) (String.◌∷◌ c s) h = h
