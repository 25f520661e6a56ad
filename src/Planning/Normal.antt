-- ===== src/Planning/Normal.antt =====
-- The normal form of an idea: intake.ts, `normalizeIdeaText`.
use Prim.Native.Char.{Char}
use Prim.Native.String.{String}
use code_kit_ultra.Base.{
  ◌≡◌, refl, ◌∙◌, Bool, true, false, not, if◌then◌else◌, ap, arith, begins, is_empty, trim_start,
  trim_end, trim_by, trim, replace_runs, is_space, begins-trim_by,
}
use code_kit_ultra.Planning.Intake.{normalize_idea_text}

module _ (p : Char → Bool) where
  -- The last character is not of the kind `p`; `b` says it of a text that is empty.
  abbrev closed : Bool → String → Bool
  closed b String.[] = b
  closed b (String.◌∷◌ c s) = closed (not (p c)) s

  closed_mono : (b : Bool) (s : String) → closed false s ≡ true → closed b s ≡ true
  closed_mono b String.[] h = cc
  closed_mono b (String.◌∷◌ c s) h = h

  closed_nonempty :
      (b k : Bool) (s : String) → is_empty s ≡ false → closed b s ≡ true → closed k s ≡ true
  closed_nonempty b k String.[] e h = cc
  closed_nonempty b k (String.◌∷◌ c s) e h = h

  closed-trim_end : (s : String) → closed true (trim_end p s) ≡ true
  unfolding trim_end
  closed-trim_end String.[] = refl
  closed-trim_end (String.◌∷◌ c s) =
      ground (arith, closed-trim_end s, closed_nonempty true (not (p c)) (trim_end p s))

  trim_end-closed : (b : Bool) (s : String) → closed b s ≡ true → trim_end p s ≡ s
  unfolding trim_end
  trim_end-closed b String.[] h = refl
  trim_end-closed b (String.◌∷◌ c String.[]) h = ground arith
  trim_end-closed b (String.◌∷◌ c (String.◌∷◌ e s)) h =
      rw (trim_end-closed (not (p c)) (String.◌∷◌ e s) h) (ground arith)

  trim_start-begins : (s : String) → begins p s ≡ true → trim_start p s ≡ s
  unfolding trim_start
  trim_start-begins String.[] h = refl
  trim_start-begins (String.◌∷◌ c s) h = ground arith

  trim_by-trimmed : (s : String) → begins p s ≡ true → closed true s ≡ true → trim_by p s ≡ s
  unfolding trim_by
  trim_by-trimmed s h k = ap (trim_end p) (trim_start-begins s h) ∙ trim_end-closed true s k

  module _ (d : Char) where
    begins-replace_runs :
        (b : Bool) (s : String) → begins p s ≡ true → begins p (replace_runs p d b s) ≡ true
    unfolding replace_runs
    begins-replace_runs b String.[] h = refl
    begins-replace_runs b (String.◌∷◌ c s) h = ground arith

    closed-replace_runs :
        (b k : Bool) (s : String)
        → p d ≡ true
        → closed k s ≡ true
        → closed k (replace_runs p d b s) ≡ true
    unfolding replace_runs
    closed-replace_runs b k String.[] q h = h
    closed-replace_runs b k (String.◌∷◌ c s) q h =
        ground (
          arith,
          closed-replace_runs (p c) (not (p c)) s q,
          closed_mono k (replace_runs p d (p c) s),
        )

    -- Each character of the kind is a `d` that stands alone.
    abbrev Single : Bool → String → Type 0
    Single b String.[] = Unit
    Single b (String.◌∷◌ c s) = (p c ≡ true → (b ≡ false) × (c ≡ d)) × Single (p c) s

    place-Single :
        (x b : Bool) (c : Char) (rest : String)
        → p c ≡ x
        → p d ≡ true
        → Single x rest
        → Single b (if x then if b then rest else String.◌∷◌ d rest else String.◌∷◌ c rest)
    place-Single true true c rest e q h = h
    place-Single true false c rest e q h = ((λ _. (refl, refl)), rw q h)
    place-Single false b c rest e q h = ((λ k. absurd (cc)), rw e h)

    replace_runs-Single : (b : Bool) (s : String) → p d ≡ true → Single b (replace_runs p d b s)
    unfolding replace_runs
    replace_runs-Single b String.[] q = tt
    replace_runs-Single b (String.◌∷◌ c s) q =
        place-Single (p c) b c (replace_runs p d (p c) s) refl q (replace_runs-Single (p c) s q)

    place_fixed :
        (x b : Bool) (c : Char) (rest : String)
        → (x ≡ true → (b ≡ false) × (c ≡ d))
        → (if x then if b then rest else String.◌∷◌ d rest else String.◌∷◌ c rest)
          ≡ String.◌∷◌ c rest
    place_fixed true b c rest f = rw ((f refl).0, (f refl).1) refl
    place_fixed false b c rest f = refl

    replace_runs_fixed : (b : Bool) (s : String) → Single b s → replace_runs p d b s ≡ s
    unfolding replace_runs
    replace_runs_fixed b String.[] h = refl
    replace_runs_fixed b (String.◌∷◌ c s) h =
        rw (replace_runs_fixed (p c) s h.1) (place_fixed (p c) b c s h.0)

  trim_by-closed : (s : String) → closed true (trim_by p s) ≡ true
  unfolding trim_by
  trim_by-closed s = closed-trim_end (trim_start p s)

-- Normalizing an idea that is normalized already changes nothing: no blanks are left at its ends, and
-- between its words stands one blank each.
pub normalize_idea_text_idem :
    (idea : String) → normalize_idea_text (normalize_idea_text idea) ≡ normalize_idea_text idea
unfolding normalize_idea_text trim
normalize_idea_text_idem idea =
    let t = trim_by is_space idea in
    let n = replace_runs is_space " " false t in
    ap (replace_runs is_space " " false) (
      trim_by-trimmed is_space n
        (begins-replace_runs is_space " " false t (begins-trim_by is_space idea))
        (closed-replace_runs is_space " " false true t blank (trim_by-closed is_space idea)))
    ∙ replace_runs_fixed is_space " " false n (replace_runs-Single is_space " " false t blank)
  where
    blank : is_space " " ≡ true
    blank = refl
