-- ===== src/Planning/Slug.antt =====
-- The folder that a run writes to: planner.ts, lines 119 to 123.
use Prim.Native.Char.{Char}
use Prim.Native.String.{String}
use code_kit_ultra.Base.{
  ◌≤◌, ◌<◌, ◌≡◌, refl, Bool, true, false, not, ◌||◌, if-split, arith, begins, is_empty, size,
  all_chars, take_chars, trim_by, replace_runs, all_chars-trim_by, all_chars-take_chars,
  size-take_chars, begins-trim_by, begins-take_chars,
}
use code_kit_ultra.Planning.Initial.{is_alphanumeric, is_dash, slug}

-- Small letters, digits and dashes.
abbrev pub is_plain : Char → Bool
is_plain c = is_alphanumeric c || is_dash c

-- A name that stays within its folder: one to 48 small letters, digits and dashes, not starting with
-- a dash.
pub record IsSafe (s : String) : Type 0 where
  pub is_nonempty : 0 < size s
  pub is_short : size s ≤ 48
  pub is_made_of : all_chars is_plain s ≡ true
  pub starts : begins is_dash s ≡ true

dash-is_plain : is_plain "-" ≡ true
unfolding is_alphanumeric is_dash
dash-is_plain = refl

all_chars-replace_runs :
    (b : Bool) (s : String)
    → all_chars is_plain (replace_runs (λ c. not (is_alphanumeric c)) "-" b s) ≡ true
unfolding replace_runs
all_chars-replace_runs b String.[] = refl
all_chars-replace_runs b (String.◌∷◌ c s) =
    ground (arith, dash-is_plain, all_chars-replace_runs (not (is_alphanumeric c)) s)

size-nonempty : (s : String) → is_empty s ≡ false → 0 < size s
size-nonempty String.[] h = cc
size-nonempty (String.◌∷◌ c s) h = omega arith

project-IsSafe : IsSafe "project"
unfolding is_alphanumeric is_dash
project-IsSafe = record {
  is_nonempty = omega arith;
  is_short = omega arith;
  is_made_of = refl;
  starts = refl;
}

-- Whatever the idea, the run's folder has a name of one to 48 small letters, digits and dashes, which
-- does not start with a dash: no idea leads out of the folder of the generated files.
pub slug-IsSafe :
    (to_lower_case : String → String) (idea : String) → IsSafe (slug to_lower_case idea)
unfolding slug
slug-IsSafe lower idea =
    let dashed = replace_runs (λ c. not (is_alphanumeric c)) "-" false (lower idea) in
    let trimmed = trim_by is_dash dashed in
    if-split IsSafe (is_empty (take_chars 48 trimmed)) "project" (take_chars 48 trimmed)
      (λ _. project-IsSafe)
      (λ e. record {
        is_nonempty = size-nonempty (take_chars 48 trimmed) e;
        is_short = size-take_chars 48 trimmed;
        is_made_of =
            all_chars-take_chars is_plain 48 trimmed (
              all_chars-trim_by is_plain is_dash dashed
                (all_chars-replace_runs false (lower idea)));
        starts = begins-take_chars is_dash 48 trimmed (begins-trim_by is_dash dashed);
      })
