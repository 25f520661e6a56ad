-- ===== src/Memory/Tidy.antt =====
-- The lists of the memory: run-store.ts, lines 239 to 265 and 404 to 424.
use code_kit_ultra.Base.{
  String, ℕ, zero, suc, ◌≤◌, ◌≡◌, refl, List, [], ◌∷◌, some, true, false, ◌||◌, same, includes,
  take, length, or_default, if-split, Option-cases, ap, sym, ◌∙◌, inl, inr, All, eq_refl, eq_iff,
  trim, arith,
}
use mathlib.Core.Option.{some_inj}
use mathlib.Core.Path.{subst}
use code_kit_ultra.Memory.Values.{Value}
use code_kit_ultra.Memory.Loads.{record_run_lem, record_run-unread}
use code_kit_ultra.Memory.Project.{
  ProjectMemory, RunStoreOptions, RecordTimes, dedupe, Disk, dedupe_preserve_order,
  load_project_memory, save_run_report, report_path, record_run, remember, remembered,
}

abbrev pub IsDistinct : List String → Type 0
IsDistinct [] = Unit
IsDistinct (s ∷ ss) = (includes s ss ≡ false) × IsDistinct ss

-- No text twice, and none empty.
abbrev pub IsClean : List String → Type 0
IsClean ss = All (λ s. same s "" ≡ false) ss × IsDistinct ss

dedupe-includes :
    (s : String) (seen values : List String)
    → includes s seen ≡ true
    → includes s (dedupe seen values) ≡ false
unfolding dedupe
dedupe-includes s seen [] h = refl
dedupe-includes s seen (v ∷ values) h = ground (
  arith,
  dedupe-includes s seen values h,
  dedupe-includes s (trim v ∷ seen) values,
  eq_iff (trim v) s,
)

dedupe-IsClean : (seen values : List String) → IsClean (dedupe seen values)
unfolding dedupe
dedupe-IsClean seen [] = (tt, tt)
dedupe-IsClean seen (v ∷ values) =
    let t = trim v in
    let rest = dedupe-IsClean (t ∷ seen) values in
    let fresh : includes t (t ∷ seen) ≡ true = rw (eq_refl t) refl in
    if-split IsClean (same t "" || includes t seen) (dedupe seen values)
      (t ∷ dedupe (t ∷ seen) values) (λ _. dedupe-IsClean seen values)
      (λ e. ((ground (arith, e), rest.0), (dedupe-includes t (t ∷ seen) values fresh, rest.1)))

take-includes :
    (s : String) (n : ℕ) (ss : List String) → includes s ss ≡ false → includes s (take n ss) ≡ false
take-includes s zero ss h = refl
take-includes s (suc n) [] h = refl
take-includes s (suc n) (t ∷ ss) h = ground (arith, take-includes s n ss)

take-IsClean : (n : ℕ) (ss : List String) → IsClean ss → IsClean (take n ss)
take-IsClean zero ss h = (tt, tt)
take-IsClean (suc n) [] h = h
take-IsClean (suc n) (s ∷ ss) h =
    let k = take-IsClean n ss (h.0.1, h.1.1) in ((h.0.0, k.0), (take-includes s n ss h.1.0, k.1))

length-take_le {ℓ} : {A : Type ℓ} (n : ℕ) (xs : List A) → length (take n xs) ≤ n
length-take_le zero xs = omega arith
length-take_le (suc n) [] = omega arith
length-take_le (suc n) (x ∷ xs) = omega (arith, length-take_le n xs)

-- The bounds that the options set, or 20, 20 and 50.
pub record IsTidy (options : RunStoreOptions) (m : ProjectMemory) : Type 0 where
  pub ideas : IsClean m.recent_ideas
  pub ideas_bound : length m.recent_ideas ≤ or_default options.max_recent_ideas 20
  pub directories : IsClean m.recent_artifact_directories
  pub directories_bound :
      length m.recent_artifact_directories ≤ or_default options.max_recent_artifacts 20
  pub runs_bound : length m.runs ≤ or_default options.max_stored_runs 50

remembered-IsTidy :
    (join : String → String → String) (root : String) (options : RunStoreOptions)
    (times : RecordTimes) (report : Value) (m : ProjectMemory)
    → IsTidy options (remembered join root options times report m)
unfolding remembered remember dedupe_preserve_order
remembered-IsTidy join root options times report m = record {
  ideas = take-IsClean _ _ (dedupe-IsClean [] _);
  ideas_bound = length-take_le _ _;
  directories = take-IsClean _ _ (dedupe-IsClean [] _);
  directories_bound = length-take_le _ _;
  runs_bound = length-take_le _ _;
}

-- Whatever was stored, the memory after a recorded run lists no idea and no directory twice, none that
-- is empty, and no more ideas, directories and runs than the options allow, or 20, 20 and 50.
pub record_run-IsTidy :
    (join : String → String → String) (root : String) (options : RunStoreOptions)
    (times : RecordTimes) (report : Value) (disk : Disk) (m : ProjectMemory)
    → (record_run join root options times report disk).0 ≡ some m
    → IsTidy options m
record_run-IsTidy join root options times report disk m h =
    let written = save_run_report (report_path join root times) report disk in
    elim (Option-cases (load_project_memory times.updated written)) [
      | inl e ↦ absurd (cc (record_run-unread join root options times report disk e, h))
      | inr (old, e) ↦
          let step = ap (λ r. r.0) (record_run_lem join root options times report disk old e) in
          subst (IsTidy options) (some_inj.0 (sym step ∙ h))
            (remembered-IsTidy join root options times report old)
    ]
