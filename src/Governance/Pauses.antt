-- ===== src/Governance/Pauses.antt =====
-- Which gates stop a run: gate-manager.ts, lines 38 to 166, and launch-gate.ts.
use code_kit_ultra.Base.{
  String, ◌≡◌, refl, ◌∙◌, ap, List, [], ◌∷◌, Bool, true, false, not, ◌&&◌, ◌||◌, any, same,
  if-split, eq_iff, arith, Bool-cases, inl, inr,
}
use code_kit_ultra.Governance.Checks.{
  GateEvaluationContext, Severity, GateResult, pass_result, fail_result, launch_gate,
}
use code_kit_ultra.Governance.Sequence.{
  is_blocked, should_pause, is_unattended, should_pause_for_gate, requires_review, has_blocked,
}

unfoldable pub is_pass : Severity → Bool
is_pass Severity.pass = true
is_pass _ = false

pauses-case :
    (s : Severity) (safe : Bool) → should_pause s safe ≡ (is_blocked s || (safe && not (is_pass s)))
unfolding should_pause is_blocked is_pass
pauses-case Severity.pass safe = ground arith
pauses-case Severity.fail safe = ground arith
pauses-case Severity.warning safe = ground arith
pauses-case Severity.blocked safe = refl

any-pauses :
    (results : List GateResult) (safe : Bool)
    → any (λ r. should_pause r.severity safe) results ≡ (
        any (λ r. is_blocked r.severity) results
        || (safe && any (λ r. not (is_pass r.severity)) results))
any-pauses [] safe = ground arith
any-pauses (r ∷ results) safe = ground (arith, pauses-case r.severity safe, any-pauses results safe)

any-attended :
    (b : Bool) (p : GateResult → Bool) (results : List GateResult)
    → any (λ r. b && p r) results ≡ (b && any p results)
any-attended true p results = refl
any-attended false p [] = refl
any-attended false p (r ∷ results) = any-attended false p results

-- A run stops for a review, outside the god and turbo modes, exactly when a gate is blocked, or in
-- the safe mode when a gate does not pass.
pub requires_review-lem :
    (results : List GateResult) (mode : String)
    → requires_review results mode ≡ (
        not (is_unattended mode)
        && (has_blocked results
            || (same mode "safe" && any (λ r. not (is_pass r.severity)) results)))
unfolding requires_review should_pause_for_gate has_blocked
requires_review-lem results mode =
    any-attended (not (is_unattended mode)) _ results
    ∙ ap (λ b. not (is_unattended mode) && b) (any-pauses results (same mode "safe"))

approval-safe :
    (mode : String)
    → (same mode "expert" || same mode "god") ≡ true
    → (not (is_unattended mode) && same mode "safe") ≡ false
approval-safe mode e = elim (Bool-cases (same mode "safe")) [
  | inl h ↦ cc (ap (λ m. same m "expert" || same m "god") ((eq_iff mode "safe").0 h), e)
  | inr h ↦ ground (arith, h)
]

-- The launch gate, which asks for a final approval in the expert and god modes, stops a run in no
-- mode.
pub launch_gate-pauses :
    {N : Type 0} (context : GateEvaluationContext N)
    → should_pause_for_gate (launch_gate context) context.mode ≡ false
unfolding should_pause_for_gate launch_gate fail_result pass_result should_pause
launch_gate-pauses context =
    if-split
      (λ (r : GateResult).
        (not (is_unattended context.mode) && should_pause r.severity (same context.mode "safe"))
        ≡ false)
      (same context.mode "expert" || same context.mode "god") (fail_result "Launch Gate" true)
      (pass_result "Launch Gate") (approval-safe context.mode) (λ _. ground arith)
