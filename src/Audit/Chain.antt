-- ===== src/Audit/Chain.antt =====
-- The chains of hashes of the audit logs.
use code_kit_ultra.Base.{
  String, ◌≡◌, refl, sym, ◌∙◌, List, [], ◌∷◌, ◌++◌, Bool, true, false, same, if◌then◌else◌,
  if-split,
}
use mathlib.Core.Path.{subst}
use mathlib.Core.List.{append_assoc}
use code_kit_ultra.Audit.Log.{
  Content, Body, AuditEvent, AuditState, genesis, tip, seal, save_audit_log, append_audit_event,
  append_global, write_audit_event,
}

module _ (hash_body : Body → String) where
  -- Each event has the hash of its body, and names the hash of the event before it, the first one `prev`.
  abbrev pub IsChain : String → List AuditEvent → Type 0
  IsChain prev [] = Unit
  IsChain prev (e ∷ es) =
      (e.body.prev_hash ≡ prev) × (e.hash ≡ hash_body e.body) × IsChain e.hash es

  tip-cons : (p : String) (e : AuditEvent) (es : List AuditEvent) → tip p (e ∷ es) ≡ tip e.hash es
  unfolding tip
  tip-cons p e [] = refl
  tip-cons p e (f ∷ es) = tip-cons p f es ∙ sym (tip-cons e.hash f es)

  IsChain-seal :
      (content : Content) (p : String) (es : List AuditEvent)
      → IsChain p es
      → IsChain p (es ++ seal hash_body content (tip p es) ∷ [])
  unfolding seal tip
  IsChain-seal content p [] h = (refl, refl, tt)
  IsChain-seal content p (e ∷ es) h =
      (h.0, h.1, rw (tip-cons p e es) (IsChain-seal content e.hash es h.2))

  -- Writing an event keeps the log of every run a chain from the genesis block, if all of them
  -- were chains before.
  pub write_audit_event-IsChain :
      (content inner : Content) (s : AuditState)
      → ((r : String) → IsChain genesis (s.logs r))
      → (r : String) → IsChain genesis ((write_audit_event hash_body content inner s).logs r)
  unfolding write_audit_event append_global append_audit_event save_audit_log
  write_audit_event-IsChain content inner s h r =
      let s' = append_global hash_body content s in
      let inner' = record inner { run_id = content.run_id } in
      if-split (λ (t : AuditState). IsChain genesis (t.logs r)) (same content.run_id "none") s'
        (append_audit_event hash_body inner' s') (λ _. h r)
        (λ _.
          if-split (IsChain genesis) (same r content.run_id)
            (s.logs content.run_id
              ++ seal hash_body inner' (tip genesis (s.logs content.run_id)) ∷ [])
            (s.logs r) (λ _. IsChain-seal inner' genesis (s.logs content.run_id) (h content.run_id))
            (λ _. h r))

  IsChain-last :
      (p : String) (es : List AuditEvent) (e f : AuditEvent)
      → IsChain p (es ++ e ∷ f ∷ [])
      → f.body.prev_hash ≡ e.hash
  IsChain-last p [] e f h = h.2.0
  IsChain-last p (x ∷ es) e f h = IsChain-last x.hash es e f h.2

  IsChain-else :
      (p : String) (b : Bool) (s t : AuditState)
      → b ≡ false
      → IsChain p (if b then s else t).global
      → IsChain p t.global
  IsChain-else p true s t e h = cc
  IsChain-else p false s t e h = h

  -- After an event of a run is written, the global file is a chain only if the log of the run had
  -- happened to end in the hash of the event that was written to the global file just before.
  pub write_audit_event-breaks :
      (content inner : Content) (s : AuditState) (p : String)
      → same content.run_id "none" ≡ false
      → IsChain p (write_audit_event hash_body content inner s).global
      → tip genesis (s.logs content.run_id) ≡ (append_global hash_body content s).last_hash
  unfolding write_audit_event append_global append_audit_event save_audit_log seal
  write_audit_event-breaks content inner s p run h =
      let s' = append_global hash_body content s in
      let t = append_audit_event hash_body (record inner { run_id = content.run_id }) s' in
      IsChain-last p s.global _ _ (
        subst (IsChain p) (append_assoc s.global _ _)
          (IsChain-else p (same content.run_id "none") s' t run h))
