-- ===== src/Governance/Decisions.antt =====
-- What the table of decisions answers after a decision is recorded or overridden: gate-store.ts.
use code_kit_ultra.Base.{
  String, ◌≡◌, refl, ◌∙◌, ap, List, [], ◌∷◌, map, Option, some, Bool, true, false, not, ◌&&◌, any,
  select, find, same, if◌then◌else◌, if-split, if_map, map_some, find-map, and_true, sym, eq_refl,
}
use code_kit_ultra.Governance.Store.{
  DecisionStatus, Row, is_pending, replace_row, record_gate_decision, get_pending_gates, waits_for,
  approve_row, approve_gate, reject_row, reject_gate, is_decision_of, get_gate_decision,
  override_gate_decision,
}

unfoldable pub settled : DecisionStatus → DecisionStatus → DecisionStatus
settled to DecisionStatus.needs_review = to
settled to s = s

-- What a reviewer's decision on a gate does to a row: only a pending row of the gate changes, and
-- only in its status and in the reviewer's name and reason.
record Decides (gate_id : String) (to : DecisionStatus) (f : Row → Row) : Type 0 where
  keeps_gate : (r : Row) → (f r).gate_id ≡ r.gate_id
  keeps_run : (r : Row) → (f r).run_id ≡ r.run_id
  sets : (r : Row) → (f r).status ≡ (if waits_for gate_id r then to else r.status)
  others : (r : Row) → waits_for gate_id r ≡ false → f r ≡ r
  settles : is_pending to ≡ false

Decides-if :
    (g : String) (to : DecisionStatus) (change : Row → Row)
    → ((r : Row) → (change r).gate_id ≡ r.gate_id)
    → ((r : Row) → (change r).run_id ≡ r.run_id)
    → ((r : Row) → (change r).status ≡ to)
    → is_pending to ≡ false
    → Decides g to (λ r. if waits_for g r then change r else r)
Decides-if g to change gate run status settles = record {
  keeps_gate = λ r.
      if-split (λ (s : Row). s.gate_id ≡ r.gate_id) (waits_for g r) (change r) r (λ _. gate r)
        (λ _. refl);
  keeps_run = λ r.
      if-split (λ (s : Row). s.run_id ≡ r.run_id) (waits_for g r) (change r) r (λ _. run r)
        (λ _. refl);
  sets = λ r.
      if_map (λ (s : Row). s.status) (waits_for g r) (change r) r
      ∙ ap (λ s. if waits_for g r then s else r.status) (status r);
  others = λ r e. rw e refl;
  settles = settles;
}

approve-Decides : (g v : String) → Decides g DecisionStatus.pass (approve_row g v)
unfolding approve_row is_pending
approve-Decides g v = Decides-if g _ _ (λ r. refl) (λ r. refl) (λ r. refl) refl

reject-Decides : (g v t : String) → Decides g DecisionStatus.blocked (reject_row g v t)
unfolding reject_row is_pending
reject-Decides g v t = Decides-if g _ _ (λ r. refl) (λ r. refl) (λ r. refl) refl

-- The status of the newest decision on a gate in a run.
abbrev pub newest_status : String → String → List Row → Option DecisionStatus
newest_status g run table = map_some (λ r. r.status) (get_gate_decision g run table)

settled-if : (s to : DecisionStatus) → (if is_pending s then to else s) ≡ settled to s
unfolding is_pending settled
settled-if DecisionStatus.pass to = refl
settled-if DecisionStatus.fail to = refl
settled-if DecisionStatus.needs_review to = refl
settled-if DecisionStatus.blocked to = refl

pending-settled_if :
    (b : Bool) (s to : DecisionStatus)
    → b ≡ true
    → (if b && is_pending s then to else s) ≡ settled to s
pending-settled_if true s to h = settled-if s to
pending-settled_if false s to h = cc

-- One row of the pending ones, before (`r`, pending if `s`) and after (`x`, pending if `q`).
pending-cell :
    (g p s q : Bool) (x r : Row) (rest : List Row)
    → ((g && s) ≡ true → q ≡ false)
    → ((g && s) ≡ false → (x ≡ r) × (q ≡ s))
    → (if p && q then x ∷ rest else rest)
      ≡ (if p && s then (if not g then r ∷ rest else rest) else rest)
pending-cell g false s q x r rest h k = refl
pending-cell true true true q x r rest h k = rw (h refl) refl
pending-cell true true false q x r rest h k = rw (k refl).1 refl
pending-cell false true s q x r rest h k = rw ((k refl).0, (k refl).1) refl

module _ (g : String) (to : DecisionStatus) (f : Row → Row) (d : Decides g to f) where
  found-settled :
      (run : String) (table : List Row)
      → map_some (λ r. r.status) (map_some f (find (is_decision_of g run) table))
        ≡ map_some (settled to) (map_some (λ r. r.status) (find (is_decision_of g run) table))
  unfolding is_decision_of waits_for
  found-settled run [] = refl
  found-settled run (r ∷ table) =
      if-split
        (λ o.
          map_some (λ r. r.status) (map_some f o)
          ≡ map_some (settled to) (map_some (λ r. r.status) o))
        (same r.gate_id g && same r.run_id run) (some r) (find (is_decision_of g run) table)
        (λ e.
          ap some (d.sets r ∙ pending-settled_if (same r.gate_id g) r.status to (and_true _ _ e).0))
        (λ e. found-settled run table)

  newest-settled :
      (run : String) (table : List Row)
      → newest_status g run (map f table) ≡ map_some (settled to) (newest_status g run table)
  unfolding get_gate_decision is_decision_of
  newest-settled run table =
      ap (map_some (λ r. r.status))
        (find-map (is_decision_of g run) f (λ r. rw (d.keeps_gate r, d.keeps_run r) refl) table)
      ∙ found-settled run table

  pending-settled :
      (run : String) (table : List Row)
      → get_pending_gates run (map f table)
        ≡ select (λ r. not (same r.gate_id g)) (get_pending_gates run table)
  unfolding get_pending_gates waits_for
  pending-settled run [] = refl
  pending-settled run (r ∷ table) =
      let after = get_pending_gates run (map f table) in
      let before = get_pending_gates run table in
      ap (λ id. if same id run && is_pending (f r).status then f r ∷ after else after)
        (d.keeps_run r)
      ∙ ap (λ rest. if same r.run_id run && is_pending (f r).status then f r ∷ rest else rest)
          (pending-settled run table)
      ∙ pending-cell (same r.gate_id g) (same r.run_id run) (is_pending r.status)
          (is_pending (f r).status) (f r) r _
          (λ e. ap is_pending (d.sets r ∙ ap (λ b. if b then to else r.status) e) ∙ d.settles)
          (λ e. (d.others r e, ap (λ (s : Row). is_pending s.status) (d.others r e)))
      ∙ sym (
          if_map (select (λ r. not (same r.gate_id g))) (same r.run_id run && is_pending r.status)
            (r ∷ before) before)

abbrev pub verdict : Bool → DecisionStatus
verdict true = DecisionStatus.pass
verdict false = DecisionStatus.blocked

-- A reviewer's decision on a gate in one run settles the newest decision on that gate in every run:
-- one that needs a review becomes a pass or a block, and any other keeps its status.
pub override_gate_decision-settles :
    (gate run reviewer : String) (approved : Bool) (other : String) (table : List Row)
    → newest_status gate other (override_gate_decision gate run reviewer approved table)
      ≡ map_some (settled (verdict approved)) (newest_status gate other table)
unfolding override_gate_decision approve_gate reject_gate
override_gate_decision-settles gate run reviewer true other table =
    newest-settled gate _ _ (approve-Decides gate reviewer) other table
override_gate_decision-settles gate run reviewer false other table =
    newest-settled gate _ _ (reject-Decides gate reviewer _) other table

-- A reviewer's decision on a gate in one run takes that gate off the pending gates of every run, and
-- leaves the other pending gates of every run as they are and in their order.
pub override_gate_decision-clears :
    (gate run reviewer : String) (approved : Bool) (other : String) (table : List Row)
    → get_pending_gates other (override_gate_decision gate run reviewer approved table)
      ≡ select (λ r. not (same r.gate_id gate)) (get_pending_gates other table)
unfolding override_gate_decision approve_gate reject_gate
override_gate_decision-clears gate run reviewer true other table =
    pending-settled gate _ _ (approve-Decides gate reviewer) other table
override_gate_decision-clears gate run reviewer false other table =
    pending-settled gate _ _ (reject-Decides gate reviewer _) other table

-- A decision recorded under a new id is the one that is read back for its gate and run.
pub record_gate_decision-get :
    (row : Row) (table : List Row)
    → any (λ r. same r.id row.id) table ≡ false
    → get_gate_decision row.gate_id row.run_id (record_gate_decision row table) ≡ some row
unfolding get_gate_decision record_gate_decision is_decision_of
record_gate_decision-get row table fresh =
    if-split (λ t. find (is_decision_of row.gate_id row.run_id) t ≡ some row)
      (any (λ r. same r.id row.id) table) (map (replace_row row) table) (row ∷ table) (λ e. cc)
      (λ _.
        ap (λ b. if b then some row else find (is_decision_of row.gate_id row.run_id) table)
          (ap (λ b. b && same row.run_id row.run_id) (eq_refl row.gate_id) ∙ eq_refl row.run_id))
