-- ===== src/Automation/Acknowledgments/Counted.antt =====
-- alert-acknowledgment-service.ts, lines 82 to 121, and automation-orchestrator.ts, lines 186 to 209: the
-- pending alerts and the count of the acknowledged ones.
use code_kit_ultra.Base.{
  String, ℕ, ◌+◌, ◌≡◌, ◌≢◌, refl, sym, ◌∙◌, List, [], ◌∷◌, some, Bool, true, false, all, select,
  lookup, delete, IsMap, delete-IsMap, length-delete, IsMap-All, missing-All, lookup-delete_other,
  All, All-zip, length, same, if◌then◌else◌, if-split, arith,
}
use code_kit_ultra.Governance.Numbers.{Numbers}
use code_kit_ultra.Automation.Acknowledgments.{
  AutoAcknowledgmentRule, AlertAcknowledgmentService, get_pending_alerts, get_all_rules,
  record_acknowledgment, acknowledge_alert, evaluate_resolution, try_rules,
  evaluate_alert_for_acknowledgment, count_if, evaluate_pending, evaluate_rules,
  evaluate_alert_acknowledgments,
}

module _ {N : Type 0} (num : Numbers N) (decimal : ℕ → String) where
  -- The alert is no longer pending if and only if it was acknowledged, and no other is touched.
  record Settles (alert_id : String) (pending : List (String × ℕ))
      (r : Bool × AlertAcknowledgmentService N) : Type 0 where
    settles : r.1.pending_alerts ≡ (if r.0 then delete alert_id pending else pending)

  try_rules-Settles :
      (now : ℕ) (alert_id : String) (metrics : List (String × N))
      (rs : List (AutoAcknowledgmentRule N)) (s : AlertAcknowledgmentService N)
      → Settles alert_id s.pending_alerts (try_rules num decimal now alert_id metrics rs s)
  unfolding try_rules acknowledge_alert record_acknowledgment
  try_rules-Settles now alert_id metrics [] s = record { settles = refl }
  try_rules-Settles now alert_id metrics (r ∷ rs) s =
      if-split (Settles alert_id s.pending_alerts)
        (all (evaluate_resolution num now metrics alert_id s) r.resolution_conditions)
        (true, acknowledge_alert decimal now alert_id r s)
        (try_rules num decimal now alert_id metrics rs s) (λ _. record { settles = refl })
        (λ _. try_rules-Settles now alert_id metrics rs s)

  -- Every alert is either counted or still pending.
  record IsCounted (total : ℕ) (r : ℕ × AlertAcknowledgmentService N) : Type 0 where
    counted : r.0 + length r.1.pending_alerts ≡ total
    is_map : IsMap r.1.pending_alerts

  abbrev ArePending : List (String × ℕ) → List (String × ℕ) → Type 0
  ArePending pending alerts = All (λ (e : String × ℕ). lookup e.0 pending ≡ some e.1) alerts

  count-IsCounted :
      (total count : ℕ) (alert_id : String) (time : ℕ) (pending : List (String × ℕ))
      (r : Bool × AlertAcknowledgmentService N)
      → lookup alert_id pending ≡ some time
      → IsMap pending
      → count + length pending ≡ total
      → Settles alert_id pending r
      → IsCounted total (count_if r.0 count, r.1)
  unfolding count_if
  count-IsCounted total count alert_id time pending (true, s) e m c k = record {
    counted = rw k.settles (omega (arith, length-delete alert_id time pending m e, c));
    is_map = rw k.settles (delete-IsMap alert_id pending m);
  }
  count-IsCounted total count alert_id time pending (false, s) e m c k = record {
    counted = rw k.settles c;
    is_map = rw k.settles m;
  }

  settled-ArePending :
      (alert_id : String) (pending : List (String × ℕ)) (alerts : List (String × ℕ))
      (r : Bool × AlertAcknowledgmentService N)
      → Settles alert_id pending r
      → All (λ (e : String × ℕ). e.0 ≢ alert_id) alerts
      → ArePending pending alerts
      → ArePending r.1.pending_alerts alerts
  settled-ArePending alert_id pending alerts (true, s) k n a = rw k.settles (
      All-zip {P = λ (e : String × ℕ). e.0 ≢ alert_id}
        {Q = λ (e : String × ℕ). lookup e.0 pending ≡ some e.1}
        {R = λ (e : String × ℕ). lookup e.0 (delete alert_id pending) ≡ some e.1}
        (λ e m f. lookup-delete_other alert_id e.0 pending (λ g. m (sym g)) ∙ f) alerts n a)
  settled-ArePending alert_id pending alerts (false, s) k n a = rw k.settles a

  evaluate_pending-IsCounted :
      (total now : ℕ) (alert_rule_id : String) (metrics : List (String × N))
      (alerts : List (String × ℕ)) (r : ℕ × AlertAcknowledgmentService N)
      → IsMap alerts
      → ArePending r.1.pending_alerts alerts
      → IsCounted total r
      → IsCounted total (evaluate_pending num decimal now alert_rule_id metrics alerts r)
  unfolding evaluate_pending evaluate_alert_for_acknowledgment
  evaluate_pending-IsCounted total now alert_rule_id metrics [] (count, s) m a c = c
  evaluate_pending-IsCounted total now alert_rule_id metrics ((alert_id, time) ∷ alerts) (count, s)
        m a c =
      let k =
        try_rules-Settles now alert_id metrics
          (select (λ (r : AutoAcknowledgmentRule N). same r.alert_rule_id alert_rule_id)
            (get_all_rules s))
          s in
      evaluate_pending-IsCounted total now alert_rule_id metrics alerts _ m.1
        (settled-ArePending alert_id s.pending_alerts alerts _ k (missing-All alert_id alerts m.0)
          a.1)
        (count-IsCounted total count alert_id time s.pending_alerts _ a.0 c.is_map c.counted k)

  evaluate_rules-IsCounted :
      (total now : ℕ) (metrics : List (String × N)) (rs : List (AutoAcknowledgmentRule N))
      (r : ℕ × AlertAcknowledgmentService N)
      → IsCounted total r
      → IsCounted total (evaluate_rules num decimal now metrics rs r)
  unfolding evaluate_rules get_pending_alerts
  evaluate_rules-IsCounted total now metrics [] (count, s) c = c
  evaluate_rules-IsCounted total now metrics (r ∷ rs) (count, s) c =
      evaluate_rules-IsCounted total now metrics rs _ (
        evaluate_pending-IsCounted total now r.alert_rule_id metrics s.pending_alerts (count, s)
          c.is_map (IsMap-All s.pending_alerts c.is_map) c)

  -- Where each alert is pending once, the evaluation of all the rules counts an alert exactly if it is
  -- no longer pending afterwards, however many rules apply to it, and each is still pending at most once.
  pub evaluate_alert_acknowledgments-IsCounted :
      (now : ℕ) (metrics : List (String × N)) (s : AlertAcknowledgmentService N)
      → IsMap s.pending_alerts
      → ((evaluate_alert_acknowledgments num decimal now metrics s).0
            + length (evaluate_alert_acknowledgments num decimal now metrics s).1.pending_alerts
          ≡ length s.pending_alerts)
        × IsMap (evaluate_alert_acknowledgments num decimal now metrics s).1.pending_alerts
  unfolding evaluate_alert_acknowledgments
  evaluate_alert_acknowledgments-IsCounted now metrics s m =
      let k =
        evaluate_rules-IsCounted (length s.pending_alerts) now metrics (get_all_rules s) (0, s)
          (record { counted = omega arith; is_map = m }) in
      (k.counted, k.is_map)
