-- ===== src/Automation/AlertStore/Refines.antt =====
-- alert-store.ts: the store against its abstract view.
use mathlib.Core.Path.{subst}
use code_kit_ultra.Base.{
  String, ◌≡◌, refl, sym, ◌∙◌, ap, Bool, true, false, or_default, List, [], ◌∷◌, ◌++◌, map, Option,
  none, some, lookup, insert, lookup-insert_self, lookup-insert_other, IsMap, insert-IsMap, All,
  All-map, IsMap-All, same, same→ne, eq_iff, is_some, if◌then◌else◌, if_map, Bool-cases, inl, inr,
  arith,
}
use code_kit_ultra.Automation.AlertStore.{
  Alert, AlertUpdate, Filters, Alerts, Call, recorded, updated, was_reset, merge, get_alert,
  record_alert, has_status, has_severity, is_same_flag, or_old, list_alerts, update_found,
  update_alert, make_call, make_calls,
}
use code_kit_ultra.Automation.AlertStore.Abstract.{
  View, no_alerts, put, apply_call, replay, present, listed, newer, newer_if_set, revised, is_asked,
  is_as_severe, meets,
}

-- The map has the content of the view, in its order.
record Represents (m : Alerts) (v : View) : Type 0 where
  is_map : IsMap m
  content : (k : String) → lookup k m ≡ v.content k
  order : map (λ (e : String × Alert). e.0) m ≡ v.order

-- `insert` puts a new key last, and leaves the others where they are.
keys-insert :
    (k : String) (a : Alert) (m : Alerts)
    → map (λ (e : String × Alert). e.0) (insert k a m) ≡ (
        if is_some (lookup k m)
        then map (λ (e : String × Alert). e.0) m
        else map (λ (e : String × Alert). e.0) m ++ k ∷ [])
keys-insert k a [] = refl
keys-insert k a ((j, x) ∷ m) = elim (Bool-cases (same j k)) [
  | inl e ↦ rw e refl
  | inr e ↦ rw e (
      ap (λ l. j ∷ l) (keys-insert k a m)
      ∙ if_map (λ l. j ∷ l) (is_some (lookup k m)) (map (λ (e : String × Alert). e.0) m)
          (map (λ (e : String × Alert). e.0) m ++ k ∷ []))
]

put-Represents :
    (k : String) (a : Alert) (m : Alerts) (v : View)
    → Represents m v
    → Represents (insert k a m) (put k a v)
put-Represents k a m v r = record {
  is_map = insert-IsMap k a m r.is_map;
  content = λ j. elim (Bool-cases (same k j)) [
    | inl e ↦ rw e (
        subst (λ i. lookup i (insert k a m) ≡ some a) ((eq_iff k j).0 e) (lookup-insert_self k a m))
    | inr e ↦ rw e (lookup-insert_other k j a m (same→ne k j e) ∙ r.content j)
  ];
  order = rw (← r.content k, ← r.order) (keys-insert k a m);
}

or_default-newer {ℓ} : {A : Type ℓ} (o : Option A) (a : A) → or_default o a ≡ newer o a
or_default-newer none a = refl
or_default-newer (some b) a = refl

or_old-newer {ℓ} : {A : Type ℓ} (o old : Option A) → or_old o old ≡ newer_if_set o old
or_old-newer none old = refl
or_old-newer (some b) old = refl

merge-revised : (a : Alert) (u : AlertUpdate) → merge a u ≡ revised a u
unfolding merge
merge-revised a u =
    rw
      (
        or_default-newer u.new_id a.id,
        or_default-newer u.new_type a.alert_type,
        or_default-newer u.new_severity a.severity,
        or_default-newer u.new_title a.title,
        or_default-newer u.new_description a.description,
        or_default-newer u.new_is_resolved a.is_resolved,
        or_default-newer u.new_created_at a.created_at,
        or_old-newer u.new_source a.source,
        or_old-newer u.new_alert_id a.alert_id,
        or_old-newer u.new_escalation_level a.escalation_level,
      )
      refl

status-is_asked : (o : Option Bool) (a : Alert) → has_status o a ≡ is_asked o a
unfolding has_status is_same_flag
status-is_asked none a = refl
status-is_asked (some true) a = refl
status-is_asked (some false) a = refl

severity-is_as_severe : (o : Option String) (a : Alert) → has_severity o a ≡ is_as_severe o a
unfolding has_severity
severity-is_as_severe none a = refl
severity-is_as_severe (some t) a = ground arith

update-Represents :
    (k : String) (u : AlertUpdate) (m : Alerts) (v : View) (o : Option Alert)
    → v.content k ≡ o
    → Represents m v
    → Represents (update_found k u o m) (apply_call (updated k u) v)
unfolding update_found
update-Represents k u m v none e r = rw e r
update-Represents k u m v (some a) e r =
    rw (e, merge-revised a u) (put-Represents k (revised a u) m v r)

call-Represents :
    (c : Call) (m : Alerts) (v : View)
    → Represents m v
    → Represents (make_call c m) (apply_call c v)
unfolding make_call record_alert update_alert
call-Represents (recorded a) m v r = put-Represents a.id a m v r
call-Represents (updated k u) m v r = update-Represents k u m v (lookup k m) (sym (r.content k)) r
call-Represents was_reset m v r = record { is_map = tt; content = λ k. refl; order = refl }

calls-Represents :
    (cs : List Call) (m : Alerts) (v : View)
    → Represents m v
    → Represents (make_calls cs m) (replay cs v)
unfolding make_calls
calls-Represents [] m v r = r
calls-Represents (c ∷ cs) m v r =
    calls-Represents cs (make_call c m) (apply_call c v) (call-Represents c m v r)

-- The alerts in the order of the keys that find them.
values-present :
    (f : Filters) (m : Alerts) (view : String → Option Alert)
    → All (λ (e : String × Alert). view e.0 ≡ some e.1) m
    → list_alerts f m ≡ present (meets f) (map view (map (λ (e : String × Alert). e.0) m))
unfolding list_alerts
values-present f [] view h = refl
values-present f ((k, a) ∷ m) view h = rw h.0 (
    ground (
      arith,
      status-is_asked f.resolved a,
      severity-is_as_severe f.by_severity a,
      values-present f m view h.1,
    ))

module _ (cs : List Call) where
  represented : Represents (make_calls cs []) (replay cs no_alerts)
  represented =
      calls-Represents cs [] no_alerts (record { is_map = tt; content = λ k. refl; order = refl })

  list-represented :
      (f : Filters) → list_alerts f (make_calls cs []) ≡ listed f (replay cs no_alerts)
  list-represented f =
      let r = represented in
      values-present f (make_calls cs []) (replay cs no_alerts).content (
        All-map (λ (e : String × Alert) q. sym (r.content e.0) ∙ q) (make_calls cs [])
          (IsMap-All (make_calls cs []) r.is_map))
      ∙ ap (λ ks. present (meets f) (map (replay cs no_alerts).content ks)) r.order

  -- After any calls, a key finds what the abstract view says, and a listing gives exactly the alerts of
  -- the view that meet the filters, each once, in the order in which their keys first came.
  pub calls_refine :
      (f : Filters) (k : String)
      → (get_alert k (make_calls cs []) ≡ (replay cs no_alerts).content k)
        × (list_alerts f (make_calls cs []) ≡ listed f (replay cs no_alerts))
  unfolding get_alert
  calls_refine f k = (represented.content k, list-represented f)
