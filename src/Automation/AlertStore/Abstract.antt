-- ===== src/Automation/AlertStore/Abstract.antt =====
-- What a store of alerts promises: a function from the identifiers to the alerts, and the identifiers in
-- the order in which they first came.
use code_kit_ultra.Base.{
  String, List, [], ◌∷◌, ◌++◌, map, Option, none, some, Bool, true, false, not, ◌&&◌, ◌||◌, same,
  is_some, if◌then◌else◌,
}
use code_kit_ultra.Automation.AlertStore.{
  Alert, AlertUpdate, Filters, Call, recorded, updated, was_reset,
}

pub record View : Type 0 where
  pub content : String → Option Alert
  pub order : List String

abbrev pub no_alerts : View
no_alerts = record { content = λ k. none; order = [] }

abbrev pub put : String → Alert → View → View
put k a v = record {
  content = λ j. if same k j then some a else v.content j;
  order = if is_some (v.content k) then v.order else v.order ++ k ∷ [];
}

-- The value that an update sets, or the old one.
abbrev pub newer {ℓ} : {A : Type ℓ} → Option A → A → A
newer none old = old
newer (some a) old = a

-- The same for a field that may be missing.
abbrev pub newer_if_set {ℓ} : {A : Type ℓ} → Option A → Option A → Option A
newer_if_set none old = old
newer_if_set (some a) old = some a

-- The alert in which each field that the update sets has the update's value.
abbrev pub revised : Alert → AlertUpdate → Alert
revised a u = record {
  id = newer u.new_id a.id;
  alert_type = newer u.new_type a.alert_type;
  severity = newer u.new_severity a.severity;
  title = newer u.new_title a.title;
  description = newer u.new_description a.description;
  is_resolved = newer u.new_is_resolved a.is_resolved;
  created_at = newer u.new_created_at a.created_at;
  source = newer_if_set u.new_source a.source;
  alert_id = newer_if_set u.new_alert_id a.alert_id;
  escalation_level = newer_if_set u.new_escalation_level a.escalation_level;
}

abbrev change : String → AlertUpdate → Option Alert → View → View
change k u none v = v
change k u (some a) v = put k (revised a u) v

abbrev pub apply_call : Call → View → View
apply_call (recorded a) v = put a.id a v
apply_call (updated k u) v = change k u (v.content k) v
apply_call was_reset v = no_alerts

abbrev pub replay : List Call → View → View
replay [] v = v
replay (c ∷ cs) v = replay cs (apply_call c v)

-- The alerts that are there and have a property.
abbrev pub present : (Alert → Bool) → List (Option Alert) → List Alert
present p [] = []
present p (none ∷ os) = present p os
present p (some a ∷ os) = if p a then a ∷ present p os else present p os

-- The alert is resolved, or is not, as the filter asks.
abbrev pub is_asked : Option Bool → Alert → Bool
is_asked none a = true
is_asked (some true) a = a.is_resolved
is_asked (some false) a = not a.is_resolved

-- The alert has the severity of the filter, if that is a text with a character.
abbrev pub is_as_severe : Option String → Alert → Bool
is_as_severe none a = true
is_as_severe (some t) a = same t "" || same a.severity t

abbrev pub meets : Filters → Alert → Bool
meets f a = is_asked f.resolved a && is_as_severe f.by_severity a

abbrev pub listed : Filters → View → List Alert
listed f v = present (meets f) (map v.content v.order)
