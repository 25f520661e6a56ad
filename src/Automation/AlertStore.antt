-- ===== src/Automation/AlertStore.antt =====
-- apps/control-service/src/services/alert-store.ts: the alerts, in memory. An update holds the fields
-- that it sets. The metadata are left out.
mod Abstract
mod Refines
mod Tests
use code_kit_ultra.Base.{
  String, ℕ, List, [], ◌∷◌, map, Option, none, some, Bool, true, false, not, ◌&&◌, select, lookup,
  insert, or_default, same, if◌then◌else◌,
}

pub record Alert : Type 0 where
  pub id : String
  pub alert_type : String
  pub severity : String
  pub title : String
  pub description : String
  pub is_resolved : Bool
  pub created_at : ℕ
  pub source : Option String
  pub alert_id : Option String
  pub escalation_level : Option ℕ

-- `Partial<Alert>`
pub record AlertUpdate : Type 0 where
  pub new_id : Option String
  pub new_type : Option String
  pub new_severity : Option String
  pub new_title : Option String
  pub new_description : Option String
  pub new_is_resolved : Option Bool
  pub new_created_at : Option ℕ
  pub new_source : Option String
  pub new_alert_id : Option String
  pub new_escalation_level : Option ℕ

abbrev pub or_old {ℓ} : {A : Type ℓ} → Option A → Option A → Option A
or_old none old = old
or_old (some a) old = some a

-- `{ ...alert, ...update }`
unfoldable pub merge : Alert → AlertUpdate → Alert
merge a u = record {
  id = or_default u.new_id a.id;
  alert_type = or_default u.new_type a.alert_type;
  severity = or_default u.new_severity a.severity;
  title = or_default u.new_title a.title;
  description = or_default u.new_description a.description;
  is_resolved = or_default u.new_is_resolved a.is_resolved;
  created_at = or_default u.new_created_at a.created_at;
  source = or_old u.new_source a.source;
  alert_id = or_old u.new_alert_id a.alert_id;
  escalation_level = or_old u.new_escalation_level a.escalation_level;
}

pub record Filters : Type 0 where
  pub resolved : Option Bool
  pub by_severity : Option String

abbrev pub Alerts : Type 0
Alerts = List (String × Alert)

unfoldable pub get_alert : String → Alerts → Option Alert
get_alert alert_id m = lookup alert_id m

unfoldable pub record_alert : Alert → Alerts → Alerts
record_alert a m = insert a.id a m

unfoldable pub is_same_flag : Bool → Bool → Bool
is_same_flag true b = b
is_same_flag false b = not b

unfoldable pub has_status : Option Bool → Alert → Bool
has_status none a = true
has_status (some r) a = is_same_flag r a.is_resolved

-- An empty text sets no filter.
unfoldable pub has_severity : Option String → Alert → Bool
has_severity none a = true
has_severity (some t) a = if same t "" then true else same a.severity t

unfoldable pub list_alerts : Filters → Alerts → List Alert
list_alerts f m =
    select (has_severity f.by_severity)
      (select (has_status f.resolved) (map (λ (e : String × Alert). e.1) m))

unfoldable pub update_found : String → AlertUpdate → Option Alert → Alerts → Alerts
update_found alert_id u none m = m
update_found alert_id u (some a) m = insert alert_id (merge a u) m

unfoldable pub update_alert : String → AlertUpdate → Alerts → Alerts
update_alert alert_id u m = update_found alert_id u (lookup alert_id m) m

-- The calls that change the store.
pub data Call : Type 0 where
  recorded : Alert → Call
  updated : String → AlertUpdate → Call
  was_reset : Call

unfoldable pub make_call : Call → Alerts → Alerts
make_call (recorded a) m = record_alert a m
make_call (updated alert_id u) m = update_alert alert_id u m
make_call was_reset m = []

unfoldable pub make_calls : List Call → Alerts → Alerts
make_calls [] m = m
make_calls (c ∷ cs) m = make_calls cs (make_call c m)
