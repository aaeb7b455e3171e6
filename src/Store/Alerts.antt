-- ===== src/Store/Alerts.antt =====
-- internal/store/store.go: the operational alerts, which are raised once and resolved together.
pub mod Open
use mini_dock.Prelude.{
  ℕ, String, Bool, true, false, not, ◌&&◌, Option, none, some, List, [], ◌∷◌, map, leb, ◌==◌, ◌=s=◌,
  if◌then◌else◌, any, take, err, constraint_failed, Done, done,
}
use mini_dock.Prelude.Rows.{update_where, where_rows, sort_by}
use mini_dock.Store.Tables.{Alert, Deployment, Store}
use mini_dock.Store.Jobs.{has_application}

-- `application_id = ?`, or `application_id IS NULL` for a nil pointer.
abbrev pub same_reference : Option ℕ → Option ℕ → Bool
same_reference none none = true
same_reference (some i) (some k) = i == k
same_reference _ _ = false

-- The unresolved alerts with this message on this application.
abbrev pub open_alert : String → Option ℕ → Alert → Bool
open_alert message application a =
    not a.resolved && (a.message =s= message && same_reference application a.application_id)

abbrev pub is_open : Alert → Bool
is_open a = not a.resolved

-- A foreign key holds if it is NULL or its row exists.
abbrev pub refers : (ℕ → Bool) → Option ℕ → Bool
refers known none = true
refers known (some i) = known i

abbrev pub has_deployment : Store → ℕ → Bool
has_deployment s id = any (λ (d : Deployment). d.id == id) s.deployments

abbrev pub references_hold : Store → Option ℕ → Option ℕ → Bool
references_hold s application deployment =
    refers (λ i. has_application i s) application && refers (has_deployment s) deployment

abbrev pub new_alert : ℕ → ℕ → String → String → Option ℕ → Option ℕ → Alert
new_alert id now severity message application deployment = record {
  id = id;
  severity = severity;
  message = message;
  application_id = application;
  deployment_id = deployment;
  resolved = false;
  created_at = now;
  resolved_at = none;
}

abbrev pub alert_ids : List Alert → List ℕ
alert_ids = map (λ (a : Alert). a.id)

-- UpsertAlert: an alert that is open is not raised again.
unfoldable pub upsert_alert :
    (List ℕ → ℕ) → ℕ → Store → String → String → Option ℕ → Option ℕ → Store × Done
upsert_alert next_id now s severity message application deployment =
    if any (open_alert message application) s.alerts
    then (s, done)
    else if references_hold s application deployment
    then (let alert =
          new_alert (next_id (alert_ids s.alerts)) now severity message application deployment in
        (record s { alerts = alert ∷ s.alerts }, done))
    else (s, err constraint_failed)

-- SET resolved = 1, resolved_at = ?
abbrev pub resolved_at_time : ℕ → Alert → Alert
resolved_at_time now a = record a { resolved = true; resolved_at = some now }

-- ResolveAlert; `like` is SQLite's operator LIKE on a message and the pattern of a prefix.
abbrev pub resolve_alert : (String → String → Bool) → ℕ → Store → Option ℕ → String → Store
resolve_alert like now s application message_prefix = record s {
  alerts =
      update_where
        (λ (a : Alert).
          not a.resolved
          && (same_reference application a.application_id && like a.message message_prefix))
        (resolved_at_time now) s.alerts;
}

-- message NOT IN (…)
abbrev pub not_in : List String → Alert → Bool
not_in messages a = not (any (λ m. a.message =s= m) messages)

-- ResolveAllAlertsExcept, whose statement has no NOT IN for an empty list.
abbrev pub resolve_all_alerts_except : ℕ → Store → List String → Store
resolve_all_alerts_except now s [] = record s {
  alerts = update_where is_open (resolved_at_time now) s.alerts;
}
resolve_all_alerts_except now s (m ∷ ms) = record s {
  alerts = update_where (λ a. is_open a && not_in (m ∷ ms) a) (resolved_at_time now) s.alerts;
}

-- ORDER BY created_at DESC
abbrev pub newest_first : Alert → Alert → Bool
newest_first a b = leb b.created_at a.created_at

-- GetActiveAlerts
abbrev pub get_active_alerts : Store → List Alert
get_active_alerts s = sort_by newest_first (where_rows is_open s.alerts)

-- ORDER BY resolved_at DESC, where a NULL is the least value.
abbrev pub latest_resolved_first : Option ℕ → Option ℕ → Bool
latest_resolved_first (some a) (some b) = leb b a
latest_resolved_first none (some b) = false
latest_resolved_first _ none = true

-- GetResolvedAlerts
abbrev pub get_resolved_alerts : Store → List Alert
get_resolved_alerts s = take 50 (
    sort_by (λ (a : Alert) b. latest_resolved_first a.resolved_at b.resolved_at)
      (where_rows (λ (a : Alert). a.resolved) s.alerts))
