-- ===== src/App/Collection/Tests.antt =====
-- A collection on the small database: the disk is nearly full, the shop is not healthy, and an
-- alert of an interrupted switch is open.
use mathlib.Core.List.{Memᴰ}
use mini_dock.Prelude.{ℕ, ◌≡◌, refl, String, true, false, none, some, List, [], ◌∷◌, any, All, leb}
use mini_dock.Prelude.Decimal.{decimal}
use mini_dock.Store.Tables.{Store}
use mini_dock.Store.Samples.{next_id, jobs, shop}
use mini_dock.Store.Alerts.{new_alert, open_alert, is_open}
use mini_dock.Store.Alerts.Open.{deduplicated, AlertCall, alert_calls, alert_calls-deduplicated}
use mini_dock.Store.Health.{HealthTables}
use mini_dock.App.Collection.{
  Observer, ContainerStatus, status, usage, unhealthy_message, run_collection,
}
use mini_dock.App.Collection.Defects.{IsDefect}
use mini_dock.App.Collection.Current.{run_collection-raises}
use mini_dock.App.Collection.Known.{IsCause, run_collection-known}

abbrev switch_message : String
switch_message = "MD-P0-03: reconciliation could not restore a Docker switch"

abbrev alerting : Store
alerting = record jobs { alerts = new_alert 1 5 "critical" switch_message none none ∷ [] }

abbrev sick : ContainerStatus
sick = record { state = "running"; health = "unhealthy" }

abbrev observer : Observer
observer = record {
  now = 100;
  next_id = next_id;
  name_le = λ a b. true;
  F = ℕ;
  disk_usage = usage 95;
  disk_alert_percent = 90;
  reaches = λ used threshold. leb threshold used;
  one_decimal = decimal;
  status_of = λ app. status sick;
  probe_route = λ app. record {
    success = true;
    status_code = 200;
    checked_at = 99;
    observer = "probe";
    detail = "";
  };
  certificate_alert = λ app. "";
}

abbrev no_health : HealthTables
no_health = record { application_health = []; route_probes = [] }

run_collection-raises_example :
    any
      (open_alert (unhealthy_message shop) (some 7))
      (run_collection observer alerting no_health).0.alerts
    ≡ true
run_collection-raises_example =
    run_collection-raises observer alerting no_health shop (unhealthy_message shop) (Memᴰ.head refl)
      (IsDefect.unhealthy sick refl refl)

run_collection-known_example :
    All
      (λ a. is_open a ≡ true → IsCause observer alerting a.message)
      (run_collection observer alerting no_health).0.alerts
run_collection-known_example = run_collection-known observer alerting no_health

-- The operator LIKE on a prefix is not used by these calls.
abbrev calls : List AlertCall
calls =
    AlertCall.upsert 6 "critical" switch_message none none
    ∷ AlertCall.upsert 7 "warning" (unhealthy_message shop) (some 7) none
    ∷ AlertCall.resolve_except 8 (unhealthy_message shop ∷ [])
    ∷ []

alert_calls-deduplicated_example :
    deduplicated (alert_calls next_id (λ text pattern. false) alerting calls).alerts ≡ true
unfolding deduplicated
alert_calls-deduplicated_example =
    alert_calls-deduplicated next_id (λ text pattern. false) alerting calls refl
