-- ===== src/App/Collection.antt =====
-- internal/app/operations.go: runCollection, which looks at the disk and at every application,
-- raises an alert for each defect and resolves the others. The caches that the pages read are not
-- modelled.
pub mod Raised
pub mod Defects
pub mod Current
pub mod Known
mod Tests
use text.Mathlib.Text.{find?}
use mini_dock.Prelude.{
  ℕ, String, Bool, true, false, not, ◌&&◌, ◌||◌, Option, none, some, List, [], ◌∷◌, ◌++◌, ◌=s=◌,
  if◌then◌else◌, is_some,
}
use mini_dock.Prelude.Decimal.{◌+s+◌, decimal}
use mini_dock.Prelude.Rows.{row_at, sort_by}
use mini_dock.Store.Tables.{is_failed, is_successful, Application, Deployment, Store}
use mini_dock.Store.Releases.{deployments}
use mini_dock.Store.Alerts.{upsert_alert, resolve_all_alerts_except}
use mini_dock.Store.Health.{
  HealthTables, RouteProbeRow, HealthEvidence, upsert_health_evidence, record_route_probe,
}

pub record ContainerStatus : Type 0 where
  pub state : String
  pub health : String

-- The answer of Executor.Status, and of Executor.ProbeRoute.
pub data StatusAnswer : Type 0 where
  no_status : (error : String) → StatusAnswer
  status : ContainerStatus → StatusAnswer

pub record RouteProbe : Type 0 where
  pub success : Bool
  pub status_code : ℕ
  pub checked_at : ℕ
  pub observer : String
  pub detail : String

-- The answer of diskUsage; `F` is the type of floating-point numbers.
pub data DiskUsage (F : Type 0) : Type 0 where
  unknown_usage : (error : String) → DiskUsage F
  usage : (percent : F) → DiskUsage F

-- What the collection reads outside the store: the clock, and SQLite's choice of a rowid and its
-- order of names; the disk, with the comparison `>=` and the format `%.1f`; and for an application
-- its container, its probe and the alert of its certificate, which is empty if there is none.
pub record Observer : Type 1 where
  pub now : ℕ
  pub next_id : List ℕ → ℕ
  pub name_le : String → String → Bool
  pub F : Type 0
  pub disk_usage : DiskUsage F
  pub disk_alert_percent : ℕ
  pub reaches : F → ℕ → Bool
  pub one_decimal : F → String
  pub status_of : Application → StatusAnswer
  pub probe_route : Application → RouteProbe
  pub certificate_alert : Application → String

-- The messages that are still active, and the tables.
pub record Collected : Type 0 where
  pub messages : List String
  pub store : Store
  pub health : HealthTables

-- append(activeAlertMessages, …) and UpsertAlert, whose error is dropped.
unfoldable pub raise : Observer → String → String → Option ℕ → Option ℕ → Collected → Collected
raise o severity message application deployment c = record c {
  messages = c.messages ++ (message ∷ []);
  store = (upsert_alert o.next_id o.now c.store severity message application deployment).0;
}

abbrev pub raise_if :
    Bool → Observer → String → String → Option ℕ → Option ℕ → Collected → Collected
raise_if true o severity message application deployment c =
    raise o severity message application deployment c
raise_if false o severity message application deployment c = c

abbrev pub disk_full_message : Observer → String → String
disk_full_message o used =
    "Espacio de disco al " +s+ used +s+ "% (umbral: " +s+ decimal o.disk_alert_percent +s+ "%)."

abbrev pub check_disk : (o : Observer) → DiskUsage o.F → Collected → Collected
check_disk o (unknown_usage error) c =
    raise o "warning" ("No se pudo consultar el espacio de disco: " +s+ error) none none c
check_disk o (usage used) c =
    raise_if (o.reaches used o.disk_alert_percent) o "critical"
      (disk_full_message o (o.one_decimal used)) none none c

abbrev pub failed_message : Application → String
failed_message app = "El último despliegue de " +s+ app.name +s+ " falló."

abbrev pub unhealthy_message : Application → String
unhealthy_message app = "El servicio " +s+ app.name +s+ " no está saludable."

abbrev pub probe_message : Application → String
probe_message app = "La sonda externa de " +s+ app.name +s+ " falló."

abbrev pub latest : Store → Application → Option Deployment
latest s app = row_at 0 (deployments s app.id)

-- The latest job of the application has failed.
abbrev pub check_deployment : Observer → Application → Option Deployment → Collected → Collected
check_deployment o app none c = c
check_deployment o app (some d) c =
    raise_if (is_failed d.status) o "critical" (failed_message app) (some app.id) (some d.id) c

abbrev pub is_healthy : ContainerStatus → Bool
is_healthy s = s.state =s= "running" && not (s.health =s= "unhealthy")

abbrev pub check_status : Observer → Application → StatusAnswer → Collected → Collected
check_status o app (no_status error) c =
    raise_if (not (is_some (find? error "Apple Container"))) o "warning"
      ("No se pudo obtener el estado de " +s+ app.name +s+ ".") (some app.id) none c
check_status o app (status s) c =
    raise_if (not (is_healthy s)) o "critical" (unhealthy_message app) (some app.id) none c

abbrev pub internal_status_of : StatusAnswer → String
internal_status_of (no_status error) = "unavailable"
internal_status_of (status s) = if is_healthy s then "healthy" else "failed"

abbrev pub route_status_of : Option Deployment → String
route_status_of none = "not_applied"
route_status_of (some d) = if is_successful d.status then "applied" else "not_applied"

-- The evidence and the probe, whose errors are dropped.
abbrev pub evidence_of : Observer → Application → Option Deployment → HealthEvidence
evidence_of o app d =
    let probe = o.probe_route app in
    record {
      application_id = app.id;
      internal_status = internal_status_of (o.status_of app);
      internal_checked_at = some o.now;
      route_status = route_status_of d;
      route_checked_at = some o.now;
      external_status = if probe.success then "successful" else "failed";
      external_checked_at = some probe.checked_at;
      external_observer = probe.observer;
      external_http_status = probe.status_code;
      external_detail = probe.detail;
    }

abbrev pub probe_row : Observer → Application → RouteProbeRow
probe_row o app =
    let probe = o.probe_route app in
    record {
      application_id = app.id;
      success = probe.success;
      checked_at = probe.checked_at;
      observer = probe.observer;
      http_status = probe.status_code;
      detail = probe.detail;
    }

unfoldable pub record_health : Observer → Application → Option Deployment → Collected → Collected
record_health o app d c =
    let evidence = (upsert_health_evidence c.store c.health (evidence_of o app d)).0 in
    record c { health = (record_route_probe c.store evidence (probe_row o app)).0 }

abbrev pub check_probe : Observer → Application → Collected → Collected
check_probe o app c =
    raise_if (not (o.probe_route app).success) o "critical" (probe_message app) (some app.id) none c

abbrev pub check_certificate : Observer → Application → Collected → Collected
check_certificate o app c =
    raise_if (not (o.certificate_alert app =s= "")) o "warning" (o.certificate_alert app)
      (some app.id) none c

-- The body of the loop over the applications.
abbrev pub collect_application : Observer → Application → Collected → Collected
collect_application o app c =
    let d = latest c.store app in
    check_certificate o app (
      check_probe o app
        (record_health o app d (check_status o app (o.status_of app) (check_deployment o app d c))))

abbrev pub collect_applications : Observer → List Application → Collected → Collected
collect_applications o [] c = c
collect_applications o (app ∷ apps) c = collect_applications o apps (collect_application o app c)

-- Applications: ordered by name.
abbrev pub applications : Observer → Store → List Application
applications o s =
    sort_by (λ (a : Application) (b : Application). o.name_le a.name b.name) s.applications

-- The state before the last step, which resolves the other alerts.
abbrev pub collected : Observer → Store → HealthTables → Collected
collected o s health =
    collect_applications o (applications o s)
      (check_disk o o.disk_usage (record { messages = []; store = s; health = health }))

-- runCollection
abbrev pub run_collection : Observer → Store → HealthTables → Store × HealthTables
run_collection o s health =
    let c = collected o s health in (resolve_all_alerts_except o.now c.store c.messages, c.health)
