-- ===== src/App/Collection/Defects.antt =====
-- internal/app/operations.go, runCollection: what the body of the loop raises for an application.
use mathlib.Core.List.{Memᴰ}
use text.Mathlib.Text.{find?}
use mini_dock.Prelude.{◌≡◌, refl, String, true, false, not, none, some, arith, ◌=s=◌, ◌==◌, is_some}
use mini_dock.Prelude.Decimal.{◌+s+◌}
use mini_dock.Prelude.Rows.Members.{any_of_Memᴰ}
use mini_dock.Prelude.Rows.Laws.{All-Memᴰ_self, All-where_rows, All-row_at}
use mini_dock.Prelude.Rows.Order.{All-sort_by}
use mini_dock.Store.Tables.{is_failed, Application, Deployment, Store}
use mini_dock.Store.Jobs.{has_application}
use mini_dock.Store.Releases.{deployments}
use mini_dock.Store.Alerts.{has_deployment, references_hold}
use mini_dock.App.Collection.{
  Observer, Collected, ContainerStatus, no_status, status, record_health, check_deployment,
  check_status, check_probe, collect_application, failed_message, unhealthy_message, probe_message,
  latest, is_healthy,
}
use mini_dock.App.Collection.Raised.{
  IsRaised, Extends, Extends-trans, raise_if-IsRaised, check_deployment-Extends,
  check_status-Extends, record_health-Extends, check_probe-Extends, check_certificate-Extends,
}

-- What a collection finds wrong with an application, and the message about it.
pub data IsDefect (o : Observer) (s : Store) (app : Application) : String → Type 0 where
  failed_release :
      (d : Deployment)
      → latest s app ≡ some d
      → is_failed d.status ≡ true
      → IsDefect o s app (failed_message app)
  unreadable :
      (error : String)
      → o.status_of app ≡ no_status error
      → is_some (find? error "Apple Container") ≡ false
      → IsDefect o s app ("No se pudo obtener el estado de " +s+ app.name +s+ ".")
  unhealthy :
      (st : ContainerStatus)
      → o.status_of app ≡ status st
      → is_healthy st ≡ false
      → IsDefect o s app (unhealthy_message app)
  unreachable : (o.probe_route app).success ≡ false → IsDefect o s app (probe_message app)
  certificate :
      (o.certificate_alert app =s= "") ≡ false → IsDefect o s app (o.certificate_alert app)

pub latest-same :
    (s s' : Store) (app : Application)
    → s'.deployments ≡ s.deployments
    → latest s' app ≡ latest s app
unfolding deployments
latest-same s s' app e = rw e refl

has_latest :
    (s : Store) (app : Application) (d : Deployment)
    → latest s app ≡ some d
    → has_deployment s d.id ≡ true
unfolding deployments
has_latest s app d e =
    let stands : Memᴰ d s.deployments =
      All-row_at (λ a. Memᴰ a s.deployments) 0 _
        (All-sort_by _ (λ a. Memᴰ a s.deployments) _
          (All-where_rows (λ a. Memᴰ a s.deployments) _ s.deployments
            (All-Memᴰ_self s.deployments)))
        e in
    any_of_Memᴰ (λ (a : Deployment). a.id == d.id) s.deployments d stands (ground arith)

module _ (o : Observer) (app : Application) (c : Collected) where
  -- The states between the checks of the loop's body.
  abbrev after_deployment : Collected
  after_deployment = check_deployment o app (latest c.store app) c

  abbrev after_status : Collected
  after_status = check_status o app (o.status_of app) after_deployment

  abbrev after_health : Collected
  after_health = record_health o app (latest c.store app) after_status

  abbrev after_probe : Collected
  after_probe = check_probe o app after_health

  to_status : Extends c after_status
  to_status =
      Extends-trans c after_deployment after_status
        (check_deployment-Extends o app (latest c.store app) c)
        (check_status-Extends o app (o.status_of app) after_deployment)

  to_health : Extends c after_health
  to_health =
      Extends-trans c after_status after_health to_status
        (record_health-Extends o app (latest c.store app) after_status)

  to_probe : Extends c after_probe
  to_probe =
      Extends-trans c after_health after_probe to_health (check_probe-Extends o app after_health)

  from_probe : Extends after_probe (collect_application o app c)
  from_probe = check_certificate-Extends o app after_probe

  from_health : Extends after_health (collect_application o app c)
  from_health =
      Extends-trans after_health after_probe (collect_application o app c)
        (check_probe-Extends o app after_health) from_probe

  from_status : Extends after_status (collect_application o app c)
  from_status =
      Extends-trans after_status after_health (collect_application o app c)
        (record_health-Extends o app (latest c.store app) after_status) from_health

  from_deployment : Extends after_deployment (collect_application o app c)
  from_deployment =
      Extends-trans after_deployment after_status (collect_application o app c)
        (check_status-Extends o app (o.status_of app) after_deployment) from_status

  pub body-Extends : Extends c (collect_application o app c)
  body-Extends = Extends-trans c after_probe (collect_application o app c) to_probe from_probe

  known :
      (c' : Collected)
      → Extends c c'
      → has_application app.id c.store ≡ true
      → references_hold c'.store (some app.id) none ≡ true
  known c' e h = rw (e.applications) (ground arith)

  -- The body raises every defect of its application.
  pub body-IsRaised :
      (message : String)
      → has_application app.id c.store ≡ true
      → IsDefect o c.store app message
      → IsRaised message (some app.id) (collect_application o app c)
  body-IsRaised message h (IsDefect.failed_release d e f) =
      from_deployment.keeps message (some app.id) (
        rw e (
          raise_if-IsRaised o "critical" (failed_message app) (some app.id) (some d.id)
            (is_failed d.status) c f (ground (arith, has_latest c.store app d e))))
  body-IsRaised message h (IsDefect.unreadable error e f) =
      from_status.keeps message (some app.id) (
        rw e (
          raise_if-IsRaised o "warning" ("No se pudo obtener el estado de " +s+ app.name +s+ ".")
            (some app.id) none (not (is_some (find? error "Apple Container"))) after_deployment
            (ground arith)
            (known after_deployment (check_deployment-Extends o app (latest c.store app) c) h)))
  body-IsRaised message h (IsDefect.unhealthy st e f) = from_status.keeps message (some app.id) (
      rw e (
        raise_if-IsRaised o "critical" (unhealthy_message app) (some app.id) none
          (not (is_healthy st)) after_deployment (ground arith)
          (known after_deployment (check_deployment-Extends o app (latest c.store app) c) h)))
  body-IsRaised message h (IsDefect.unreachable e) = from_probe.keeps message (some app.id) (
      raise_if-IsRaised o "critical" (probe_message app) (some app.id) none
        (not (o.probe_route app).success) after_health (ground arith)
        (known after_health to_health h))
  body-IsRaised message h (IsDefect.certificate e) =
      raise_if-IsRaised o "warning" (o.certificate_alert app) (some app.id) none
        (not (o.certificate_alert app =s= "")) after_probe (ground arith)
        (known after_probe to_probe h)
