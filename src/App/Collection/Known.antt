-- ===== src/App/Collection/Known.antt =====
-- internal/app/operations.go, runCollection: the alerts that are open at its end against their
-- causes.
use mathlib.Core.List.{Memᴰ}
use text.Mathlib.Text.{find?}
use mini_dock.Prelude.{
  ℕ, ◌≡◌, refl, sym, ◌∙◌, String, Bool, true, false, not, ◌&&◌, inl, inr, Option, none, some, List,
  [], ◌∷◌, arith, any, All, All-append, All-mono, Bool-cases, ◌=s=◌, eq_iff, is_some,
}
use mini_dock.Prelude.Decimal.{◌+s+◌}
use mini_dock.Prelude.Rows.{update_where}
use mini_dock.Prelude.Rows.Laws.{All-Memᴰ_self}
use mini_dock.Prelude.Rows.Order.{All-sort_by}
use mini_dock.Store.Tables.{is_failed, Alert, Application, Deployment, Store}
use mini_dock.Store.Alerts.{is_open, not_in, resolved_at_time, resolve_all_alerts_except}
use mini_dock.Store.Health.{HealthTables}
use mini_dock.App.Collection.{
  Observer, Collected, DiskUsage, unknown_usage, usage, StatusAnswer, no_status, status, raise,
  raise_if, record_health, check_disk, check_deployment, check_status, check_probe,
  collect_application, collect_applications, disk_full_message, failed_message, unhealthy_message,
  probe_message, latest, is_healthy, applications, collected, run_collection,
}
use mini_dock.App.Collection.Raised.{check_disk-Extends}
use mini_dock.App.Collection.Defects.{IsDefect, body-Extends}
use mini_dock.App.Collection.Current.{IsDefect-same}

-- What a collection has seen on the disk or at an application of the table.
pub data IsCause (o : Observer) (s : Store) : String → Type 0 where
  disk_unknown :
      (error : String)
      → o.disk_usage ≡ unknown_usage error
      → IsCause o s ("No se pudo consultar el espacio de disco: " +s+ error)
  disk_full :
      (used : o.F)
      → o.disk_usage ≡ usage used
      → o.reaches used o.disk_alert_percent ≡ true
      → IsCause o s (disk_full_message o (o.one_decimal used))
  defect :
      (app : Application) (message : String)
      → Memᴰ app s.applications
      → IsDefect o s app message
      → IsCause o s message

module _ (P : String → Type 0) (o : Observer) where
  raise-lists :
      (severity message : String) (application deployment : Option ℕ) (c : Collected)
      → All P c.messages
      → P message
      → All P (raise o severity message application deployment c).messages
  unfolding raise
  raise-lists severity message application deployment c h p =
      All-append P c.messages (message ∷ []) h (p, tt)

  raise_if-lists :
      (b : Bool) (severity message : String) (application deployment : Option ℕ) (c : Collected)
      → All P c.messages
      → (b ≡ true → P message)
      → All P (raise_if b o severity message application deployment c).messages
  raise_if-lists true severity message application deployment c h p =
      raise-lists severity message application deployment c h (p refl)
  raise_if-lists false severity message application deployment c h p = h

  module _ (app : Application) where
    deployment-lists :
        (s : Store) (d : Option Deployment) (c : Collected)
        → latest s app ≡ d
        → All P c.messages
        → ((message : String) → IsDefect o s app message → P message)
        → All P (check_deployment o app d c).messages
    deployment-lists s none c e h p = h
    deployment-lists s (some d) c e h p =
        raise_if-lists (is_failed d.status) "critical" (failed_message app) (some app.id)
          (some d.id) c h (λ f. p (failed_message app) (IsDefect.failed_release d e f))

    status-lists :
        (s : Store) (a : StatusAnswer) (c : Collected)
        → o.status_of app ≡ a
        → All P c.messages
        → ((message : String) → IsDefect o s app message → P message)
        → All P (check_status o app a c).messages
    status-lists s (no_status error) c e h p =
        raise_if-lists (not (is_some (find? error "Apple Container"))) "warning"
          ("No se pudo obtener el estado de " +s+ app.name +s+ ".") (some app.id) none c h
          (λ f. p _ (IsDefect.unreadable error e (ground arith)))
    status-lists s (status st) c e h p =
        raise_if-lists (not (is_healthy st)) "critical" (unhealthy_message app) (some app.id) none c
          h (λ f. p _ (IsDefect.unhealthy st e (ground arith)))

    health-lists :
        (d : Option Deployment) (c : Collected)
        → All P c.messages
        → All P (record_health o app d c).messages
    unfolding record_health
    health-lists d c h = h

    body-lists :
        (c : Collected)
        → All P c.messages
        → ((message : String) → IsDefect o c.store app message → P message)
        → All P (collect_application o app c).messages
    body-lists c h p =
        let d = latest c.store app in
        let c1 : Collected = check_deployment o app d c in
        let c2 : Collected = check_status o app (o.status_of app) c1 in
        let c3 : Collected = record_health o app d c2 in
        let h1 : All P c1.messages = deployment-lists c.store d c refl h p in
        let h2 : All P c2.messages = status-lists c.store (o.status_of app) c1 refl h1 p in
        let h3 : All P c3.messages = health-lists d c2 h2 in
        let h4 : All P (check_probe o app c3).messages =
          raise_if-lists (not (o.probe_route app).success) "critical" (probe_message app)
            (some app.id) none c3 h3
            (λ f. p (probe_message app) (IsDefect.unreachable (ground arith))) in
        raise_if-lists (not (o.certificate_alert app =s= "")) "warning" (o.certificate_alert app)
          (some app.id) none (check_probe o app c3) h4
          (λ f. p (o.certificate_alert app) (IsDefect.certificate (ground arith)))

  loop-lists :
      (s : Store) (apps : List Application) (c : Collected)
      → c.store.deployments ≡ s.deployments
      → All P c.messages
      → All (λ app. (message : String) → IsDefect o s app message → P message) apps
      → All P (collect_applications o apps c).messages
  loop-lists s [] c e h p = h
  loop-lists s (app ∷ apps) c e h p =
      loop-lists s apps (collect_application o app c) ((body-Extends o app c).deployments ∙ e)
        (body-lists app c h (λ m d. p.0 m (IsDefect-same o c.store s app m (sym e) d))) p.1

  from_listed :
      (messages : List String) (message : String)
      → All P messages
      → any (λ m. message =s= m) messages ≡ true
      → P message
  from_listed [] message h e = absurd (ground arith)
  from_listed (m ∷ ms) message h e = elim (Bool-cases (message =s= m)) [
    | inl hit ↦ rw ((eq_iff message m).0 hit) (h.0)
    | inr miss ↦ from_listed ms message h.1 (ground arith)
  ]

  -- What the last step leaves open has a listed message.
  listed_open :
      (now : ℕ) (messages : List String) (rows : List Alert)
      → All P messages
      → All
          (λ a. is_open a ≡ true → P a.message)
          (update_where (λ a. is_open a && not_in messages a) (resolved_at_time now) rows)
  unfolding update_where
  listed_open now messages [] h = tt
  listed_open now messages (a ∷ rows) h = elim (Bool-cases (is_open a && not_in messages a)) [
    | inl hit ↦ rw hit ((λ e. absurd (ground arith)), listed_open now messages rows h)
    | inr miss ↦
        rw miss
          ((λ e. from_listed messages a.message h (ground arith)), listed_open now messages rows h)
  ]

  every_alert_resolved :
      (now : ℕ) (rows : List Alert)
      → All (λ a. is_open a ≡ true → P a.message) (update_where is_open (resolved_at_time now) rows)
  unfolding update_where
  every_alert_resolved now [] = tt
  every_alert_resolved now (a ∷ rows) = elim (Bool-cases (is_open a)) [
    | inl hit ↦ rw hit ((λ e. absurd (ground arith)), every_alert_resolved now rows)
    | inr miss ↦ rw miss ((λ e. absurd (ground arith)), every_alert_resolved now rows)
  ]

  resolve-lists :
      (now : ℕ) (s : Store) (messages : List String)
      → All P messages
      → All (λ a. is_open a ≡ true → P a.message) (resolve_all_alerts_except now s messages).alerts
  resolve-lists now s [] h = every_alert_resolved now s.alerts
  resolve-lists now s (m ∷ ms) h = listed_open now (m ∷ ms) s.alerts h

disk-lists :
    (o : Observer) (s : Store) (c : Collected) (d : DiskUsage o.F)
    → o.disk_usage ≡ d
    → All (IsCause o s) c.messages
    → All (IsCause o s) (check_disk o d c).messages
disk-lists o s c (unknown_usage error) e h =
    raise-lists (IsCause o s) o "warning" ("No se pudo consultar el espacio de disco: " +s+ error)
      none none c h (IsCause.disk_unknown error e)
disk-lists o s c (usage used) e h =
    raise_if-lists (IsCause o s) o (o.reaches used o.disk_alert_percent) "critical"
      (disk_full_message o (o.one_decimal used)) none none c h (λ f. IsCause.disk_full used e f)

-- After runCollection, the message of every open alert has a cause that this collection has seen,
-- on the disk or as a defect of an application of the table: alerts that anything else has raised
-- are resolved.
pub run_collection-known :
    (o : Observer) (s : Store) (health : HealthTables)
    → All (λ a. is_open a ≡ true → IsCause o s a.message) (run_collection o s health).0.alerts
run_collection-known o s health =
    let start : Collected = record { messages = []; store = s; health = health } in
    let checked : Collected = check_disk o o.disk_usage start in
    let causes : All (λ app. (m : String) → IsDefect o s app m → IsCause o s m) (applications o s) =
      All-mono (λ app. Memᴰ app s.applications) _ (λ app m k d. IsCause.defect app k m d)
        (applications o s)
        (All-sort_by _ (λ a. Memᴰ a s.applications) s.applications
          (All-Memᴰ_self s.applications)) in
    resolve-lists (IsCause o s) o o.now (collected o s health).store (collected o s health).messages
      (loop-lists (IsCause o s) o s (applications o s) checked
        (check_disk-Extends o o.disk_usage start).deployments
        (disk-lists o s start o.disk_usage refl tt) causes)
