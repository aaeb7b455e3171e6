-- ===== src/App/Collection/Current.antt =====
-- internal/app/operations.go, runCollection: the defects against the alerts that are open at its
-- end.
use mathlib.Core.List.{Memᴰ}
use mini_dock.Prelude.{
  ℕ, ◌≡◌, sym, ◌∙◌, String, true, Option, some, List, [], ◌∷◌, arith, any, ◌=s=◌, ◌==◌,
}
use mini_dock.Prelude.Rows.Laws.{All-Memᴰ_self, All-Memᴰ}
use mini_dock.Prelude.Rows.Order.{All-of_sort_by}
use mini_dock.Store.Tables.{Application, Store}
use mini_dock.Store.Jobs.{has_application}
use mini_dock.Store.Alerts.{open_alert, resolve_all_alerts_except}
use mini_dock.Store.Health.{HealthTables}
use mini_dock.App.Collection.{
  Observer, Collected, check_disk, collect_application, collect_applications, applications,
  collected, run_collection,
}
use mini_dock.App.Collection.Raised.{
  IsRaised, Extends, Extends-refl, Extends-trans, check_disk-Extends, spared,
}
use mini_dock.Prelude.Rows.Members.{any_of_Memᴰ}
use mini_dock.App.Collection.Defects.{IsDefect, latest-same, body-Extends, body-IsRaised}

-- A defect is one of the tables that a step keeps.
pub IsDefect-same :
    (o : Observer) (s s' : Store) (app : Application) (message : String)
    → s'.deployments ≡ s.deployments
    → IsDefect o s app message
    → IsDefect o s' app message
IsDefect-same o s s' app message same (IsDefect.failed_release d e f) =
    IsDefect.failed_release d (latest-same s s' app same ∙ e) f
IsDefect-same o s s' app message same (IsDefect.unreadable error e f) =
    IsDefect.unreadable error e f
IsDefect-same o s s' app message same (IsDefect.unhealthy st e f) = IsDefect.unhealthy st e f
IsDefect-same o s s' app message same (IsDefect.unreachable e) = IsDefect.unreachable e
IsDefect-same o s s' app message same (IsDefect.certificate e) = IsDefect.certificate e

loop-Extends :
    (o : Observer) (apps : List Application) (c : Collected)
    → Extends c (collect_applications o apps c)
loop-Extends o [] c = Extends-refl c
loop-Extends o (app ∷ apps) c =
    Extends-trans c (collect_application o app c)
      (collect_applications o apps (collect_application o app c)) (body-Extends o app c)
      (loop-Extends o apps (collect_application o app c))

loop-IsRaised :
    (o : Observer) (apps : List Application) (c : Collected) (app : Application) (message : String)
    → Memᴰ app apps
    → has_application app.id c.store ≡ true
    → IsDefect o c.store app message
    → IsRaised message (some app.id) (collect_applications o apps c)
loop-IsRaised o [] c app message m h defect = elim m [ ]
loop-IsRaised o (a ∷ apps) c app message (Memᴰ.head e) h defect =
    (loop-Extends o apps (collect_application o a c)).keeps message (some app.id)
      (rw (sym e) (body-IsRaised o app c message h defect))
loop-IsRaised o (a ∷ apps) c app message (Memᴰ.tail m) h defect =
    let step = body-Extends o a c in
    loop-IsRaised o apps (collect_application o a c) app message m (rw (step.applications) h) (
      IsDefect-same o c.store (collect_application o a c).store app message step.deployments defect)

-- The last step resolves no alert that is listed.
resolve-spared :
    (now : ℕ) (s : Store) (messages : List String) (message : String) (application : Option ℕ)
    → any (λ m. message =s= m) messages ≡ true
    → any (open_alert message application) s.alerts ≡ true
    → any (open_alert message application) (resolve_all_alerts_except now s messages).alerts ≡ true
resolve-spared now s [] message application listed h = absurd (ground arith)
resolve-spared now s (m ∷ ms) message application listed h =
    spared now (m ∷ ms) message application s.alerts listed h

-- After runCollection, every defect of an application of the table (its latest job has failed, its
-- container is not healthy or cannot be read, its route does not answer, its certificate is to be
-- renewed) has an open alert with its message on that application.
pub run_collection-raises :
    (o : Observer) (s : Store) (health : HealthTables) (app : Application) (message : String)
    → Memᴰ app s.applications
    → IsDefect o s app message
    → any (open_alert message (some app.id)) (run_collection o s health).0.alerts ≡ true
run_collection-raises o s health app message m defect =
    let start : Collected = record { messages = []; store = s; health = health } in
    let checked : Collected = check_disk o o.disk_usage start in
    let disk : Extends start checked = check_disk-Extends o o.disk_usage start in
    let listed : Memᴰ app (applications o s) =
      All-Memᴰ (λ a. Memᴰ a (applications o s)) s.applications app
        (All-of_sort_by _ (λ a. Memᴰ a (applications o s)) s.applications
          (All-Memᴰ_self (applications o s)))
        m in
    let exists : has_application app.id s ≡ true =
      any_of_Memᴰ (λ (a : Application). a.id == app.id) s.applications app m (ground arith) in
    let raised : IsRaised message (some app.id) (collected o s health) =
      loop-IsRaised o (applications o s) checked app message listed (rw (disk.applications) exists)
        (IsDefect-same o s checked.store app message disk.deployments defect) in
    resolve-spared o.now (collected o s health).store (collected o s health).messages message
      (some app.id) raised.listed raised.open_
