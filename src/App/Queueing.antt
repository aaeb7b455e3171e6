-- ===== src/App/Queueing.antt =====
-- internal/app/cicd.go: queueDeploymentRef, a job with what it is asked to release. The log file's
-- path and the manifest of an application, as json.Marshal prints it, are parameters.
pub mod Kept
use mini_dock.Prelude.{
  ℕ, String, Option, none, some, List, ◌==◌, ◌=s=◌, if◌then◌else◌, Result, ok, err, Error,
  not_found,
}
use mini_dock.Prelude.Rows.{find_where}
use mini_dock.Store.Tables.{Application, Deployment, Store}
use mini_dock.Store.Jobs.{queue_deployment, no_release}
use mini_dock.Store.Endings.{set_deployment_release_metadata}

abbrev pub requested_ref_of : Application → String → String
requested_ref_of app ref = if ref =s= "" then app.branch else ref

module _ (next_id : List ℕ → ℕ) (manifest : Application → String) where
  abbrev pub with_manifest : String → Store → Deployment → Option Application → Store × Option Error
  with_manifest ref s d none = (s, some not_found)
  with_manifest ref s d (some app) = (
    set_deployment_release_metadata s d.id (record no_release {
      requested_ref = requested_ref_of app ref;
      internal_port = app.internal_port;
      manifest = manifest app;
    }),
    none,
  )

  -- From the answer of QueueDeployment on.
  abbrev pub with_reference : ℕ → String → Store × Result Deployment → Store × Option Error
  with_reference id ref (s, err e) = (s, some e)
  with_reference id ref (s, ok d) =
      with_manifest ref s d (find_where (λ (a : Application). a.id == id) s.applications)

  -- queueDeploymentRef
  unfoldable pub queue_deployment_ref :
      ℕ → ℕ → String → String → String → Store → Store × Option Error
  queue_deployment_ref now id action ref log s =
      with_reference id ref (queue_deployment next_id now s id action log)
