-- ===== src/Store/Endings/Requested.antt =====
-- internal/store/store.go: a cancellation that is requested while a job runs.
use mini_dock.Prelude.{
  ℕ, ◌≡◌, refl, ap, ◌∙◌, false, none, some, arith, err, deployment_cancelled, done,
}
use mini_dock.Prelude.Rows.{update_where, find_where}
use mini_dock.Prelude.Rows.Laws.{find_where-update_where}
use mini_dock.Store.Tables.{Status, running, cancelled, is_active, Deployment, Store}
use mini_dock.Store.Jobs.{with_deployments, has_id, heartbeat_deployment}
use mini_dock.Store.Endings.{cancels_running, ended, cancel_deployment, finish_deployment}
use mini_dock.Store.Endings.Cancelling.{
  heartbeat_deployment-heartbeat_on, finish_deployment-final, cancel_deployment-cancel_on,
  has_id_of_find,
}
use mini_dock.Store.Lifecycle.{IsValid}
use mini_dock.Store.Lifecycle.Steps.{cancel_requested, cancel_deployment-IsValid}

-- The job with the id is running for the application, and nobody has asked to cancel it.
pub record IsCancellable (app id : ℕ) (s : Store) (d : Deployment) : Type 0 where
  pub found : find_where (has_id id) s.deployments ≡ some d
  pub of_application : d.application_id ≡ app
  pub is_running_job : d.status ≡ running
  pub not_requested : d.cancellation_requested_at ≡ none

module _ (now app id : ℕ) (s : Store) (d : Deployment) (v : IsValid s)
    (c : IsCancellable app id s d) where
  requested : cancel_deployment now s app id ≡ (
    with_deployments s (update_where (cancels_running app id) (cancel_requested now) s.deployments),
    done,
  )
  requested =
      cancel_deployment-cancel_on now app id s v
      ∙ rw c.found (ground (arith, c.of_application, c.is_running_job, c.not_requested))

  still_there :
      find_where (has_id id) (cancel_deployment now s app id).0.deployments
      ≡ some (cancel_requested now d)
  still_there = rw requested (
      ground (
        arith,
        find_where-update_where (has_id id) (cancels_running app id) (cancel_requested now)
            (λ a. refl) s.deployments c.found,
        has_id_of_find now id s.deployments c.found,
        c.of_application,
        c.is_running_job,
        c.not_requested,
      ))

  -- On a valid store, a cancellation of a running job that nobody has cancelled yet is accepted;
  -- any later heartbeat of its worker reports it and changes nothing; and whatever status that
  -- ends a job the worker then gives, the job is recorded as cancelled.
  pub cancelled_while_running :
      (later end : ℕ) (status : Status)
      → is_active status ≡ false
      → ((cancel_deployment now s app id).1 ≡ done)
        × (heartbeat_deployment later (cancel_deployment now s app id).0 id
            ≡ ((cancel_deployment now s app id).0, err deployment_cancelled))
        × (find_where
              (has_id id)
              (finish_deployment end (cancel_deployment now s app id).0 id status).0.deployments
            ≡ some (ended end cancelled (cancel_requested now d)))
  cancelled_while_running later end status proper =
      let valid = cancel_deployment-IsValid now s app id v in
      let t = (cancel_deployment now s app id).0 in
      (
        ap (λ r. r.1) requested,
        heartbeat_deployment-heartbeat_on later id t valid ∙ rw still_there (ground arith),
        (finish_deployment-final end t id status _ valid proper still_there).1,
      )
