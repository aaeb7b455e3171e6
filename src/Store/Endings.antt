-- ===== src/Store/Endings.antt =====
-- internal/store/store.go: how a job ends, and what is recorded on it meanwhile.
pub mod Cancelling
pub mod Requested
pub mod Recovering
use mini_dock.Prelude.{
  ℕ, String, Bool, true, false, not, ◌&&◌, Option, none, some, List, [], ◌∷◌, map, ◌==◌,
  if◌then◌else◌, is_some, any, Result, ok, err, not_found, constraint_failed, Done, done,
}
use mini_dock.Prelude.Rows.{update_where, delete_where, count_where}
use mini_dock.Store.Tables.{
  Status, queued, failed, cancelled, is_queued, is_running, ReleaseMetadata, StageDurations,
  FailureCause, Deployment, DeploymentEvent, Alert, Store,
}
use mini_dock.Store.Jobs.{with_deployments, index_holds, has_id, is_owned}

-- The WHERE clauses of CancelDeployment's two statements.
abbrev pub cancels_queued : ℕ → ℕ → Deployment → Bool
cancels_queued application_id id d =
    d.id == id && d.application_id == application_id && is_queued d.status

abbrev pub cancels_running : ℕ → ℕ → Deployment → Bool
cancels_running application_id id d = is_owned id d && d.application_id == application_id

abbrev pub ended : ℕ → Status → Deployment → Deployment
ended now status d = record d { status = status; finished_at = some now; lease_expires_at = none }

-- CancelDeployment
unfoldable pub cancel_deployment : ℕ → Store → ℕ → ℕ → Store × Done
unfolding update_where count_where
cancel_deployment now s application_id id =
    let queued_rows =
      update_where (cancels_queued application_id id) (ended now cancelled) s.deployments in
    let rows =
      update_where (cancels_running application_id id)
        (λ d. record d { cancellation_requested_at = some now }) queued_rows in
    if count_where (cancels_queued application_id id) s.deployments == 1
    then (with_deployments s queued_rows, done)
    else (
      with_deployments s rows,
      if count_where (cancels_running application_id id) queued_rows == 1
          then done
          else err not_found,
    )

-- The SET clause of RecoverInterruptedDeployments.
abbrev pub interrupted : ℕ → Deployment → Deployment
interrupted now d = record (ended now failed d) {
  failure = record {
    stage = "start";
    code = "worker_restarted";
    detail = "MiniDock restarted before this job completed";
  };
}

-- RecoverInterruptedDeployments
unfoldable pub recover_interrupted_deployments : ℕ → Store → Store × Result ℕ
unfolding update_where count_where
recover_interrupted_deployments now s = (
  with_deployments s (update_where (λ d. is_running d.status) (interrupted now) s.deployments),
  ok (count_where (λ d. is_running d.status) s.deployments),
)

-- The CASE of FinishDeployment: a requested cancellation wins over the caller's status.
abbrev pub final_status : Status → Deployment → Status
final_status status d = if is_some d.cancellation_requested_at then cancelled else status

-- FinishDeployment: the index is checked again, since the caller chooses the status.
unfoldable pub finish_deployment : ℕ → Store → ℕ → Status → Store × Done
unfolding update_where index_holds
finish_deployment now s id status =
    let rows = update_where (has_id id) (λ d. ended now (final_status status d) d) s.deployments in
    if index_holds rows then (with_deployments s rows, done) else (s, err constraint_failed)

module _ (s : Store) (id : ℕ) where
  abbrev set_row : (Deployment → Deployment) → Store
  unfolding update_where
  set_row f = with_deployments s (update_where (has_id id) f s.deployments)

  -- SetDeploymentImage
  unfoldable pub set_deployment_image : String → Store
  unfolding update_where
  set_deployment_image image = set_row (λ d. record d { image = image })

  -- SetDeploymentReleaseMetadata
  unfoldable pub set_deployment_release_metadata : ReleaseMetadata → Store
  unfolding update_where
  set_deployment_release_metadata metadata = set_row (λ d. record d { release = metadata })

  -- SetDeploymentFailure
  unfoldable pub set_deployment_failure : FailureCause → Store
  unfolding update_where
  set_deployment_failure cause = set_row (λ d. record d { failure = cause })

  -- SetDeploymentStage
  unfoldable pub set_deployment_stage : String → Store
  unfolding update_where
  set_deployment_stage stage = set_row (λ d. record d { current_stage = stage })

  -- SetDeploymentStageDurations
  unfoldable pub set_deployment_stage_durations : StageDurations → Store
  unfolding update_where
  set_deployment_stage_durations durations = set_row (λ d. record d { durations = durations })

-- id IN (…)
abbrev pub one_of : List ℕ → ℕ → Bool
one_of ids id = any (λ i. id == i) ids

abbrev pub deleted : ℕ → List ℕ → Deployment → Bool
deleted application_id ids d = d.application_id == application_id && one_of ids d.id

-- The ids of the rows that a DELETE takes away.
abbrev deleted_ids : ℕ → List ℕ → List Deployment → List ℕ
deleted_ids application_id ids [] = []
deleted_ids application_id ids (d ∷ ds) =
    let rest = deleted_ids application_id ids ds in
    if deleted application_id ids d then d.id ∷ rest else rest

abbrev pub points_to : List ℕ → Option ℕ → Bool
points_to ids none = false
points_to ids (some id) = one_of ids id

-- DeleteDeployments: the foreign keys delete a job's events and clear its alerts' references.
unfoldable pub delete_deployments : Store → ℕ → List ℕ → Store
unfolding update_where delete_where
delete_deployments s application_id [] = s
delete_deployments s application_id (i ∷ is) =
    let gone = deleted_ids application_id (i ∷ is) s.deployments in
    record s {
      deployments = delete_where (deleted application_id (i ∷ is)) s.deployments;
      events = delete_where (λ e. one_of gone e.deployment_id) s.events;
      alerts =
          update_where (λ a. points_to gone a.deployment_id)
            (λ a. record a { deployment_id = none }) s.alerts;
    }
