-- ===== src/Store/Releases.antt =====
-- internal/store/store.go: the queries over an application's jobs, and which jobs may be dropped.
pub mod Sorted
pub mod Retention
pub mod Dropped
pub mod Rollback
use mini_dock.Prelude.{
  ℕ, suc, ◌+◌, String, Bool, true, false, not, ◌&&◌, ◌||◌, Option, none, some, List, [], ◌∷◌, ltb,
  leb, ◌==◌, ◌=s=◌, if◌then◌else◌, Result, ok, err, not_found,
}
use mini_dock.Prelude.Rows.{where_rows, find_where, sort_by, row_at}
use mini_dock.Store.Tables.{Deployment, Store, is_active, is_successful, is_failed}
use mini_dock.Store.Jobs.{id_ge}

abbrev found : Option Deployment → Result Deployment
found none = err not_found
found (some d) = ok d

-- WHERE application_id = ? AND status = 'successful' AND image <> ''
abbrev pub restorable : ℕ → Deployment → Bool
restorable application_id d =
    d.application_id == application_id && is_successful d.status && not (d.image =s= "")

-- The columns that the queries for a rollback target read.
abbrev pub release_columns : Deployment → Deployment
release_columns d = record d {
  attempt = 0;
  heartbeat_at = none;
  lease_expires_at = none;
  cancellation_requested_at = none;
}

abbrev found_release : Option Deployment → Result Deployment
found_release none = err not_found
found_release (some d) = ok (release_columns d)

module _ (s : Store) (application_id : ℕ) where
  -- Deployments: newest first.
  unfoldable pub deployments : List Deployment
  unfolding where_rows sort_by
  deployments = sort_by id_ge (where_rows (λ d. d.application_id == application_id) s.deployments)

  -- Deployment: a job only under the application that it belongs to.
  unfoldable pub deployment : ℕ → Result Deployment
  unfolding find_where
  deployment id =
      found (find_where (λ d. d.application_id == application_id && d.id == id) s.deployments)

  -- The rows that LatestSuccessfulDeployment and PreviousSuccessfulDeployment choose from.
  unfoldable pub restorable_rows : List Deployment
  unfolding where_rows sort_by
  restorable_rows = sort_by id_ge (where_rows (restorable application_id) s.deployments)

  -- LatestSuccessfulDeployment
  unfoldable pub latest_successful_deployment : Result Deployment
  unfolding restorable_rows row_at
  latest_successful_deployment = found_release (row_at 0 restorable_rows)

  -- PreviousSuccessfulDeployment
  unfoldable pub previous_successful_deployment : Result Deployment
  unfolding restorable_rows row_at
  previous_successful_deployment = found_release (row_at 1 restorable_rows)

  -- LatestFailedDeployment
  unfoldable pub latest_failed_deployment : Result Deployment
  unfolding where_rows sort_by row_at
  latest_failed_deployment = found (
      row_at 0 (
        sort_by id_ge (
          where_rows (λ d. d.application_id == application_id && is_failed d.status)
            s.deployments)))

-- !FinishedAt.IsZero() && FinishedAt.Before(before)
abbrev pub finished_before : ℕ → Option ℕ → Bool
finished_before before none = false
finished_before before (some t) = ltb t before

-- Whether the loop of RetentionCandidates skips a job for its state or its age.
abbrev pub unfinished_or_recent : ℕ → Deployment → Bool
unfinished_or_recent before d = is_active d.status || not (finished_before before d.finished_at)

-- The loop of RetentionCandidates; `seen` counts the successful jobs so far.
unfoldable pub retention_from : ℕ → ℕ → ℕ → List Deployment → List Deployment
retention_from before retain seen [] = []
retention_from before retain seen (d ∷ ds) =
    let seen' = if is_successful d.status then seen + 1 else seen in
    let rest = retention_from before retain seen' ds in
    if unfinished_or_recent before d
    then rest
    else (if is_successful d.status && leb seen' retain then rest else d ∷ rest)

-- RetentionCandidates
unfoldable pub retention_candidates : Store → ℕ → ℕ → ℕ → List Deployment
unfolding deployments retention_from
retention_candidates s application_id before retain =
    retention_from before retain 0 (deployments s application_id)
