-- ===== src/Store/Jobs.antt =====
-- internal/store/store.go: the deployment queue. An operation takes the clock where the source
-- reads time.Now, and returns the store with the call's result.
pub mod Index
pub mod Claim
pub mod Keyed
use mini_dock.Prelude.{
  ℕ, ◌+◌, ◌≢◌, All, String, Bool, true, false, not, ◌&&◌, ◌||◌, Option, none, some, List, [], ◌∷◌,
  ◌++◌, map, leb, ◌==◌, ◌=s=◌, if◌then◌else◌, is_some, any, Result, ok, err, Error, not_found,
  deployment_cancelled, invalid_argument, constraint_failed, Done, done,
}
use mini_dock.Prelude.Int.{ℤ, pos, sub_div}
use mini_dock.Prelude.Rows.{
  update_where, where_rows, delete_where, count_where, find_where, sort_by, row_at,
}
use mini_dock.Store.Tables.{
  Status, queued, running, failed, cancelled, is_active, is_queued, is_running, ReleaseMetadata,
  StageDurations, FailureCause, Deployment, Application, Store, deployment_lease_duration,
}

abbrev pub no_release : ReleaseMetadata
no_release = record {
  requested_ref = "";
  source_revision = "";
  source_fingerprint = "";
  artifact_digest = "";
  runtime = "";
  internal_port = 0;
  health_endpoint = "";
  manifest = "";
  configuration_digest = "";
}

abbrev pub no_failure : FailureCause
no_failure = record { stage = ""; code = ""; detail = "" }

abbrev pub no_durations : StageDurations
no_durations = record {
  queue_ms = pos 0;
  source_ms = pos 0;
  build_ms = pos 0;
  start_ms = pos 0;
  health_ms = pos 0;
  route_ms = pos 0;
}

-- A new row: the columns that the INSERT leaves out have the schema's defaults.
abbrev pub new_deployment : ℕ → ℕ → Status → String → ℕ → String → Deployment
new_deployment id application_id status log_path now action = record {
  id = id;
  application_id = application_id;
  status = status;
  image = "";
  release = no_release;
  failure = no_failure;
  log_path = log_path;
  started_at = now;
  finished_at = none;
  action = action;
  attempt = 0;
  heartbeat_at = none;
  lease_expires_at = none;
  cancellation_requested_at = none;
  durations = no_durations;
  current_stage = "";
}

-- The rows of the partial unique index that belong to an application.
abbrev pub active_for : ℕ → Deployment → Bool
active_for application_id d = d.application_id == application_id && is_active d.status

-- The index one_active_deployment_per_application has no key twice.
unfoldable pub index_holds : List Deployment → Bool
index_holds [] = true
index_holds (d ∷ ds) =
    not (is_active d.status && any (active_for d.application_id) ds) && index_holds ds

abbrev pub has_application : ℕ → Store → Bool
has_application application_id s = any (λ (a : Application). a.id == application_id) s.applications

abbrev pub ids : List Deployment → List ℕ
ids = map (λ d. d.id)

abbrev pub with_deployments : Store → List Deployment → Store
with_deployments s ds = record s { deployments = ds }

-- The primary key: no two rows have one id.
abbrev pub AreDistinct : List Deployment → Type 0
AreDistinct [] = Unit
AreDistinct (d ∷ ds) = All (λ (e : Deployment). d.id ≢ e.id) ds × AreDistinct ds

-- INSERT INTO deployments: the engine refuses a foreign key without its application, and a second
-- active job of one application.
unfoldable pub insert_deployment : Store → Deployment → Store × Result Deployment
unfolding index_holds
insert_deployment s d =
    if has_application d.application_id s && index_holds (d ∷ s.deployments)
    then (with_deployments s (d ∷ s.deployments), ok d)
    else (s, err constraint_failed)

-- The row of StartDeployment.
abbrev pub started_deployment : ℕ → ℕ → String → String → ℕ → Deployment
started_deployment id application_id image log_path now =
    record (new_deployment id application_id running log_path now "deploy") {
      image = image;
      attempt = 1;
      heartbeat_at = some now;
      lease_expires_at = some (now + deployment_lease_duration);
    }

-- StartDeployment returns the row without its action, which the schema's default supplies.
abbrev pub without_action : Result Deployment → Result Deployment
without_action (ok d) = ok (record d { action = "" })
without_action (err e) = err e

-- The actions that QueueDeployment accepts.
abbrev pub valid_action : String → Bool
valid_action action = action =s= "deploy" || action =s= "rollback" || action =s= "auto_rollback"

module _ (next_id : List ℕ → ℕ) where
  -- StartDeployment
  unfoldable pub start_deployment : ℕ → Store → ℕ → String → String → Store × Result Deployment
  unfolding insert_deployment
  start_deployment now s application_id image log_path =
      let inserted =
        insert_deployment s
          (started_deployment (next_id (ids s.deployments)) application_id image log_path now) in
      (inserted.0, without_action inserted.1)

  -- QueueDeployment
  unfoldable pub queue_deployment : ℕ → Store → ℕ → String → String → Store × Result Deployment
  unfolding insert_deployment
  queue_deployment now s application_id action log_path =
      if valid_action action
      then insert_deployment s
          (new_deployment (next_id (ids s.deployments)) application_id queued log_path now action)
      else (s, err invalid_argument)

-- ORDER BY id
abbrev pub id_le : Deployment → Deployment → Bool
id_le a b = leb a.id b.id

-- ORDER BY id DESC
abbrev pub id_ge : Deployment → Deployment → Bool
id_ge a b = leb b.id a.id

abbrev pub has_id : ℕ → Deployment → Bool
has_id id d = d.id == id

-- The job that the SELECT of NextQueuedDeployment reads: the queued one with the least id.
unfoldable pub oldest_queued : List Deployment → Option Deployment
unfolding sort_by where_rows row_at
oldest_queued ds = row_at 0 (sort_by id_le (where_rows (λ d. is_queued d.status) ds))

-- The SET clause of NextQueuedDeployment, with the queue duration that the caller computed.
abbrev pub claimed : ℕ → ℤ → Deployment → Deployment
claimed now queue_ms d = record d {
  status = running;
  started_at = now;
  attempt = d.attempt + 1;
  heartbeat_at = some now;
  lease_expires_at = some (now + deployment_lease_duration);
  durations = record (d.durations) { queue_ms = queue_ms };
  current_stage = "source";
}

abbrev pub claims : ℕ → Deployment → Bool
claims id d = d.id == id && is_queued d.status

-- NextQueuedDeployment returns the row as it now stands; a requested cancellation is not read.
abbrev pub as_read : Deployment → Deployment
as_read d = record d { cancellation_requested_at = none }

-- The UPDATE of NextQueuedDeployment, which must change one row.
unfoldable pub claim_row : ℕ → Store → Option Deployment → Store × Result Deployment
unfolding update_where count_where
claim_row now s none = (s, err not_found)
claim_row now s (some d) =
    let waited = sub_div now d.started_at 1_000_000 in
    if count_where (claims d.id) s.deployments == 1
    then (
      with_deployments s (update_where (claims d.id) (claimed now waited) s.deployments),
      ok (claimed now waited (as_read d)),
    )
    else (s, err not_found)

-- NextQueuedDeployment
unfoldable pub next_queued_deployment : ℕ → Store → Store × Result Deployment
unfolding claim_row oldest_queued
next_queued_deployment now s = claim_row now s (oldest_queued s.deployments)

-- DeploymentCancellationRequested
unfoldable pub deployment_cancellation_requested : Store → ℕ → Result Bool
unfolding find_where
deployment_cancellation_requested s id = elim (find_where (has_id id) s.deployments) [
  | none ↦ err not_found
  | some d ↦ ok (is_some d.cancellation_requested_at)
]

-- The WHERE clause of a heartbeat and of a cancellation request.
abbrev pub is_owned : ℕ → Deployment → Bool
is_owned id d = d.id == id && is_running d.status && not (is_some d.cancellation_requested_at)

abbrev pub heartbeat_error : Result Bool → Done
heartbeat_error (ok true) = err deployment_cancelled
heartbeat_error _ = err not_found

abbrev pub renewed : ℕ → Deployment → Deployment
renewed now d = record d {
  heartbeat_at = some now;
  lease_expires_at = some (now + deployment_lease_duration);
}

-- HeartbeatDeployment
unfoldable pub heartbeat_deployment : ℕ → Store → ℕ → Store × Done
unfolding update_where count_where deployment_cancellation_requested
heartbeat_deployment now s id =
    let rows = update_where (is_owned id) (renewed now) s.deployments in
    if count_where (is_owned id) s.deployments == 1 then (with_deployments s rows, done) else (
      with_deployments s rows,
      heartbeat_error (deployment_cancellation_requested (with_deployments s rows) id),
    )
