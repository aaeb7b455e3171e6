-- ===== src/App/Worker.antt =====
-- internal/app/cicd.go: runNextDeployment, the work on one job from its claim to its end. The
-- executor and the heartbeat are an interface; what other calls of the store do meanwhile is a list
-- of calls. The notification and the log are left out.
pub mod Preserved
pub mod Valid
pub mod Ended
pub mod Released
pub mod Weighed
pub mod Drained
pub mod Samples
mod ReleasedTests
mod Tests
use mini_dock.Prelude.{
  ℕ, String, Bool, not, Option, none, some, List, [], ◌∷◌, ◌==◌, ◌=s=◌, if◌then◌else◌, Result, ok,
  err,
}
use mini_dock.Prelude.Rows.{find_where}
use mini_dock.App.Queueing.{queue_deployment_ref}
use mini_dock.App.References.{valid_git_commit}
use mini_dock.App.Decisions.{
  health_endpoint_of, reused, first_error, is_requested, action_of, final_of, with_failure,
  queues_rollback,
}
use mini_dock.Store.Tables.{failed, Application, Deployment, ReleaseMetadata, StageDurations, Store}
use mini_dock.Store.Jobs.{next_queued_deployment, deployment_cancellation_requested}
use mini_dock.Store.Endings.{
  finish_deployment, set_deployment_image, set_deployment_release_metadata,
  set_deployment_stage_durations,
}
use mini_dock.Store.Releases.{
  previous_successful_deployment, latest_successful_deployment, latest_failed_deployment,
}
use mini_dock.Store.Lifecycle.{Call, run}
pub use mini_dock.Deploy.Contract.{ReleaseResult}
use mini_dock.Deploy.Failures.{Failure, unclassified}
use mini_dock.App.Configuration.{
  DeploymentConfiguration, Codec, Restoration, restored, not_restored, release_manifest,
  rollback_configuration, rollback_release_metadata,
}

-- What the worker needs for one job: the executor's answers, what other calls do to the store while
-- the executor works and before the job is finished, and the clock.
pub record Surroundings : Type 0 where
  pub log_opens : Bool
  pub configuration : Application → DeploymentConfiguration × Option Failure
  pub deploy : Application → DeploymentConfiguration → ReleaseResult × Option Failure
  pub verify_artifact : Application → String → String → Option Failure
  pub rollback : Application → String → DeploymentConfiguration → ReleaseResult × Option Failure
  -- why a heartbeat has failed, if one has
  pub heartbeat_failure : Option String
  pub durations : StageDurations
  pub during : List (ℕ × Call)
  pub before_finish : List (ℕ × Call)
  pub claimed_at : ℕ
  pub finished_at : ℕ
  pub queued_at : ℕ
  pub rollback_log : String
  -- what queueDeploymentRef records of an application
  pub manifest : Application → String

abbrev not_found_failure : Failure
not_found_failure = unclassified "not found"

module _ (next_id : List ℕ → ℕ) (k : Codec) (w : Surroundings) where
  abbrev pub with_branch : Application → Deployment → Application
  with_branch app d =
      if valid_git_commit d.release.requested_ref
      then record app { branch = d.release.requested_ref }
      else app

  abbrev deployed_metadata :
      Application → DeploymentConfiguration → Deployment → ReleaseResult → ReleaseMetadata
  deployed_metadata app c d r = record {
    requested_ref = d.release.requested_ref;
    source_revision = r.source_revision;
    source_fingerprint = r.source_fingerprint;
    artifact_digest = r.artifact_digest;
    runtime = r.runtime;
    internal_port = app.internal_port;
    health_endpoint = health_endpoint_of app;
    manifest =
        release_manifest k d.release.manifest c.effective_runtime_configuration
          r.observed_container_id;
    configuration_digest = c.configuration_digest;
  }

  -- The branch of a deploy job.
  abbrev pub deployed :
      Store → Application → DeploymentConfiguration → Deployment → Store × Option Failure
  deployed s app c d =
      let r = w.deploy (with_branch app d) c in
      let worked = run next_id s w.during in
      let imaged =
        if r.0.image =s= "" then worked else set_deployment_image worked d.id r.0.image in
      (
        set_deployment_release_metadata imaged d.id (deployed_metadata (with_branch app d) c d r.0),
        r.1,
      )

  abbrev rollback_metadata : DeploymentConfiguration → Deployment → String → ReleaseMetadata
  rollback_metadata c target observed =
      record (rollback_release_metadata target c.configuration_digest) {
        manifest =
            release_manifest k target.release.manifest c.effective_runtime_configuration observed;
      }

  abbrev rolled_back_verified :
      Store
      → Application
      → DeploymentConfiguration
      → Deployment
      → Deployment
      → Option Failure
      → Store × Option Failure
  rolled_back_verified s app c d target (some f) = (s, some f)
  rolled_back_verified s app c d target none =
      let r = w.rollback app target.image c in
      let marked =
        set_deployment_release_metadata (set_deployment_image s d.id target.image) d.id
          (rollback_metadata c target "") in
      let worked = run next_id marked w.during in
      (
        set_deployment_release_metadata worked d.id
            (rollback_metadata c target r.0.observed_container_id),
        r.1,
      )

  abbrev rolled_back_configured :
      Store → Application → Deployment → Deployment → Restoration → Store × Option Failure
  rolled_back_configured s app d target (not_restored f) = (s, some f)
  rolled_back_configured s app d target (restored c) =
      rolled_back_verified s app c d target
        (w.verify_artifact app target.image target.release.artifact_digest)

  -- The branches of a rollback and of an automatic rollback, which differ in their target.
  abbrev pub rolled_back :
      Store
      → Application
      → DeploymentConfiguration
      → Deployment
      → Result Deployment
      → Store × Option Failure
  rolled_back s app c d (err e) = (s, some not_found_failure)
  rolled_back s app c d (ok target) =
      rolled_back_configured s app d target (rollback_configuration k c target.release.manifest)

  abbrev pub acted :
      Store
      → Application
      → Deployment
      → String
      → DeploymentConfiguration
      → Option Failure
      → Store × Option Failure
  acted s app d action c (some f) = (s, some f)
  acted s app d action c none =
      if action =s= "deploy"
      then deployed s app c d
      else if action =s= "rollback"
      then rolled_back s app c d (previous_successful_deployment s app.id)
      else if action =s= "auto_rollback"
      then rolled_back s app c d (latest_successful_deployment s app.id)
      else (s, none)

  -- A retry is a deploy with the failed job's image.
  abbrev pub worked_on :
      Store
      → Application
      → Deployment
      → DeploymentConfiguration × Option Failure
      → Store × Option Failure
  worked_on s app d (c, some f) = acted s app d d.action c (some f)
  worked_on s app d (c, none) =
      if d.action =s= "retry"
      then acted s app d "deploy" (reused c (latest_failed_deployment s app.id)) none
      else acted s app d d.action c none

  -- From the end of the executor's work to the end of the job.
  abbrev pub concluded :
      Application → Deployment → String → Store → Option Failure → Store × Option Failure
  concluded app d action s error =
      let requested = is_requested (deployment_cancellation_requested s d.id) in
      let status = final_of requested error in
      let timed =
        set_deployment_stage_durations (with_failure s d action requested error) d.id w.durations in
      let ended =
        (finish_deployment w.finished_at (run next_id timed w.before_finish) d.id status).0 in
      (
        if queues_rollback status action app error
            then (queue_deployment_ref next_id w.manifest w.queued_at app.id "auto_rollback" ""
                w.rollback_log ended).0
            else ended,
        error,
      )

  abbrev given_up : Store → Deployment → Failure → Store × Option Failure
  given_up s d f = ((finish_deployment w.finished_at s d.id failed).0, some f)

  abbrev pub with_application : Store → Deployment → Option Application → Store × Option Failure
  with_application s d none = given_up s d not_found_failure
  with_application s d (some app) =
      if w.log_opens
      then (let configured = w.configuration app in
          let result = worked_on s app d configured in
          concluded app d (action_of d configured.1) result.0
            (first_error result.1 w.heartbeat_failure))
      else given_up s d (unclassified "open log")

  abbrev pub claimed_job : Store × Result Deployment → Store × Option Failure
  claimed_job (s, err e) = (s, some not_found_failure)
  claimed_job (s, ok d) =
      with_application s d
        (find_where (λ (a : Application). a.id == d.application_id) s.applications)

  -- runNextDeployment
  unfoldable pub run_next_deployment : Store → Store × Option Failure
  run_next_deployment s = claimed_job (next_queued_deployment w.claimed_at s)

module _ (next_id : List ℕ → ℕ) (k : Codec) where
  -- queueLoop of one worker, with what surrounds each of its ticks.
  unfoldable pub queue_loop : Store → List Surroundings → Store
  unfolding run_next_deployment
  queue_loop s [] = s
  queue_loop s (w ∷ ws) = queue_loop (run_next_deployment next_id k w s).0 ws
