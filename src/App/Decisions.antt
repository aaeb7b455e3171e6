-- ===== src/App/Decisions.antt =====
-- internal/app/cicd.go: what a worker decides by the job, the application and the error of a run.
use mini_dock.Prelude.{
  String, Bool, true, false, not, ◌&&◌, ◌||◌, Option, none, some, ◌=s=◌, if◌then◌else◌, Result, ok,
  err,
}
use mini_dock.Prelude.Decimal.{◌+s+◌}
use mini_dock.Store.Tables.{
  Status, successful, failed, cancelled, Application, Deployment, FailureCause, Store,
}
use mini_dock.Store.Endings.{set_deployment_failure}
use mini_dock.Runtime.Templates.{Template, template_for}
use mini_dock.Deploy.Failures.{Failure, unclassified, failure_details}
use mini_dock.App.Configuration.{DeploymentConfiguration}

-- shouldTriggerAutoRollback
abbrev pub should_trigger_auto_rollback : Option Failure → Bool
should_trigger_auto_rollback none = false
should_trigger_auto_rollback (some f) =
    let stage = (failure_details (some f)).stage in
    stage =s= "start" || (stage =s= "health" || stage =s= "route")

abbrev pub template_endpoint : Option Template → String
template_endpoint none = "/healthz"
template_endpoint (some t) = t.health_endpoint

abbrev pub health_endpoint_of : Application → String
health_endpoint_of app =
    if app.health_endpoint =s= ""
    then template_endpoint (template_for app.kind)
    else app.health_endpoint

-- A retry of a job that failed after its build takes its image again.
abbrev pub reuses : Deployment → Bool
reuses d =
    not (d.image =s= "")
    && (d.failure.stage =s= "start"
        || (d.failure.stage =s= "health" || d.failure.stage =s= "route"))

abbrev pub reused : DeploymentConfiguration → Result Deployment → DeploymentConfiguration
reused c (err e) = c
reused c (ok d) =
    if reuses d
    then record c {
      reuse_image = d.image;
      reuse_source_revision = d.release.source_revision;
      reuse_source_fingerprint = d.release.source_fingerprint;
    }
    else c

-- rollback or auto_rollback
abbrev pub is_rollback : String → Bool
is_rollback action = action =s= "rollback" || action =s= "auto_rollback"

-- The cause that is recorded for a failed job.
abbrev pub recorded_failure : String → Option Failure → FailureCause
recorded_failure action error =
    let f = failure_details error in
    if is_rollback action
    then record {
      stage = "rollback";
      code = if f.code =s= "" || f.code =s= "runtime_error" then "rollback_failed" else f.code;
      detail = f.detail;
    }
    else record { stage = f.stage; code = f.code; detail = f.detail }

-- A failed heartbeat is the error of a run that has none.
abbrev pub first_error : Option Failure → Option String → Option Failure
first_error none none = none
first_error none (some why) = some (unclassified ("deployment lease lost: " +s+ why))
first_error (some f) later = some f

abbrev pub is_requested : Result Bool → Bool
is_requested (ok b) = b
is_requested (err e) = false

abbrev pub action_of : Deployment → Option Failure → String
action_of d (some f) = d.action
action_of d none = if d.action =s= "retry" then "deploy" else d.action

abbrev pub final_of : Bool → Option Failure → Status
final_of true error = cancelled
final_of false none = successful
final_of false (some f) = failed

abbrev pub with_failure : Store → Deployment → String → Bool → Option Failure → Store
with_failure s d action true error = s
with_failure s d action false none = s
with_failure s d action false (some f) =
    set_deployment_failure s d.id (recorded_failure action (some f))

abbrev pub queues_rollback : Status → String → Application → Option Failure → Bool
queues_rollback failed action app error =
    action =s= "deploy" && (app.auto_rollback && should_trigger_auto_rollback error)
queues_rollback _ action app error = false
