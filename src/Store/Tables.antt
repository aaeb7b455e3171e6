-- ===== src/Store/Tables.antt =====
-- internal/store/store.go: the rows of the database. A nullable time is an option, an id or a
-- time (nanoseconds) a number, a duration a signed number of milliseconds.
use mini_dock.Prelude.{ℕ, String, Bool, true, false, Option, List, ◌*◌}
use mini_dock.Prelude.Int.{ℤ}

-- The values of the column `deployments.status`.
pub data Status : Type 0 where
  queued running successful failed cancelled : Status

pub Status-discrete : Discrete Status
Status-discrete = hlevel

-- status IN ('queued', 'running'), the condition of the partial unique index.
abbrev pub is_active : Status → Bool
is_active queued = true
is_active running = true
is_active _ = false

abbrev pub is_queued : Status → Bool
is_queued queued = true
is_queued _ = false

abbrev pub is_running : Status → Bool
is_running running = true
is_running _ = false

abbrev pub is_successful : Status → Bool
is_successful successful = true
is_successful _ = false

abbrev pub is_failed : Status → Bool
is_failed failed = true
is_failed _ = false

pub record Application : Type 0 where
  pub id : ℕ
  pub name : String
  pub repository : String
  pub branch : String
  pub work_dir : String
  pub kind : String
  pub build_command : String
  pub run_command : String
  pub internal_port : ℕ
  pub domain : String
  pub runtime : String
  pub deploy_on_push : Bool
  pub require_confirmation : Bool
  pub auto_rollback : Bool
  pub github_installation_id : ℕ
  pub health_endpoint : String
  pub created_at : ℕ

-- What a release leaves as evidence on its job.
pub record ReleaseMetadata : Type 0 where
  pub requested_ref : String
  pub source_revision : String
  pub source_fingerprint : String
  pub artifact_digest : String
  pub runtime : String
  pub internal_port : ℕ
  pub health_endpoint : String
  pub manifest : String
  pub configuration_digest : String

pub record StageDurations : Type 0 where
  pub queue_ms : ℤ
  pub source_ms : ℤ
  pub build_ms : ℤ
  pub start_ms : ℤ
  pub health_ms : ℤ
  pub route_ms : ℤ

pub record FailureCause : Type 0 where
  pub stage : String
  pub code : String
  pub detail : String

-- The columns that belong together are grouped: `release`, `failure` and `durations`.
pub record Deployment : Type 0 where
  pub id : ℕ
  pub application_id : ℕ
  pub status : Status
  pub image : String
  pub release : ReleaseMetadata
  pub failure : FailureCause
  pub log_path : String
  pub started_at : ℕ
  pub finished_at : Option ℕ
  pub action : String
  pub attempt : ℕ
  pub heartbeat_at : Option ℕ
  pub lease_expires_at : Option ℕ
  pub cancellation_requested_at : Option ℕ
  pub durations : StageDurations
  pub current_stage : String

pub record DeploymentEvent : Type 0 where
  pub id : ℕ
  pub deployment_id : ℕ
  pub stage : String
  pub event_type : String
  pub message : String
  pub created_at : ℕ

pub record Alert : Type 0 where
  pub id : ℕ
  pub severity : String
  pub message : String
  pub application_id : Option ℕ
  pub deployment_id : Option ℕ
  pub resolved : Bool
  pub created_at : ℕ
  pub resolved_at : Option ℕ

-- The tables that a job touches.
pub record Store : Type 0 where
  pub applications : List Application
  pub deployments : List Deployment
  pub events : List DeploymentEvent
  pub alerts : List Alert

-- time.Second
abbrev pub second : ℕ
second = 1_000_000_000

-- DeploymentLeaseDuration
abbrev pub deployment_lease_duration : ℕ
deployment_lease_duration = 30 * second
