-- ===== src/Store/Lifecycle.antt =====
-- internal/store/store.go: the calls that write jobs, as one step function, and what holds of the
-- jobs between two calls.
pub mod Preserved
pub mod Steps
pub mod Claiming
pub mod Moves
pub mod Once
use mini_dock.Prelude.{
  ℕ, ◌+◌, ◌≤◌, ◌<◌, ◌≡◌, ◌≢◌, String, Bool, true, false, Option, none, some, List, [], ◌∷◌, ◌==◌,
  is_some, any, All,
}
use mini_dock.Store.Tables.{
  Status, queued, running, is_active, ReleaseMetadata, StageDurations, FailureCause, Deployment,
  Store, deployment_lease_duration,
}
use mini_dock.Store.Jobs.{
  AreDistinct, index_holds, start_deployment, queue_deployment, next_queued_deployment,
  heartbeat_deployment, has_application,
}
use mini_dock.Store.Endings.{
  cancel_deployment, recover_interrupted_deployments, finish_deployment, set_deployment_image,
  set_deployment_release_metadata, set_deployment_failure, set_deployment_stage,
  set_deployment_stage_durations, delete_deployments,
}

-- A call of the store that writes jobs, with its arguments.
pub data Call : Type 0 where
  start : ℕ → String → String → Call
  queue : ℕ → String → String → Call
  claim : Call
  heartbeat : ℕ → Call
  cancel : ℕ → ℕ → Call
  recover : Call
  finish : ℕ → Status → Call
  set_image : ℕ → String → Call
  set_metadata : ℕ → ReleaseMetadata → Call
  set_failure : ℕ → FailureCause → Call
  set_stage : ℕ → String → Call
  set_durations : ℕ → StageDurations → Call
  delete : ℕ → List ℕ → Call

module _ (next_id : List ℕ → ℕ) where
  -- The store after one call at a time of the clock.
  unfoldable pub step : Store → ℕ × Call → Store
  step s (now, start app image log) = (start_deployment next_id now s app image log).0
  step s (now, queue app action log) = (queue_deployment next_id now s app action log).0
  step s (now, claim) = (next_queued_deployment now s).0
  step s (now, heartbeat id) = (heartbeat_deployment now s id).0
  step s (now, cancel app id) = (cancel_deployment now s app id).0
  step s (now, recover) = (recover_interrupted_deployments now s).0
  step s (now, finish id status) = (finish_deployment now s id status).0
  step s (now, set_image id i) = set_deployment_image s id i
  step s (now, set_metadata id m) = set_deployment_release_metadata s id m
  step s (now, set_failure id c) = set_deployment_failure s id c
  step s (now, set_stage id g) = set_deployment_stage s id g
  step s (now, set_durations id d) = set_deployment_stage_durations s id d
  step s (now, delete app ids) = delete_deployments s app ids

  unfoldable pub run : Store → List (ℕ × Call) → Store
  unfolding step
  run s [] = s
  run s (c ∷ cs) = run (step s c) cs

-- The callers of FinishDeployment give a status that ends the job.
abbrev pub IsProper : ℕ × Call → Type 0
IsProper (now, finish id status) = is_active status ≡ false
IsProper _ = Unit

-- A lease that runs from the heartbeat.
abbrev pub Leased : Option ℕ → Option ℕ → Type 0
Leased (some beat) (some expiry) = expiry ≡ beat + deployment_lease_duration
Leased _ _ = ⊥

-- What the columns of a job say about each other. A queued job is fresh, a running one has a
-- lease, and an ended one has none.
pub record IsCoherent (d : Deployment) : Type 0 where
  pub queued_fresh :
      d.status ≡ queued
      → (d.lease_expires_at ≡ none)
        × (d.finished_at ≡ none)
        × (d.cancellation_requested_at ≡ none)
        × (d.attempt ≡ 0)
  pub running_leased :
      d.status ≡ running
      → Leased d.heartbeat_at d.lease_expires_at × (d.finished_at ≡ none) × (1 ≤ d.attempt)
  pub ended_released :
      is_active d.status ≡ false → (d.lease_expires_at ≡ none) × (is_some d.finished_at ≡ true)

pub record IsValid (s : Store) : Type 0 where
  pub one_active : index_holds s.deployments ≡ true
  pub distinct : AreDistinct s.deployments
  pub coherent : All IsCoherent s.deployments
  pub owned : All (λ (d : Deployment). has_application d.application_id s ≡ true) s.deployments

-- What SQLite documents of a new rowid: it is above every id in use.
abbrev pub IsAbove : (List ℕ → ℕ) → Type 0
IsAbove next_id = (xs : List ℕ) → All (λ i. i < next_id xs) xs
