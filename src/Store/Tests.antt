-- ===== src/Store/Tests.antt =====
-- The job queue on small tables, and its theorems at concrete inputs.
use mathlib.Core.List.{Memᴰ}
use mini_dock.Prelude.{
  ℕ, ◌≡◌, refl, ◌≢◌, ◌↔◌, some, List, [], ◌∷◌, arith, ok, err, deployment_cancelled, done,
}
use mini_dock.Prelude.Int.{pos}
use mini_dock.Prelude.Rows.{
  update_where, find_where, where_rows, count_where, sort_by, insert_by, row_at,
}
use mini_dock.Store.Tables.{queued, successful, failed, cancelled, Deployment, Store}
use mini_dock.Store.Jobs.{
  new_deployment, with_deployments, index_holds, queue_deployment, next_queued_deployment,
  heartbeat_deployment, has_id, claimed, insert_deployment, claim_row, oldest_queued,
}
use mini_dock.Store.Endings.{
  recover_interrupted_deployments, ended, cancel_deployment, finish_deployment,
}
use mini_dock.Store.Endings.Cancelling.{}
use mini_dock.Store.Endings.Requested.{IsCancellable, cancelled_while_running}
use mini_dock.Store.Endings.Recovering.{runs, IsRecovered, recover_interrupted_deployments_lem}
use mini_dock.Store.Releases.{
  release_columns, retention_from, restorable_rows, retention_candidates,
  latest_successful_deployment, previous_successful_deployment, deployments,
}
use mini_dock.Store.Releases.Retention.{MayDrop}
use mini_dock.Store.Releases.Dropped.{newer_successes, retention_candidates-MayDrop}
use mini_dock.Store.Samples.{
  next_id, next_id-IsAbove, old_release, new_release, waiting_job, running_job, jobs, jobs-IsValid,
}
use mini_dock.Store.Lifecycle.Steps.{run-IsValid, cancel_requested}
use mini_dock.Store.Lifecycle.Claiming.{Claims, next_queued_deployment-Claims}
use mini_dock.Store.Lifecycle.Moves.{HasReached, run-HasReached}
use mini_dock.Store.Lifecycle.Once.{claimed_once}
use mini_dock.Store.Lifecycle.{Call, queue, claim, heartbeat, finish, cancel, run, step, IsValid}

-- A worker claims the waiting job, and meanwhile the running one is cancelled and ends.
abbrev later_calls : List (ℕ × Call)
later_calls =
    (3_000_000, claim)
    ∷ (3_000_001, heartbeat 4)
    ∷ (3_000_002, cancel 8 3)
    ∷ (3_000_003, finish 3 successful)
    ∷ []

run-IsValid_example : IsValid (run next_id jobs later_calls)
run-IsValid_example =
    run-IsValid next_id next_id-IsAbove jobs later_calls (ground arith) jobs-IsValid

-- The waiting job after its claim.
abbrev claimed_job : Deployment
claimed_job = claimed 3_000_000 (pos 1) waiting_job

abbrev claimed_store : Store
claimed_store = with_deployments jobs (claimed_job ∷ running_job ∷ new_release ∷ old_release ∷ [])

claims_waiting_job : next_queued_deployment 3_000_000 jobs ≡ (claimed_store, ok claimed_job)
unfolding next_queued_deployment claim_row oldest_queued sort_by where_rows row_at update_where
    count_where insert_by
claims_waiting_job = refl

-- A second job of the shop may be queued when the first one has ended, and is claimed next.
abbrev shop_calls : List (ℕ × Call)
shop_calls = (4_000_000, finish 4 failed) ∷ (4_000_001, queue 7 "rollback" "log") ∷ []

abbrev second_store : Store
second_store = with_deployments jobs (
    new_deployment 5 7 queued "log" 4_000_001 "rollback"
    ∷ ended 4_000_000 failed claimed_job
    ∷ running_job
    ∷ new_release
    ∷ old_release
    ∷ [])

abbrev rollback_job : Deployment
rollback_job = claimed 4_000_001 (pos 0) (new_deployment 5 7 queued "log" 4_000_001 "rollback")

shop_calls-run : run next_id claimed_store shop_calls ≡ second_store
unfolding run step finish_deployment queue_deployment insert_deployment update_where index_holds
    next_id
shop_calls-run = refl

claims_rollback_job : next_queued_deployment 4_000_001 (run next_id claimed_store shop_calls) ≡ (
  with_deployments jobs (
      rollback_job
      ∷ ended 4_000_000 failed claimed_job
      ∷ running_job
      ∷ new_release
      ∷ old_release
      ∷ []),
  ok rollback_job,
)
unfolding next_queued_deployment claim_row oldest_queued sort_by where_rows row_at update_where
    count_where insert_by
claims_rollback_job = rw shop_calls-run refl

claimed_once_example : rollback_job.id ≢ claimed_job.id
claimed_once_example =
    claimed_once next_id next_id-IsAbove 3_000_000 4_000_001 jobs shop_calls jobs-IsValid
      claims_waiting_job (ground arith) (ground arith) claims_rollback_job

next_queued_deployment-Claims_example :
    Claims 3_000_000 jobs (next_queued_deployment 3_000_000 jobs)
next_queued_deployment-Claims_example = next_queued_deployment-Claims 3_000_000 jobs jobs-IsValid

finds_running_job : find_where (has_id 3) jobs.deployments ≡ some running_job
unfolding find_where
finds_running_job = refl

running_job-IsCancellable : IsCancellable 8 3 jobs running_job
running_job-IsCancellable = record {
  found = finds_running_job;
  of_application = refl;
  is_running_job = refl;
  not_requested = refl;
}

abbrev cancelled_store : Store
cancelled_store = (cancel_deployment 40 jobs 8 3).0

cancelled_while_running_example :
    ((cancel_deployment 40 jobs 8 3).1 ≡ done)
    × (heartbeat_deployment 50 cancelled_store 3 ≡ (cancelled_store, err deployment_cancelled))
    × (find_where (has_id 3) (finish_deployment 60 cancelled_store 3 successful).0.deployments
        ≡ some (ended 60 cancelled (cancel_requested 40 running_job)))
cancelled_while_running_example =
    cancelled_while_running 40 8 3 jobs running_job jobs-IsValid running_job-IsCancellable 50 60
      successful refl

-- Only the older release may go, when one is kept.
retention_candidates-MayDrop_example : Memᴰ old_release (retention_candidates jobs 7 100 1) ↔ (
    (old_release.application_id ≡ 7)
    × MayDrop 100 1 (newer_successes 7 jobs old_release) old_release)
retention_candidates-MayDrop_example =
    retention_candidates-MayDrop jobs 7 100 1 jobs-IsValid.distinct old_release
      (Memᴰ.tail (Memᴰ.tail (Memᴰ.tail (Memᴰ.head refl))))

drops_old_release : retention_candidates jobs 7 100 1 ≡ old_release ∷ []
unfolding retention_candidates retention_from deployments sort_by insert_by where_rows
drops_old_release = refl

finds_new_release : latest_successful_deployment jobs 7 ≡ ok (release_columns new_release)
unfolding latest_successful_deployment restorable_rows sort_by insert_by where_rows row_at
finds_new_release = refl

finds_old_release : previous_successful_deployment jobs 7 ≡ ok (release_columns old_release)
unfolding previous_successful_deployment restorable_rows sort_by insert_by where_rows row_at
finds_old_release = refl

recover_interrupted_deployments_example :
    ((recover_interrupted_deployments 60 jobs).1 ≡ ok (count_where runs jobs.deployments))
    × IsRecovered
        (count_where runs jobs.deployments)
        jobs.deployments
        (recover_interrupted_deployments 60 jobs).0.deployments
recover_interrupted_deployments_example = recover_interrupted_deployments_lem 60 jobs

run-HasReached_example : HasReached 3 1 (run next_id jobs later_calls)
run-HasReached_example =
    run-HasReached next_id next_id-IsAbove 3 1 jobs later_calls (ground arith) (ground arith)
      (running_job, finds_running_job, omega arith)
