-- ===== src/App/Worker/Valid.antt =====
-- internal/app/cicd.go, runNextDeployment, and the invariant of the jobs.
use mini_dock.Prelude.{ℕ, List, All}
use mini_dock.Store.Tables.{Store}
use mini_dock.Store.Jobs.{next_queued_deployment}
use mini_dock.Store.Lifecycle.{
  start, heartbeat, cancel, recover, set_stage, delete, Call, claim, queue, finish, set_image,
  set_metadata, set_failure, set_durations, step, IsProper, IsValid, IsAbove,
}
use mini_dock.Store.Lifecycle.Moves.{KeepsRows}
use mini_dock.Store.Lifecycle.Steps.{step-IsValid}
use mini_dock.App.Queueing.Kept.{queue_deployment_ref-keeps}
use mini_dock.App.Configuration.{Codec}
use mini_dock.App.Worker.{Surroundings, run_next_deployment}
use mini_dock.App.Worker.Preserved.{IsOwn, claimed_job-closed}

pub IsOwn→IsProper : (c : ℕ × Call) → IsOwn c → IsProper c
IsOwn→IsProper (now, finish id status) o = o
IsOwn→IsProper (now, queue app action log) o = tt
IsOwn→IsProper (now, set_image id image) o = tt
IsOwn→IsProper (now, set_metadata id metadata) o = tt
IsOwn→IsProper (now, set_failure id cause) o = tt
IsOwn→IsProper (now, set_durations id durations) o = tt
IsOwn→IsProper (now, start app image log) o = tt
IsOwn→IsProper (now, claim) o = tt
IsOwn→IsProper (now, heartbeat id) o = tt
IsOwn→IsProper (now, cancel app id) o = tt
IsOwn→IsProper (now, recover) o = tt
IsOwn→IsProper (now, set_stage id stage) o = tt
IsOwn→IsProper (now, delete app ids) o = tt

pub IsOwn→KeepsRows : (c : ℕ × Call) → IsOwn c → KeepsRows c
IsOwn→KeepsRows (now, finish id status) o = tt
IsOwn→KeepsRows (now, queue app action log) o = tt
IsOwn→KeepsRows (now, set_image id image) o = tt
IsOwn→KeepsRows (now, set_metadata id metadata) o = tt
IsOwn→KeepsRows (now, set_failure id cause) o = tt
IsOwn→KeepsRows (now, set_durations id durations) o = tt
IsOwn→KeepsRows (now, start app image log) o = tt
IsOwn→KeepsRows (now, claim) o = tt
IsOwn→KeepsRows (now, heartbeat id) o = tt
IsOwn→KeepsRows (now, cancel app id) o = tt
IsOwn→KeepsRows (now, recover) o = tt
IsOwn→KeepsRows (now, set_stage id stage) o = tt
IsOwn→KeepsRows (now, delete app ids) o = o

-- Whatever the executor answers and whatever other calls come meanwhile, if those that finish a
-- job give a status that ends it, runNextDeployment leaves the jobs of a valid store valid.
pub run_next_deployment-IsValid :
    (next_id : List ℕ → ℕ) (above : IsAbove next_id) (k : Codec) (w : Surroundings) (s : Store)
    → All IsProper w.during
    → All IsProper w.before_finish
    → IsValid s
    → IsValid (run_next_deployment next_id k w s).0
unfolding run_next_deployment step
run_next_deployment-IsValid next_id above k w s during before_finish v =
    claimed_job-closed next_id k w IsValid IsProper (step-IsValid next_id above) IsOwn→IsProper
      during before_finish
      (λ t app v'.
        queue_deployment_ref-keeps next_id w.manifest IsValid
          (λ t' id m. step-IsValid next_id above t' (0, set_metadata id m) tt) w.queued_at app.id
          "auto_rollback" "" w.rollback_log t
          (step-IsValid next_id above t (w.queued_at, queue app.id "auto_rollback" w.rollback_log)
            tt v'))
      (next_queued_deployment w.claimed_at s)
      (step-IsValid next_id above s (w.claimed_at, claim) tt v)
