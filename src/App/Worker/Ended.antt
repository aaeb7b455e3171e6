-- ===== src/App/Worker/Ended.antt =====
-- internal/app/cicd.go, runNextDeployment: the end of the job that a worker has claimed.
use mini_dock.Prelude.{
  ℕ, ◌≡◌, refl, ap, String, Bool, true, false, Option, none, some, List, arith, is_some, All,
  All-and, Bool-cases, inl, inr, ok,
}
use mini_dock.Prelude.Rows.{find_where}
use mini_dock.Store.Tables.{Status, successful, failed, is_active, Application, Deployment, Store}
use mini_dock.Store.Jobs.{next_queued_deployment, deployment_cancellation_requested, has_id}
use mini_dock.Store.Endings.{finish_deployment, ended, final_status}
use mini_dock.Store.Endings.Cancelling.{finish_deployment-final}
use mini_dock.Store.Lifecycle.{Call, claim, step, IsProper, IsValid, IsAbove}
use mini_dock.Store.Lifecycle.Steps.{step-IsValid}
use mini_dock.Store.Lifecycle.Moves.{KeepsRows, HasReached, step-HasReached, queue_deployment-finds}
use mini_dock.Store.Lifecycle.Claiming.{next_queued_deployment-WasClaimed}
use mini_dock.Deploy.Failures.{Failure}
use mini_dock.Store.Tables.{ReleaseMetadata}
use mini_dock.Store.Endings.{set_deployment_release_metadata}
use mini_dock.Prelude.Rows.Laws.{find_where-update_where}
use mini_dock.App.Queueing.{queue_deployment_ref}
use mini_dock.App.Queueing.Kept.{queue_deployment_ref-keeps}
use mini_dock.App.Configuration.{Codec}
use mini_dock.App.Worker.{Surroundings, concluded, with_application, run_next_deployment}
use mini_dock.App.Decisions.{final_of, is_requested, queues_rollback}
use mini_dock.App.Worker.Preserved.{IsOwn, ends, worked_on-closed, nearly, nearly-closed}
use mini_dock.App.Worker.Valid.{IsOwn→IsProper, IsOwn→KeepsRows}

-- The job is in the table, has ended, holds no lease, and is successful only without an error.
pub record HasEnded (id : ℕ) (s : Store) (error : Option Failure) : Type 0 where
  pub row : Deployment
  pub found : find_where (has_id id) s.deployments ≡ some row
  pub over : is_active row.status ≡ false
  pub has_end : is_some row.finished_at ≡ true
  pub released : row.lease_expires_at ≡ none
  pub succeeded : row.status ≡ successful → error ≡ none

final_over :
    (status : Status) (d : Deployment)
    → is_active status ≡ false
    → is_active (final_status status d) ≡ false
final_over status d over = ground arith

final_succeeded :
    (requested : Bool) (error : Option Failure) (d : Deployment)
    → final_status (final_of requested error) d ≡ successful
    → error ≡ none
final_succeeded true error d h = absurd (ground arith)
final_succeeded false none d h = refl
final_succeeded false (some f) d h = absurd (ground arith)

module _ (next_id : List ℕ → ℕ) (above : IsAbove next_id) (k : Codec) (w : Surroundings)
    (d : Deployment) (during : All IsProper w.during) (during_keeps : All KeepsRows w.during)
    (before_finish : All IsProper w.before_finish)
    (before_finish_keeps : All KeepsRows w.before_finish) where
  -- What the worker relies on until it finishes the job.
  abbrev Held : Store → Type 0
  Held s = IsValid s × HasReached d.id 1 s

  abbrev Allowed : ℕ × Call → Type 0
  Allowed c = IsProper c × KeepsRows c

  Held-Closed : (s : Store) (c : ℕ × Call) → Allowed c → Held s → Held (step next_id s c)
  Held-Closed s c a h =
      (step-IsValid next_id above s c a.0 h.0, step-HasReached next_id above d.id 1 s c a.0 a.1 h.1)

  own-Allowed : (c : ℕ × Call) → IsOwn c → Allowed c
  own-Allowed c o = (IsOwn→IsProper c o, IsOwn→KeepsRows c o)

  during-Allowed : All Allowed w.during
  during-Allowed = All-and IsProper KeepsRows w.during during during_keeps

  before_finish-Allowed : All Allowed w.before_finish
  before_finish-Allowed =
      All-and IsProper KeepsRows w.before_finish before_finish before_finish_keeps

  finished :
      (s : Store) (status : Status) (error : Option Failure)
      → is_active status ≡ false
      → ((x : Deployment) → final_status status x ≡ successful → error ≡ none)
      → Held s
      → HasEnded d.id (finish_deployment w.finished_at s d.id status).0 error
  finished s status error over only (v, (x, found, reached)) =
      let (accepted, now_found) =
        finish_deployment-final w.finished_at s d.id status x v over found in
      record {
        row = ended w.finished_at (final_status status x) x;
        found = now_found;
        over = final_over status x over;
        has_end = refl;
        released = refl;
        succeeded = only x;
      }

  -- The metadata of a job leaves every job's end.
  metadata_ends :
      (error : Option Failure) (s : Store) (id : ℕ) (m : ReleaseMetadata)
      → HasEnded d.id s error
      → HasEnded d.id (set_deployment_release_metadata s id m) error
  unfolding set_deployment_release_metadata
  metadata_ends error s id m h =
      let found =
        find_where-update_where (has_id d.id) (has_id id) (λ a. record a { release = m })
          (λ a. refl) s.deployments h.found in
      elim (Bool-cases (has_id id h.row)) [
        | inl hit ↦ record {
          row = record (h.row) { release = m };
          found = rw hit at found;
          over = h.over;
          has_end = h.has_end;
          released = h.released;
          succeeded = h.succeeded;
        }
        | inr miss ↦ record {
          row = h.row;
          found = rw miss at found;
          over = h.over;
          has_end = h.has_end;
          released = h.released;
          succeeded = h.succeeded;
        }
      ]

  queued_after :
      (s : Store) (app : ℕ) (error : Option Failure)
      → HasEnded d.id s error
      → HasEnded d.id
          (queue_deployment_ref next_id w.manifest w.queued_at app "auto_rollback" "" w.rollback_log
            s).0
          error
  queued_after s app error h =
      queue_deployment_ref-keeps next_id w.manifest (λ t. HasEnded d.id t error)
        (metadata_ends error) w.queued_at app "auto_rollback" "" w.rollback_log s
        (record {
          row = h.row;
          found =
              queue_deployment-finds next_id above w.queued_at app "auto_rollback" w.rollback_log
                d.id s h.row h.found;
          over = h.over;
          has_end = h.has_end;
          released = h.released;
          succeeded = h.succeeded;
        })

  concluded_ends :
      (app : Application) (action : String) (s : Store) (error : Option Failure)
      → Held s
      → HasEnded d.id (concluded next_id k w app d action s error).0 error
  concluded_ends app action s error h =
      let requested = is_requested (deployment_cancellation_requested s d.id) in
      let status = final_of requested error in
      let before =
        nearly next_id k w Held Allowed Held-Closed own-Allowed during-Allowed before_finish-Allowed
          d action s error in
      let h' =
        nearly-closed next_id k w Held Allowed Held-Closed own-Allowed during-Allowed
          before_finish-Allowed d action s error h in
      let done_ : HasEnded d.id (finish_deployment w.finished_at before d.id status).0 error =
        (finished before status error (ends requested error) (final_succeeded requested error)
          h') in
      elim (Bool-cases (queues_rollback status action app error)) [
        | inl rolls ↦
            rw rolls (
              queued_after (finish_deployment w.finished_at before d.id status).0 app.id error
                done_)
        | inr rests ↦ rw rests done_
      ]

  with_application_ends :
      (s : Store) (o : Option Application)
      → Held s
      → HasEnded d.id (with_application next_id k w s d o).0 (with_application next_id k w s d o).1
  with_application_ends s none h = finished s failed _ refl (λ x e. absurd (ground arith)) h
  with_application_ends s (some app) h = elim (Bool-cases w.log_opens) [
    | inl opens ↦ rw opens (
        concluded_ends app _ _ _ (
          worked_on-closed next_id k w Held Allowed Held-Closed own-Allowed during-Allowed
            before_finish-Allowed s app d (w.configuration app) h))
    | inr fails ↦ rw fails (finished s failed _ refl (λ x e. absurd (ground arith)) h)
  ]

claim-IsValid :
    (next_id : List ℕ → ℕ) (above : IsAbove next_id) (w : Surroundings) (s : Store)
    → IsValid s
    → IsValid (next_queued_deployment w.claimed_at s).0
unfolding step
claim-IsValid next_id above w s v = step-IsValid next_id above s (w.claimed_at, claim) tt v

-- Whatever the executor answers and whatever other calls but DeleteDeployments come meanwhile, if
-- those that finish a job give a status that ends it: on a valid store, the job that
-- runNextDeployment claims has ended when it returns, with the time of its end and without a
-- lease, and it is recorded as successful only if the run has returned no error.
pub run_next_deployment-HasEnded :
    (next_id : List ℕ → ℕ) (above : IsAbove next_id) (k : Codec) (w : Surroundings) (s t : Store)
    (d : Deployment)
    → All IsProper w.during
    → All KeepsRows w.during
    → All IsProper w.before_finish
    → All KeepsRows w.before_finish
    → IsValid s
    → next_queued_deployment w.claimed_at s ≡ (t, ok d)
    → HasEnded d.id (run_next_deployment next_id k w s).0 (run_next_deployment next_id k w s).1
unfolding run_next_deployment
run_next_deployment-HasEnded next_id above k w s t d during keeps before_finish keeps' v first =
    let mine = next_queued_deployment-WasClaimed w.claimed_at s v first in
    let valid : IsValid t = rw (← ap (λ r. r.0) first) (claim-IsValid next_id above w s v) in
    rw first (
      with_application_ends next_id above k w d during keeps before_finish keeps' t _
        (valid, (d, mine.recorded, ground arith)))
