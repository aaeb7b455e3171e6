-- ===== src/App/Worker/Drained.antt =====
-- internal/app/cicd.go: queueLoop, and the rollbacks that a failed release queues.
use mini_dock.Prelude.{
  ℕ, ◌+◌, ◌-◌, ◌*◌, ◌≤◌, ◌≡◌, refl, ap, String, true, false, Option, none, some, List, [], ◌∷◌,
  arith, any, length, ◌==◌, All, All-mono, ◌=s=◌, eq_iff, Bool-cases, inl, inr, if◌then◌else◌,
  Result,
}
use mini_dock.Prelude.Int.{sub_div}
use mini_dock.Prelude.Rows.{update_where, count_where, find_where}
use mini_dock.Store.Tables.{
  Status, queued, running, successful, failed, cancelled, is_queued, Application, Deployment, Store,
}
use mini_dock.Store.Jobs.{
  claims, claimed, with_deployments, next_queued_deployment, deployment_cancellation_requested,
}
use mini_dock.Store.Endings.{finish_deployment}
use mini_dock.Store.Lifecycle.{
  Call, start, queue, claim, heartbeat, cancel, recover, finish, set_image, set_metadata,
  set_failure, set_stage, set_durations, delete, step, IsProper, IsValid, IsAbove,
}
use mini_dock.Store.Lifecycle.Claiming.{Claims, idle, taken, next_queued_deployment-Claims}
use mini_dock.Deploy.Failures.{Failure}
use mini_dock.App.Configuration.{Codec}
use mini_dock.App.Worker.{
  Surroundings, worked_on, concluded, with_application, claimed_job, run_next_deployment,
  queue_loop,
}
use mini_dock.App.Decisions.{is_rollback, action_of, final_of, is_requested, queues_rollback}
use mini_dock.App.Worker.Preserved.{IsOwn, ends, worked_on-closed, nearly, nearly-closed}
use mini_dock.App.Worker.Valid.{run_next_deployment-IsValid}
use mini_dock.App.Worker.Weighed.{
  work, work_unqueued, unqueued_work, work-le-twice, work-claim, IsQuiet, step-work,
  rollback_ref-work,
}

-- What comes meanwhile queues nothing.
pub record IsUndisturbed (w : Surroundings) : Type 0 where
  pub quiet_during : All IsQuiet w.during
  pub quiet_before_finish : All IsQuiet w.before_finish

queues_deploy :
    (status : Status) (action : String) (app : Application) (error : Option Failure)
    → queues_rollback status action app error ≡ true
    → action ≡ "deploy"
queues_deploy failed action app error h = (eq_iff action "deploy").0 (ground arith)
queues_deploy queued action app error h = absurd (ground arith)
queues_deploy running action app error h = absurd (ground arith)
queues_deploy successful action app error h = absurd (ground arith)
queues_deploy cancelled action app error h = absurd (ground arith)

-- The action that a worker ends with is a deploy only if the job was no rollback.
deploy_no_rollback :
    (d : Deployment) (o : Option Failure) → action_of d o ≡ "deploy" → is_rollback d.action ≡ false
deploy_no_rollback d (some f) h = ap is_rollback h
deploy_no_rollback d none h = elim (Bool-cases (d.action =s= "retry")) [
  | inl retries ↦ ap is_rollback ((eq_iff d.action "retry").0 retries)
  | inr other ↦ ap is_rollback (rw other at h)
]

IsOwn→IsQuiet : (c : ℕ × Call) → IsOwn c → IsQuiet c
IsOwn→IsQuiet (now, finish id status) o = o
IsOwn→IsQuiet (now, set_image id image) o = tt
IsOwn→IsQuiet (now, set_metadata id metadata) o = tt
IsOwn→IsQuiet (now, set_failure id cause) o = tt
IsOwn→IsQuiet (now, set_durations id durations) o = tt
IsOwn→IsQuiet (now, queue app action log) o = absurd o
IsOwn→IsQuiet (now, start app image log) o = absurd o
IsOwn→IsQuiet (now, claim) o = tt
IsOwn→IsQuiet (now, heartbeat id) o = tt
IsOwn→IsQuiet (now, cancel app id) o = tt
IsOwn→IsQuiet (now, recover) o = tt
IsOwn→IsQuiet (now, set_stage id stage) o = tt
IsOwn→IsQuiet (now, delete app ids) o = tt

IsQuiet→IsProper : (c : ℕ × Call) → IsQuiet c → IsProper c
IsQuiet→IsProper (now, finish id status) o = o
IsQuiet→IsProper (now, queue app action log) o = absurd o
IsQuiet→IsProper (now, start app image log) o = absurd o
IsQuiet→IsProper (now, set_image id image) o = tt
IsQuiet→IsProper (now, set_metadata id metadata) o = tt
IsQuiet→IsProper (now, set_failure id cause) o = tt
IsQuiet→IsProper (now, set_durations id durations) o = tt
IsQuiet→IsProper (now, claim) o = tt
IsQuiet→IsProper (now, heartbeat id) o = tt
IsQuiet→IsProper (now, cancel app id) o = tt
IsQuiet→IsProper (now, recover) o = tt
IsQuiet→IsProper (now, set_stage id stage) o = tt
IsQuiet→IsProper (now, delete app ids) o = tt

module _ (next_id : List ℕ → ℕ) (k : Codec) (w : Surroundings) (calm : IsUndisturbed w) where
  module _ (n : ℕ) where
    abbrev AtMost : Store → Type 0
    AtMost s = work s.deployments ≤ n

    step-AtMost : (s : Store) (c : ℕ × Call) → IsQuiet c → AtMost s → AtMost (step next_id s c)
    step-AtMost s c q h = let le = step-work next_id s c q in omega arith

    worked-AtMost :
        (s : Store) (app : Application) (d : Deployment)
        → AtMost s
        → AtMost (worked_on next_id k w s app d (w.configuration app)).0
    worked-AtMost s app d =
        worked_on-closed next_id k w AtMost IsQuiet step-AtMost IsOwn→IsQuiet calm.quiet_during
          calm.quiet_before_finish s app d (w.configuration app)

    finished-AtMost :
        (s : Store) (id : ℕ) (status : Status)
        → IsQuiet (w.finished_at, finish id status)
        → AtMost s
        → AtMost (finish_deployment w.finished_at s id status).0
    unfolding step
    finished-AtMost s id status over = step-AtMost s (w.finished_at, finish id status) over

    concluded_works :
        (app : Application) (d : Deployment) (o : Option Failure) (s : Store)
        (error : Option Failure)
        → AtMost s
        → work (concluded next_id k w app d (action_of d o) s error).0.deployments
          ≤ n + (if is_rollback d.action then 0 else 1)
    concluded_works app d o s error h =
        let requested = is_requested (deployment_cancellation_requested s d.id) in
        let status = final_of requested error in
        let before =
          nearly next_id k w AtMost IsQuiet step-AtMost IsOwn→IsQuiet calm.quiet_during
            calm.quiet_before_finish d (action_of d o) s error in
        let ended = (finish_deployment w.finished_at before d.id status).0 in
        let h' : AtMost ended = finished-AtMost before d.id status (ends requested error) (
          nearly-closed next_id k w AtMost IsQuiet step-AtMost IsOwn→IsQuiet calm.quiet_during
            calm.quiet_before_finish d (action_of d o) s error h) in
        elim (Bool-cases (queues_rollback status (action_of d o) app error)) [
          | inr rests ↦ rw rests (omega arith)
          | inl rolls ↦
              let more =
                rollback_ref-work next_id w.manifest w.queued_at ended app.id w.rollback_log in
              let no_rollback =
                deploy_no_rollback d o (queues_deploy status (action_of d o) app error rolls) in
              rw (rolls, no_rollback) (omega arith)
        ]

    with_application_works :
        (d : Deployment) (o : Option Application) (s : Store)
        → AtMost s
        → work (with_application next_id k w s d o).0.deployments
          ≤ n + (if is_rollback d.action then 0 else 1)
    with_application_works d none s h = let le = finished-AtMost s d.id failed refl h in omega arith
    with_application_works d (some app) s h = elim (Bool-cases w.log_opens) [
      | inr fails ↦ let le = finished-AtMost s d.id failed refl h in rw fails (omega arith)
      | inl opens ↦
          rw opens (concluded_works app d (w.configuration app).1 _ _ (worked-AtMost s app d h))
    ]

  -- A tick takes away some of the work, if there is any.
  claimed_works :
      (s : Store) (r : Store × Result Deployment)
      → Claims w.claimed_at s r
      → work (claimed_job next_id k w r).0.deployments ≤ work s.deployments - 1
  claimed_works s r (idle none_queued) =
      let zero_ = unqueued_work s.deployments none_queued in omega arith
  claimed_works s r (taken d old) =
      let waited = sub_div w.claimed_at d.started_at 1_000_000 in
      let job = claimed w.claimed_at waited d in
      let ds = update_where (claims d.id) (claimed w.claimed_at waited) s.deployments in
      let less = work-claim w.claimed_at waited d s.deployments old.is_queued_job old.stands in
      let le =
        with_application_works (work ds) job
          (find_where (λ (a : Application). a.id == job.application_id) s.applications)
          (with_deployments s ds) (omega arith) in
      let q = old.is_queued_job in
      elim (Bool-cases (is_rollback d.action)) [
        | inl back ↦ let l = rw back at le in let m = rw (q, back) at less in omega arith
        | inr forth ↦ let l = rw forth at le in let m = rw (q, forth) at less in omega arith
      ]

  tick-work :
      (s : Store)
      → IsValid s
      → work (run_next_deployment next_id k w s).0.deployments ≤ work s.deployments - 1
  unfolding run_next_deployment
  tick-work s v =
      claimed_works s (next_queued_deployment w.claimed_at s)
        (next_queued_deployment-Claims w.claimed_at s v)

module _ (next_id : List ℕ → ℕ) (above : IsAbove next_id) (k : Codec) where
  works_off :
      (ws : List Surroundings) (s : Store)
      → All IsUndisturbed ws
      → IsValid s
      → work s.deployments ≤ length ws
      → work (queue_loop next_id k s ws).deployments ≤ 0
  unfolding queue_loop
  works_off [] s calm v h = h
  works_off (w ∷ ws) s calm v h =
      let le = tick-work next_id k w calm.0 s v in
      works_off ws (run_next_deployment next_id k w s).0 calm.1
        (run_next_deployment-IsValid next_id above k w s
          (All-mono IsQuiet IsProper IsQuiet→IsProper w.during calm.0.quiet_during)
          (All-mono IsQuiet IsProper IsQuiet→IsProper w.before_finish calm.0.quiet_before_finish) v)
        (omega arith)

  -- On a valid store, after twice as many ticks of the loop of a worker as jobs are queued, no job
  -- is queued: a failed release queues at most one rollback, and a rollback that fails queues
  -- none. What the executor answers is arbitrary; other calls of the store may come meanwhile, but
  -- they start and queue nothing, and those that finish a job give a status that ends it.
  pub queue_loop-drains :
      (s : Store) (ws : List Surroundings)
      → All IsUndisturbed ws
      → IsValid s
      → 2 * count_where (λ (d : Deployment). is_queued d.status) s.deployments ≤ length ws
      → any (λ (d : Deployment). is_queued d.status) (queue_loop next_id k s ws).deployments ≡ false
  queue_loop-drains s ws calm v h =
      let twice = work-le-twice s.deployments in
      work_unqueued (queue_loop next_id k s ws).deployments (works_off ws s calm v (omega arith))
