-- ===== src/App/Worker/Preserved.antt =====
-- internal/app/cicd.go, runNextDeployment: what every call of the store keeps, a worker keeps.
use mini_dock.Prelude.{
  ℕ, ◌≡◌, refl, String, Bool, true, false, Option, none, some, List, [], ◌∷◌, ◌=s=◌, All,
  Bool-cases, inl, inr, Result, ok, err,
}
use mini_dock.Store.Tables.{
  Status, failed, is_active, Application, Deployment, ReleaseMetadata, Store,
}
use mini_dock.Store.Jobs.{deployment_cancellation_requested}
use mini_dock.Store.Endings.{
  finish_deployment, set_deployment_image, set_deployment_release_metadata,
  set_deployment_stage_durations,
}
use mini_dock.Store.Releases.{
  previous_successful_deployment, latest_successful_deployment, latest_failed_deployment,
}
use mini_dock.Store.Lifecycle.{
  Call, finish, set_image, set_metadata, set_failure, set_durations, step, run,
}
use mini_dock.Deploy.Failures.{Failure}
use mini_dock.App.Configuration.{
  DeploymentConfiguration, Codec, Restoration, restored, not_restored,
}
use mini_dock.App.Queueing.{queue_deployment_ref}
use mini_dock.App.Worker.{
  Surroundings, deployed, with_branch, deployed_metadata, rolled_back, rolled_back_configured,
  rolled_back_verified, acted, worked_on, concluded, with_application, claimed_job,
}
use mini_dock.App.Decisions.{final_of, is_requested, with_failure, queues_rollback, reused}

-- The calls that a worker makes itself after its claim, but the one that queues a rollback.
abbrev pub IsOwn : ℕ × Call → Type 0
IsOwn (now, finish id status) = is_active status ≡ false
IsOwn (now, set_image id image) = Unit
IsOwn (now, set_metadata id metadata) = Unit
IsOwn (now, set_failure id cause) = Unit
IsOwn (now, set_durations id durations) = Unit
IsOwn _ = ⊥

pub ends :
    (requested : Bool) (error : Option Failure) → is_active (final_of requested error) ≡ false
ends true error = refl
ends false none = refl
ends false (some f) = refl

module _ (next_id : List ℕ → ℕ) (k : Codec) (w : Surroundings) (P : Store → Type 0)
    (Allowed : ℕ × Call → Type 0)
    (closed : (s : Store) (c : ℕ × Call) → Allowed c → P s → P (step next_id s c))
    (own : (c : ℕ × Call) → IsOwn c → Allowed c) (during : All Allowed w.during)
    (before_finish : All Allowed w.before_finish) where
  run-closed : (s : Store) (cs : List (ℕ × Call)) → All Allowed cs → P s → P (run next_id s cs)
  unfolding run
  run-closed s [] a p = p
  run-closed s (c ∷ cs) a p = run-closed (step next_id s c) cs a.1 (closed s c a.0 p)

  metadata-closed :
      (s : Store) (id : ℕ) (m : ReleaseMetadata) → P s → P (set_deployment_release_metadata s id m)
  unfolding step
  metadata-closed s id m p = closed s (0, set_metadata id m) (own (0, set_metadata id m) tt) p

  image-closed : (s : Store) (id : ℕ) (image : String) → P s → P (set_deployment_image s id image)
  unfolding step
  image-closed s id image p = closed s (0, set_image id image) (own (0, set_image id image) tt) p

  deployed-closed :
      (s : Store) (app : Application) (c : DeploymentConfiguration) (d : Deployment)
      → P s
      → P (deployed next_id k w s app c d).0
  deployed-closed s app c d p =
      let r = w.deploy (with_branch next_id k w app d) c in
      let worked = run next_id s w.during in
      let p' = run-closed s w.during during p in
      let m = deployed_metadata next_id k w (with_branch next_id k w app d) c d r.0 in
      elim (Bool-cases (r.0.image =s= "")) [
        | inl empty ↦ rw empty (metadata-closed worked d.id m p')
        | inr built ↦ rw built (
            metadata-closed (set_deployment_image worked d.id r.0.image) d.id m
              (image-closed worked d.id r.0.image p'))
      ]

  verified-closed :
      (s : Store) (app : Application) (c : DeploymentConfiguration) (d target : Deployment)
      (o : Option Failure)
      → P s
      → P (rolled_back_verified next_id k w s app c d target o).0
  verified-closed s app c d target (some f) p = p
  verified-closed s app c d target none p =
      metadata-closed _ d.id _ (
        run-closed _ w.during during
          (metadata-closed _ d.id _ (image-closed s d.id target.image p)))

  configured-closed :
      (s : Store) (app : Application) (d target : Deployment) (r : Restoration)
      → P s
      → P (rolled_back_configured next_id k w s app d target r).0
  configured-closed s app d target (not_restored f) p = p
  configured-closed s app d target (restored c) p = verified-closed s app c d target _ p

  rolled_back-closed :
      (s : Store) (app : Application) (c : DeploymentConfiguration) (d : Deployment)
      (r : Result Deployment)
      → P s
      → P (rolled_back next_id k w s app c d r).0
  rolled_back-closed s app c d (err e) p = p
  rolled_back-closed s app c d (ok target) p = configured-closed s app d target _ p

  acted-closed :
      (s : Store) (app : Application) (d : Deployment) (action : String)
      (c : DeploymentConfiguration) (o : Option Failure)
      → P s
      → P (acted next_id k w s app d action c o).0
  acted-closed s app d action c (some f) p = p
  acted-closed s app d action c none p = elim (Bool-cases (action =s= "deploy")) [
    | inl deploy ↦ rw deploy (deployed-closed s app c d p)
    | inr a ↦ elim (Bool-cases (action =s= "rollback")) [
      | inl back ↦
          rw (a, back) (rolled_back-closed s app c d (previous_successful_deployment s app.id) p)
      | inr b ↦ elim (Bool-cases (action =s= "auto_rollback")) [
        | inl auto ↦
            rw (a, b, auto) (rolled_back-closed s app c d (latest_successful_deployment s app.id) p)
        | inr other ↦ rw (a, b, other) p
      ]
    ]
  ]

  pub worked_on-closed :
      (s : Store) (app : Application) (d : Deployment)
      (r : DeploymentConfiguration × Option Failure)
      → P s
      → P (worked_on next_id k w s app d r).0
  worked_on-closed s app d (c, some f) p = p
  worked_on-closed s app d (c, none) p = elim (Bool-cases (d.action =s= "retry")) [
    | inl retry ↦
        rw retry
          (acted-closed s app d "deploy" (reused c (latest_failed_deployment s app.id)) none p)
    | inr plain ↦ rw plain (acted-closed s app d d.action c none p)
  ]

  finish_closed :
      (now : ℕ) (s : Store) (id : ℕ) (status : Status)
      → is_active status ≡ false
      → P s
      → P (finish_deployment now s id status).0
  unfolding step
  finish_closed now s id status over p =
      closed s (now, finish id status) (own (now, finish id status) over) p

  with_failure-closed :
      (s : Store) (d : Deployment) (action : String) (requested : Bool) (error : Option Failure)
      → P s
      → P (with_failure s d action requested error)
  unfolding step
  with_failure-closed s d action true error p = p
  with_failure-closed s d action false none p = p
  with_failure-closed s d action false (some f) p =
      closed s (0, set_failure d.id _) (own (0, set_failure d.id _) tt) p

  -- The store just before the worker finishes its job.
  abbrev pub nearly : Deployment → String → Store → Option Failure → Store
  nearly d action s error =
      let requested = is_requested (deployment_cancellation_requested s d.id) in
      run next_id
        (set_deployment_stage_durations (with_failure s d action requested error) d.id w.durations)
        w.before_finish

  pub nearly-closed :
      (d : Deployment) (action : String) (s : Store) (error : Option Failure)
      → P s
      → P (nearly d action s error)
  unfolding step
  nearly-closed d action s error p =
      let requested = is_requested (deployment_cancellation_requested s d.id) in
      let failing = with_failure s d action requested error in
      run-closed (set_deployment_stage_durations failing d.id w.durations) w.before_finish
        before_finish
        (closed failing (0, set_durations d.id w.durations)
          (own (0, set_durations d.id w.durations) tt)
          (with_failure-closed s d action requested error p))

  module _
      (queues : (s : Store) (app : Application)
        → P s
        → P
            (queue_deployment_ref next_id w.manifest w.queued_at app.id "auto_rollback" ""
              w.rollback_log s).0) where
    pub concluded-closed :
        (app : Application) (d : Deployment) (action : String) (s : Store) (error : Option Failure)
        → P s
        → P (concluded next_id k w app d action s error).0
    concluded-closed app d action s error p =
        let requested = is_requested (deployment_cancellation_requested s d.id) in
        let status = final_of requested error in
        let ended = (finish_deployment w.finished_at (nearly d action s error) d.id status).0 in
        let p' =
          finish_closed w.finished_at (nearly d action s error) d.id status (ends requested error)
            (nearly-closed d action s error p) in
        elim (Bool-cases (queues_rollback status action app error)) [
          | inl rolls ↦ rw rolls (queues ended app p')
          | inr rests ↦ rw rests p'
        ]

    pub with_application-closed :
        (s : Store) (d : Deployment) (o : Option Application)
        → P s
        → P (with_application next_id k w s d o).0
    with_application-closed s d none p = finish_closed w.finished_at s d.id failed refl p
    with_application-closed s d (some app) p = elim (Bool-cases w.log_opens) [
      | inl opens ↦
          rw opens (concluded-closed app d _ _ _ (worked_on-closed s app d (w.configuration app) p))
      | inr fails ↦ rw fails (finish_closed w.finished_at s d.id failed refl p)
    ]

    pub claimed_job-closed :
        (r : Store × Result Deployment) → P r.0 → P (claimed_job next_id k w r).0
    claimed_job-closed (s, err e) p = p
    claimed_job-closed (s, ok d) p = with_application-closed s d _ p
