-- ===== src/App/Worker/Released.antt =====
-- internal/app/cicd.go and internal/deploy/executor.go: the worker and the executor together.
use mini_dock.Prelude.{
  ◌⊎◌, false, eq_iff, ℕ, ◌≡◌, refl, sym, ◌∙◌, All, ap, String, Bool, true, ◌||◌, Option, none, some,
  List, [], ◌==◌, ◌=s=◌, inl, inr, Bool-cases, Result, ok, err,
}
use mini_dock.Prelude.Rows.{find_where}
use mini_dock.Store.Tables.{successful, Application, Deployment, Store}
use mini_dock.Store.Jobs.{next_queued_deployment, has_id}
use mini_dock.Store.Lifecycle.{IsProper, IsValid, IsAbove}
use mini_dock.Store.Lifecycle.Moves.{KeepsRows}
use mini_dock.App.Worker.Ended.{run_next_deployment-HasEnded}
use mini_dock.Store.Releases.{
  previous_successful_deployment, latest_successful_deployment, latest_failed_deployment,
}
use mini_dock.Deploy.Contract.{DeploymentConfiguration}
use mini_dock.Deploy.Failures.{Failure}
use mini_dock.Deploy.Host.{Host, DockerNetwork, IsDocker}
use mini_dock.Deploy.Switch.Serving.{replaced}
use mini_dock.Deploy.Switch.Routed.{IsServing}
use mini_dock.Deploy.Adapters.{Adapter, docker_adapter, adapters}
use mini_dock.Deploy.Source.{Workshop}
use mini_dock.Deploy.Release.{deploy, rollback, verify_artifact}
use mini_dock.Deploy.Release.Files.{LeavesContainers}
use mini_dock.Deploy.Release.Served.{LeavesRoutes, deploy-IsServing, rollback-IsServing}
use mini_dock.App.Configuration.{Codec, Restoration, restored, not_restored}
use mini_dock.App.Worker.{
  Surroundings, with_branch, acted, worked_on, rolled_back, rolled_back_configured,
  rolled_back_verified, with_application, run_next_deployment,
}
use mini_dock.App.Decisions.{is_rollback, reuses, reused, first_error}

-- The actions that the worker knows.
abbrev pub is_known : String → Bool
is_known action = action =s= "retry" || (action =s= "deploy" || is_rollback action)

some-injective : {A : Type 0} {a b : A} → some a ≡ some b → a ≡ b
some-injective {a} h = ap (λ o. elim o [ none ↦ a | some x ↦ x ]) h

deploy_rolls_not : (action : String) → (action =s= "deploy") ≡ true → is_rollback action ≡ false
deploy_rolls_not action deploys = ap is_rollback ((eq_iff action "deploy").0 deploys)

reused_runtime :
    (c : DeploymentConfiguration) (r : Result Deployment) → (reused c r).runtime ≡ c.runtime
reused_runtime c (err e) = refl
reused_runtime c (ok d) = elim (Bool-cases (reuses d)) [
  | inl again ↦ rw again refl
  | inr fresh ↦ rw fresh refl
]

first_error-none :
    (o : Option Failure) (later : Option String) → first_error o later ≡ none → o ≡ none
first_error-none none later h = refl
first_error-none (some f) later h = absurd cc

module _ {E : Type 0} (shop : Workshop E) (h : Host E) (network : DockerNetwork) (apple : Adapter E)
    (start : E) where
  abbrev executor_adapters : List (String × Adapter E)
  executor_adapters = adapters [] (docker_adapter h network) apple

  -- The worker's executor, on the host as the job finds it.
  abbrev pub with_executor : Surroundings → Surroundings
  with_executor w = record w {
    deploy = λ app c. (deploy shop app executor_adapters c start).1;
    verify_artifact =
        λ app image digest. verify_artifact shop app executor_adapters start image digest;
    rollback = λ app image c. (rollback shop app executor_adapters image c start).1;
  }

  module _ (serves : E → ℕ → Option String) (laws : IsDocker h serves)
      (leaves : LeavesContainers shop h) (routes : LeavesRoutes shop serves) (next_id : List ℕ → ℕ)
      (k : Codec) (w : Surroundings) where
    abbrev branched : Application → Deployment → Application
    branched = with_branch next_id k (with_executor w)

    -- The release that a Rollback goes back to, of the store in which the job was claimed.
    abbrev IsTarget : Store → Application → Deployment → Type 0
    IsTarget t app target =
        (previous_successful_deployment t app.id ≡ ok target)
        ⊎ (latest_successful_deployment t app.id ≡ ok target)

    -- The release that the job has made, and what serves it: a Deploy of the application with the
    -- runtime configuration that the worker has read, or a Rollback to the image of a target.
    pub data Released (t : Store) (app : Application) (d : Deployment) : Type 0 where
      by_deploy :
          (c : DeploymentConfiguration)
          → is_rollback d.action ≡ false
          → c.runtime ≡ (w.configuration app).0.runtime
          → IsServing h serves
              (branched app d)
              (replaced h serves laws network (branched app d) start)
              (deploy shop (branched app d) executor_adapters c start).0
          → Released t app d
      by_rollback :
          (target : Deployment) (c : DeploymentConfiguration)
          → is_rollback d.action ≡ true
          → IsTarget t app target
          → IsServing h serves app
              (replaced h serves laws network app start)
              (rollback shop app executor_adapters target.image c start).0
          → Released t app d

    module _ (t : Store) (app : Application) (d : Deployment) where
      verified_Released :
          (c : DeploymentConfiguration) (target : Deployment) (o : Option Failure)
          → is_rollback d.action ≡ true
          → IsTarget t app target
          → (rolled_back_verified next_id k (with_executor w) t app c d target o).1 ≡ none
          → Released t app d
      verified_Released c target (some f) rolls is fine = absurd cc
      verified_Released c target none rolls is fine = by_rollback target c rolls is (
          rollback-IsServing shop h serves laws leaves routes network app start apple target.image c
            fine)

      configured_Released :
          (target : Deployment) (r : Restoration)
          → is_rollback d.action ≡ true
          → IsTarget t app target
          → (rolled_back_configured next_id k (with_executor w) t app d target r).1 ≡ none
          → Released t app d
      configured_Released target (not_restored f) rolls is fine = absurd cc
      configured_Released target (restored c) rolls is fine =
          verified_Released c target _ rolls is fine

      rolled_back-Released :
          (c : DeploymentConfiguration) (found : Result Deployment)
          → is_rollback d.action ≡ true
          → ((target : Deployment) → found ≡ ok target → IsTarget t app target)
          → (rolled_back next_id k (with_executor w) t app c d found).1 ≡ none
          → Released t app d
      rolled_back-Released c (err e) rolls is fine = absurd cc
      rolled_back-Released c (ok target) rolls is fine =
          configured_Released target _ rolls (is target refl) fine

      acted-Released :
          (action : String) (c : DeploymentConfiguration)
          → (action =s= "deploy" || is_rollback action) ≡ true
          → is_rollback action ≡ is_rollback d.action
          → c.runtime ≡ (w.configuration app).0.runtime
          → (acted next_id k (with_executor w) t app d action c none).1 ≡ none
          → Released t app d
      acted-Released action c is same runs fine = elim (Bool-cases (action =s= "deploy")) [
        | inl deploys ↦ by_deploy c (sym same ∙ deploy_rolls_not action deploys) runs (
            deploy-IsServing shop h serves laws leaves routes network (branched app d) start apple c
              (rw deploys at fine))
        | inr other ↦
            let rolls : is_rollback d.action ≡ true = sym same ∙ (rw other at is) in
            elim (Bool-cases (action =s= "rollback")) [
              | inl manual ↦
                  rolled_back-Released c (previous_successful_deployment t app.id) rolls
                    (λ target e. inl e) (rw (other, manual) at fine)
              | inr neither ↦ elim (Bool-cases (action =s= "auto_rollback")) [
                | inl automatic ↦
                    rolled_back-Released c (latest_successful_deployment t app.id) rolls
                      (λ target e. inr e) (rw (other, neither, automatic) at fine)
                | inr none_ ↦ absurd (let wrong = rw (other, neither, none_) at is in cc)
              ]
            ]
      ]

      worked_on-Released :
          (x : DeploymentConfiguration × Option Failure)
          → x.0.runtime ≡ (w.configuration app).0.runtime
          → is_known d.action ≡ true
          → (worked_on next_id k (with_executor w) t app d x).1 ≡ none
          → Released t app d
      worked_on-Released (c, some f) runs is fine = absurd cc
      worked_on-Released (c, none) runs is fine = elim (Bool-cases (d.action =s= "retry")) [
        | inl retries ↦
            acted-Released "deploy" (reused c (latest_failed_deployment t app.id)) refl
              (sym (ap is_rollback ((eq_iff d.action "retry").0 retries)))
              (reused_runtime c (latest_failed_deployment t app.id) ∙ runs) (rw retries at fine)
        | inr other ↦ acted-Released d.action c (rw other at is) refl runs (rw other at fine)
      ]

      application-Released :
          is_known d.action ≡ true
          → (with_application next_id k (with_executor w) t d (some app)).1 ≡ none
          → Released t app d
      application-Released is fine = elim (Bool-cases w.log_opens) [
        | inr fails ↦ absurd (let wrong = rw fails at fine in cc)
        | inl opens ↦
            worked_on-Released (w.configuration app) refl is
              (first_error-none _ w.heartbeat_failure (rw opens at fine))
      ]

    run_next_deployment_reaches :
        (s t : Store) (d : Deployment) (app : Application)
        → next_queued_deployment w.claimed_at s ≡ (t, ok d)
        → find_where (λ (a : Application). a.id == d.application_id) t.applications ≡ some app
        → is_known d.action ≡ true
        → (run_next_deployment next_id k (with_executor w) s).1 ≡ none
        → Released t app d
    unfolding run_next_deployment
    run_next_deployment_reaches s t d app first found is fine =
        application-Released t app d is (rw (first, found) at fine)

    -- If the worker claims a job with one of its four actions on a valid store, for an application
    -- of the table, and the job is recorded as successful when runNextDeployment returns, then the
    -- executor has released the application: by a Deploy with the runtime configuration that the
    -- worker has read, or, for a rollback, by a Rollback to the image of the previous or the
    -- latest successful release. After it, the proxy serves the application's candidate container
    -- at its address, and the container that the switch replaced is gone. Other calls of the store
    -- may come meanwhile, but no DeleteDeployments, and those that finish a job give a status that
    -- ends it. It holds for a host whose docker and proxy behave as documented, whose git, builds
    -- and files touch no container, and where removing a file changes no route.
    pub run_next_deployment-Released :
        (above : IsAbove next_id) (s t : Store) (d row : Deployment) (app : Application)
        → All IsProper w.during
        → All KeepsRows w.during
        → All IsProper w.before_finish
        → All KeepsRows w.before_finish
        → IsValid s
        → next_queued_deployment w.claimed_at s ≡ (t, ok d)
        → find_where (λ (a : Application). a.id == d.application_id) t.applications ≡ some app
        → is_known d.action ≡ true
        → let result = run_next_deployment next_id k (with_executor w) s in
          find_where (has_id d.id) result.0.deployments ≡ some row
          → row.status ≡ successful
          → Released t app d
    run_next_deployment-Released above s t d row app during keeps before keeps' v first found is
          recorded success =
        let ended =
          run_next_deployment-HasEnded next_id above k (with_executor w) s t d during keeps before
            keeps' v first in
        let same : ended.row ≡ row = some-injective (sym ended.found ∙ recorded) in
        run_next_deployment_reaches s t d app first found is
          (ended.succeeded (ap (λ (r : Deployment). r.status) same ∙ success))
