-- ===== src/Deploy/Release/Served.antt =====
-- internal/deploy/executor.go: the proxy after a Deploy or a Rollback that succeeds.
use mini_dock.Prelude.{ℕ, ◌≡◌, refl, ap, ◌∙◌, String, Option, none, some, [], if◌then◌else◌}
use mathlib.Core.Path.{subst}
use mini_dock.Store.Tables.{Application}
use mini_dock.Deploy.Failures.{Failure}
use mini_dock.Deploy.Contract.{Values, DeploymentConfiguration, ReleaseResult}
use mini_dock.Deploy.Host.{DockerNetwork, Host, Kept, IsDocker}
use mini_dock.Deploy.Containers.{candidate, next, primary}
use mini_dock.Deploy.Switch.{docker_start}
use mini_dock.Deploy.Switch.Serving.{replaced, docker_start-IsServing}
use mini_dock.Deploy.Switch.Routed.{IsServing}
use mini_dock.Deploy.Adapters.{Adapter, docker_adapter, adapters}
use mini_dock.Deploy.Source.{Workshop}
use mini_dock.Deploy.Release.Files.{LeavesContainers}
use mini_dock.Deploy.Release.Through.{AllKept, deploy-holds, rollback-holds}
use mini_dock.Deploy.Release.{Ended, started, after_start, without_file, deploy, rollback}

-- Removing a file changes no route.
pub record LeavesRoutes {E : Type 0} (w : Workshop E) (serves : E → ℕ → Option String)
    : Type 0 where
  pub remove_leaves_routes :
      (path : String) (e : E) (id : ℕ) → serves (w.remove_file path e) id ≡ serves e id

module _ {E : Type 0} (w : Workshop E) (h : Host E) (serves : E → ℕ → Option String)
    (laws : IsDocker h serves) (leaves : LeavesContainers w h) (routes : LeavesRoutes w serves)
    (network : DockerNetwork) (app : Application) (start : E) where
  abbrev Serving : E → Type 0
  Serving = IsServing h serves app (replaced h serves laws network app start)

  -- A success serves the new container.
  record Served (x : Ended E) : Type 0 where
    served : x.1.1 ≡ none → Serving x.0

  failed-Served :
      (e : E) (r : ReleaseResult) (f : Failure)
      → AllKept w h leaves network app start e
      → Served (e, (r, some f))
  failed-Served e r f k = record { served = λ fine. absurd cc }

  same_replaced :
      (e : E)
      → AllKept w h leaves network app start e
      → replaced h serves laws network app e ≡ replaced h serves laws network app start
  same_replaced e k =
      ap (λ there. if there then next app else primary app) (k (candidate app)).same_container

  start-Served :
      (image : String) (environment : Values) (r : ReleaseResult) (e : E)
      → AllKept w h leaves network app start e
      → Served (started w app (docker_adapter h network) image environment r e)
  start-Served image environment r e k = by_answer answer.1 refl
    where
      answer : E × Option Failure
      answer = docker_start h network app image environment e

      by_answer :
          (o : Option Failure)
          → answer.1 ≡ o
          → Served (after_start w app (docker_adapter h network) image r (answer.0, (image, o)))
      by_answer (some g) refused_ = record { served = λ fine. absurd cc }
      by_answer none fine = record {
        served = λ ok_.
            subst (λ gone. IsServing h serves app gone answer.0) (same_replaced e k)
              (docker_start-IsServing h serves laws network app image environment e fine);
      }

  removed-Served : (path : String) (x : Ended E) → Served x → Served (without_file w app path x)
  removed-Served path x s = record {
    served = λ fine.
        let was = s.served fine in
        let kept : (name : String) → Kept h name x.0 (w.remove_file path x.0) =
          leaves.remove_keeps path x.0 in
        record {
          exists_candidate = (kept (candidate app)).same_container ∙ was.exists_candidate;
          ip = was.ip;
          at_address = (kept (candidate app)).same_address ∙ was.at_address;
          routed = routes.remove_leaves_routes path x.0 app.id ∙ was.routed;
          other_gone =
              (kept (replaced h serves laws network app start)).same_container ∙ was.other_gone;
        };
  }

  -- A Deploy that succeeds has put the candidate behind the proxy.
  pub deploy-IsServing :
      (apple : Adapter E) (c : DeploymentConfiguration)
      → let x = deploy w app (adapters [] (docker_adapter h network) apple) c start in
        x.1.1 ≡ none → IsServing h serves app (replaced h serves laws network app start) x.0
  deploy-IsServing apple c =
      (deploy-holds w h leaves network app start Served failed-Served start-Served removed-Served
        apple c).served

  -- So has a Rollback.
  pub rollback-IsServing :
      (apple : Adapter E) (image : String) (c : DeploymentConfiguration)
      → let x = rollback w app (adapters [] (docker_adapter h network) apple) image c start in
        x.1.1 ≡ none → IsServing h serves app (replaced h serves laws network app start) x.0
  rollback-IsServing apple image c =
      (rollback-holds w h leaves network app start Served failed-Served start-Served removed-Served
        apple image c).served
