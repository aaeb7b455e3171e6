-- ===== src/Deploy/Release/Untouched.antt =====
-- internal/deploy/executor.go: the containers after a Deploy or a Rollback that fails.
use mathlib.Core.Path.{subst}
use mini_dock.Prelude.{ℕ, ◌≡◌, ◌≢◌, refl, sym, ◌∙◌, String, false, Option, none, some, []}
use mini_dock.Store.Tables.{Application}
use mini_dock.Deploy.Failures.{Failure}
use mini_dock.Deploy.Contract.{Values, DeploymentConfiguration, ReleaseResult}
use mini_dock.Deploy.Host.{DockerNetwork, Host, Kept, IsDocker}
use mini_dock.Deploy.Switch.{Colours, colours, docker_start}
use mini_dock.Deploy.Switch.Chains.{Kept-trans}
use mini_dock.Deploy.Switch.Failing.{is_retiring}
use mini_dock.Deploy.Switch.Untouched.{docker_start-Kept}
use mini_dock.Deploy.Adapters.{Adapter, docker_adapter, adapters}
use mini_dock.Deploy.Source.{Workshop}
use mini_dock.Deploy.Release.Files.{LeavesContainers}
use mini_dock.Deploy.Release.Through.{AllKept, same_colours, deploy-holds, rollback-holds}
use mini_dock.Deploy.Release.{Ended, started, after_start, without_file, deploy, rollback}

module _ {E : Type 0} (w : Workshop E) (h : Host E) (serves : E → ℕ → Option String)
    (laws : IsDocker h serves) (leaves : LeavesContainers w h) (network : DockerNetwork)
    (app : Application) (start : E) where
  -- A failure before the old container is retired has kept all but the new one.
  record Spared (x : Ended E) : Type 0 where
    spares :
        (f : Failure) (name : String)
        → x.1.1 ≡ some f
        → is_retiring f ≡ false
        → name ≢ (colours h network app start).staging
        → Kept h name start x.0

  kept-Spared : (x : Ended E) → AllKept w h leaves network app start x.0 → Spared x
  kept-Spared x k = record { spares = λ f name failed early other. k name }

  start-Spared :
      (image : String) (environment : Values) (r : ReleaseResult) (e : E)
      → AllKept w h leaves network app start e
      → Spared (started w app (docker_adapter h network) image environment r e)
  start-Spared image environment r e k = by_answer answer.1 refl
    where
      answer : E × Option Failure
      answer = docker_start h network app image environment e

      by_answer :
          (o : Option Failure)
          → answer.1 ≡ o
          → Spared (after_start w app (docker_adapter h network) image r (answer.0, (image, o)))
      by_answer none fine = record { spares = λ f name failed early other. absurd cc }
      by_answer (some g) refused_ = record {
        spares = λ f name failed early other.
            let same : some g ≡ some f = failed in
            let staging : name ≢ (colours h network app e).staging =
              subst (λ (c : Colours). name ≢ c.staging)
                (sym (same_colours w h leaves network app start e k)) other in
            Kept-trans h name start e answer.0 (k name) (
              docker_start-Kept h serves laws network app image environment e f name
                (refused_ ∙ same) early staging);
      }

  removal-Spared : (path : String) (x : Ended E) → Spared x → Spared (without_file w app path x)
  removal-Spared path x s = record {
    spares = λ f name failed early other.
        Kept-trans h name start x.0 _ (s.spares f name failed early other)
          (leaves.remove_keeps path x.0 name);
  }

  deploy-Spared :
      (apple : Adapter E) (c : DeploymentConfiguration)
      → Spared (deploy w app (adapters [] (docker_adapter h network) apple) c start)
  deploy-Spared =
      deploy-holds w h leaves network app start Spared (λ e r f. kept-Spared (e, (r, some f)))
        start-Spared removal-Spared

  -- If Deploy with the built-in adapters fails in whatever stage before the old container is
  -- retired, then every container but the new one is as it was before the release: it exists if it
  -- did, at the same address. It holds for a host whose docker and proxy behave as documented, and
  -- whose git, builds and files touch no container.
  pub deploy-Kept :
      (apple : Adapter E) (c : DeploymentConfiguration) (f : Failure) (name : String)
      → let x = deploy w app (adapters [] (docker_adapter h network) apple) c start in
        x.1.1 ≡ some f
        → is_retiring f ≡ false
        → name ≢ (colours h network app start).staging
        → Kept h name start x.0
  deploy-Kept apple c f name failed early other =
      (deploy-Spared apple c).spares f name failed early other

  -- If Rollback with the built-in adapters fails before the old container is retired, then every
  -- container but the new one is as it was before: it exists if it did, at the same address. It
  -- holds for a host whose docker and proxy behave as documented, and whose git, builds and file
  -- calls touch no container.
  pub rollback-Kept :
      (apple : Adapter E) (image : String) (c : DeploymentConfiguration) (f : Failure)
      (name : String)
      → let x = rollback w app (adapters [] (docker_adapter h network) apple) image c start in
        x.1.1 ≡ some f
        → is_retiring f ≡ false
        → name ≢ (colours h network app start).staging
        → Kept h name start x.0
  rollback-Kept apple image c f name failed early other =
      (rollback-holds w h leaves network app start Spared (λ e r g. kept-Spared (e, (r, some g)))
          start-Spared removal-Spared apple image c).spares
        f name failed early other
