-- ===== src/Deploy/Switch.antt =====
-- internal/deploy/executor.go: DockerAdapter.Start, the switch from the serving container of an
-- application to a new one. The log and the stage tracker are left out.
pub mod Chains
pub mod Names
pub mod Routed
pub mod Serving
pub mod Failing
pub mod Untouched
pub mod Restored
pub mod Undone
pub mod Tidy
mod TidyTests
mod Tests
use mini_dock.Prelude.{String, not, ◌&&◌, Option, none, some, List, [], ◌∷◌, ◌=s=◌, if◌then◌else◌}
use mini_dock.Store.Tables.{Application}
use mini_dock.Deploy.Failures.{Failure, failure}
use mini_dock.Deploy.Host.{Host, DockerNetwork}
use mini_dock.Deploy.Network.{ensure_docker_network}
use mini_dock.Deploy.Containers.{
  primary, candidate, next, Target, reachable, unreachable, container_target, force_remove,
  remove_if_present, wait_healthy,
}
use mini_dock.Deploy.Arguments.{run_docker_container}

-- The containers of a switch: the one that serves, and the one for the new release.
pub record Colours : Type 0 where
  pub active : String
  pub staging : String

abbrev pub failing : {E : Type 0} → String → String → E × Option Failure → E × Option Failure
failing stage code r = (r.0, failure stage code r.1)

-- Go on where a command has succeeded.
abbrev pub unless_failed :
    {E : Type 0} → E → Option Failure → (E → E × Option Failure) → E × Option Failure
unless_failed e none go = go e
unless_failed e (some f) go = (e, some f)

infixl 5 ◌and_then◌
abbrev pub ◌and_then◌ :
    {E : Type 0} → E × Option Failure → (E → E × Option Failure) → E × Option Failure
r and_then go = unless_failed r.0 r.1 go

module _ {E : Type 0} (h : Host E) (network : DockerNetwork) (app : Application) where
  -- After the first switch the candidate is the container that serves.
  abbrev pub colours : E → Colours
  colours e =
      if h.has_container e (candidate app)
      then record { active = candidate app; staging = next app }
      else record { active = primary app; staging = candidate app }

  abbrev pub discarded : String → E → E
  discarded staging e = (force_remove h staging e).0

  -- Remove the new container where a command has failed.
  abbrev pub or_discard : String → E × Option Failure → E × Option Failure
  or_discard staging (e, none) = (e, none)
  or_discard staging (e, some f) = (discarded staging e, some f)

  -- The proxy gets the target of the serving container again, if that can be found.
  abbrev pub restored_to : Target → E → E
  restored_to (unreachable f) e = e
  restored_to (reachable target) e = (h.apply app target e).0

  abbrev pub restored : String → E → E
  restored active e =
      if h.has_container e active
      then restored_to (container_target h e active app.internal_port) e
      else e

  -- Only once the proxy serves the new container the old one is removed.
  abbrev pub retire : Colours → E → E × Option Failure
  retire c e =
      if h.has_container e c.active && not (c.active =s= c.staging)
      then failing "route" "previous_cleanup_failed" (remove_if_present h c.active e)
      else (e, none)

  abbrev pub promote : Colours → E → E × Option Failure
  promote c e =
      if c.staging =s= candidate app
      then (e, none)
      else failing "route" "candidate_promote_failed"
          (h.docker ("rename" ∷ c.staging ∷ candidate app ∷ []) e)

  abbrev pub validated : Colours → E → Option Failure → E × Option Failure
  validated c e (some f) = (
    discarded c.staging (restored c.active e),
    failure "route" "proxy_validation_failed" (some f),
  )
  validated c e none = retire c e and_then promote c

  abbrev pub applied : Colours → String → E → E × Option Failure
  applied c target e =
      or_discard c.staging (failing "route" "proxy_switch_failed" (h.apply app target e))

  abbrev pub verified : Colours → E → E × Option Failure
  verified c e = validated c e (h.verify app e)

  abbrev pub switch_to : Colours → Target → E → E × Option Failure
  switch_to c (unreachable f) e = (e, failure "route" "candidate_address_unavailable" (some f))
  switch_to c (reachable target) e = applied c target e and_then verified c

  -- The route is switched to the new container.
  unfoldable pub switch_route : Colours → E → E × Option Failure
  switch_route c e = switch_to c (container_target h e c.staging app.internal_port) e

  abbrev pub launched : String → List (String × String) → Colours → E → E × Option Failure
  launched image environment c e =
      run_docker_container h network app image environment c.staging (discarded c.staging e)

  abbrev pub proven : Colours → E → E × Option Failure
  proven c e =
      or_discard c.staging (e, failure "health" "health_check_failed" (wait_healthy h e c.staging))

  -- The new container is started and proven healthy, and the serving one is not touched.
  unfoldable pub stage_release : String → List (String × String) → Colours → E → E × Option Failure
  stage_release image environment c e =
      failing "start" "candidate_start_failed" (launched image environment c e) and_then proven c

  abbrev pub released : String → List (String × String) → Colours → E → E × Option Failure
  released image environment c e = stage_release image environment c e and_then switch_route c

  -- DockerAdapter.Start
  unfoldable pub docker_start : String → List (String × String) → E → E × Option Failure
  unfolding stage_release switch_route ensure_docker_network
  docker_start image environment e =
      failing "start" "network_unavailable" (ensure_docker_network h network e)
      and_then (λ e'. released image environment (colours e') e')
