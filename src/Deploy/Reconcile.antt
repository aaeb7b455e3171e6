-- ===== src/Deploy/Reconcile.antt =====
-- internal/deploy/executor.go: Reconcile, which puts routes and containers right after a restart.
pub mod Converged
pub mod Resumed
mod Tests
use mini_dock.Prelude.{
  ℕ, String, Bool, true, false, not, ◌&&◌, Option, none, some, List, [], ◌∷◌, ◌++◌, if◌then◌else◌,
}
use mini_dock.Store.Tables.{Application}
use mini_dock.Deploy.Failures.{Failure, classified, failure}
use mini_dock.Deploy.Host.{Host}
use mini_dock.Deploy.Containers.{
  primary, candidate, next, previous, Target, reachable, unreachable, container_target,
  remove_if_present, wait_healthy,
}
use mini_dock.Deploy.Switch.{unless_failed, ◌and_then◌, failing}

module _ {E : Type 0} (h : Host E) (app : Application) where
  -- The proxy gets the target of a container.
  abbrev pub route_to : Target → E → E × Option Failure
  route_to (unreachable f) e = (e, some f)
  route_to (reachable target) e = h.apply app target e

  abbrev pub reroute : String → E → E × Option Failure
  reroute container e = route_to (container_target h e container app.internal_port) e

  -- A container serves already: its route is put back, and an interrupted release is discarded.
  abbrev pub resume : String → E → E × Option Failure
  resume container e = reroute container e and_then remove_if_present h (next app)

  abbrev pub waited : E → E × Option Failure
  waited e = (e, failure "rollback" "reconcile_restore_unhealthy" (wait_healthy h e (previous app)))

  -- The container that an interrupted switch had stopped is started and gets its name back.
  abbrev pub restore : E → E × Option Failure
  restore e = h.docker ("start" ∷ previous app ∷ []) e and_then (λ e1. waited e1 and_then (λ e2.
      h.docker ("rename" ∷ previous app ∷ primary app ∷ []) e2 and_then reroute (primary app)))

  abbrev pub restored_ids : E × Option Failure → (E × Option Failure) × List ℕ
  restored_ids (e, none) = ((e, none), app.id ∷ [])
  restored_ids (e, some f) = ((e, some f), [])

  -- The body of the loop, with the applications that it has restored.
  unfoldable pub reconcile_application : E → (E × Option Failure) × List ℕ
  reconcile_application e =
      if h.has_container e (candidate app)
      then (resume (candidate app) e, [])
      else if h.has_container e (primary app)
      then (if h.has_container e (previous app)
          then (resume (primary app) e and_then remove_if_present h (previous app), [])
          else (resume (primary app) e, []))
      else if h.has_container e (previous app)
      then restored_ids (restore e)
      else ((e, none), [])

module _ {E : Type 0} (h : Host E) (on_docker : Application → Bool) where
  -- Reconcile: an error ends the loop; `on_docker` says which applications the Docker adapter runs.
  abbrev go_on :
      (E × Option Failure) × List ℕ
      → (E → (E × Option Failure) × List ℕ)
      → (E × Option Failure) × List ℕ
  go_on ((e, some f), ids) rest = ((e, some f), ids)
  go_on ((e, none), ids) rest = let r = rest e in (r.0, ids ++ r.1)

  unfoldable pub reconcile : List Application → E → (E × Option Failure) × List ℕ
  unfolding reconcile_application
  reconcile [] e = ((e, none), [])
  reconcile (app ∷ apps) e =
      if on_docker app
      then go_on (reconcile_application h app e) (reconcile apps)
      else reconcile apps e
