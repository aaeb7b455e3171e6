-- ===== src/Deploy/Containers.antt =====
-- internal/deploy/executor.go: the containers of an application by name, their address, their
-- health and their arguments.
use mini_dock.Prelude.{
  ℕ, String, Bool, ◌||◌, Option, none, some, List, [], ◌∷◌, ltb, ◌=s=◌, is_some, if◌then◌else◌,
}
use text.Mathlib.Text.{find?}
use mini_dock.Prelude.Decimal.{◌+s+◌, decimal}
use mini_dock.Store.Tables.{Application}
use mini_dock.Deploy.Failures.{Failure, unclassified}
use mini_dock.Deploy.Host.{Poll, no_answer, answer, Host}

abbrev pub primary : Application → String
primary app = "minidock-" +s+ app.name

abbrev pub candidate : Application → String
candidate app = primary app +s+ "-candidate"

abbrev pub next : Application → String
next app = primary app +s+ "-next"

abbrev pub previous : Application → String
previous app = primary app +s+ "-previous"

abbrev contains : String → String → Bool
contains text part = is_some (find? text part)

-- net.JoinHostPort
unfoldable pub join_host_port : String → ℕ → String
join_host_port ip port =
    if contains ip ":" then "[" +s+ ip +s+ "]:" +s+ decimal port else ip +s+ ":" +s+ decimal port

-- The address of a container with the application's port, or why there is none.
pub data Target : Type 0 where
  reachable : (target : String) → Target
  unreachable : (why : Failure) → Target

abbrev pub target_of : String → ℕ → Option String → Target
target_of container port none =
    unreachable (unclassified ("container " +s+ container +s+ " has no usable network address"))
target_of container port (some ip) = reachable (join_host_port ip port)

module _ {E : Type 0} (h : Host E) where
  -- dockerContainerTarget
  abbrev pub container_target : E → String → ℕ → Target
  container_target e container port =
      if ltb port 1 || ltb 65535 port
      then unreachable (unclassified ("invalid container port " +s+ decimal port))
      else target_of container port (h.address e container)

  abbrev pub force_remove : String → E → E × Option Failure
  force_remove container e = h.docker ("rm" ∷ "--force" ∷ container ∷ []) e

  -- removeDockerContainerIfPresent
  abbrev pub remove_if_present : String → E → E × Option Failure
  remove_if_present container e =
      if h.has_container e container then force_remove container e else (e, none)

  -- waitHealthy, on the answers that it gets.
  unfoldable pub wait_polls : List Poll → Option Failure
  wait_polls [] = some (unclassified "context deadline exceeded")
  wait_polls (no_answer detail ∷ polls) = some (unclassified detail)
  wait_polls (answer status late ∷ polls) =
      let rest = wait_polls polls in
      if status =s= "healthy" || status =s= "true"
      then none
      else if status =s= "unhealthy" || late
      then some (unclassified ("health check failed: " +s+ status))
      else rest

  abbrev pub wait_healthy : E → String → Option Failure
  wait_healthy e container = wait_polls (h.polls e container)
