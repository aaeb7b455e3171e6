-- ===== src/Deploy/Network.antt =====
-- internal/deploy/executor.go: the network of the releases, which must be an internal bridge.
pub mod Internal
pub mod Harmless
mod Tests
use mini_dock.Prelude.{
  String, Bool, ◌&&◌, ◌||◌, Option, none, some, List, [], ◌∷◌, ◌++◌, any, ◌=s=◌, if◌then◌else◌,
}
use mini_dock.Prelude.Characters.{is_blank}
use mini_dock.Prelude.Decimal.{◌+s+◌}
use mini_dock.Deploy.Failures.{Failure, unclassified, detail_of, quoted}
use mini_dock.Deploy.Host.{
  Host, DockerNetwork, NetworkInspection, NetworkAnswer, not_inspected, printed,
}

abbrev pub invalid_response : String → Failure
invalid_response name =
    unclassified ("inspect Docker network " +s+ quoted name +s+ ": invalid response")

abbrev pub is_internal_bridge : NetworkInspection → String → Bool
is_internal_bridge found name = found.name =s= name && (found.driver =s= "bridge" && found.internal)

abbrev pub has_subnet : NetworkInspection → String → Bool
has_subnet found subnet = subnet =s= "" || any (λ other. other =s= subnet) found.subnets

abbrev pub validate_network : NetworkInspection → String → String → Option Failure
validate_network found name subnet =
    if is_internal_bridge found name
    then if has_subnet found subnet
      then none
      else some
          (unclassified ("Docker network " +s+ quoted name +s+ " must use subnet " +s+ subnet))
    else some (unclassified ("Docker network " +s+ quoted name +s+ " must be an internal bridge"))

-- validateDockerNetwork
abbrev pub validate_docker_network :
    Option (List NetworkInspection) → String → String → Option Failure
validate_docker_network none name subnet = some (invalid_response name)
validate_docker_network (some []) name subnet = some (invalid_response name)
validate_docker_network (some (found ∷ [])) name subnet = validate_network found name subnet
validate_docker_network (some (found ∷ more ∷ others)) name subnet = some (invalid_response name)

abbrev pub validate_answer : DockerNetwork → NetworkAnswer → Option Failure
validate_answer network (not_inspected detail) = some (unclassified detail)
validate_answer network (printed networks) =
    validate_docker_network networks network.name network.subnet

-- The arguments of the command that creates the network.
abbrev pub create_arguments : DockerNetwork → List String
create_arguments network =
    "--driver"
    ∷ "bridge"
    ∷ "--internal"
    ∷ ((if is_blank network.subnet then [] else "--subnet" ∷ network.subnet ∷ [])
        ++ (network.name ∷ []))

module _ {E : Type 0} (h : Host E) (network : DockerNetwork) where
  -- inspect, in ensureDockerNetwork
  abbrev pub inspect : E → Option Failure
  inspect e = validate_answer network (h.inspect_network e network.name)

  -- Somebody else may have created the network by now.
  abbrev pub rechecked : E → Failure → Option Failure → E × Option Failure
  rechecked e f none = (e, inspect e)
  rechecked e f (some g) = (
    e,
    some (unclassified ("create Docker network " +s+ quoted network.name +s+ ": " +s+ detail_of f)),
  )

  abbrev pub after_create : E → Option Failure → E × Option Failure
  after_create e none = (e, inspect e)
  after_create e (some f) = rechecked e f (inspect e)

  abbrev pub create_network : E → E × Option Failure
  create_network e =
      let answer = h.docker ("network" ∷ "create" ∷ create_arguments network) e in
      after_create answer.0 answer.1

  abbrev pub unless_inspected : E → Option Failure → E × Option Failure
  unless_inspected e none = (e, none)
  unless_inspected e (some f) = create_network e

  -- ensureDockerNetwork
  unfoldable pub ensure_docker_network : E → E × Option Failure
  ensure_docker_network e =
      if is_blank network.name
      then (e, some (unclassified "Docker network is not configured"))
      else unless_inspected e (inspect e)
