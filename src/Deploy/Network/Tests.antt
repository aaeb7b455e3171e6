-- ===== src/Deploy/Network/Tests.antt =====
-- The network of the releases on a host in memory.
use mini_dock.Prelude.{◌≡◌, refl, false, none, some, [], ◌∷◌}
use mini_dock.Prelude.Characters.{is_blank}
use mini_dock.Deploy.Failures.{unclassified}
use mini_dock.Deploy.Host.{NetworkInspection}
use mini_dock.Deploy.Network.{ensure_docker_network, validate_docker_network}
use mini_dock.Deploy.Network.Internal.{IsInternal, ensure_docker_network-IsInternal}
use mini_dock.Deploy.Memory.{Memory, good, serving, apps_network}

-- A network that is no internal bridge is refused.
abbrev external : NetworkInspection
external = record { name = "apps"; driver = "bridge"; internal = false; subnets = [] }

refuses_external :
    validate_docker_network (some (external ∷ [])) "apps" ""
    ≡ some (unclassified "Docker network \"apps\" must be an internal bridge")
refuses_external = refl

refuses_unnamed :
    ensure_docker_network good (record { name = " "; subnet = "" }) serving
    ≡ (serving, some (unclassified "Docker network is not configured"))
unfolding ensure_docker_network is_blank
refuses_unnamed = refl

ensured : (ensure_docker_network good apps_network serving).1 ≡ none
unfolding ensure_docker_network is_blank
ensured = refl

abbrev after_ensured : Memory
after_ensured = (ensure_docker_network good apps_network serving).0

ensure_docker_network-IsInternal_example :
    IsInternal good apps_network after_ensured
    × (ensure_docker_network good apps_network after_ensured ≡ (after_ensured, none))
ensure_docker_network-IsInternal_example =
    ensure_docker_network-IsInternal good apps_network serving ensured
