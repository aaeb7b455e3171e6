-- ===== src/Deploy/Switch/Tests.antt =====
-- The switch on a host in memory.
use mini_dock.Prelude.{◌≡◌, refl, Option, none, some, []}
use mini_dock.Prelude.Characters.{is_blank}
use mini_dock.Store.Tables.{Application}
use mini_dock.Store.Samples.{shop}
use mini_dock.Deploy.Failures.{Failure, classified, unclassified}
use mini_dock.Deploy.Host.{Host}
use mini_dock.Deploy.Containers.{wait_polls, candidate, primary, join_host_port}
use mini_dock.Deploy.Switch.{docker_start, stage_release, switch_route}
use mini_dock.Deploy.Arguments.{run_docker_container, validate_docker_container_security_args}
use mini_dock.Runtime.Templates.{template_for}
use mini_dock.Prelude.Decimal.{decimal, digits}
use mini_dock.Deploy.Memory.{
  apps_network, Memory, memory_host, upstream, memory_host-IsDocker, serving, good, sick,
}
use mini_dock.Deploy.Switch.Serving.{docker_start-IsServing}
use mini_dock.Deploy.Switch.Routed.{IsServing}
use mini_dock.Deploy.Switch.Undone.{docker_start-restores}

abbrev unreachable_route : Host Memory
unreachable_route = memory_host "healthy" (some (unclassified "status 502"))

abbrev unhealthy : Failure
unhealthy = classified "health" "health_check_failed" "health check failed: unhealthy"

abbrev invalid_route : Failure
invalid_route = classified "route" "proxy_validation_failed" "status 502"

abbrev started : Host Memory → Application → Memory × Option Failure
started h app = docker_start h apps_network app "shop:3" [] serving

starts : (started good shop).1 ≡ none
unfolding docker_start stage_release switch_route wait_polls run_docker_container
    validate_docker_container_security_args template_for decimal digits is_blank
starts = refl

docker_start-IsServing_example : IsServing good upstream shop (primary shop) (started good shop).0
docker_start-IsServing_example =
    docker_start-IsServing good upstream (memory_host-IsDocker "healthy" none) apps_network shop
      "shop:3" [] serving starts

-- After a switch, the name that the panel's controls, logs and status use is no container's.
no_primary_left : (started good shop).0.container (primary shop) ≡ none
unfolding docker_start stage_release switch_route wait_polls run_docker_container
    validate_docker_container_security_args template_for decimal digits is_blank
no_primary_left = refl

fails_sick : (started sick shop).1 ≡ some unhealthy
unfolding docker_start stage_release switch_route wait_polls run_docker_container
    validate_docker_container_security_args template_for decimal digits is_blank
fails_sick = refl

fails_unreachable : (started unreachable_route shop).1 ≡ some invalid_route
unfolding docker_start stage_release switch_route wait_polls run_docker_container
    validate_docker_container_security_args template_for decimal digits is_blank
fails_unreachable = refl

docker_start-restores_example :
    upstream (started unreachable_route shop).0 7 ≡ some (join_host_port "10.0.0.1" 3000)
docker_start-restores_example =
    docker_start-restores unreachable_route upstream
      (memory_host-IsDocker "healthy" (some (unclassified "status 502"))) apps_network shop
      (λ e target. refl) refl "shop:3" [] serving invalid_route "10.0.0.1" refl refl
      fails_unreachable refl

-- An application that is named like the candidate of another takes that candidate for its own
-- primary container: a release of shop-candidate removes the container that serves the shop.
abbrev shop_candidate : Application
shop_candidate = record shop { id = 9; name = "shop-candidate" }

abbrev after_shop : Memory
after_shop = (started good shop).0

removes_the_shop :
    ((docker_start good apps_network shop_candidate "other:1" [] after_shop).1 ≡ none)
    × (after_shop.container (candidate shop) ≡ some "10.0.0.9")
    × ((docker_start good apps_network shop_candidate "other:1" [] after_shop).0.container
          (candidate shop)
        ≡ none)
unfolding docker_start stage_release switch_route wait_polls run_docker_container
    validate_docker_container_security_args template_for decimal digits is_blank
removes_the_shop = (refl, refl, refl)
