-- ===== src/Deploy/Reconcile/Tests.antt =====
-- The loop of Reconcile on a host in memory.
use mini_dock.Prelude.{◌≡◌, refl, true, none, some, [], ◌∷◌, if◌then◌else◌, ◌=s=◌}
use mini_dock.Store.Samples.{shop, blog}
use mini_dock.Deploy.Memory.{Memory, upstream, memory_host-IsDocker, serving, good}
use mini_dock.Deploy.Containers.{wait_polls}
use mini_dock.Deploy.Switch.Names.{texts_differ}
use mini_dock.Prelude.Decimal.{decimal, digits}
use mini_dock.Deploy.Reconcile.{reconcile_application, reconcile}
use mini_dock.Deploy.Reconcile.Converged.{IsConverged, reconcile_application-IsConverged}

-- The shop's switch was interrupted: only the preserved container is left.
abbrev interrupted : Memory
interrupted = record serving {
  container = λ n. if n =s= "minidock-shop-previous" then some "10.0.0.1" else none;
}

restores_shop : (reconcile_application good shop interrupted).0.1 ≡ none
unfolding reconcile_application wait_polls decimal digits
restores_shop = refl

reconcile_application-IsConverged_example :
    IsConverged good upstream shop "minidock-blog" interrupted
      (reconcile_application good shop interrupted)
reconcile_application-IsConverged_example =
    reconcile_application-IsConverged good upstream (memory_host-IsDocker "healthy" none) shop
      interrupted "minidock-blog" (texts_differ _ _ refl) (texts_differ _ _ refl)
      (texts_differ _ _ refl) restores_shop

-- A first switch that was interrupted after the proxy had taken the new route: the candidate keeps
-- the route, and the old primary stays beside it.
abbrev both_left : Memory
both_left = record serving {
  container = λ n.
      if n =s= "minidock-shop"
      then some "10.0.0.1"
      else if n =s= "minidock-shop-candidate"
      then some "10.0.0.2"
      else none;
}

keeps_primary :
    (reconcile_application good shop both_left).0.0.container "minidock-shop" ≡ some "10.0.0.1"
unfolding reconcile_application decimal digits
keeps_primary = refl

reports_shop : (reconcile good (λ app. true) (blog ∷ shop ∷ []) interrupted).1 ≡ 7 ∷ []
unfolding reconcile reconcile_application wait_polls decimal digits
reports_shop = refl
