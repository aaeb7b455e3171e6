-- ===== src/Deploy/Switch/Serving.antt =====
-- internal/deploy/executor.go: the proxy and the containers after a release that was started.
use mini_dock.Deploy.Network.Harmless.{ensure_docker_network-Kept}
use mini_dock.Deploy.Network.{ensure_docker_network}
use mini_dock.Prelude.{
  ℕ, ◌≡◌, refl, sym, ap, ◌∙◌, ◌≢◌, String, Bool, true, false, Option, none, some, List, [], ◌∷◌,
  inl, inr, arith, ◌=s=◌, =s=_refl, if◌then◌else◌, Bool-cases, eq_iff,
}
use mini_dock.Store.Tables.{Application}
use mini_dock.Deploy.Failures.{Failure, failure}
use mini_dock.Deploy.Host.{DockerNetwork, Host, IsDocker}
use mini_dock.Deploy.Containers.{
  candidate, next, primary, Target, reachable, unreachable, container_target, join_host_port,
  force_remove, wait_healthy,
}
use mini_dock.Deploy.Switch.{
  Colours, colours, discarded, launched, proven, released, docker_start, stage_release,
  switch_route, switch_to, applied, verified, validated, retire, promote,
}
use mini_dock.Deploy.Switch.Names.{candidate-ne-primary, next-ne-candidate}
use mini_dock.Deploy.Switch.Chains.{
  unless_failed-none, failure-none, or_discard-none, run_docker_container-runs,
}
use mini_dock.Deploy.Switch.Routed.{
  IsServing, IsRouted, texts_distinct, target_address, still-IsRouted,
}

module _ {E : Type 0} (h : Host E) (serves : E → ℕ → Option String) (laws : IsDocker h serves)
    (network : DockerNetwork) (app : Application) where
  -- A new container that was launched exists.
  launched-runs :
      (c : Colours) (image : String) (environment : List (String × String)) (e : E)
      → (launched h network app image environment c e).1 ≡ none
      → h.has_container (launched h network app image environment c e).0 c.staging ≡ true
  launched-runs c image environment e fine =
      let e' = discarded h network app c.staging e in
      run_docker_container-runs h network app (λ s. h.has_container s c.staging ≡ true)
        (λ call s there. (laws.files_keep call s c.staging).same_container ∙ there) image c.staging
        (λ s args. laws.run_runs s c.staging args) environment e' fine

  staged-runs :
      (c : Colours) (image : String) (environment : List (String × String)) (e : E)
      → (stage_release h network app image environment c e).1 ≡ none
      → h.has_container (stage_release h network app image environment c e).0 c.staging ≡ true
  unfolding stage_release
  staged-runs c image environment e fine =
      let started = launched h network app image environment c e in
      let (first, same) =
        unless_failed-none started.0 (failure "start" "candidate_start_failed" started.1)
          (proven h network app c) fine in
      let (healthy, unchanged) =
        or_discard-none h network app c.staging started.0
          (failure "health" "health_check_failed" (wait_healthy h started.0 c.staging))
          (rw same at fine) in
      rw (same, unchanged)
        (launched-runs c image environment e
          (failure-none "start" "candidate_start_failed" started.1 first))

  retired :
      (c : Colours) (e : E)
      → c.active ≢ c.staging
      → IsRouted h serves app c.staging e
      → (retire h network app c e).1 ≡ none
      → IsRouted h serves app c.staging (retire h network app c e).0
        × (h.has_container (retire h network app c e).0 c.active ≡ false)
  retired c e differ r fine = elim (Bool-cases (h.has_container e c.active)) [
    | inl there ↦
        let other : (c.active =s= c.staging) ≡ false = ground (arith, eq_iff c.active c.staging) in
        let removed =
          failure-none "route" "previous_cleanup_failed" (force_remove h c.active e).1
            (rw (there, other) at fine) in
        rw (there, other)
          (
            still-IsRouted h serves app c.staging e (force_remove h c.active e).0
                (laws.remove_keeps e c.active c.staging (λ same. differ (sym same)))
                (laws.docker_leaves_routes e _ app.id) r,
            laws.remove_removes e c.active removed,
          )
    | inr gone ↦ rw gone (r, gone)
  ]

  applied_routes :
      (c : Colours) (e : E) (target ip : String)
      → h.has_container e c.staging ≡ true
      → h.address e c.staging ≡ some ip
      → target ≡ join_host_port ip app.internal_port
      → (h.apply app target e).1 ≡ none
      → IsRouted h serves app c.staging (h.apply app target e).0
  applied_routes c e target ip there found is fine =
      let k = laws.apply_keeps e app target c.staging in
      record {
        exists_container = k.same_container ∙ there;
        ip = ip;
        at_address = k.same_address ∙ found;
        routed = laws.apply_routes e app target fine ∙ ap (λ t. some t) is;
      }

  -- Before the new container is renamed, the proxy serves it and the old one is gone.
  abbrev IsSwitched : Colours → E × Option Failure → Type 0
  IsSwitched c r =
      (e : E) × IsRouted h serves app c.staging e
      × (h.has_container e c.active ≡ false)
      × (r ≡ promote h network app c e)
      × ((promote h network app c e).1 ≡ none)

  validated_switches :
      (c : Colours) (e : E) (o : Option Failure)
      → c.active ≢ c.staging
      → IsRouted h serves app c.staging e
      → (validated h network app c e o).1 ≡ none
      → IsSwitched c (validated h network app c e o)
  validated_switches c e (some f) differ r fine = absurd cc
  validated_switches c e none differ r fine =
      let old = retire h network app c e in
      let (first, same) = unless_failed-none old.0 old.1 (promote h network app c) fine in
      let (routed, gone) = retired c e differ r first in
      (old.0, routed, gone, same, rw same at fine)

  switch_to_switches :
      (c : Colours) (e : E) (t : Target)
      → c.active ≢ c.staging
      → h.has_container e c.staging ≡ true
      → container_target h e c.staging app.internal_port ≡ t
      → (switch_to h network app c t e).1 ≡ none
      → IsSwitched c (switch_to h network app c t e)
  switch_to_switches c e (unreachable f) differ there found fine = absurd cc
  switch_to_switches c e (reachable target) differ there found fine =
      let tried = applied h network app c target e in
      let (first, same) = unless_failed-none tried.0 tried.1 (verified h network app c) fine in
      let (accepted, plain) =
        or_discard-none h network app c.staging (h.apply app target e).0
          (failure "route" "proxy_switch_failed" (h.apply app target e).1) first in
      let (ip, at_ip, is) = target_address h serves app e c.staging found in
      let routed =
        applied_routes c e target ip there at_ip is
          (failure-none "route" "proxy_switch_failed" (h.apply app target e).1 accepted) in
      rw (same, plain)
        (validated_switches c (h.apply app target e).0 (h.verify app (h.apply app target e).0)
          differ routed (rw (same, plain) at fine))

  -- The first switch of an application leaves its candidate serving.
  promoted_candidate :
      (e : E)
      → IsRouted h serves app (candidate app) e
      → h.has_container e (primary app) ≡ false
      → IsServing h serves app (primary app) e
  promoted_candidate e r gone = record {
    exists_candidate = r.exists_container;
    ip = r.ip;
    at_address = r.at_address;
    routed = r.routed;
    other_gone = gone;
  }

  -- A later one renames the new container.
  renamed_next :
      (e : E)
      → IsRouted h serves app (next app) e
      → (h.docker ("rename" ∷ next app ∷ candidate app ∷ []) e).1 ≡ none
      → IsServing h serves app (next app) (h.docker ("rename" ∷ next app ∷ candidate app ∷ []) e).0
  renamed_next e r fine =
      let (old, new, address) = laws.rename_moves e (next app) (candidate app) fine in
      record {
        exists_candidate = new ∙ r.exists_container;
        ip = r.ip;
        at_address = address ∙ r.at_address;
        routed = laws.docker_leaves_routes e _ app.id ∙ r.routed;
        other_gone = old;
      }

  -- The container that is gone after a switch.
  abbrev pub replaced : E → String
  replaced e = if h.has_container e (candidate app) then next app else primary app

  promoted :
      (start e : E) (b : Bool)
      → h.has_container start (candidate app) ≡ b
      → IsRouted h serves app (colours h network app start).staging e
      → h.has_container e (colours h network app start).active ≡ false
      → (promote h network app (colours h network app start) e).1 ≡ none
      → IsServing h serves app
          (replaced start)
          (promote h network app (colours h network app start) e).0
  promoted start e true there r gone fine =
      let other = texts_distinct (next app) (candidate app) (next-ne-candidate app) in
      rw (there, other)
        (renamed_next e (rw there at r)
          (failure-none "route" "candidate_promote_failed" _ (rw (there, other) at fine)))
  promoted start e false there r gone fine =
      rw (there, =s=_refl (candidate app)) (promoted_candidate e (rw there at r) (rw there at gone))

  pub colours-differ :
      (e : E) → (colours h network app e).active ≢ (colours h network app e).staging
  colours-differ e = elim (Bool-cases (h.has_container e (candidate app))) [
    | inl there ↦ rw there (λ same. next-ne-candidate app (sym same))
    | inr none_there ↦ rw none_there (λ same. candidate-ne-primary app (sym same))
  ]

  same_replaced : (e : E) → replaced (ensure_docker_network h network e).0 ≡ replaced e
  same_replaced e =
      ap (λ there. if there then next app else primary app)
        (ensure_docker_network-Kept h serves laws network e (candidate app)).same_container

  released_serves :
      (image : String) (environment : List (String × String)) (e : E)
      → (released h network app image environment (colours h network app e) e).1 ≡ none
      → IsServing h serves app
          (replaced e)
          (released h network app image environment (colours h network app e) e).0
  unfolding switch_route
  released_serves image environment e fine =
      let c = colours h network app e in
      let staged = stage_release h network app image environment c e in
      let (first, same) =
        unless_failed-none staged.0 staged.1 (switch_route h network app c) fine in
      let (e', routed, gone, renamed, ok_) =
        switch_to_switches c staged.0 (container_target h staged.0 c.staging app.internal_port)
          (colours-differ e) (staged-runs c image environment e first) refl (rw same at fine) in
      rw (same, renamed) (promoted e e' (h.has_container e (candidate app)) refl routed gone ok_)

  -- If DockerAdapter.Start succeeds, the proxy serves the application's candidate container at its
  -- address and the application's port, and the container that the switch replaced is gone: the
  -- staging name if a candidate was there before, and otherwise the primary. It holds for a host
  -- whose docker and proxy behave as documented.
  pub docker_start-IsServing :
      (image : String) (environment : List (String × String)) (e : E)
      → (docker_start h network app image environment e).1 ≡ none
      → IsServing h serves app (replaced e) (docker_start h network app image environment e).0
  unfolding docker_start
  docker_start-IsServing image environment e fine =
      let joined = ensure_docker_network h network e in
      let (first, same) =
        unless_failed-none joined.0 (failure "start" "network_unavailable" joined.1)
          (λ e'. released h network app image environment (colours h network app e') e') fine in
      rw (same, ← same_replaced e) (released_serves image environment joined.0 (rw same at fine))
