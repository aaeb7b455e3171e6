-- ===== src/Deploy/Switch/Undone.antt =====
-- internal/deploy/executor.go: the route after a release whose route does not work.
use mathlib.Core.Path.{subst}
use mini_dock.Deploy.Network.Harmless.{ensure_docker_network-Kept}
use mini_dock.Deploy.Network.{ensure_docker_network}
use mini_dock.Prelude.{
  ℕ, ◌≡◌, refl, sym, ◌∙◌, String, true, false, ◌||◌, Option, none, some, List, inl, inr, ◌=s=◌,
  Option-cases, ltb,
}
use mini_dock.Store.Tables.{Application}
use mini_dock.Deploy.Failures.{Failure}
use mini_dock.Deploy.Host.{DockerNetwork, Host, Kept, IsDocker}
use mini_dock.Deploy.Containers.{Target, container_target, join_host_port}
use mini_dock.Deploy.Switch.{Colours, colours, docker_start, stage_release, switch_route, switch_to}
use mini_dock.Deploy.Switch.Names.{texts_differ}
use mini_dock.Deploy.Switch.Failing.{stage_release-keeps}
use mini_dock.Deploy.Switch.Untouched.{removed-Kept, file-Kept, run-Kept, same_colours}
use mini_dock.Deploy.Switch.Serving.{colours-differ}
use mini_dock.Deploy.Switch.Chains.{Kept-trans}
use mini_dock.Deploy.Switch.Restored.{
  code_of, failure-code, staged-code, switch_to-Outcome, not_asked, not_applied, undone,
  not_retired, restored_serves, retiring-code,
}

not_validation :
    (f : Failure) (code : String)
    → code_of f ≡ code
    → (code =s= "proxy_validation_failed") ≡ false
    → code_of f ≡ "proxy_validation_failed"
    → ⊥
not_validation f code is other same =
    texts_differ code "proxy_validation_failed" other (sym is ∙ same)

module _ {E : Type 0} (h : Host E) (serves : E → ℕ → Option String) (laws : IsDocker h serves)
    (network : DockerNetwork) (app : Application)
    (accepts : (e : E) (target : String) → (h.apply app target e).1 ≡ none)
    (port : (ltb app.internal_port 1 || ltb 65535 app.internal_port) ≡ false) where
  undone_serves :
      (c : Colours) (start e : E) (ip : String) (t : Target) (f : Failure)
      → Kept h c.active start e
      → h.has_container start c.active ≡ true
      → h.address start c.active ≡ some ip
      → (switch_to h network app c t e).1 ≡ some f
      → code_of f ≡ "proxy_validation_failed"
      → serves (switch_to h network app c t e).0 app.id ≡ some (join_host_port ip app.internal_port)
  undone_serves c start e ip t f k there found failed is =
      elim (switch_to-Outcome h network app c e t f failed) [
        | not_asked same code ↦ absurd (not_validation f _ code refl is)
        | not_applied code ↦ absurd (not_validation f _ code refl is)
        | not_retired late ↦ elim (retiring-code f late) [
          | inl code ↦ absurd (not_validation f _ code refl is)
          | inr code ↦ absurd (not_validation f _ code refl is)
        ]
        | undone target code same ↦
            let asked = (h.apply app target e).0 in
            let k' =
              Kept-trans h c.active start e asked k (laws.apply_keeps e app target c.active) in
            rw same (
              laws.docker_leaves_routes _ _ app.id
              ∙ restored_serves h serves laws network app c.active ip asked accepts
                  (k'.same_container ∙ there) (k'.same_address ∙ found) port)
      ]

  early_staged :
      (c : Colours) (image : String) (environment : List (String × String)) (e : E) (f : Failure)
      {g : Failure}
      → (stage_release h network app image environment c e).1 ≡ some g
      → some g ≡ some f
      → code_of f ≡ "proxy_validation_failed"
      → ⊥
  early_staged c image environment e f staged same is =
      elim (staged-code h network app c image environment e (staged ∙ same)) [
        | inl code ↦ not_validation f _ code refl is
        | inr code ↦ not_validation f _ code refl is
      ]

  -- If DockerAdapter.Start fails because the new route does not work, and the serving container
  -- existed at an address, then the proxy serves it at that address again. The application's port
  -- is a valid one, the host behaves as documented, and the proxy takes every route that it is
  -- given.
  pub docker_start-restores :
      (image : String) (environment : List (String × String)) (e : E) (f : Failure) (ip : String)
      → h.has_container e (colours h network app e).active ≡ true
      → h.address e (colours h network app e).active ≡ some ip
      → (docker_start h network app image environment e).1 ≡ some f
      → code_of f ≡ "proxy_validation_failed"
      → serves (docker_start h network app image environment e).0 app.id
        ≡ some (join_host_port ip app.internal_port)
  unfolding docker_start switch_route
  docker_start-restores image environment e f ip there found failed is =
      let joined = ensure_docker_network h network e in
      let c = colours h network app joined.0 in
      let same = same_colours h serves laws network app e in
      let other = colours-differ h serves laws network app joined.0 in
      let staged = stage_release h network app image environment c joined.0 in
      let k : Kept h c.active e staged.0 =
        stage_release-keeps h network app (Kept h c.active e)
          (file-Kept h serves laws network app c.active e c other) c
          (removed-Kept h serves laws network app c.active e c other)
          (run-Kept h serves laws network app c.active e c other) image environment joined.0
          (ensure_docker_network-Kept h serves laws network e c.active) in
      elim (Option-cases joined.1) [
        | inr (g, refused) ↦ absurd (
            not_validation f "network_unavailable"
              (failure-code "start" "network_unavailable" (some g) (rw refused at failed)) refl is)
        | inl fine ↦ elim (Option-cases staged.1) [
          | inr (g, refused) ↦ absurd (
              early_staged c image environment joined.0 f refused (rw (fine, refused) at failed) is)
          | inl ready ↦
              rw (fine, ready)
                (undone_serves c e staged.0 ip
                  (container_target h staged.0 c.staging app.internal_port) f k
                  (subst (λ d. h.has_container e d.active ≡ true) (sym same) there)
                  (subst (λ d. h.address e d.active ≡ some ip) (sym same) found)
                  (rw (fine, ready) at failed) is)
        ]
      ]
