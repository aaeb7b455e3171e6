-- ===== src/Deploy/Switch/Untouched.antt =====
-- internal/deploy/executor.go: the containers and the routes after a release that could not be
-- started.
use mathlib.Core.Path.{subst}
use mini_dock.Deploy.Network.Harmless.{ensure_docker_network-Kept}
use mini_dock.Deploy.Network.{ensure_docker_network}
use mini_dock.Prelude.{
  ℕ, ◌≡◌, sym, ap, ◌≢◌, String, false, Option, some, List, ◌∷◌, inl, inr, if◌then◌else◌,
  Option-cases,
}
use mini_dock.Store.Tables.{Application}
use mini_dock.Deploy.Failures.{Failure}
use mini_dock.Deploy.Host.{FileCall, DockerNetwork, Host, Kept, IsDocker}
use mini_dock.Deploy.Containers.{candidate, next, primary}
use mini_dock.Deploy.Switch.{Colours, colours, discarded, released, docker_start, stage_release}
use mini_dock.Deploy.Switch.Chains.{Kept-trans}
use mini_dock.Deploy.Switch.Failing.{is_retiring, stage_release-keeps, switch_route-keeps}

module _ {E : Type 0} (h : Host E) (serves : E → ℕ → Option String) (laws : IsDocker h serves)
    (network : DockerNetwork) (app : Application) where
  pub same_colours :
      (e : E)
      → colours h network app (ensure_docker_network h network e).0 ≡ colours h network app e
  same_colours e =
      ap
        (λ there.
          if there
          then record { active = candidate app; staging = next app }
          else record { active = primary app; staging = candidate app })
        (ensure_docker_network-Kept h serves laws network e (candidate app)).same_container

  module _ (name : String) (start : E) (c : Colours) (other : name ≢ c.staging) where
    pub removed-Kept :
        (e : E) → Kept h name start e → Kept h name start (discarded h network app c.staging e)
    removed-Kept e k = Kept-trans h name start e _ k (laws.remove_keeps e c.staging name other)

    pub run-Kept :
        (e : E) (args : List String)
        → Kept h name start e
        → Kept h name start (h.docker ("run" ∷ "--detach" ∷ "--name" ∷ c.staging ∷ args) e).0
    run-Kept e args k = Kept-trans h name start e _ k (laws.run_keeps e c.staging name args other)

    pub file-Kept :
        (call : FileCall) (e : E) → Kept h name start e → Kept h name start (h.on_file call e).0
    file-Kept call e k = Kept-trans h name start e _ k (laws.files_keep call e name)

    applied-Kept :
        (e : E) (target : String) → Kept h name start e → Kept h name start (h.apply app target e).0
    applied-Kept e target k = Kept-trans h name start e _ k (laws.apply_keeps e app target name)

    released-Kept :
        (image : String) (environment : List (String × String)) (e : E) (f : Failure)
        → Kept h name start e
        → (released h network app image environment c e).1 ≡ some f
        → is_retiring f ≡ false
        → Kept h name start (released h network app image environment c e).0
    released-Kept image environment e f k failed early =
        let staged = stage_release h network app image environment c e in
        let k' =
          stage_release-keeps h network app (Kept h name start) file-Kept c removed-Kept run-Kept
            image environment e k in
        elim (Option-cases staged.1) [
          | inl fine ↦ rw fine (
              switch_route-keeps h network app (Kept h name start) file-Kept c removed-Kept run-Kept
                applied-Kept staged.0 f k' (rw fine at failed) early)
          | inr (g, refused) ↦ rw refused k'
        ]

  -- If DockerAdapter.Start fails before it retires the old container, then every container but the
  -- new one is as it was: it exists if it did, at the same address. This includes the serving
  -- container of the application and those of all other applications. It holds for a host whose
  -- docker and proxy behave as documented.
  pub docker_start-Kept :
      (image : String) (environment : List (String × String)) (e : E) (f : Failure) (name : String)
      → (docker_start h network app image environment e).1 ≡ some f
      → is_retiring f ≡ false
      → name ≢ (colours h network app e).staging
      → Kept h name e (docker_start h network app image environment e).0
  unfolding docker_start
  docker_start-Kept image environment e f name failed early other =
      let joined = ensure_docker_network h network e in
      let c = colours h network app joined.0 in
      let k = ensure_docker_network-Kept h serves laws network e name in
      elim (Option-cases joined.1) [
        | inl fine ↦ rw fine (
            released-Kept name e c (subst (λ d. name ≢ d.staging) (sym (same_colours e)) other)
              image environment joined.0 f k (rw fine at failed) early)
        | inr (g, refused) ↦ rw refused k
      ]
