-- ===== src/Deploy/Network/Harmless.antt =====
-- What making the network leaves as it was: the containers and the routes.
use mini_dock.Prelude.{ℕ, ◌≡◌, refl, String, Option, none, some, ◌∷◌, inl, inr, Bool-cases}
use mini_dock.Prelude.Characters.{is_blank}
use mini_dock.Deploy.Failures.{Failure}
use mini_dock.Deploy.Host.{Host, Kept, IsDocker, DockerNetwork}
use mini_dock.Deploy.Network.{
  ensure_docker_network, inspect, rechecked, after_create, create_arguments, unless_inspected,
}

module _ {E : Type 0} (h : Host E) (network : DockerNetwork) where
  rechecked_same : (e : E) (f : Failure) (o : Option Failure) → (rechecked h network e f o).0 ≡ e
  rechecked_same e f none = refl
  rechecked_same e f (some g) = refl

  after_create_same : (e : E) (o : Option Failure) → (after_create h network e o).0 ≡ e
  after_create_same e none = refl
  after_create_same e (some f) = rechecked_same e f (inspect h network e)

  module _ {ℓ} (P : E → Type ℓ) (e : E) (here : P e)
      (created : P (h.docker ("network" ∷ "create" ∷ create_arguments network) e).0) where
    unless_inspected-keeps : (o : Option Failure) → P (unless_inspected h network e o).0
    unless_inspected-keeps none = here
    unless_inspected-keeps (some f) =
        let answer = h.docker ("network" ∷ "create" ∷ create_arguments network) e in
        rw (after_create_same answer.0 answer.1) created

    -- What holds before, and after `docker network create`, holds afterwards.
    pub ensure_docker_network-keeps : P (ensure_docker_network h network e).0
    unfolding ensure_docker_network
    ensure_docker_network-keeps = elim (Bool-cases (is_blank network.name)) [
      | inl blank ↦ rw blank here
      | inr named ↦ rw named (unless_inspected-keeps (inspect h network e))
    ]

module _ {E : Type 0} (h : Host E) (serves : E → ℕ → Option String) (laws : IsDocker h serves)
    (network : DockerNetwork) (e : E) where
  pub ensure_docker_network-Kept :
      (name : String) → Kept h name e (ensure_docker_network h network e).0
  ensure_docker_network-Kept name =
      ensure_docker_network-keeps h network (Kept h name e) e
        (record { same_container = refl; same_address = refl }) (laws.network_keeps e _ name)

  pub ensure_docker_network-serves :
      (id : ℕ) → serves (ensure_docker_network h network e).0 id ≡ serves e id
  ensure_docker_network-serves id =
      ensure_docker_network-keeps h network (λ e'. serves e' id ≡ serves e id) e refl
        (laws.docker_leaves_routes e _ id)
