-- ===== src/Deploy/Network/Internal.antt =====
-- The network that ensureDockerNetwork accepts.
use mini_dock.Prelude.{
  ◌≡◌, refl, true, Option, none, some, [], ◌∷◌, inl, inr, arith, false, Bool-cases, eq_iff,
}
use mini_dock.Prelude.Characters.{is_blank}
use mini_dock.Deploy.Failures.{Failure}
use mini_dock.Deploy.Host.{
  Host, DockerNetwork, NetworkInspection, NetworkAnswer, not_inspected, printed,
}
use mini_dock.Deploy.Network.{
  ensure_docker_network, inspect, rechecked, after_create, create_arguments, unless_inspected,
  validate_answer, has_subnet,
}

-- Docker finds exactly one network, an internal bridge of the name, with the subnet if there is one.
pub record IsInternal {E : Type 0} (h : Host E) (network : DockerNetwork) (e : E) : Type 0 where
  pub found : NetworkInspection
  pub only : h.inspect_network e network.name ≡ printed (some (found ∷ []))
  pub named : found.name ≡ network.name
  pub bridge : found.driver ≡ "bridge"
  pub internal : found.internal ≡ true
  pub on_subnet : has_subnet found network.subnet ≡ true

module _ {E : Type 0} (h : Host E) (network : DockerNetwork) where
  answered-IsInternal :
      (e : E) (a : NetworkAnswer)
      → h.inspect_network e network.name ≡ a
      → validate_answer network a ≡ none
      → IsInternal h network e
  answered-IsInternal e (not_inspected detail) same fine = absurd cc
  answered-IsInternal e (printed none) same fine = absurd cc
  answered-IsInternal e (printed (some [])) same fine = absurd cc
  answered-IsInternal e (printed (some (x ∷ y ∷ more))) same fine = absurd cc
  answered-IsInternal e (printed (some (x ∷ []))) same fine = record {
    found = x;
    only = same;
    named = (eq_iff x.name network.name).0 (ground arith);
    bridge = (eq_iff x.driver "bridge").0 (ground arith);
    internal = ground arith;
    on_subnet = ground arith;
  }

  pub inspect-IsInternal : (e : E) → inspect h network e ≡ none → IsInternal h network e
  inspect-IsInternal e fine = answered-IsInternal e (h.inspect_network e network.name) refl fine

  rechecked_inspects :
      (e : E) (f : Failure) (o : Option Failure)
      → (rechecked h network e f o).1 ≡ none
      → inspect h network (rechecked h network e f o).0 ≡ none
  rechecked_inspects e f none fine = fine
  rechecked_inspects e f (some g) fine = absurd cc

  after_create_inspects :
      (e : E) (o : Option Failure)
      → (after_create h network e o).1 ≡ none
      → inspect h network (after_create h network e o).0 ≡ none
  after_create_inspects e none fine = fine
  after_create_inspects e (some f) fine = rechecked_inspects e f (inspect h network e) fine

  unless_inspected_inspects :
      (e : E) (o : Option Failure)
      → inspect h network e ≡ o
      → (unless_inspected h network e o).1 ≡ none
      → inspect h network (unless_inspected h network e o).0 ≡ none
  unless_inspected_inspects e none same fine = same
  unless_inspected_inspects e (some f) same fine =
      let answer = h.docker ("network" ∷ "create" ∷ create_arguments network) e in
      after_create_inspects answer.0 answer.1 fine

  blank_fails :
      (e : E) → is_blank network.name ≡ true → (ensure_docker_network h network e).1 ≡ none → ⊥
  unfolding ensure_docker_network
  blank_fails e blank fine = absurd (let wrong = rw blank at fine in cc)

  ensured_inspects :
      (e : E)
      → (ensure_docker_network h network e).1 ≡ none
      → (is_blank network.name ≡ false)
        × (inspect h network (ensure_docker_network h network e).0 ≡ none)
  unfolding ensure_docker_network
  ensured_inspects e fine = elim (Bool-cases (is_blank network.name)) [
    | inl blank ↦ absurd (blank_fails e blank fine)
    | inr named ↦ (
      named,
      rw named (unless_inspected_inspects e (inspect h network e) refl (rw named at fine)),
    )
  ]

  accepted_again :
      (e : E)
      → is_blank network.name ≡ false
      → inspect h network e ≡ none
      → ensure_docker_network h network e ≡ (e, none)
  unfolding ensure_docker_network
  accepted_again e named fine = rw (named, fine) refl

  -- If ensureDockerNetwork succeeds, then docker finds exactly one network of the name, an
  -- internal bridge, with the configured subnet if there is one, and a second call succeeds and
  -- changes nothing.
  pub ensure_docker_network-IsInternal :
      (e : E)
      → (ensure_docker_network h network e).1 ≡ none
      → let e' = (ensure_docker_network h network e).0 in
        IsInternal h network e' × (ensure_docker_network h network e' ≡ (e', none))
  ensure_docker_network-IsInternal e fine =
      let e' = (ensure_docker_network h network e).0 in
      let (named, inspected) = ensured_inspects e fine in
      (inspect-IsInternal e' inspected, accepted_again e' named inspected)
