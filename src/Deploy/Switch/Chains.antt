-- ===== src/Deploy/Switch/Chains.antt =====
-- Chains of commands that may fail, and containers that a chain leaves alone.
use mini_dock.Prelude.{
  ◌=s=◌, Bool-cases, ◌≡◌, refl, ◌∙◌, String, Option, none, some, List, ◌∷◌, ◌⊎◌, inl, inr,
}
use mini_dock.Deploy.Failures.{Failure, failure}
use mini_dock.Deploy.EnvFile.Removed.{runtime_env_file-keeps}
use mini_dock.Deploy.Host.{FileCall, remove_env_file, DockerNetwork, Host, Kept}
use mini_dock.Store.Tables.{Application}
use mini_dock.Deploy.EnvFile.{runtime_env_file}
use mini_dock.Deploy.Arguments.{
  run_options, validate_docker_container_security_args, run_options,
  validate_docker_container_security_args, without_env_file, run_validated, run_with_file,
  run_docker_container,
}
use mini_dock.Deploy.Switch.{unless_failed, discarded, or_discard}

pub failure-none :
    (stage code : String) (o : Option Failure) → failure stage code o ≡ none → o ≡ none
failure-none stage code none h = refl
failure-none stage code (some f) h = absurd cc

module _ {E : Type 0} where
  -- A chain that succeeds has succeeded so far, and ends as its last command does.
  pub unless_failed-none :
      (e : E) (o : Option Failure) (go : E → E × Option Failure)
      → (unless_failed e o go).1 ≡ none
      → (o ≡ none) × (unless_failed e o go ≡ go e)
  unless_failed-none e none go h = (refl, refl)
  unless_failed-none e (some f) go h = absurd cc

  -- A chain fails where one of its commands does.
  pub unless_failed-some :
      (e : E) (o : Option Failure) (go : E → E × Option Failure) {f : Failure}
      → (unless_failed e o go).1 ≡ some f
      → (o ≡ some f) ⊎ ((go e).1 ≡ some f)
  unless_failed-some e none go h = inr h
  unless_failed-some e (some g) go h = inl h

  -- What every command keeps, the chain keeps.
  pub unless_failed-keeps {ℓ} :
      (P : E → Type ℓ) (e : E) (o : Option Failure) (go : E → E × Option Failure)
      → P e
      → P (go e).0
      → P (unless_failed e o go).0
  unless_failed-keeps P e none go h k = k
  unless_failed-keeps P e (some f) go h k = h

module _ {E : Type 0} (h : Host E) (name : String) where
  pub Kept-refl : (e : E) → Kept h name e e
  Kept-refl e = record { same_container = refl; same_address = refl }

  pub Kept-trans : (a b c : E) → Kept h name a b → Kept h name b c → Kept h name a c
  Kept-trans a b c k l = record {
    same_container = l.same_container ∙ k.same_container;
    same_address = l.same_address ∙ k.same_address;
  }

module _ {E : Type 0} (h : Host E) (network : DockerNetwork) (app : Application) where
  pub or_discard-keeps {ℓ} :
      (P : E → Type ℓ) (staging : String) (e : E) (o : Option Failure)
      → P e
      → P (discarded h network app staging e)
      → P (or_discard h network app staging (e, o)).0
  or_discard-keeps P staging e none k d = k
  or_discard-keeps P staging e (some f) k d = d

  pub or_discard-none :
      (staging : String) (e : E) (o : Option Failure)
      → (or_discard h network app staging (e, o)).1 ≡ none
      → (o ≡ none) × (or_discard h network app staging (e, o) ≡ (e, none))
  or_discard-none staging e none k = (refl, refl)
  or_discard-none staging e (some f) k = absurd cc

  module _ {ℓ} (P : E → Type ℓ) (on_file : (call : FileCall) (e : E) → P e → P (h.on_file call e).0)
      (image container : String) where
    without_env_file-keeps :
        (path : String) (x : E × Option Failure) → P x.0 → P (without_env_file h network path x).0
    without_env_file-keeps path x p = elim (Bool-cases (path =s= "")) [
      | inl none_ ↦ rw none_ p
      | inr named ↦ rw named (on_file (remove_env_file path) x.0 p)
    ]

    abbrev options : String → List String
    options path = run_options network.name app path image

    abbrev checked : String → Option Failure
    checked path =
        validate_docker_container_security_args
          ("run" ∷ "--detach" ∷ "--name" ∷ container ∷ options path)

    abbrev ran_with : String → E → E × Option Failure
    ran_with path e =
        run_validated h network ("run" ∷ "--detach" ∷ "--name" ∷ container ∷ options path) e
          (checked path)

    -- What the calls on files and `docker run` keep, runDockerContainer keeps.
    module _
        (on_run : (e : E) (args : List String)
          → P e
          → P (h.docker ("run" ∷ "--detach" ∷ "--name" ∷ container ∷ args) e).0) where
      validated-keeps :
          (args : List String) (e : E) (o : Option Failure)
          → P e
          → P (run_validated h network ("run" ∷ "--detach" ∷ "--name" ∷ container ∷ args) e o).0
      validated-keeps args e (some f) p = p
      validated-keeps args e none p = on_run e args p

      with_file-keeps :
          (r : E × (String × Option Failure))
          → P r.0
          → P (run_with_file h network app image container r).0
      with_file-keeps (e, (path, some f)) p = p
      with_file-keeps (e, (path, none)) p =
          without_env_file-keeps path (ran_with path e)
            (validated-keeps (options path) e (checked path) p)

      pub run_docker_container-keeps :
          (environment : List (String × String)) (e : E)
          → P e
          → P (run_docker_container h network app image environment container e).0
      unfolding run_docker_container
      run_docker_container-keeps environment e p =
          with_file-keeps (runtime_env_file h environment e)
            (runtime_env_file-keeps h P on_file environment e p)

    -- What a `docker run` that succeeds brings about, runDockerContainer does.
    module _
        (ran : (e : E) (args : List String)
          → (h.docker ("run" ∷ "--detach" ∷ "--name" ∷ container ∷ args) e).1 ≡ none
          → P (h.docker ("run" ∷ "--detach" ∷ "--name" ∷ container ∷ args) e).0) where
      validated-runs :
          (args : List String) (e : E) (o : Option Failure)
          → (run_validated h network ("run" ∷ "--detach" ∷ "--name" ∷ container ∷ args) e o).1
            ≡ none
          → P (run_validated h network ("run" ∷ "--detach" ∷ "--name" ∷ container ∷ args) e o).0
      validated-runs args e (some f) fine = absurd cc
      validated-runs args e none fine = ran e args fine

      with_file-runs :
          (r : E × (String × Option Failure))
          → (run_with_file h network app image container r).1 ≡ none
          → P (run_with_file h network app image container r).0
      with_file-runs (e, (path, some f)) fine = absurd cc
      with_file-runs (e, (path, none)) fine =
          without_env_file-keeps path (ran_with path e)
            (validated-runs (options path) e (checked path) fine)

      pub run_docker_container-runs :
          (environment : List (String × String)) (e : E)
          → (run_docker_container h network app image environment container e).1 ≡ none
          → P (run_docker_container h network app image environment container e).0
      unfolding run_docker_container
      run_docker_container-runs environment e fine =
          with_file-runs (runtime_env_file h environment e) fine
