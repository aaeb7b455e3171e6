-- ===== src/Deploy/Release/Through.antt =====
-- What holds of the end of a Deploy or a Rollback, whichever way it ends: what every failure on
-- the way and every start of an image brings about, and what the removal of a file keeps.
use mathlib.Core.Path.{subst}
use mini_dock.Prelude.{
  ℕ, ◌≡◌, refl, ap, sym, String, Bool, true, false, not, ◌&&◌, Option, none, some, [], inl, inr,
  ◌⊎◌, ltb, ◌=s=◌, if◌then◌else◌,
}
use mini_dock.Store.Tables.{Application}
use mini_dock.Deploy.Failures.{Failure}
use mini_dock.Deploy.Contract.{Values, DeploymentConfiguration, ReleaseResult}
use mini_dock.Deploy.Host.{DockerNetwork, Host, Kept}
use mini_dock.Deploy.Containers.{candidate, next, primary}
use mini_dock.Deploy.Switch.{colours}
use mini_dock.Deploy.Switch.Chains.{Kept-trans}
use mini_dock.Deploy.Adapters.{Adapter, docker_adapter, adapters}
use mini_dock.Deploy.Building.{is_safe_name, build_arguments}
use mini_dock.Deploy.Source.{is_present, Workshop, prepared_source}
use mini_dock.Deploy.Failures.{Got, got, missed}
use mini_dock.Deploy.Release.Files.{LeavesContainers, source_kept, described_kept}
use mini_dock.Deploy.Release.Chosen.{chosen-docker}
use mini_dock.Deploy.Release.{
  Ended, no_result, started, without_file, generated_dockerfile, after_build, built,
  with_dockerfile, described_and_built, after_ignore, packaged, measured, fingerprinted,
  with_source, with_adapter, deploy, rollback, rolled_back_with, image_tag, ignore_contents,
}

module _ {E : Type 0} (w : Workshop E) (h : Host E) (leaves : LeavesContainers w h)
    (network : DockerNetwork) (app : Application) (start : E) where
  abbrev pub AllKept : E → Type 0
  AllKept e = (name : String) → Kept h name start e

  moved : (e e' : E) → AllKept e → ((name : String) → Kept h name e e') → AllKept e'
  moved e e' k step name = Kept-trans h name start e e' (k name) (step name)

  pub start_kept : AllKept start
  start_kept name = record { same_container = refl; same_address = refl }

  pub same_colours : (e : E) → AllKept e → colours h network app e ≡ colours h network app start
  same_colours e k =
      ap
        (λ there.
          if there
          then record { active = candidate app; staging = next app }
          else record { active = primary app; staging = candidate app })
        (k (candidate app)).same_container

module _ {E : Type 0} (w : Workshop E) (h : Host E) (leaves : LeavesContainers w h)
    (network : DockerNetwork) (app : Application) (start : E) (P : Ended E → Type 0)
    (on_fail : (e : E) (r : ReleaseResult) (f : Failure)
      → AllKept w h leaves network app start e
      → P (e, (r, some f)))
    (on_start : (image : String) (environment : Values) (r : ReleaseResult) (e : E)
      → AllKept w h leaves network app start e
      → P (started w app (docker_adapter h network) image environment r e))
    (on_remove : (path : String) (x : Ended E) → P x → P (without_file w app path x)) where
  abbrev Same : E → Type 0
  Same e = AllKept w h leaves network app start e

  either : (t : Bool) (x y : Ended E) → P x → P y → P (if t then x else y)
  either true x y a b = a
  either false x y a b = b

  built_holds :
      (c : DeploymentConfiguration) (r : ReleaseResult) (work path : String) (e : E)
      → Same e
      → P (built w app (docker_adapter h network) c r work path e)
  built_holds c r work path e k =
      by_result (image_tag w app e) (record r { image = image_tag w app e })
        (w.build "docker" c.build_secrets (build_arguments (image_tag w app e) path c work) e)
        (moved w h leaves network app start e _ k (leaves.build_keeps "docker" c.build_secrets _ e))
    where
      by_result :
          (image : String) (r' : ReleaseResult) (x : E × Option Failure)
          → Same x.0
          → P (after_build w app (docker_adapter h network) c image r' x)
      by_result image r' (e', none) k' = on_start image c.runtime r' e' k'
      by_result image r' (e', some f) k' = on_fail _ _ _ k'

  described_and_built_holds :
      (c : DeploymentConfiguration) (r : ReleaseResult) (work : String) (e : E)
      → Same e
      → P (described_and_built w app (docker_adapter h network) c r work e)
  described_and_built_holds c r work e k =
      by_dockerfile (generated_dockerfile w app work e)
        (described_kept w h leaves app start work e k)
    where
      by_dockerfile :
          (x : E × Got String)
          → Same x.0
          → P (with_dockerfile w app (docker_adapter h network) c r work x)
      by_dockerfile (e', missed f) k' = on_fail _ _ _ k'
      by_dockerfile (e', got path) k' =
          let s = built_holds c r work path e' k' in either (path =s= "") _ _ s (on_remove path _ s)

  packaged_holds :
      (c : DeploymentConfiguration) (r : ReleaseResult) (work : String) (e : E)
      → Same e
      → P (packaged w app (docker_adapter h network) c r work e)
  unfolding packaged
  packaged_holds c r work e k =
      let path = w.join work ".dockerignore" in
      either (is_present (w.stat e path)) _ _ (described_and_built_holds c r work e k) (
        by_write (w.write_file path ignore_contents e)
          (moved w h leaves network app start e _ k (leaves.write_keeps path ignore_contents e)))
    where
      by_write :
          (x : E × Option Failure)
          → Same x.0
          → P (
              after_ignore w app
                (docker_adapter h network)
                c
                r
                work
                (w.join work ".dockerignore")
                x)
      by_write (e', some f) k' = described_and_built_holds c r work e' k'
      by_write (e', none) k' = on_remove _ _ (described_and_built_holds c r work e' k')

  measured_holds :
      (c : DeploymentConfiguration) (r : ReleaseResult) (work : String) (e : E) (size : Got ℕ)
      → Same e
      → P (measured w app (docker_adapter h network) c r work e size)
  measured_holds c r work e (missed f) k = on_fail _ _ _ k
  measured_holds c r work e (got size) k =
      either (ltb 0 w.workspace_max_bytes && ltb w.workspace_max_bytes size) _ _ (on_fail _ _ _ k)
        (packaged_holds c r work e k)

  fingerprinted_holds :
      (c : DeploymentConfiguration) (r : ReleaseResult) (work : String) (e : E)
      (fingerprint : Got String)
      → Same e
      → P (fingerprinted w app (docker_adapter h network) c r work e fingerprint)
  fingerprinted_holds c r work e (missed f) k = on_fail _ _ _ k
  fingerprinted_holds c r work e (got fingerprint) k =
      measured_holds c _ work e (w.directory_size e work) k

  with_source_holds :
      (c : DeploymentConfiguration) (r : ReleaseResult) (x : E × Got (String × String))
      → Same x.0
      → P (with_source w app (docker_adapter h network) c r x)
  with_source_holds c r (e, missed f) k = on_fail _ _ _ k
  with_source_holds c r (e, got (repository, work)) k =
      fingerprinted_holds c _ work e (w.directory_fingerprint e work) k

  with_docker_holds :
      (c : DeploymentConfiguration) (e : E)
      → Same e
      → P (with_adapter w app c e (got (docker_adapter h network)))
  with_docker_holds c e k = either (not (is_safe_name app.name)) _ _ (on_fail _ _ _ k) (
      either (c.reuse_image =s= "") _ _
        (with_source_holds c (record no_result { runtime = "docker" }) (prepared_source w app e)
          (source_kept w h leaves app start e k))
        (on_start c.reuse_image c.runtime
          (record no_result {
            runtime = "docker";
            image = c.reuse_image;
            source_revision = c.reuse_source_revision;
            source_fingerprint = c.reuse_source_fingerprint;
          })
          e k))

  pub deploy-holds :
      (apple : Adapter E) (c : DeploymentConfiguration)
      → P (deploy w app (adapters [] (docker_adapter h network) apple) c start)
  unfolding deploy
  deploy-holds apple c = by_adapter _ (chosen-docker w h network app apple)
    where
      by_adapter :
          (a : Got (Adapter E))
          → (a ≡ got (docker_adapter h network)) ⊎ ((f : Failure) × (a ≡ missed f))
          → P (with_adapter w app c start a)
      by_adapter a (inl docker) =
          subst (λ (b : Got (Adapter E)). P (with_adapter w app c start b)) (sym docker)
            (with_docker_holds c start (start_kept w h leaves network app start))
      by_adapter a (inr (f, none_)) =
          subst (λ (b : Got (Adapter E)). P (with_adapter w app c start b)) (sym none_)
            (on_fail _ _ _ (start_kept w h leaves network app start))

  pub rollback-holds :
      (apple : Adapter E) (image : String) (c : DeploymentConfiguration)
      → P (rollback w app (adapters [] (docker_adapter h network) apple) image c start)
  unfolding rollback
  rollback-holds apple image c = by_adapter _ (chosen-docker w h network app apple)
    where
      by_adapter :
          (a : Got (Adapter E))
          → (a ≡ got (docker_adapter h network)) ⊎ ((f : Failure) × (a ≡ missed f))
          → P (
              rolled_back_with w app (adapters [] (docker_adapter h network) apple) image c start a)
      by_adapter a (inl docker) =
          subst
            (λ (b : Got (Adapter E)). P (
              rolled_back_with w app (adapters [] (docker_adapter h network) apple) image c start
                b))
            (sym docker)
            (on_start image c.runtime (record no_result { image = image; runtime = "docker" }) start
              (start_kept w h leaves network app start))
      by_adapter a (inr (f, none_)) =
          subst
            (λ (b : Got (Adapter E)). P (
              rolled_back_with w app (adapters [] (docker_adapter h network) apple) image c start
                b))
            (sym none_)
            (on_fail start (record no_result { image = image }) f
              (start_kept w h leaves network app start))
