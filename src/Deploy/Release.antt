-- ===== src/Deploy/Release.antt =====
-- internal/deploy/executor.go: Deploy, from the source of an application to its running container,
-- Rollback to the image of an earlier release, and VerifyArtifact. The log, the stage tracker and
-- the timeouts are left out; a command that runs out of time fails.
pub mod Files
pub mod Chosen
pub mod Through
pub mod Untouched
pub mod Served
pub mod Memory
pub mod Cleaned
mod Tests
use text.Mathlib.Text.{starts_with}
use mini_dock.Prelude.{
  ℕ, String, Bool, true, false, not, ◌&&◌, ◌||◌, Option, none, some, List, [], ◌∷◌, ◌=s=◌, ltb,
  if◌then◌else◌,
}
use mini_dock.Prelude.Decimal.{◌+s+◌, decimal}
use mini_dock.Store.Tables.{Application}
use mini_dock.Runtime.Templates.{dockerfile}
use mini_dock.Runtime.Detection.{detect}
use mini_dock.Deploy.Failures.{quoted, Failure, classified, unclassified, detail_of}
use mini_dock.Deploy.Contract.{Values, DeploymentConfiguration, ReleaseResult}
use mini_dock.Deploy.Containers.{primary}
use mini_dock.Deploy.Adapters.{Adapter, available, adapter}
use mini_dock.Deploy.Building.{is_safe_name, build_arguments}
use mini_dock.Deploy.Source.{
  Existence, present, absent, unreadable, is_present, Workshop, prepared_source,
}
use mini_dock.Deploy.Failures.{Got, got, missed}

abbrev pub no_result : ReleaseResult
no_result = record {
  image = "";
  source_revision = "";
  source_fingerprint = "";
  artifact_digest = "";
  runtime = "";
  observed_container_id = "";
}

-- A release that has ended: the host, the result so far, and an error or none.
abbrev pub Ended : Type 0 → Type 0
Ended E = E × (ReleaseResult × Option Failure)

abbrev pub is_empty : Values → Bool
is_empty [] = true
is_empty (v ∷ vs) = false

abbrev pub ignore_contents : String
ignore_contents = ".git\nnode_modules\n.next\n.nuxt\ndist\nbuild\ntmp\n.gemini\n"

module _ {E : Type 0} (w : Workshop E) (app : Application) where
  -- artifactDigest
  abbrev pub artifact_digest : E → String → String → String
  artifact_digest e runtime image =
      if runtime =s= "docker"
      then (let digest = w.image_id e image in if starts_with digest "sha256:" then digest else "")
      else ""

  abbrev pub with_evidence : Adapter E → String → E → ReleaseResult → ReleaseResult
  with_evidence a image e r = record r {
    artifact_digest = artifact_digest e a.name image;
    observed_container_id = if a.name =s= "docker" then w.container_id e (primary app) else "";
  }

  abbrev pub after_start :
      Adapter E → String → ReleaseResult → E × (String × Option Failure) → Ended E
  after_start a image r (e, (started, some f)) = (e, (record r { image = started }, some f))
  after_start a image r (e, (started, none)) =
      (e, (with_evidence a image e (record r { image = started }), none))

  -- The end of Deploy and of Rollback.
  abbrev pub started : Adapter E → String → Values → ReleaseResult → E → Ended E
  started a image environment r e = after_start a image r (a.start app image environment e)

  abbrev pub without_file : String → Ended E → Ended E
  without_file path x = (w.remove_file path x.0, x.1)

  abbrev pub template_kind : String → E → String
  template_kind work e =
      if app.kind =s= "node_ssr" && (detect (w.project e work)).kind =s= "vite_ssr"
      then "vite_ssr"
      else app.kind

  abbrev pub written : String → E × Option Failure → E × Got String
  written name (e, none) = (e, got name)
  written name (e, some f) = (w.remove_file name e, missed f)

  abbrev pub filled : String → E × Got String → E × Got String
  filled text (e, missed f) =
      (e, missed (unclassified ("create runtime template: " +s+ detail_of f)))
  filled text (e, got name) = written name (w.fill_temp name text e)

  abbrev pub templated : E → Option String → E × Got String
  templated e none = (e, missed (unclassified "Dockerfile required for custom application"))
  templated e (some text) =
      filled text (w.create_temp ("minidock-" +s+ app.name +s+ "-Dockerfile-*") e)

  abbrev pub described : String → E → Existence → E × Got String
  described work e present = (e, got "")
  described work e (unreadable f) = (e, missed f)
  described work e absent =
      templated e
        (dockerfile w.dockerfile_text (template_kind work e) app.internal_port app.health_endpoint)

  -- generatedDockerfile: the temporary file, or "" where the repository has its own.
  unfoldable pub generated_dockerfile : String → E → E × Got String
  generated_dockerfile work e = described work e (w.stat e (w.join work "Dockerfile"))

  abbrev pub after_build :
      Adapter E → DeploymentConfiguration → String → ReleaseResult → E × Option Failure → Ended E
  after_build a c image r (e, some f) =
      (e, (r, some (classified "build" "build_failed" (detail_of f))))
  after_build a c image r (e, none) = started a image c.runtime r e

  abbrev pub image_tag : E → String
  image_tag e = "minidock/" +s+ app.name +s+ ":" +s+ decimal (w.unix_time e)

  -- The build stage, and the start of the image.
  abbrev pub built :
      Adapter E → DeploymentConfiguration → ReleaseResult → String → String → E → Ended E
  built a c r work path e =
      let image = image_tag e in
      let r' : ReleaseResult = record r { image = image } in
      if not a.supports_build_secrets && not (is_empty c.build_secrets)
      then (
        e,
        (
          r',
          some (
              classified "build" "build_secrets_unsupported"
                ("runtime " +s+ a.name +s+ " does not support build secrets")),
        ),
      )
      else after_build a c image r'
          (w.build a.build_command c.build_secrets (build_arguments image path c work) e)

  abbrev pub with_dockerfile :
      Adapter E → DeploymentConfiguration → ReleaseResult → String → E × Got String → Ended E
  with_dockerfile a c r work (e, missed f) =
      (e, (r, some (classified "build" "contract_invalid" (detail_of f))))
  with_dockerfile a c r work (e, got path) =
      let x = built a c r work path e in if path =s= "" then x else without_file path x

  abbrev pub described_and_built :
      Adapter E → DeploymentConfiguration → ReleaseResult → String → E → Ended E
  described_and_built a c r work e = with_dockerfile a c r work (generated_dockerfile work e)

  abbrev pub after_ignore :
      Adapter E
      → DeploymentConfiguration
      → ReleaseResult
      → String
      → String
      → E × Option Failure
      → Ended E
  after_ignore a c r work path (e, some f) = described_and_built a c r work e
  after_ignore a c r work path (e, none) = without_file path (described_and_built a c r work e)

  -- With a .dockerignore of the repository, or else one that is removed in the end.
  unfoldable pub packaged :
      Adapter E → DeploymentConfiguration → ReleaseResult → String → E → Ended E
  unfolding generated_dockerfile
  packaged a c r work e =
      let path = w.join work ".dockerignore" in
      if is_present (w.stat e path)
      then described_and_built a c r work e
      else after_ignore a c r work path (w.write_file path ignore_contents e)

  abbrev pub measured :
      Adapter E → DeploymentConfiguration → ReleaseResult → String → E → Got ℕ → Ended E
  measured a c r work e (missed f) =
      (e, (r, some (classified "source" "workspace_measure_failed" (detail_of f))))
  measured a c r work e (got size) =
      if ltb 0 w.workspace_max_bytes && ltb w.workspace_max_bytes size
      then (
        e,
        (
          r,
          some (
              classified "source" "workspace_quota_exceeded" (
                "workspace is "
                +s+ decimal size
                +s+ " bytes; limit is "
                +s+ decimal w.workspace_max_bytes
                +s+ " bytes")),
        ),
      )
      else packaged a c r work e

  abbrev pub fingerprinted :
      Adapter E → DeploymentConfiguration → ReleaseResult → String → E → Got String → Ended E
  fingerprinted a c r work e (missed f) =
      (e, (r, some (classified "source" "source_fingerprint_failed" (detail_of f))))
  fingerprinted a c r work e (got fingerprint) =
      measured a c (record r { source_fingerprint = fingerprint }) work e (w.directory_size e work)

  abbrev pub with_source :
      Adapter E → DeploymentConfiguration → ReleaseResult → E × Got (String × String) → Ended E
  with_source a c r (e, missed f) = (e, (r, some f))
  with_source a c r (e, got (repository, work)) =
      fingerprinted a c (record r { source_revision = w.head e repository }) work e
        (w.directory_fingerprint e work)

  abbrev pub with_adapter : DeploymentConfiguration → E → Got (Adapter E) → Ended E
  with_adapter c e (missed f) = (
    e,
    (
      no_result,
      some (classified "start" "runtime_unavailable" ("runtime preflight: " +s+ detail_of f)),
    ),
  )
  with_adapter c e (got a) =
      let r : ReleaseResult = record no_result { runtime = a.name } in
      if not (is_safe_name app.name)
      then (e, (r, some (unclassified "invalid application name")))
      else if c.reuse_image =s= ""
      then with_source a c r (prepared_source w app e)
      else started a c.reuse_image c.runtime
          (record r {
            image = c.reuse_image;
            source_revision = c.reuse_source_revision;
            source_fingerprint = c.reuse_source_fingerprint;
          })
          e

  module _ (known : List (String × Adapter E)) where
    -- Deploy
    unfoldable pub deploy : DeploymentConfiguration → E → Ended E
    unfolding packaged
    deploy c e = with_adapter c e (adapter w app known)

    abbrev pub rolled_back_with : String → DeploymentConfiguration → E → Got (Adapter E) → Ended E
    rolled_back_with image c e (missed f) = (e, (record no_result { image = image }, some f))
    rolled_back_with image c e (got a) =
        started a image c.runtime (record no_result { image = image; runtime = a.name }) e

    -- Rollback
    unfoldable pub rollback : String → DeploymentConfiguration → E → Ended E
    rollback image c e = rolled_back_with image c e (adapter w app known)

    abbrev pub checked_artifact : E → String → String → Got (Adapter E) → Option Failure
    checked_artifact e image digest (missed f) =
        some (classified "rollback" "runtime_unavailable" (detail_of f))
    checked_artifact e image digest (got a) =
        let actual = artifact_digest e a.name image in
        if actual =s= ""
        then some (
            classified "rollback" "artifact_missing"
              ("image " +s+ quoted image +s+ " is not available in runtime " +s+ a.name))
        else if actual =s= digest
        then none
        else some (
            classified "rollback" "artifact_digest_mismatch" (
              "image "
              +s+ quoted image
              +s+ " digest "
              +s+ actual
              +s+ " does not match recorded digest "
              +s+ digest))

    -- VerifyArtifact
    unfoldable pub verify_artifact : E → String → String → Option Failure
    verify_artifact e image digest =
        if image =s= "" || digest =s= ""
        then some (
            classified "rollback" "artifact_evidence_missing"
              "rollback release has no immutable artifact digest")
        else checked_artifact e image digest (adapter w app known)
