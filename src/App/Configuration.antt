-- ===== src/App/Configuration.antt =====
-- internal/app/cicd.go: the configuration of a release and its evidence. A map is a list of pairs
-- whose first pair with a key counts; JSON and SHA-256 are parameters.
pub mod Restored
use mini_dock.Prelude.{
  ℕ, String, Bool, true, false, not, Option, none, some, List, [], ◌∷◌, ◌=s=◌, if◌then◌else◌, any,
}
use mini_dock.Store.Tables.{ReleaseMetadata, Deployment}
pub use mini_dock.Deploy.Contract.{Values, DeploymentConfiguration}
unfoldable pub use mini_dock.Deploy.Contract.{value_of}
use mini_dock.Deploy.Failures.{Failure, unclassified}

abbrev pub put : String → String → Values → Values
put name value m = (name, value) ∷ m

unfoldable pub delete_name : String → Values → Values
delete_name name [] = []
delete_name name (v ∷ vs) =
    let rest = delete_name name vs in if v.0 =s= name then rest else v ∷ rest

-- for name := range public { delete(runtime, name) }
unfoldable pub without_names : Values → Values → Values
unfolding delete_name
without_names [] m = m
without_names (v ∷ vs) m = without_names vs (delete_name v.0 m)

-- for name, value := range recorded { runtime[name] = value }, in the order that the first pair counts
unfoldable pub with_values : Values → Values → Values
with_values [] m = m
with_values (v ∷ vs) m = let rest = with_values vs m in put v.0 v.1 rest

-- What the code asks of encoding/json and crypto/sha256. A raw value is the text of a JSON value.
pub record Codec : Type 0 where
  pub parse_object : String → Option Values
  pub print_object : Values → Option String
  pub quote : String → String
  -- the field effective_runtime_configuration of a manifest: an error, no such map, or the map
  pub recorded_configuration : String → Option (Option Values)
  pub non_secret_runtime_configuration : Values → String
  pub public_configuration_digest : Values → Values → String

pub data Restoration : Type 0 where
  restored : DeploymentConfiguration → Restoration
  not_restored : Failure → Restoration

module _ (k : Codec) where
  abbrev manifest_values : Option Values → Values
  manifest_values none = ("version", "1") ∷ []
  manifest_values (some values) = values

  abbrev put_unless_empty : String → String → String → Values → Values
  put_unless_empty text name raw m = if text =s= "" then m else put name raw m

  abbrev printed_or : String → Option String → String
  printed_or manifest none = manifest
  printed_or manifest (some text) = text

  -- releaseManifest
  unfoldable pub release_manifest : String → String → String → String
  release_manifest manifest effective observed = printed_or manifest (
      k.print_object (
        put_unless_empty observed "observed_container_id" (k.quote observed) (
          put_unless_empty effective "effective_runtime_configuration" effective
            (manifest_values (k.parse_object manifest)))))

  abbrev pub restored_configuration : DeploymentConfiguration → Values → DeploymentConfiguration
  restored_configuration c recorded =
      let public_runtime = with_values recorded [] in
      record c {
        runtime = with_values recorded (without_names c.public_runtime c.runtime);
        public_runtime = public_runtime;
        effective_runtime_configuration = k.non_secret_runtime_configuration public_runtime;
        configuration_digest = k.public_configuration_digest public_runtime c.build_args;
      }

  abbrev from_record : DeploymentConfiguration → Option (Option Values) → Restoration
  from_record c none = not_restored (unclassified "read rollback release manifest")
  from_record c (some none) =
      not_restored (unclassified "rollback release has no effective runtime configuration")
  from_record c (some (some recorded)) = restored (restored_configuration c recorded)

  -- rollbackConfiguration
  unfoldable pub rollback_configuration : DeploymentConfiguration → String → Restoration
  unfolding without_names with_values
  rollback_configuration c manifest = from_record c (k.recorded_configuration manifest)

-- rollbackReleaseMetadata: the target's evidence with the digest of today's configuration.
abbrev pub rollback_release_metadata : Deployment → String → ReleaseMetadata
rollback_release_metadata source configuration_digest = record (source.release) {
  configuration_digest = configuration_digest;
}
