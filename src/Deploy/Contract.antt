-- ===== src/Deploy/Contract.antt =====
-- internal/deploy/executor.go: what a release is made from, and what it results in. A map is a list
-- of pairs whose first pair with a key counts.
use mini_dock.Prelude.{String, Option, none, some, List, [], ◌∷◌, ◌=s=◌, if◌then◌else◌}

abbrev pub Values : Type 0
Values = List (String × String)

unfoldable pub value_of : String → Values → Option String
value_of name [] = none
value_of name (v ∷ vs) = if v.0 =s= name then some v.1 else value_of name vs

pub record DeploymentConfiguration : Type 0 where
  pub runtime : Values
  pub build_args : Values
  pub build_secrets : Values
  pub public_runtime : Values
  pub effective_runtime_configuration : String
  pub configuration_digest : String
  pub reuse_image : String
  pub reuse_source_revision : String
  pub reuse_source_fingerprint : String

pub record ReleaseResult : Type 0 where
  pub image : String
  pub source_revision : String
  pub source_fingerprint : String
  pub artifact_digest : String
  pub runtime : String
  pub observed_container_id : String
