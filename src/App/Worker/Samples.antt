-- ===== src/App/Worker/Samples.antt =====
-- An executor that fails once the new container has been started, and what surrounds it.
use mini_dock.Prelude.{true, Option, none, some, [], ◌∷◌}
use mini_dock.Store.Jobs.{no_durations}
use mini_dock.Store.Lifecycle.{heartbeat, cancel}
use mini_dock.Deploy.Failures.{Failure, classified}
use mini_dock.App.Configuration.{Codec, Values, DeploymentConfiguration}
use mini_dock.App.Worker.{Surroundings, ReleaseResult}

abbrev pub recorded : Values
recorded = ("MODE", "production") ∷ []

-- Every manifest records the same configuration.
abbrev pub codec : Codec
codec = record {
  parse_object = λ text. none;
  print_object = λ values. some "{}";
  quote = λ text. text;
  recorded_configuration = λ manifest. some (some recorded);
  non_secret_runtime_configuration = λ values. "{}";
  public_configuration_digest = λ runtime build. "sha256:00";
}

abbrev pub configuration : DeploymentConfiguration
configuration = record {
  runtime = ("MODE", "test") ∷ ("EXTRA", "1") ∷ ("PASSWORD", "secret") ∷ [];
  build_args = [];
  build_secrets = [];
  public_runtime = ("MODE", "test") ∷ ("EXTRA", "1") ∷ [];
  effective_runtime_configuration = "{}";
  configuration_digest = "sha256:01";
  reuse_image = "";
  reuse_source_revision = "";
  reuse_source_fingerprint = "";
}

abbrev pub release : ReleaseResult
release = record {
  image = "shop:3";
  source_revision = "c0ffee";
  source_fingerprint = "";
  artifact_digest = "";
  runtime = "docker";
  observed_container_id = "";
}

abbrev pub unhealthy : Option Failure
unhealthy = some (classified "health" "health_check_failed" "unhealthy")

-- Meanwhile the blog's job is cancelled.
abbrev pub surroundings : Surroundings
surroundings = record {
  log_opens = true;
  configuration = λ app. (configuration, none);
  deploy = λ app c. (release, unhealthy);
  verify_artifact = λ app image digest. none;
  rollback = λ app image c. (release, none);
  heartbeat_failure = none;
  durations = no_durations;
  during = (3_000_001, heartbeat 4) ∷ (3_000_002, cancel 8 3) ∷ [];
  before_finish = [];
  claimed_at = 3_000_000;
  finished_at = 4_000_000;
  queued_at = 4_000_001;
  rollback_log = "log";
  manifest = λ app. "{}";
}
