-- ===== src/Deploy/Release/Memory.antt =====
-- A workshop for the host in memory: its commands succeed, and files are of no interest.
use mini_dock.Prelude.{refl, String, false, Option, none, [], ◌=s=◌, if◌then◌else◌}
use mini_dock.Store.Tables.{Application}
use mini_dock.Store.Samples.{shop}
use mini_dock.Runtime.Detection.{Project}
use mini_dock.Deploy.Failures.{Failure, classified}
use mini_dock.Deploy.Contract.{DeploymentConfiguration}
use mini_dock.Deploy.Memory.{memory_host, Memory, upstream}
use mini_dock.Deploy.Adapters.{Adapter}
use mini_dock.Deploy.Source.{Existence, absent, Workshop}
use mini_dock.Deploy.Failures.{Got, got}
use mini_dock.Deploy.Release.Files.{LeavesContainers}
use mini_dock.Deploy.Release.Served.{LeavesRoutes}

abbrev pub empty_project : Project
empty_project = record {
  exists = λ path. false;
  read_file = λ path. none;
  manifest = none;
  lower = λ text. text;
}

-- A workshop whose commands succeed; the functions on files are given.
abbrev pub workshop :
    {E : Type 0}
    → (E → String → Existence)
    → (String → E → E × Option Failure)
    → (String → E → E)
    → (String → E → E × Got String)
    → Workshop E
workshop stat write remove create = record {
  workspace_path = "/work";
  local_repositories_path = "";
  workspace_max_bytes = 0;
  host_runtime = "auto";
  runtime_ready = λ name. name =s= "docker";
  join = λ a b. if b =s= "." then a else b;
  is_abs = λ path. false;
  make_workspace = λ e. (e, none);
  stat = stat;
  eval_symlinks = λ e path. got path;
  write_file = λ path contents e. write path e;
  remove_file = remove;
  create_temp = create;
  fill_temp = λ name contents e. (e, none);
  directory_size = λ e path. got 10;
  directory_fingerprint = λ e path. got "sha256:1";
  git = λ environment args e. (e, none);
  head = λ e path. "abc";
  build = λ command environment args e. (e, none);
  image_id = λ e image. "sha256:2";
  container_id = λ e name. name;
  installation_token = λ id. got "token";
  https_host = λ url. none;
  base64 = λ text. text;
  project = λ e path. empty_project;
  dockerfile_text = λ kind port endpoint. "FROM scratch";
  unix_time = λ e. 3;
}

-- On the host in memory files are of no interest.
abbrev pub memory_workshop : Workshop Memory
memory_workshop =
    workshop (λ m path. absent) (λ path m. (m, none)) (λ path m. m) (λ pattern m. (m, got "tmp"))

pub memory_workshop-LeavesContainers :
    (status : String) (route_error : Option Failure)
    → LeavesContainers memory_workshop (memory_host status route_error)
memory_workshop-LeavesContainers status route_error = record {
  make_workspace_keeps = λ e name. record { same_container = refl; same_address = refl };
  git_keeps = λ environment args e name. record { same_container = refl; same_address = refl };
  build_keeps =
      λ command environment args e name. record { same_container = refl; same_address = refl };
  write_keeps = λ path contents e name. record { same_container = refl; same_address = refl };
  remove_keeps = λ path e name. record { same_container = refl; same_address = refl };
  create_keeps = λ pattern e name. record { same_container = refl; same_address = refl };
  fill_keeps = λ path contents e name. record { same_container = refl; same_address = refl };
}

abbrev pub idle_adapter : {E : Type 0} → Adapter E
idle_adapter = record {
  name = "idle";
  build_command = "container";
  supports_build_secrets = false;
  start = λ app image environment e. (e, (image, none));
}

abbrev pub plain : DeploymentConfiguration
plain = record {
  runtime = [];
  build_args = [];
  build_secrets = [];
  public_runtime = [];
  effective_runtime_configuration = "{}";
  configuration_digest = "";
  reuse_image = "";
  reuse_source_revision = "";
  reuse_source_fingerprint = "";
}

abbrev pub site_app : Application
site_app = record shop { kind = "static"; runtime = "auto" }

abbrev pub unhealthy : Failure
unhealthy = classified "health" "health_check_failed" "health check failed: unhealthy"

pub memory_workshop-LeavesRoutes : LeavesRoutes memory_workshop upstream
memory_workshop-LeavesRoutes = record { remove_leaves_routes = λ path e id. refl }
