-- ===== src/Deploy/Arguments.antt =====
-- internal/deploy/executor.go: the arguments of `docker run` for a release, and the check that no
-- release gets the host's devices, network, files or capabilities.
use text.Mathlib.Text.{starts_with, find?}
use mini_dock.Prelude.{
  String, Bool, false, ◌&&◌, ◌||◌, Option, none, some, List, [], ◌∷◌, ◌++◌, ◌=s=◌, is_some,
  if◌then◌else◌,
}
use mini_dock.Prelude.Decimal.{◌+s+◌, decimal}
use mini_dock.Store.Tables.{Application}
use mini_dock.Runtime.Templates.{Template, template_for}
use mini_dock.Deploy.Failures.{Failure, classified}
use mini_dock.Deploy.Host.{Host, DockerNetwork}
use mini_dock.Deploy.EnvFile.{removed_file, runtime_env_file}

-- A flag as an argument of its own, or with its value after an equals sign.
abbrev pub is_flag : String → String → Bool
is_flag flag arg = arg =s= flag || starts_with arg (flag +s+ "=")

abbrev pub is_host : Option String → Bool
is_host none = false
is_host (some arg) = arg =s= "host"

-- The last test: a network flag that names the host's network, itself or in the next argument.
abbrev pub is_host_network : String → Option String → Bool
is_host_network arg following =
    (arg =s= "--net" || (arg =s= "--network" || starts_with arg "--network="))
    && (is_some (find? arg "host") || is_host following)

-- The tests on one argument, with the one that follows it.
abbrev pub forbidden : String → Option String → Option Failure
forbidden arg following =
    if is_flag "--privileged" arg
    then some (classified "start" "forbidden_privileged_mode" "privileged mode is forbidden")
    else if is_flag "--device" arg
    then some (classified "start" "forbidden_device_mapping" "device mapping is forbidden")
    else if is_flag "--cap-add" arg
    then some (classified "start" "forbidden_cap_add" "additional capabilities are forbidden")
    else if is_flag "--security-opt" arg
    then some (classified "start" "forbidden_security_opt" "custom security options are forbidden")
    else if arg =s= "-v" || is_flag "--volume" arg
    then some (classified "start" "forbidden_host_mount" "host volume mounts are forbidden")
    else if is_host_network arg following
    then some (classified "start" "forbidden_host_network" "host network mode is forbidden")
    else none

abbrev pub head_of : List String → Option String
head_of [] = none
head_of (arg ∷ args) = some arg

abbrev pub or_first : Option Failure → Option Failure → Option Failure
or_first none rest = rest
or_first (some f) rest = some f

-- ValidateDockerContainerSecurityArgs
unfoldable pub validate_docker_container_security_args : List String → Option Failure
validate_docker_container_security_args [] = none
validate_docker_container_security_args (arg ∷ args) =
    or_first (forbidden arg (head_of args)) (validate_docker_container_security_args args)

abbrev limits : Option Template → List String
limits none = []
limits (some t) = "--cpus" ∷ t.cpus ∷ "--memory" ∷ t.memory ∷ []

abbrev env_arguments : String → List String
env_arguments path = if path =s= "" then [] else "--env-file" ∷ path ∷ []

-- The arguments after the container's name.
abbrev pub run_options : String → Application → String → String → List String
run_options network app env_path image =
    ("--restart"
      ∷ "unless-stopped"
      ∷ "--network"
      ∷ network
      ∷ "--label"
      ∷ ("minidock.application=" +s+ decimal app.id)
      ∷ [])
    ++ (limits (template_for app.kind) ++ (env_arguments env_path ++ (image ∷ [])))

abbrev pub run_arguments : String → Application → String → String → String → List String
run_arguments network app env_path image container =
    "run" ∷ "--detach" ∷ "--name" ∷ container ∷ run_options network app env_path image

module _ {E : Type 0} (h : Host E) (network : DockerNetwork) where
  abbrev pub run_validated : List String → E → Option Failure → E × Option Failure
  run_validated args e (some f) = (e, some f)
  run_validated args e none = h.docker args e

  -- removeRuntimeEnvFile, with its overwriting of the file left out
  abbrev pub without_env_file : String → E × Option Failure → E × Option Failure
  without_env_file path x = (if path =s= "" then x.0 else removed_file h path x.0, x.1)

  abbrev pub run_with_file :
      Application → String → String → E × (String × Option Failure) → E × Option Failure
  run_with_file app image container (e, (path, some f)) = (e, some f)
  run_with_file app image container (e, (path, none)) =
      let args = run_arguments network.name app path image container in
      without_env_file path (run_validated args e (validate_docker_container_security_args args))

  -- runDockerContainer
  unfoldable pub run_docker_container :
      Application → String → List (String × String) → String → E → E × Option Failure
  unfolding runtime_env_file
  run_docker_container app image environment container e =
      run_with_file app image container (runtime_env_file h environment e)
