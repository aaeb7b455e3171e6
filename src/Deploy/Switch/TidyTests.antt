-- ===== src/Deploy/Switch/TidyTests.antt =====
-- A host that holds nothing but files.
use mini_dock.Prelude.{
  ◌≡◌, refl, String, Bool, true, false, Option, none, some, [], ◌∷◌, arith, ◌=s=◌, =s=_refl, eq_iff,
  if◌then◌else◌,
}
use mini_dock.Store.Samples.{shop}
use mini_dock.Deploy.Host.{
  Host, FileCall, make_env_directory, create_env_file, protect_env_file, write_env_file,
  close_env_file, remove_env_file, not_inspected,
}
use mini_dock.Deploy.Arguments.{run_docker_container}
use mini_dock.Deploy.Memory.{apps_network}
use mini_dock.Deploy.Switch.Tidy.{IsDirectory, run_docker_container-SameFiles}

abbrev Files : Type 0
Files = String → Bool

abbrev with_file : String → Bool → Files → Files
with_file path here files = λ other. if other =s= path then here else files other

abbrev call_file : FileCall → Files → Files × Option String
call_file make_env_directory files = (files, none)
call_file (create_env_file path) files =
    if files path then (files, some "file exists") else (with_file path true files, none)
call_file (protect_env_file path) files = (files, none)
call_file (write_env_file path text) files = (files, none)
call_file (close_env_file path) files = (files, none)
call_file (remove_env_file path) files = (with_file path false files, none)

abbrev file_host : Host Files
file_host = record {
  docker = λ args files. (files, none);
  has_container = λ files name. false;
  address = λ files name. none;
  container_id = λ files name. "";
  polls = λ files name. [];
  inspect_network = λ files name. not_inspected "no docker";
  on_file = call_file;
  new_env_path = λ files. "/log/.minidock-runtime-1.env";
  apply = λ app target files. (files, none);
  verify = λ app files. none;
}

file_host-IsDirectory : IsDirectory file_host (λ files path. files path)
file_host-IsDirectory = record {
  new_path_named = λ files same. ground (arith, eq_iff "/log/.minidock-runtime-1.env" "");
  create_new = λ path files made. ground arith;
  create_other = λ path other files ne. ground (arith, eq_iff other path);
  create_fails = λ path other detail files failed. ground arith;
  remove_removes = λ path files. ground (arith, =s=_refl path);
  remove_other = λ path other files ne. ground (arith, eq_iff other path);
  make_same = λ path files. refl;
  protect_same = λ file path files. refl;
  write_same = λ file text path files. refl;
  close_same = λ file path files. refl;
  docker_same = λ args path files. refl;
}

abbrev one_file : Files
one_file path = path =s= "/log/1.log"

run_docker_container-SameFiles_example :
    (run_docker_container file_host apps_network shop "shop:3"
        (("TOKEN", "secret") ∷ [])
        "minidock-shop"
        one_file).0
      "/log/.minidock-runtime-1.env"
    ≡ false
run_docker_container-SameFiles_example =
    run_docker_container-SameFiles file_host (λ files path. files path) file_host-IsDirectory
      one_file apps_network shop "shop:3" "minidock-shop" (("TOKEN", "secret") ∷ [])
      "/log/.minidock-runtime-1.env"
