-- ===== src/Deploy/Memory.antt =====
-- A host with containers and routes in memory.
use mini_dock.Prelude.{
  ℕ, ◌≡◌, refl, String, true, false, Option, none, some, List, [], ◌∷◌, arith, ◌==◌, ◌=s=◌,
  =s=_refl, eq_iff, if◌then◌else◌, is_some,
}
use mini_dock.Deploy.Failures.{Failure, unclassified}
use mini_dock.Deploy.Host.{Host, DockerNetwork, printed, answer, IsDocker}

pub record Memory : Type 0 where
  pub container : String → Option String
  pub route : ℕ → Option String

abbrev pub with_container : Memory → String → Option String → Memory
with_container m name address = record m {
  container = λ n. if n =s= name then address else m.container n;
}

abbrev pub renamed : Memory → String → String → Memory
renamed m old new = with_container (with_container m new (m.container old)) old none

abbrev pub run_rm : List String → Memory → Memory × Option Failure
run_rm (force ∷ name ∷ rest) m = (with_container m name none, none)
run_rm _ m = (m, some (unclassified "usage"))

abbrev pub run_run : List String → Memory → Memory × Option Failure
run_run (detach ∷ flag ∷ name ∷ args) m = (with_container m name (some "10.0.0.9"), none)
run_run _ m = (m, some (unclassified "usage"))

abbrev pub run_rename : List String → Memory → Memory × Option Failure
run_rename (old ∷ new ∷ rest) m =
    if old =s= new then (m, some (unclassified "same name")) else (renamed m old new, none)
run_rename _ m = (m, some (unclassified "usage"))

abbrev pub run_docker : List String → Memory → Memory × Option Failure
run_docker [] m = (m, some (unclassified "usage"))
run_docker (command ∷ args) m =
    if command =s= "rm"
    then run_rm args m
    else if command =s= "run"
    then run_run args m
    else if command =s= "rename"
    then run_rename args m
    else (m, none)

-- Whether a new container becomes healthy, and whether its route works.
abbrev pub memory_host : String → Option Failure → Host Memory
memory_host status route_error = record {
  docker = run_docker;
  has_container = λ m name. is_some (m.container name);
  address = λ m name. m.container name;
  container_id = λ m name. name;
  polls = λ m name. answer "starting" false ∷ answer status false ∷ [];
  inspect_network = λ m name. printed (
      some (
        record { name = name; driver = "bridge"; internal = true; subnets = "172.30.0.0/16" ∷ [] }
        ∷ []));
  on_file = λ call m. (m, none);
  new_env_path = λ m. "/tmp/1.env";
  apply = λ app target m.
      (record m { route = λ i. if i == app.id then some target else m.route i }, none);
  verify = λ app m. route_error;
}

abbrev pub upstream : Memory → ℕ → Option String
upstream m id = m.route id

routes_kept :
    (args : List String) (m : Memory) (id : ℕ) → upstream (run_docker args m).0 id ≡ upstream m id
routes_kept [] m id = refl
routes_kept (command ∷ []) m id = ground arith
routes_kept (command ∷ a ∷ []) m id = ground arith
routes_kept (command ∷ a ∷ b ∷ []) m id = ground arith
routes_kept (command ∷ a ∷ b ∷ d ∷ args) m id = ground arith

pub memory_host-IsDocker :
    (status : String) (route_error : Option Failure)
    → IsDocker (memory_host status route_error) upstream
memory_host-IsDocker status route_error = record {
  remove_keeps = λ e name other ne. record {
    same_container = ground (arith, eq_iff other name);
    same_address = ground (arith, eq_iff other name);
  };
  remove_removes = λ e name h. ground (arith, =s=_refl name);
  run_keeps = λ e name other args ne. record {
    same_container = ground (arith, eq_iff other name);
    same_address = ground (arith, eq_iff other name);
  };
  run_runs = λ e name args h. ground (arith, =s=_refl name);
  rename_keeps = λ e old new other ne ne'. record {
    same_container = ground (arith, eq_iff other old, eq_iff other new);
    same_address = ground (arith, eq_iff other old, eq_iff other new);
  };
  rename_moves =
      λ e old new h. ground (arith, =s=_refl old, =s=_refl new, eq_iff new old, eq_iff old new);
  start_keeps = λ e name other ne. record { same_container = refl; same_address = refl };
  start_finds = λ e name. refl;
  docker_leaves_routes = λ e args id. routes_kept args e id;
  network_keeps = λ e args name. record { same_container = refl; same_address = refl };
  files_keep = λ call e name. record { same_container = refl; same_address = refl };
  files_leave_routes = λ call e id. refl;
  apply_keeps = λ e app target name. record { same_container = refl; same_address = refl };
  apply_routes = λ e app target h. ground arith;
}

-- The shop serves from its primary container; the blog from its candidate.
abbrev pub serving : Memory
serving = record {
  container = λ n.
      if n =s= "minidock-shop"
      then some "10.0.0.1"
      else if n =s= "minidock-blog-candidate"
      then some "10.0.0.4"
      else none;
  route = λ id.
      if id == 7 then some "10.0.0.1:3000" else if id == 8 then some "10.0.0.4:3000" else none;
}

abbrev pub apps_network : DockerNetwork
apps_network = record { name = "apps"; subnet = "" }

abbrev pub good : Host Memory
good = memory_host "healthy" none

abbrev pub sick : Host Memory
sick = memory_host "unhealthy" none
