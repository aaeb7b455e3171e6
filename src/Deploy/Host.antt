-- ===== src/Deploy/Host.antt =====
-- The host that the executor drives: the docker command and its answers, the files of an
-- environment, and the proxy, which is Caddy behind a ProxyAdapter. It is an interface, with the
-- documented behaviour of its commands as laws.
use mini_dock.Prelude.{ℕ, ◌≡◌, ◌≢◌, String, Bool, true, false, Option, none, some, List, [], ◌∷◌}
use mini_dock.Store.Tables.{Application}
use mini_dock.Deploy.Failures.{Failure}

-- One answer of `docker inspect` to waitHealthy: none where the command fails, or the status, and
-- whether the deadline has passed by then.
pub data Poll : Type 0 where
  no_answer : (detail : String) → Poll
  answer : (status : String) (late : Bool) → Poll

-- Executor.Network and Executor.NetworkSubnet
pub record DockerNetwork : Type 0 where
  pub name : String
  pub subnet : String

-- dockerNetworkInspection, with the subnets of its IPAM configuration.
pub record NetworkInspection : Type 0 where
  pub name : String
  pub driver : String
  pub internal : Bool
  pub subnets : List String

-- One answer of `docker network inspect`: the command fails, or what json.Unmarshal makes of its
-- output, none where that fails.
pub data NetworkAnswer : Type 0 where
  not_inspected : (detail : String) → NetworkAnswer
  printed : (networks : Option (List NetworkInspection)) → NetworkAnswer

-- os.MkdirAll of the directory of the logs, and os.CreateTemp, Chmod, Write, Close and os.Remove of
-- a file in it.
pub data FileCall : Type 0 where
  make_env_directory : FileCall
  create_env_file : (path : String) → FileCall
  protect_env_file : (path : String) → FileCall
  write_env_file : (path text : String) → FileCall
  close_env_file : (path : String) → FileCall
  remove_env_file : (path : String) → FileCall

-- A command that may fail returns the host as it leaves it, with the error.
pub record Host (E : Type 0) : Type 0 where
  -- docker with its arguments
  pub docker : List String → E → E × Option Failure
  -- whether `docker container inspect` finds the name
  pub has_container : E → String → Bool
  -- the address that `docker inspect` prints, if it is an IP address
  pub address : E → String → Option String
  pub container_id : E → String → String
  -- the answers that waitHealthy gets before its context ends
  pub polls : E → String → List Poll
  pub inspect_network : E → String → NetworkAnswer
  -- the calls on the file of an environment, each with its error, if any, and the path that
  -- os.CreateTemp takes
  pub on_file : FileCall → E → E × Option String
  pub new_env_path : E → String
  -- ProxyAdapter.Apply and ProxyAdapter.Verify
  pub apply : Application → String → E → E × Option Failure
  pub verify : Application → E → Option Failure

-- The container of a name is the same in both states.
pub record Kept {E : Type 0} (h : Host E) (name : String) (before after : E) : Type 0 where
  pub same_container : h.has_container after name ≡ h.has_container before name
  pub same_address : h.address after name ≡ h.address before name

-- What the docker documentation says of the commands that the executor gives, and of a proxy:
-- `serves e id` is the upstream that the proxy has for an application.
pub record IsDocker {E : Type 0} (h : Host E) (serves : E → ℕ → Option String) : Type 0 where
  pub remove_keeps :
      (e : E) (name other : String)
      → other ≢ name
      → Kept h other e (h.docker ("rm" ∷ "--force" ∷ name ∷ []) e).0
  pub remove_removes :
      (e : E) (name : String)
      → (h.docker ("rm" ∷ "--force" ∷ name ∷ []) e).1 ≡ none
      → h.has_container (h.docker ("rm" ∷ "--force" ∷ name ∷ []) e).0 name ≡ false
  pub run_keeps :
      (e : E) (name other : String) (args : List String)
      → other ≢ name
      → Kept h other e (h.docker ("run" ∷ "--detach" ∷ "--name" ∷ name ∷ args) e).0
  pub run_runs :
      (e : E) (name : String) (args : List String)
      → (h.docker ("run" ∷ "--detach" ∷ "--name" ∷ name ∷ args) e).1 ≡ none
      → h.has_container (h.docker ("run" ∷ "--detach" ∷ "--name" ∷ name ∷ args) e).0 name ≡ true
  pub rename_keeps :
      (e : E) (old new other : String)
      → other ≢ old
      → other ≢ new
      → Kept h other e (h.docker ("rename" ∷ old ∷ new ∷ []) e).0
  pub rename_moves :
      (e : E) (old new : String)
      → (h.docker ("rename" ∷ old ∷ new ∷ []) e).1 ≡ none
      → (h.has_container (h.docker ("rename" ∷ old ∷ new ∷ []) e).0 old ≡ false)
        × (h.has_container (h.docker ("rename" ∷ old ∷ new ∷ []) e).0 new ≡ h.has_container e old)
        × (h.address (h.docker ("rename" ∷ old ∷ new ∷ []) e).0 new ≡ h.address e old)
  pub start_keeps :
      (e : E) (name other : String)
      → other ≢ name
      → Kept h other e (h.docker ("start" ∷ name ∷ []) e).0
  pub start_finds :
      (e : E) (name : String)
      → h.has_container (h.docker ("start" ∷ name ∷ []) e).0 name ≡ h.has_container e name
  pub docker_leaves_routes :
      (e : E) (args : List String) (id : ℕ) → serves (h.docker args e).0 id ≡ serves e id
  pub network_keeps :
      (e : E) (args : List String) (name : String)
      → Kept h name e (h.docker ("network" ∷ "create" ∷ args) e).0
  pub files_keep : (call : FileCall) (e : E) (name : String) → Kept h name e (h.on_file call e).0
  pub files_leave_routes :
      (call : FileCall) (e : E) (id : ℕ) → serves (h.on_file call e).0 id ≡ serves e id
  pub apply_keeps :
      (e : E) (app : Application) (target name : String) → Kept h name e (h.apply app target e).0
  pub apply_routes :
      (e : E) (app : Application) (target : String)
      → (h.apply app target e).1 ≡ none
      → serves (h.apply app target e).0 app.id ≡ some target
