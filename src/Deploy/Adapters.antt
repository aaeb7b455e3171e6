-- ===== src/Deploy/Adapters.antt =====
-- internal/deploy/executor.go: the runtime adapters, and the one that a release gets.
use mini_dock.Prelude.{
  String, Bool, true, ◌||◌, Option, none, some, List, [], ◌∷◌, any, ◌=s=◌, if◌then◌else◌,
}
use mini_dock.Prelude.Decimal.{◌+s+◌}
use mini_dock.Store.Tables.{Application}
use mini_dock.Deploy.Failures.{
  Failure, unclassified, Selection, selected, refused, quoted, wanted_runtime, select_runtime,
}
use mini_dock.Deploy.Contract.{Values}
use mini_dock.Deploy.Host.{DockerNetwork, Host}
use mini_dock.Deploy.Switch.{docker_start}
use mini_dock.Deploy.Source.{Workshop}
use mini_dock.Deploy.Failures.{Got, got, missed}

-- RuntimeAdapter, as Deploy uses it. Start returns the image, and an error or none.
pub record Adapter (E : Type 0) : Type 0 where
  pub name : String
  pub build_command : String
  pub supports_build_secrets : Bool
  pub start : Application → String → Values → E → E × (String × Option Failure)

-- DockerAdapter
abbrev pub docker_adapter : {E : Type 0} → Host E → DockerNetwork → Adapter E
docker_adapter h network = record {
  name = "docker";
  build_command = "docker";
  supports_build_secrets = true;
  start = λ app image environment e.
      let answer = docker_start h network app image environment e in (answer.0, (image, answer.1));
}

-- adapters: those that are configured, or else the built-in ones.
abbrev pub adapters :
    {E : Type 0} → List (String × Adapter E) → Adapter E → Adapter E → List (String × Adapter E)
adapters [] docker apple = ("docker", docker) ∷ ("apple", apple) ∷ []
adapters (a ∷ configured) docker apple = a ∷ configured

unfoldable pub adapter_named :
    {E : Type 0} → String → List (String × Adapter E) → Option (Adapter E)
adapter_named name [] = none
adapter_named name (a ∷ as_) = if a.0 =s= name then some a.1 else adapter_named name as_

module _ {E : Type 0} (w : Workshop E) (app : Application) (known : List (String × Adapter E)) where
  -- Available, where every adapter counts as ready.
  abbrev pub available : String → Bool
  available name = w.runtime_ready name || any (λ (a : String × Adapter E). a.0 =s= name) known

  abbrev pub configured_adapter : String → Option (Adapter E) → Got (Adapter E)
  configured_adapter name none =
      missed (unclassified ("runtime adapter " +s+ quoted name +s+ " is not configured"))
  configured_adapter name (some a) = got a

  abbrev pub adapter_for : Selection → Got (Adapter E)
  adapter_for (refused why) = missed (unclassified why)
  adapter_for (selected name) = configured_adapter name (adapter_named name known)

  -- adapter, with the choice of the runtime
  abbrev pub adapter : Got (Adapter E)
  adapter = adapter_for (select_runtime (wanted_runtime app.runtime w.host_runtime) available)
