-- ===== src/Deploy/EnvFile/Removed.antt =====
-- What runtimeEnvFile leaves: what its calls on files keep, and, where it fails, no file.
use mini_dock.Prelude.{String, Option, none, some, [], ◌∷◌}
use mini_dock.Deploy.Failures.{Got, got, missed}
use mini_dock.Deploy.Contract.{Values}
use mini_dock.Deploy.Host.{
  Host, FileCall, make_env_directory, create_env_file, protect_env_file, write_env_file,
  close_env_file, remove_env_file,
}
use mini_dock.Deploy.Building.{sorted_names}
use mini_dock.Deploy.EnvFile.{
  env_data, abandoned_file, closed_file, filled_file, protected_file, created_file, in_directory,
  runtime_env_file,
}

module _ {ℓ} {E : Type 0} (h : Host E) (P : E → Type ℓ)
    (on_file : (call : FileCall) (e : E) → P e → P (h.on_file call e).0) where
  abandoned-keeps : (path : String) (e : E) → P e → P (abandoned_file h path e)
  abandoned-keeps path e p = on_file (remove_env_file path) _ (on_file (close_env_file path) e p)

  closed-keeps :
      (path : String) (write close : Option String) (e : E)
      → P e
      → P (closed_file h path write close e).0
  closed-keeps path none none e p = p
  closed-keeps path none (some d) e p = on_file (remove_env_file path) e p
  closed-keeps path (some d) close e p = on_file (remove_env_file path) e p

  filled-keeps : (path : String) (g : Got String) (e : E) → P e → P (filled_file h path g e).0
  filled-keeps path (missed f) e p = abandoned-keeps path e p
  filled-keeps path (got text) e p =
      closed-keeps path _ _ _
        (on_file (close_env_file path) _ (on_file (write_env_file path text) e p))

  protected-keeps :
      (environment : Values) (path : String) (x : E × Option String)
      → P x.0
      → P (protected_file h environment path x).0
  protected-keeps environment path (e, some d) p = abandoned-keeps path e p
  protected-keeps environment path (e, none) p =
      filled-keeps path (env_data environment (sorted_names environment)) e p

  created-keeps :
      (environment : Values) (path : String) (x : E × Option String)
      → P x.0
      → P (created_file h environment path x).0
  created-keeps environment path (e, some d) p = p
  created-keeps environment path (e, none) p =
      protected-keeps environment path _ (on_file (protect_env_file path) e p)

  directory-keeps :
      (environment : Values) (x : E × Option String) → P x.0 → P (in_directory h environment x).0
  directory-keeps environment (e, some d) p = p
  directory-keeps environment (e, none) p =
      created-keeps environment _ _ (on_file (create_env_file _) e p)

  pub runtime_env_file-keeps :
      (environment : Values) (e : E) → P e → P (runtime_env_file h environment e).0
  unfolding runtime_env_file
  runtime_env_file-keeps [] e p = p
  runtime_env_file-keeps (v ∷ vs) e p = directory-keeps (v ∷ vs) _ (on_file make_env_directory e p)
