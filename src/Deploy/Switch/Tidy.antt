-- ===== src/Deploy/Switch/Tidy.antt =====
-- internal/deploy/executor.go: runDockerContainer and the file with the environment of a release.
use mini_dock.Prelude.{
  ◌≡◌, refl, sym, ◌∙◌, ◌≢◌, String, Bool, true, false, Option, none, some, List, [], ◌∷◌, arith,
  ◌=s=◌, eq_iff, Bool-cases, inl, inr,
}
use mini_dock.Store.Tables.{Application}
use mini_dock.Deploy.Failures.{Failure, Got, got, missed}
use mini_dock.Deploy.Contract.{Values}
use mini_dock.Deploy.Host.{
  Host, DockerNetwork, make_env_directory, create_env_file, protect_env_file, write_env_file,
  close_env_file,
}
use mini_dock.Deploy.Building.{sorted_names}
use mini_dock.Deploy.EnvFile.{
  env_data, removed_file, abandoned_file, closed_file, filled_file, protected_file, created_file,
  in_directory, runtime_env_file,
}
use mini_dock.Deploy.Arguments.{run_validated, run_with_file, run_docker_container}

-- What is documented of the files in the directory of the logs: os.CreateTemp makes a new one, or
-- none where it fails, os.Remove removes it, and nothing else makes or removes one.
pub record IsDirectory {E : Type 0} (h : Host E) (there : E → String → Bool) : Type 0 where
  pub new_path_named : (e : E) → h.new_env_path e ≢ ""
  pub create_new :
      (path : String) (e : E) → (h.on_file (create_env_file path) e).1 ≡ none → there e path ≡ false
  pub create_other :
      (path other : String) (e : E)
      → other ≢ path
      → there (h.on_file (create_env_file path) e).0 other ≡ there e other
  pub create_fails :
      (path other detail : String) (e : E)
      → (h.on_file (create_env_file path) e).1 ≡ some detail
      → there (h.on_file (create_env_file path) e).0 other ≡ there e other
  pub remove_removes : (path : String) (e : E) → there (removed_file h path e) path ≡ false
  pub remove_other :
      (path other : String) (e : E)
      → other ≢ path
      → there (removed_file h path e) other ≡ there e other
  pub make_same :
      (path : String) (e : E) → there (h.on_file make_env_directory e).0 path ≡ there e path
  pub protect_same :
      (file path : String) (e : E)
      → there (h.on_file (protect_env_file file) e).0 path ≡ there e path
  pub write_same :
      (file text path : String) (e : E)
      → there (h.on_file (write_env_file file text) e).0 path ≡ there e path
  pub close_same :
      (file path : String) (e : E) → there (h.on_file (close_env_file file) e).0 path ≡ there e path
  pub docker_same :
      (args : List String) (path : String) (e : E) → there (h.docker args e).0 path ≡ there e path

module _ {E : Type 0} (h : Host E) (there : E → String → Bool) (laws : IsDirectory h there)
    (start : E) where
  -- The files are those of the start, and those but one.
  abbrev SameFiles : E → Type 0
  SameFiles e = (path : String) → there e path ≡ there start path

  abbrev SameOthers : String → E → Type 0
  SameOthers path e = (other : String) → other ≢ path → there e other ≡ there start other

  removed-SameFiles :
      (path : String) (e : E)
      → there start path ≡ false
      → SameOthers path e
      → SameFiles (removed_file h path e)
  removed-SameFiles path e free k other = elim (Bool-cases (other =s= path)) [
    | inl same ↦
        let is = (eq_iff other path).0 same in rw is (laws.remove_removes path e ∙ sym free)
    | inr differ ↦
        let ne : other ≢ path = (λ is. ground (arith, eq_iff other path)) in
        laws.remove_other path other e ne ∙ k other ne
  ]

  -- What runtimeEnvFile leaves: no file of its own, or the file at the path that it returns.
  data Left (r : E × (String × Option Failure)) : Type 0 where
    nothing : SameFiles r.0 → r.1.0 ≡ "" → Left r
    pending : r.1.0 ≢ "" → there start r.1.0 ≡ false → r.1.1 ≡ none → SameOthers r.1.0 r.0 → Left r

  module _ (path : String) (named : path ≢ "") (free : there start path ≡ false) where
    closed-Left :
        (write close : Option String) (e : E)
        → SameOthers path e
        → Left (closed_file h path write close e)
    closed-Left none none e k = pending named free refl k
    closed-Left none (some d) e k = nothing (removed-SameFiles path e free k) refl
    closed-Left (some d) close e k = nothing (removed-SameFiles path e free k) refl

    abandoned-SameFiles : (e : E) → SameOthers path e → SameFiles (abandoned_file h path e)
    abandoned-SameFiles e k =
        removed-SameFiles path _ free (λ other ne. laws.close_same path other e ∙ k other ne)

    filled-Left : (g : Got String) (e : E) → SameOthers path e → Left (filled_file h path g e)
    filled-Left (missed f) e k = nothing (abandoned-SameFiles e k) refl
    filled-Left (got text) e k =
        closed-Left _ _ _ (λ other ne.
          laws.close_same path other _ ∙ laws.write_same path text other e ∙ k other ne)

    protected-Left :
        (environment : Values) (x : E × Option String)
        → SameOthers path x.0
        → Left (protected_file h environment path x)
    protected-Left environment (e, some d) k = nothing (abandoned-SameFiles e k) refl
    protected-Left environment (e, none) k =
        filled-Left (env_data environment (sorted_names environment)) e k

  created-Left :
      (environment : Values) (path : String) (x : E × Option String)
      → path ≢ ""
      → (x.1 ≡ none → there start path ≡ false)
      → SameOthers path x.0
      → ((detail : String) → x.1 ≡ some detail → SameFiles x.0)
      → Left (created_file h environment path x)
  created-Left environment path (e, some d) named free k fails = nothing (fails d refl) refl
  created-Left environment path (e, none) named free k fails =
      protected-Left path named (free refl) environment (h.on_file (protect_env_file path) e)
        (λ other ne. laws.protect_same path other e ∙ k other ne)

  directory-Left :
      (environment : Values) (x : E × Option String)
      → SameFiles x.0
      → Left (in_directory h environment x)
  directory-Left environment (e, some d) k = nothing k refl
  directory-Left environment (e, none) k =
      let path = h.new_env_path e in
      created-Left environment path (h.on_file (create_env_file path) e) (laws.new_path_named e)
        (λ made. sym (k path) ∙ laws.create_new path e made)
        (λ other ne. laws.create_other path other e ne ∙ k other)
        (λ d failed other. laws.create_fails path other d e failed ∙ k other)

  runtime_env_file-Left : (environment : Values) → Left (runtime_env_file h environment start)
  unfolding runtime_env_file
  runtime_env_file-Left [] = nothing (λ path. refl) refl
  runtime_env_file-Left (v ∷ vs) =
      directory-Left (v ∷ vs) (h.on_file make_env_directory start)
        (λ path. laws.make_same path start)

  module _ (network : DockerNetwork) (app : Application) (image container : String) where
    validated-same :
        (args : List String) (e : E) (o : Option Failure) (path : String)
        → there (run_validated h network args e o).0 path ≡ there e path
    validated-same args e (some f) path = refl
    validated-same args e none path = laws.docker_same args path e

    with_file-SameFiles :
        (r : E × (String × Option Failure))
        → Left r
        → SameFiles (run_with_file h network app image container r).0
    with_file-SameFiles (e, (path, some f)) (nothing k is) = k
    with_file-SameFiles (e, (path, some f)) (pending named free fine k) = absurd cc
    with_file-SameFiles (e, (path, none)) (nothing k is) =
        let empty : (path =s= "") ≡ true = (eq_iff path "").1 is in
        rw empty (λ other. validated-same _ e _ other ∙ k other)
    with_file-SameFiles (e, (path, none)) (pending named free fine k) =
        let full : (path =s= "") ≡ false = ground (arith, eq_iff path "") in
        rw full
          (removed-SameFiles path _ free (λ other ne. validated-same _ e _ other ∙ k other ne))

    -- runDockerContainer leaves in the directory of the logs exactly the files that it found
    -- there, whichever step fails: the file with the environment of a release is never left
    -- behind. It holds where os.CreateTemp makes a new file, or none where it fails, os.Remove
    -- succeeds, and docker and the other calls make and remove no file there.
    pub run_docker_container-SameFiles :
        (environment : List (String × String)) (path : String)
        → there (run_docker_container h network app image environment container start).0 path
          ≡ there start path
    unfolding run_docker_container
    run_docker_container-SameFiles environment =
        with_file-SameFiles (runtime_env_file h environment start)
          (runtime_env_file-Left environment)
