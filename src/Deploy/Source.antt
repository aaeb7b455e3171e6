-- ===== src/Deploy/Source.antt =====
-- internal/deploy/executor.go: the source of a release, from the repository to a directory of the
-- workspace.
use text.Mathlib.Text.{starts_with}
use Prim.Native.String.{slice, len}
use mini_dock.Prelude.{
  ℕ, String, Bool, true, false, ◌&&◌, ◌||◌, not, Option, none, some, List, [], ◌∷◌, ◌==◌, ◌=s=◌,
  if◌then◌else◌,
}
use mini_dock.Prelude.Characters.{all_hex}
use mini_dock.Prelude.Decimal.{◌+s+◌}
use mini_dock.Store.Tables.{Application}
use mini_dock.Runtime.Detection.{Project}
use mini_dock.Deploy.Failures.{Failure, classified, unclassified, detail_of, Got, got, missed}
use mini_dock.Deploy.Contract.{Values}
use mini_dock.Deploy.Switch.{failing, ◌and_then◌}

abbrev pub then_got : {E A B : Type 0} → E × Got A → (A → E → E × Got B) → E × Got B
then_got (e, got a) go = go a e
then_got (e, missed f) go = (e, missed f)

abbrev pub classify : {A : Type 0} → String → String → Got A → Got A
classify stage code (got a) = got a
classify stage code (missed f) = missed (classified stage code (detail_of f))

abbrev pub got_after : {E A : Type 0} → A → E × Option Failure → E × Got A
got_after a (e, none) = (e, got a)
got_after a (e, some f) = (e, missed f)

abbrev pub is_got : {A : Type 0} → Got A → Bool
is_got (got a) = true
is_got (missed f) = false

-- os.Stat: no error, os.IsNotExist, or another error.
pub data Existence : Type 0 where
  present : Existence
  absent : Existence
  unreadable : Failure → Existence

abbrev pub is_present : Existence → Bool
is_present present = true
is_present absent = false
is_present (unreadable f) = false

abbrev pub is_absent : Existence → Bool
is_absent present = false
is_absent absent = true
is_absent (unreadable f) = false

-- The host's files and the commands of a build, with the configuration of the executor. `join` is
-- filepath.Join, and `https_host` the host of a URL if its scheme is https. A path that changes is
-- in the state, like a container.
pub record Workshop (E : Type 0) : Type 0 where
  pub workspace_path : String
  pub local_repositories_path : String
  -- no quota if it is 0 (or negative in the source)
  pub workspace_max_bytes : ℕ
  pub host_runtime : String
  pub runtime_ready : String → Bool
  pub join : String → String → String
  pub is_abs : String → Bool
  pub make_workspace : E → E × Option Failure
  pub stat : E → String → Existence
  pub eval_symlinks : E → String → Got String
  pub write_file : String → String → E → E × Option Failure
  pub remove_file : String → E → E
  -- a new file of the pattern, and writing and closing it
  pub create_temp : String → E → E × Got String
  pub fill_temp : String → String → E → E × Option Failure
  pub directory_size : E → String → Got ℕ
  pub directory_fingerprint : E → String → Got String
  -- git and the build, each with what it gets in its environment; `head` is "" where git fails
  pub git : Values → List String → E → E × Option Failure
  pub head : E → String → String
  pub build : String → Values → List String → E → E × Option Failure
  -- what docker inspect answers for an image and for a container, or ""
  pub image_id : E → String → String
  pub container_id : E → String → String
  pub installation_token : ℕ → Got String
  pub https_host : String → Option String
  pub base64 : String → String
  -- what runtime.Detect reads of a directory, and a template's Dockerfile with its port and endpoint
  pub project : E → String → Project
  pub dockerfile_text : String → ℕ → String → String
  pub unix_time : E → ℕ

-- isCommitSHA
abbrev pub is_commit_sha : String → Bool
is_commit_sha value = len value == 40 && all_hex value

abbrev pub trim_file_scheme : String → String
trim_file_scheme repository =
    if starts_with repository "file://" then slice repository 7 (len repository) else repository

-- A path is a directory or below it.
abbrev pub is_within : String → String → Bool
is_within path root = path =s= root || starts_with path (root +s+ "/")

module _ {E : Type 0} (w : Workshop E) where
  abbrev pub checked_path : Got String → Got String → Got String
  checked_path (missed f) path = missed f
  checked_path (got root) (missed f) = missed f
  checked_path (got root) (got path) =
      if is_within path root
      then got path
      else missed (unclassified "local repository is outside the configured root")

  -- LocalRepositoryPath of the configured root
  unfoldable pub local_repository_path : E → String → Got String
  local_repository_path e repository =
      if w.local_repositories_path =s= ""
      then missed (unclassified "local repository root is not configured")
      else checked_path (w.eval_symlinks e w.local_repositories_path)
          (w.eval_symlinks e (trim_file_scheme repository))

  -- ValidLocalRepository
  abbrev pub valid_local_repository : E → String → Bool
  valid_local_repository e repository = is_got (local_repository_path e repository)

  abbrev pub holds_git : E → Got String → Bool
  holds_git e (missed f) = false
  holds_git e (got path) = is_present (w.stat e (w.join path ".git"))

  -- LocalRepositoryIsGit
  abbrev pub local_repository_is_git : E → String → Bool
  local_repository_is_git e repository = holds_git e (local_repository_path e repository)

  abbrev pub is_local : String → Bool
  is_local repository = w.is_abs repository || starts_with repository "file://"

  module _ (app : Application) where
    abbrev pub with_host : String → Option String → Got Values
    with_host token none = missed (unclassified "GitHub App requires an HTTPS repository URL")
    with_host token (some host) = got (
        ("GIT_CONFIG_COUNT", "1")
        ∷ ("GIT_CONFIG_KEY_0", "http.https://" +s+ host +s+ "/.extraheader")
        ∷ ("GIT_CONFIG_VALUE_0", "AUTHORIZATION: basic " +s+ w.base64 ("x-access-token:" +s+ token))
        ∷ [])

    abbrev pub with_token : Got String → Got Values
    with_token (missed f) = missed f
    with_token (got token) = with_host token (w.https_host app.repository)

    -- cloneEnvironment
    unfoldable pub clone_environment : E → Got Values
    clone_environment e =
        if is_local app.repository
        then (if valid_local_repository e app.repository
            then got []
            else missed
                (unclassified "local repository is outside MINIDOCK_LOCAL_REPOSITORIES_PATH"))
        else if app.github_installation_id == 0
        then got []
        else with_token (w.installation_token app.github_installation_id)

    abbrev pub checkout_path : String
    checkout_path = w.join w.workspace_path app.name

    -- A commit is no remote branch, so it is fetched after the clone.
    abbrev pub clone_arguments : List String
    clone_arguments =
        if is_commit_sha app.branch
        then "clone" ∷ app.repository ∷ checkout_path ∷ []
        else "clone" ∷ "--branch" ∷ app.branch ∷ "--single-branch" ∷ app.repository ∷ checkout_path
          ∷ []

    abbrev pub cloned : Values → E → E × Option Failure
    cloned environment e =
        if is_absent (w.stat e (w.join checkout_path ".git"))
        then failing "source" "clone_failed" (w.git environment clone_arguments e)
        else (e, none)

    abbrev pub fetched : Values → E → E × Option Failure
    fetched environment e =
        failing "source" "fetch_failed"
          (w.git environment ("-C" ∷ checkout_path ∷ "fetch" ∷ "origin" ∷ app.branch ∷ []) e)

    abbrev pub checked_out : E → E × Option Failure
    checked_out e =
        failing "source" "checkout_failed"
          (w.git [] ("-C" ∷ checkout_path ∷ "checkout" ∷ "--force" ∷ "FETCH_HEAD" ∷ []) e)

    -- The directory of the repository: a local one that is no checkout is used in place.
    abbrev pub repository_at : Values → E → E × Got String
    repository_at environment e =
        if is_local app.repository && not (local_repository_is_git e app.repository)
        then (e, classify "source" "local_source_invalid" (local_repository_path e app.repository))
        else got_after checkout_path
            (cloned environment e and_then fetched environment and_then checked_out)

    -- The directory of the application in the repository, which must not lead out of it.
    abbrev pub work_directory : String → E → E × Got (String × String)
    work_directory repository e =
        let work = w.join repository app.work_dir in
        if is_within work repository then (e, got (repository, work)) else (
          e,
          missed (classified "source" "work_directory_invalid" "work directory escapes repository"),
        )

    abbrev pub authenticated : E → E × Got Values
    authenticated e = (e, classify "source" "authentication_failed" (clone_environment e))

    abbrev pub with_workspace : E × Option Failure → E × Got (String × String)
    with_workspace (e, some f) =
        (e, missed (classified "source" "workspace_unavailable" (detail_of f)))
    with_workspace (e, none) = then_got (then_got (authenticated e) repository_at) work_directory

    -- The start of Deploy's source stage: the repository and the directory to build.
    unfoldable pub prepared_source : E → E × Got (String × String)
    prepared_source e = with_workspace (w.make_workspace e)
