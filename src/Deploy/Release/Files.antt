-- ===== src/Deploy/Release/Files.antt =====
-- internal/deploy/executor.go: the containers during the source stage and the writing of a
-- Dockerfile.
use mini_dock.Prelude.{String, not, ◌&&◌, Option, none, some, List, [], inl, inr, Bool-cases}
use mini_dock.Store.Tables.{Application}
use mini_dock.Deploy.Failures.{Failure}
use mini_dock.Deploy.Contract.{Values}
use mini_dock.Deploy.Host.{Host, Kept}
use mini_dock.Deploy.Switch.{failing, ◌and_then◌}
use mini_dock.Deploy.Switch.Chains.{Kept-trans}
use mini_dock.Deploy.Source.{
  Existence, present, absent, unreadable, Workshop, prepared_source, with_workspace, authenticated,
  repository_at, work_directory, cloned, then_got, got_after, is_within, is_local,
  local_repository_is_git, checkout_path, is_absent, clone_arguments,
}
use mini_dock.Deploy.Failures.{Got, got, missed}
use mini_dock.Deploy.Release.{generated_dockerfile, described, templated, filled, written}

-- Neither git nor a build nor a write to a file touches a container.
pub record LeavesContainers {E : Type 0} (w : Workshop E) (h : Host E) : Type 0 where
  pub make_workspace_keeps : (e : E) (name : String) → Kept h name e (w.make_workspace e).0
  pub git_keeps :
      (environment : Values) (args : List String) (e : E) (name : String)
      → Kept h name e (w.git environment args e).0
  pub build_keeps :
      (command : String) (environment : Values) (args : List String) (e : E) (name : String)
      → Kept h name e (w.build command environment args e).0
  pub write_keeps :
      (path contents : String) (e : E) (name : String)
      → Kept h name e (w.write_file path contents e).0
  pub remove_keeps : (path : String) (e : E) (name : String) → Kept h name e (w.remove_file path e)
  pub create_keeps :
      (pattern : String) (e : E) (name : String) → Kept h name e (w.create_temp pattern e).0
  pub fill_keeps :
      (path contents : String) (e : E) (name : String)
      → Kept h name e (w.fill_temp path contents e).0

module _ {E : Type 0} (w : Workshop E) (h : Host E) (leaves : LeavesContainers w h)
    (app : Application) (start : E) where
  abbrev AllKept : E → Type 0
  AllKept e = (name : String) → Kept h name start e

  moved : (e e' : E) → AllKept e → ((name : String) → Kept h name e e') → AllKept e'
  moved e e' k step name = Kept-trans h name start e e' (k name) (step name)

  -- The source stage.
  pub source_kept : (e : E) → AllKept e → AllKept (prepared_source w app e).0
  unfolding prepared_source
  source_kept e k = workspace (w.make_workspace e) (moved e _ k (leaves.make_workspace_keeps e))
    where
      git_step :
          (environment : Values) (args : List String) (code : String) (x : E × Option Failure)
          → AllKept x.0
          → AllKept (x and_then (λ e'. failing "source" code (w.git environment args e'))).0
      git_step environment args code (e', none) k' =
          moved e' _ k' (leaves.git_keeps environment args e')
      git_step environment args code (e', some f) k' = k'

      clone_step :
          (environment : Values) (e' : E) → AllKept e' → AllKept (cloned w app environment e').0
      clone_step environment e' k' =
          elim (Bool-cases (is_absent (w.stat e' (w.join (checkout_path w app) ".git")))) [
            | inl missing ↦
                rw missing (moved e' _ k' (leaves.git_keeps environment (clone_arguments w app) e'))
            | inr there ↦ rw there k'
          ]

      got_step :
          (x : E × Option Failure) → AllKept x.0 → AllKept (got_after (checkout_path w app) x).0
      got_step (e', none) k' = k'
      got_step (e', some f) k' = k'

      repository_step :
          (environment : Values) (e' : E)
          → AllKept e'
          → AllKept (repository_at w app environment e').0
      repository_step environment e' k' =
          elim (Bool-cases
            (is_local w app.repository && not (local_repository_is_git w e' app.repository))) [
              | inl in_place ↦ rw in_place k'
              | inr remote ↦ rw remote (
                  got_step _ (
                    git_step [] _ "checkout_failed" _ (
                      git_step environment _ "fetch_failed" (cloned w app environment e')
                        (clone_step environment e' k'))))
            ]

      work_step : (x : E × Got String) → AllKept x.0 → AllKept (then_got x (work_directory w app)).0
      work_step (e', missed f) k' = k'
      work_step (e', got repository) k' =
          elim (Bool-cases (is_within (w.join repository app.work_dir) repository)) [
            | inl inside ↦ rw inside k'
            | inr outside ↦ rw outside k'
          ]

      authenticated_step :
          (e' : E) (x : Got Values)
          → AllKept e'
          → AllKept (then_got (e', x) (repository_at w app)).0
      authenticated_step e' (got environment) k' = repository_step environment e' k'
      authenticated_step e' (missed f) k' = k'

      workspace : (x : E × Option Failure) → AllKept x.0 → AllKept (with_workspace w app x).0
      workspace (e', some f) k' = k'
      workspace (e', none) k' = work_step _ (authenticated_step e' (authenticated w app e').1 k')

  pub described_kept :
      (work : String) (e : E) → AllKept e → AllKept (generated_dockerfile w app work e).0
  unfolding generated_dockerfile
  described_kept work e k = by_existence (w.stat e (w.join work "Dockerfile"))
    where
      by_fill :
          (name : String) (x : E × Option Failure) → AllKept x.0 → AllKept (written w app name x).0
      by_fill name (e', none) k' = k'
      by_fill name (e', some f) k' = moved e' _ k' (leaves.remove_keeps name e')

      by_file : (text : String) (x : E × Got String) → AllKept x.0 → AllKept (filled w app text x).0
      by_file text (e', missed f) k' = k'
      by_file text (e', got name) k' =
          by_fill name (w.fill_temp name text e') (moved e' _ k' (leaves.fill_keeps name text e'))

      by_template : (text : Option String) → AllKept (templated w app e text).0
      by_template none = k
      by_template (some text) = by_file text _ (moved e _ k (leaves.create_keeps _ e))

      by_existence : (x : Existence) → AllKept (described w app work e x).0
      by_existence present = k
      by_existence (unreadable f) = k
      by_existence absent = by_template _
