-- ===== src/App/Retention.antt =====
-- internal/app/operations.go: runRetention, which drops old jobs with their images and logs.
pub mod Spared
mod Tests
use mini_dock.Prelude.{
  ℕ, ◌-◌, ◌*◌, String, Bool, true, false, not, ◌&&◌, Option, none, some, List, [], ◌∷◌, ◌=s=◌, ltb,
  if◌then◌else◌,
}
use mini_dock.Prelude.Rows.{sort_by}
use mini_dock.Store.Tables.{second, Application, Deployment, Store, is_successful}
use mini_dock.Store.Releases.{retention_candidates}
use mini_dock.Store.Endings.{delete_deployments}
use mini_dock.Deploy.Failures.{Failure}

-- What removes images and logs, with SQLite's order of names. `log_path` is deploymentLogPath, none for a path outside of the
-- directory of logs; a log that does not exist counts as removed.
pub record Janitor (E : Type 0) : Type 0 where
  pub name_le : String → String → Bool
  pub remove_image : Application → String → E → E × Option Failure
  pub log_path : String → Option String
  pub remove_log : String → E → E × Option Failure

-- retentionDays and retainedImages
abbrev pub retention_days : ℕ → ℕ
retention_days configured = if ltb 0 configured then configured else 30

abbrev pub retained_images : ℕ → ℕ
retained_images configured = if ltb 0 configured then configured else 3

module _ {E : Type 0} (j : Janitor E) where
  abbrev pub log_removed : E × Option Failure → E × Bool
  log_removed (e, none) = (e, true)
  log_removed (e, some f) = (e, false)

  abbrev pub without_log : Option String → E → E × Bool
  without_log none e = (e, false)
  without_log (some path) e = log_removed (j.remove_log path e)

  abbrev pub after_image : Deployment → E × Option Failure → E × Bool
  after_image d (e, some f) = (e, false)
  after_image d (e, none) = without_log (j.log_path d.log_path) e

  -- Whether the image and the log of a candidate are gone.
  abbrev pub swept : Application → Deployment → E → E × Bool
  swept app d e =
      if is_successful d.status && not (d.image =s= "")
      then after_image d (j.remove_image app d.image e)
      else without_log (j.log_path d.log_path) e

  -- The loop over the candidates, with the ids of those that are gone.
  unfoldable pub swept_ids : Application → List Deployment → E → E × List ℕ
  swept_ids app [] e = (e, [])
  swept_ids app (d ∷ ds) e =
      let one = swept app d e in
      let rest = swept_ids app ds one.0 in if one.1 then (rest.0, d.id ∷ rest.1) else rest

  abbrev pub retain_application : ℕ → ℕ → Application → Store × E → Store × E
  retain_application before retain app (s, e) =
      let answer = swept_ids app (retention_candidates s app.id before retain) e in
      (delete_deployments s app.id answer.1, answer.0)

  abbrev pub retain_applications : ℕ → ℕ → List Application → Store × E → Store × E
  retain_applications before retain [] x = x
  retain_applications before retain (app ∷ apps) x =
      retain_applications before retain apps (retain_application before retain app x)

  -- runRetention, at `now`, in the order in which Applications lists them; the database does not fail
  -- here.
  unfoldable pub run_retention : ℕ → ℕ → ℕ → Store × E → Store × E
  run_retention now days images x =
      retain_applications (now - retention_days days * (86_400 * second)) (retained_images images)
        (sort_by (λ (a : Application) b. j.name_le a.name b.name) x.0.applications) x
