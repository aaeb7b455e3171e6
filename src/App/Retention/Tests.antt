-- ===== src/App/Retention/Tests.antt =====
-- A retention of the sample jobs.
use mathlib.Core.List.{Memᴰ}
use mini_dock.Prelude.{ℕ, ◌+◌, ◌-◌, ◌*◌, ◌⊎◌, refl, true, none, some}
use mini_dock.Store.Tables.{second}
use mini_dock.Store.Samples.{jobs, jobs-IsValid, old_release}
use mini_dock.Store.Releases.Retention.{MayDrop}
use mini_dock.Store.Releases.Dropped.{newer_successes}
use mini_dock.App.Retention.{Janitor, run_retention, retention_days, retained_images}
use mini_dock.App.Retention.Spared.{run_retention-spares}

-- It counts what it removes.
abbrev counting_janitor : Janitor ℕ
counting_janitor = record {
  name_le = λ a b. true;
  remove_image = λ app image n. (n + 1, none);
  log_path = λ path. some path;
  remove_log = λ path n. (n + 1, none);
}

-- At that time the jobs that have ended before 100 are older than one day.
abbrev next_day : ℕ
next_day = 86_400 * second + 100

run_retention-spares_example :
    Memᴰ old_release (run_retention counting_janitor next_day 1 1 (jobs, 0)).0.deployments
    ⊎ MayDrop
        (next_day - retention_days 1 * (86_400 * second))
        (retained_images 1)
        (newer_successes old_release.application_id jobs old_release)
        old_release
run_retention-spares_example =
    run_retention-spares counting_janitor next_day 1 1 jobs 0 old_release jobs-IsValid.distinct
      (Memᴰ.tail (Memᴰ.tail (Memᴰ.tail (Memᴰ.head refl))))
