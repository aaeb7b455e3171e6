-- ===== src/App/Worker/Tests.antt =====
-- A worker on the small database: its executor fails once the new container has been started.
use mini_dock.Prelude.{◌≡◌, refl, [], ◌∷◌, arith, ok}
use mini_dock.Prelude.Int.{pos}
use mini_dock.Prelude.Rows.{update_where, where_rows, count_where, sort_by, insert_by, row_at}
use mini_dock.Store.Tables.{Deployment, Store}
use mini_dock.Store.Jobs.{
  next_queued_deployment, claim_row, oldest_queued, claimed, with_deployments,
}
use mini_dock.Store.Samples.{
  next_id, next_id-IsAbove, old_release, new_release, waiting_job, running_job, jobs, jobs-IsValid,
}
use mini_dock.App.Configuration.{
  DeploymentConfiguration, restored, rollback_configuration, value_of, with_values, without_names,
  delete_name,
}
use mini_dock.App.Configuration.Restored.{expected_value, rollback_configuration_lem}
use mini_dock.Prelude.{List, any, false}
use mini_dock.Store.Tables.{is_queued}
use mini_dock.App.Worker.{queue_loop, Surroundings, run_next_deployment}
use mini_dock.App.Worker.Drained.{IsUndisturbed, queue_loop-drains}
use mini_dock.App.Worker.Ended.{HasEnded, run_next_deployment-HasEnded}
use mini_dock.App.Worker.Samples.{recorded, codec, configuration, surroundings}

abbrev job : Deployment
job = claimed 3_000_000 (pos 1) waiting_job

abbrev claimed_store : Store
claimed_store = with_deployments jobs (job ∷ running_job ∷ new_release ∷ old_release ∷ [])

claims_job : next_queued_deployment 3_000_000 jobs ≡ (claimed_store, ok job)
unfolding next_queued_deployment claim_row oldest_queued sort_by where_rows row_at update_where
    count_where insert_by
claims_job = refl

run_next_deployment-HasEnded_example :
    HasEnded 4
      (run_next_deployment next_id codec surroundings jobs).0
      (run_next_deployment next_id codec surroundings jobs).1
run_next_deployment-HasEnded_example =
    run_next_deployment-HasEnded next_id next_id-IsAbove codec surroundings jobs claimed_store job
      (ground arith) (ground arith) (ground arith) (ground arith) jobs-IsValid claims_job

abbrev restored_configuration : DeploymentConfiguration
restored_configuration = record configuration {
  runtime = ("MODE", "production") ∷ ("PASSWORD", "secret") ∷ [];
  public_runtime = recorded;
  configuration_digest = "sha256:00";
}

restores : rollback_configuration codec configuration "manifest" ≡ restored restored_configuration
unfolding rollback_configuration with_values without_names delete_name
restores = refl

rollback_configuration_example :
    (value_of "EXTRA" restored_configuration.runtime
      ≡ expected_value configuration recorded "EXTRA")
    × (value_of "EXTRA" restored_configuration.public_runtime ≡ value_of "EXTRA" recorded)
    × (restored_configuration.build_args ≡ configuration.build_args)
    × (restored_configuration.build_secrets ≡ configuration.build_secrets)
rollback_configuration_example =
    rollback_configuration_lem codec configuration restored_configuration "manifest" "EXTRA"
      recorded refl restores

-- A second tick finds the rollback that the failure of the first has queued.
abbrev two_ticks : List Surroundings
two_ticks = surroundings ∷ surroundings ∷ []

undisturbed : IsUndisturbed surroundings
undisturbed = record { quiet_during = ground arith; quiet_before_finish = tt }

queue_loop-drains_example :
    any
      (λ (d : Deployment). is_queued d.status)
      (queue_loop next_id codec jobs two_ticks).deployments
    ≡ false
unfolding count_where
queue_loop-drains_example =
    queue_loop-drains next_id next_id-IsAbove codec jobs two_ticks (undisturbed, (undisturbed, tt))
      jobs-IsValid (omega arith)
