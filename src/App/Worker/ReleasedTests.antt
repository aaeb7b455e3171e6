-- ===== src/App/Worker/ReleasedTests.antt =====
-- The worker and the executor on the small database and the host in memory.
use mini_dock.Prelude.{◌≡◌, refl, none, some, [], ◌∷◌, arith, ok}
use mini_dock.Prelude.Characters.{is_blank, all_hex}
use mini_dock.Prelude.Decimal.{decimal, digits}
use mini_dock.Prelude.Int.{pos}
use mini_dock.Prelude.Rows.{
  update_where, where_rows, count_where, find_where, sort_by, insert_by, row_at,
}
use mini_dock.Store.Tables.{successful, Deployment, Store}
use mini_dock.Store.Jobs.{
  next_queued_deployment, claim_row, oldest_queued, claimed, has_id, index_holds,
}
use mini_dock.Store.Lifecycle.{IsValid}
use mini_dock.Store.Samples.{
  next_id, next_id-IsAbove, blog, old_release, new_release, waiting_job, running_job, jobs,
}
use mini_dock.Deploy.Memory.{good, serving, upstream, memory_host-IsDocker, apps_network}
use mini_dock.Deploy.Release.Memory.{
  memory_workshop, memory_workshop-LeavesContainers, memory_workshop-LeavesRoutes, idle_adapter,
  plain, site_app,
}
use mini_dock.App.Configuration.{release_manifest}
use mini_dock.Deploy.Adapters.{adapter_named}
use mini_dock.Deploy.Arguments.{run_docker_container, validate_docker_container_security_args}
use mini_dock.Deploy.Building.{all_name_chars}
use mini_dock.Deploy.Containers.{wait_polls}
use mini_dock.Deploy.Failures.{select_runtime}
use mini_dock.Deploy.Network.{ensure_docker_network}
use mini_dock.Deploy.Release.{deploy, generated_dockerfile, packaged}
use mini_dock.Deploy.Source.{prepared_source, clone_environment, local_repository_path}
use mini_dock.Deploy.Switch.{docker_start, stage_release, switch_route}
use mini_dock.Runtime.Templates.{template_for}
use mini_dock.Store.Endings.{
  set_deployment_release_metadata, cancel_deployment, finish_deployment, set_deployment_failure,
  set_deployment_image, set_deployment_stage_durations,
}
use mini_dock.Store.Jobs.{deployment_cancellation_requested, heartbeat_deployment}
use mini_dock.Store.Lifecycle.{run, step}
use mini_dock.App.Worker.{Surroundings, run_next_deployment}
use mini_dock.App.Worker.Released.{with_executor, Released, run_next_deployment-Released}
use mini_dock.App.Worker.Samples.{surroundings, codec}

abbrev site_jobs : Store
site_jobs = record jobs { applications = site_app ∷ blog ∷ [] }

site_jobs-IsValid : IsValid site_jobs
unfolding index_holds
site_jobs-IsValid = record {
  one_active = refl;
  distinct = ground arith;
  coherent = ground arith;
  owned = ground arith;
}

abbrev site_surroundings : Surroundings
site_surroundings = record surroundings { configuration = λ app. (plain, none) }

abbrev job : Deployment
job = claimed 3_000_000 (pos 1) waiting_job

abbrev claimed_store : Store
claimed_store = record site_jobs {
  deployments = job ∷ running_job ∷ new_release ∷ old_release ∷ [];
}

claims_job : next_queued_deployment 3_000_000 site_jobs ≡ (claimed_store, ok job)
unfolding next_queued_deployment claim_row oldest_queued sort_by where_rows row_at update_where
    count_where insert_by
claims_job = refl

abbrev executed : Surroundings
executed = with_executor memory_workshop good apps_network idle_adapter serving site_surroundings

abbrev after_job : Store
after_job = (run_next_deployment next_id codec executed site_jobs).0

recorded :
    (d : Deployment) × (find_where (has_id 4) after_job.deployments ≡ some d)
    × (d.status ≡ successful)
unfolding find_where run_next_deployment next_queued_deployment deployment_cancellation_requested
    set_deployment_release_metadata deploy select_runtime adapter_named all_name_chars
    prepared_source clone_environment template_for docker_start is_blank run_docker_container
    validate_docker_container_security_args decimal release_manifest wait_polls generated_dockerfile
    packaged local_repository_path stage_release switch_route all_hex digits count_where insert_by
    row_at sort_by update_where where_rows cancel_deployment finish_deployment
    set_deployment_failure set_deployment_image set_deployment_stage_durations claim_row
    heartbeat_deployment oldest_queued run step ensure_docker_network
recorded = (_, refl, refl)

run_next_deployment-Released_example :
    Released memory_workshop good apps_network idle_adapter serving upstream
      (memory_host-IsDocker "healthy" none)
      (memory_workshop-LeavesContainers "healthy" none)
      memory_workshop-LeavesRoutes
      next_id
      codec
      site_surroundings
      claimed_store
      site_app
      job
unfolding find_where
run_next_deployment-Released_example =
    run_next_deployment-Released memory_workshop good apps_network idle_adapter serving upstream
      (memory_host-IsDocker "healthy" none) (memory_workshop-LeavesContainers "healthy" none)
      memory_workshop-LeavesRoutes next_id codec site_surroundings next_id-IsAbove site_jobs
      claimed_store job recorded.0 site_app (ground arith) (ground arith) (ground arith)
      (ground arith) site_jobs-IsValid claims_job refl refl recorded.1 recorded.2
