-- ===== src/Deploy/Release/Tests.antt =====
-- A release on a host in memory, and the files of a small workspace.
use mini_dock.Prelude.Characters.{is_blank, all_hex}
use mini_dock.Prelude.{
  ◌≡◌, refl, String, Bool, true, false, none, some, [], arith, ◌=s=◌, =s=_refl, eq_iff,
  if◌then◌else◌, Bool-cases, inl, inr,
}
use mini_dock.Prelude.Decimal.{decimal, digits}
use mini_dock.Runtime.Templates.{template_for}
use mini_dock.Deploy.Failures.{unclassified, select_runtime}
use mini_dock.Deploy.Host.{Kept}
use mini_dock.Deploy.Containers.{primary, candidate, wait_polls}
use mini_dock.Deploy.Arguments.{run_docker_container, validate_docker_container_security_args}
use mini_dock.Deploy.Switch.{docker_start, stage_release, switch_route}
use mini_dock.Deploy.Switch.Names.{texts_differ}
use mini_dock.Deploy.Memory.{apps_network, upstream, memory_host-IsDocker, serving, sick}
use mini_dock.Deploy.Adapters.{docker_adapter, adapters, adapter_named}
use mini_dock.Deploy.Building.{all_name_chars}
use mini_dock.Deploy.Source.{
  present, absent, Workshop, prepared_source, clone_environment, local_repository_path,
}
use mini_dock.Deploy.Failures.{Got, got, missed}
use mini_dock.Deploy.Release.{deploy, packaged, generated_dockerfile, no_result}
use mini_dock.Deploy.Release.Untouched.{deploy-Kept}
use mini_dock.Deploy.Release.Cleaned.{KeepsFiles, SameFiles, packaged-SameFiles}
use mini_dock.Deploy.Release.Memory.{
  workshop, memory_workshop, memory_workshop-LeavesContainers, idle_adapter, plain, site_app,
  unhealthy,
}
use mini_dock.Deploy.Release.Untouched.{rollback-Kept}
use mini_dock.Deploy.Release.{rollback}
use mini_dock.Deploy.Memory.{good}

deploy_fails :
    (deploy memory_workshop site_app
      (adapters [] (docker_adapter sick apps_network) idle_adapter)
      plain
      serving).1.1
    ≡ some unhealthy
unfolding deploy packaged generated_dockerfile prepared_source clone_environment
    local_repository_path select_runtime adapter_named all_name_chars all_hex docker_start
    stage_release switch_route wait_polls run_docker_container
    validate_docker_container_security_args template_for decimal digits is_blank
deploy_fails = refl

deploy-Kept_example :
    Kept sick
      (primary site_app)
      serving
      (deploy memory_workshop site_app
        (adapters [] (docker_adapter sick apps_network) idle_adapter)
        plain
        serving).0
deploy-Kept_example =
    deploy-Kept memory_workshop sick upstream (memory_host-IsDocker "unhealthy" none)
      (memory_workshop-LeavesContainers "unhealthy" none) apps_network site_app serving idle_adapter
      plain unhealthy (primary site_app) deploy_fails refl
      (texts_differ (primary site_app) (candidate site_app) refl)

rollback_fails :
    (rollback memory_workshop site_app
      (adapters [] (docker_adapter sick apps_network) idle_adapter)
      "shop:2"
      plain
      serving).1.1
    ≡ some unhealthy
unfolding rollback select_runtime adapter_named docker_start stage_release switch_route wait_polls
    run_docker_container validate_docker_container_security_args template_for decimal digits
    is_blank
rollback_fails = refl

rollback-Kept_example :
    Kept sick
      (primary site_app)
      serving
      (rollback memory_workshop site_app
        (adapters [] (docker_adapter sick apps_network) idle_adapter)
        "shop:2"
        plain
        serving).0
rollback-Kept_example =
    rollback-Kept memory_workshop sick upstream (memory_host-IsDocker "unhealthy" none)
      (memory_workshop-LeavesContainers "unhealthy" none) apps_network site_app serving idle_adapter
      "shop:2" plain unhealthy (primary site_app) rollback_fails refl
      (texts_differ (primary site_app) (candidate site_app) refl)

deploy_serves :
    (deploy memory_workshop site_app
      (adapters [] (docker_adapter good apps_network) idle_adapter)
      plain
      serving).1.1
    ≡ none
unfolding deploy packaged generated_dockerfile prepared_source clone_environment
    local_repository_path select_runtime adapter_named all_name_chars all_hex docker_start
    stage_release switch_route wait_polls run_docker_container
    validate_docker_container_security_args template_for decimal digits is_blank
deploy_serves = refl

rollback_serves :
    (rollback memory_workshop site_app
      (adapters [] (docker_adapter good apps_network) idle_adapter)
      "shop:2"
      plain
      serving).1.1
    ≡ none
unfolding rollback select_runtime adapter_named docker_start stage_release switch_route wait_polls
    run_docker_container validate_docker_container_security_args template_for decimal digits
    is_blank
rollback_serves = refl

-- Files by their paths.
abbrev Files : Type 0
Files = String → Bool

abbrev with_file : String → Bool → Files → Files
with_file path there e = λ other. if other =s= path then there else e other

abbrev created : Files → Files × Got String
created e =
    if e "tmp" then (e, missed (unclassified "exists")) else (with_file "tmp" true e, got "tmp")

abbrev file_workshop : Workshop Files
file_workshop =
    workshop (λ e path. if e path then present else absent)
      (λ path e. (with_file path true e, none)) (λ path e. with_file path false e)
      (λ pattern e. created e)

file_workshop-KeepsFiles : KeepsFiles file_workshop idle_adapter site_app
file_workshop-KeepsFiles = record {
  write_other = λ path contents e other ne. ground (arith, eq_iff other path);
  remove_other = λ path e other ne. ground (arith, eq_iff other path);
  remove_removes = λ path e. ground (arith, =s=_refl path);
  create_none = λ pattern e f other made. ground arith;
  create_new = λ pattern e name made. elim (Bool-cases (e "tmp")) [
    | inl there ↦ absurd (let h : missed _ ≡ got name = rw there at made in cc)
    | inr free ↦
        let same : "tmp" ≡ name = (let h : got "tmp" ≡ got name = rw free at made in cc) in
        rw⁻¹ same (refl, rw free refl, λ other ne. ground (arith, eq_iff other "tmp"))
  ];
  fill_keeps = λ name contents e other. refl;
  build_keeps = λ command environment args e other. refl;
  start_keeps = λ image environment e other. refl;
}

abbrev no_files : Files
no_files path = false

packaged-SameFiles_example :
    SameFiles file_workshop no_files
      (packaged file_workshop site_app idle_adapter plain no_result "app" no_files).0
packaged-SameFiles_example =
    packaged-SameFiles file_workshop idle_adapter site_app file_workshop-KeepsFiles plain no_result
      "app" no_files (λ free. refl)
