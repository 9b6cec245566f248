-- ===== src/Deployment/Tests.antt =====
-- Runs of the deployment path on small inputs. The world counts the calls that change something.
use uscs.Common.{ℕ, zero, suc, ◌+◌, ◌≡◌, ◌⊎◌, refl, String, true, false, Option, none, some, []}
use uscs.Contracts.{
  EngineStatus, running, succeeded, failed, degraded, not_configured, ProviderRef, OperationRef,
  container, AdapterResult, ok, err,
}
use uscs.Io.{Io, returns, pure}
use uscs.Deployment.Engine.{
  AdapterContext, DeploymentState, HostingAdapter, ServerlessAdapter, DeploymentEngine,
  RouterEngines, TargetInput, image, deployment_engine_for, container_deployment_engine,
  serverless_deployment_engine,
}
use uscs.Deployment.Engine.Routing.{IsStandIn}
use uscs.Deployment.Build.{
  BuildArtifact, BuildEngine, BuildStepDeps, poll, polled, to_serverless_artifact, run_build_step,
}
use uscs.Deployment.Build.Run.{Reported, poll_built}
use uscs.Deployment.Execute.{run_on, deploy_to}
use uscs.Deployment.Execute.Runs.{confirm, confirmed_as}
use uscs.Deployment.Execute.Input.{
  DeploymentTarget, StoredDeploymentHandle, ExecuteDeploymentInput, DeploymentExecutionResult,
  DeploymentExecutionWrites, DeploymentExecutorDeps, create_action, production, refused, handle_of,
}
use uscs.Deployment.Execute.Resume.{
  redelivered, run_on-redelivered, unbuilt_not_deployed, Vouched, confirm-Vouched,
}
use uscs.Deployment.Job.{StatusUpdate, DeploymentJobPayload, DeploymentJobOutcomeWriter}
use uscs.Deployment.Sweep.{StrandedDeployment, DeploymentReconcilerDeps, Settled, settle_one}
use uscs.Deployment.Sweep.Honesty.{of_run, Young, written, Honest, settle_one-Honest}

abbrev ref : String → ProviderRef
ref type = record {
  organization_id = "org-1";
  provider = "coolify";
  resource_type = type;
  resource_id = "r-1";
}

abbrev operation : OperationRef
operation = record { job_id = "job-9"; provider_ref = ref "deployment" }

abbrev state : EngineStatus → DeploymentState
state status = record {
  ref = ref "deployment";
  status = status;
  url = some "https://app.test";
  reason = none;
}

abbrev ctx : AdapterContext
ctx = record { organization_id = "org-1"; idempotency_key = "k1"; timeout_ms = 30000 }

-- Deployments are counted; a read answers `status`.
abbrev hosting : EngineStatus → HostingAdapter ℕ
hosting status = record {
  create_application = λ c i w. (returns (ok succeeded operation), suc w);
  deploy = λ c r w. (returns (ok running operation), suc w);
  get_deployment = λ c r. pure (ok succeeded (state status));
  cancel_deployment = λ c r w. (returns (ok succeeded tt), suc w);
  rollback = λ c r commit w. (returns (ok running operation), suc w);
  get_logs = λ c r cursor. pure (ok succeeded record { lines = []; cursor = none });
  delete_application = λ c r w. (returns (ok succeeded tt), suc w);
}

abbrev stand_in : ServerlessAdapter ℕ
stand_in = record {
  is_not_configured = true;
  create_function = λ c n a. pure (err not_configured "no credential");
  deploy = λ c r a p. pure (err not_configured "no credential");
  get_deployment = λ c r. pure (err not_configured "no credential");
  delete_function = λ c r. pure (err not_configured "no credential");
  get_logs = λ c r cursor. pure (err not_configured "no credential");
}

abbrev engines : EngineStatus → RouterEngines ℕ
engines status = record { hosting = hosting status; serverless = stand_in }

declines : IsStandIn stand_in
declines = record {
  marked = refl;
  creates = λ c n a w. ("no credential", refl);
  deploys = λ c r a p w. ("no credential", refl);
  reads = λ c r w. ("no credential", refl);
  deletes = λ c r w. ("no credential", refl);
  logs = λ c r cursor w. ("no credential", refl);
}

abbrev target_input : TargetInput
target_input = record {
  name = "shop";
  git_repository = some "https://git.test/shop";
  git_branch = some "main";
  build_pack = none;
  root_directory = none;
  artifact = none;
}

-- A builder that is done at world 2; sleeping is what moves the world.
abbrev artifact_at : ℕ → AdapterResult BuildArtifact
artifact_at zero = err degraded "building"
artifact_at (suc zero) = err degraded "building"
artifact_at (suc (suc n)) =
    ok succeeded record { image = some "registry/app:1"; bucket = none; functions = none }

abbrev builder : BuildEngine ℕ
builder = record {
  build = λ c r. pure (err failed "the source does not build");
  get_artifact = λ c r w. (returns (artifact_at w), w);
}

abbrev step : BuildStepDeps ℕ
step = record {
  build = builder;
  poll_interval_ms = none;
  max_polls = none;
  sleep = λ ms w. (returns tt, suc w);
  on_build_started = none;
  decimal = λ n. "2";
}

poll_built_example : Reported step ctx (ref "build") 5 (image "registry/app:1") (ref "build") 0 2
unfolding poll polled to_serverless_artifact
poll_built_example =
    poll_built step ctx (ref "build") 5 (image "registry/app:1") (ref "build") 0 2 refl

abbrev stored : EngineStatus → StoredDeploymentHandle
stored status = record {
  status = status;
  provider_resource_id = some "app-1";
  deployment_resource_id = some "run-1";
}

abbrev read_row : String → String → Io ℕ (Option StoredDeploymentHandle)
read_row o d = pure (some (stored running))

abbrev target : Option String → DeploymentTarget
target id = record {
  provider = some "coolify";
  provider_resource_id = id;
  execution_model = container;
  root_directory = none;
}

abbrev writes : DeploymentExecutionWrites ℕ
writes = record {
  get_project_target = λ o p. pure (some (target (some "app-1")));
  set_project_provider = λ o p a b w. (returns tt, suc w);
  get_preview_target = λ o p k. pure none;
  set_preview_provider = λ o p k a b w. (returns tt, suc w);
  get_deployment = some read_row;
  mark_in_flight = none;
  mark_build_handle = none;
  list_environments = none;
}

abbrev executor : DeploymentExecutorDeps ℕ
executor = record {
  engines = engines succeeded;
  build = builder;
  writes = writes;
  env_vars = none;
  sleep = λ ms w. (returns tt, suc w);
  decimal = λ n. "2";
}

abbrev request : ExecuteDeploymentInput
request = record {
  organization_id = "org-1";
  project_id = "project-1";
  project_slug = "shop";
  deployment_id = "deployment-1";
  idempotency_key = "k1";
  action = create_action;
  git_repository = some "https://git.test/shop";
  git_branch = some "main";
  build_pack = none;
  root_directory = none;
  commit = none;
  timeout_ms = 30000;
  kind = production;
  preview_key = none;
  environment_id = none;
}

abbrev coolify : DeploymentEngine ℕ
coolify = container_deployment_engine (hosting succeeded)

abbrev functions : DeploymentEngine ℕ
functions = serverless_deployment_engine stand_in

run_on-redelivered_example :
    run_on executor request coolify none none (some (ref "application")) 7
    ≡ redelivered executor request coolify none none
        (some (ref "application"))
        (stored running)
        "run-1"
        7
run_on-redelivered_example =
    run_on-redelivered executor request coolify none none (some (ref "application"))
      (stored running) "run-1" read_row 7 7 refl refl refl

unbuilt_not_deployed_example :
    deploy_to executor request functions none (ref "function") 7
    ≡ (returns (refused (handle_of none) failed (some "r-1") "the source does not build"), 7)
unfolding run_build_step serverless_deployment_engine
unbuilt_not_deployed_example =
    unbuilt_not_deployed executor request functions none (ref "function")
      "the source does not build" 7 7 refl refl

confirm-Vouched_example :
    ((m : String) × (◌≡◌ {A = AdapterResult OperationRef} (ok running operation) (err succeeded m)))
    ⊎ Vouched executor request coolify (ok running operation) succeeded 7
unfolding confirm confirmed_as container_deployment_engine
confirm-Vouched_example =
    confirm-Vouched executor request coolify (ok running operation) (some "app-1") none 7 7
      record {
        status = succeeded;
        url = some "https://app.test";
        provider_resource_id = some "app-1";
        deployment_resource_id = some "r-1";
        build_provider_resource_id = none;
        build_provider = none;
        reason = none;
      }
      refl

abbrev outcome : DeploymentJobOutcomeWriter ℕ
outcome = record {
  update_status = λ u w. (returns tt, w + 1);
  promote = λ o p d w. (returns tt, w + 10);
  record_usage = λ o m n w. (returns tt, w + 100);
}

abbrev reconciler : EngineStatus → DeploymentReconcilerDeps ℕ
reconciler status = record {
  engines = engines status;
  list_stranded = λ cutoff limit. pure [];
  get_project_target = λ o p. pure (some container);
  outcome = outcome;
  stale_after_ms = none;
  hard_ceiling_ms = none;
  limit = none;
  timeout_ms = none;
  iso = λ t. "now";
  decimal = λ n. "60";
}

abbrev stranded : StrandedDeployment
stranded = record {
  id = "deployment-1";
  organization_id = "org-1";
  project_id = "project-1";
  status = running;
  provider_resource_id = some "app-1";
  deployment_resource_id = some "run-1";
  created_at = some 1000;
  kind = production;
  staged = false;
}

settle_one-Honest_example :
    ((settle_one (reconciler succeeded) stranded 9000 0 ≡ (returns false, 0))
      × Young (reconciler succeeded) stranded 9000 stranded.created_at)
    ⊎ ((update : StatusUpdate) × (settle_one (reconciler succeeded) stranded 9000 0
          ≡ written (reconciler succeeded) stranded 9000 update 0)
        × (update.id ≡ "deployment-1")
        × (update.organization_id ≡ "org-1")
        × Honest
            (reconciler succeeded)
            stranded
            9000
            (some (ok succeeded (state succeeded)))
            update.status
            update.url)
unfolding deployment_engine_for container_deployment_engine
settle_one-Honest_example =
    settle_one-Honest (reconciler succeeded) stranded 9000 0 0
      (some (ok succeeded (state succeeded))) (of_run refl refl refl)

abbrev payload : DeploymentJobPayload
payload = record {
  deployment_id = "deployment-1";
  organization_id = "org-1";
  project_id = "project-1";
  action = create_action;
  project_slug = "shop";
  git_repository = none;
  git_branch = none;
  build_pack = none;
  root_directory = none;
  commit = none;
  kind = none;
  staged = none;
  environment_id = none;
  preview_key = none;
}

abbrev success : DeploymentExecutionResult
success = record {
  status = succeeded;
  url = some "https://app.test";
  provider_resource_id = some "app-1";
  deployment_resource_id = some "run-1";
  build_provider_resource_id = none;
  build_provider = none;
  reason = none;
}

abbrev settled : Settled
settled = record { status = succeeded; url = some "https://app.test"; reason = none }
