-- ===== src/Deployment/Execute.antt =====
-- `executeDeployment` of apps/worker/src/deployment-executor.ts. The store's reads and writes are
-- actions of `DeploymentExecutionWrites`; a method that may be absent there is an option here.
pub mod Input
pub mod Resume
pub mod Runs
use Prim.Native.String.{◌++◌ as ◌<>◌}
use uscs.Common.{
  ℕ, String, Bool, true, false, Option, none, some, List, get_or_else, if◌then◌else◌, ◌===◌, ◌&&◌,
  not, is_some,
}
use uscs.Contracts.{
  EngineStatus, failed, not_configured, in_flight, is_success, ProviderRef, OperationRef,
  ExecutionModel, container, serverless, AdapterResult, ok, err,
}
use uscs.Io.{Io, pure, ◌>>=◌, ◌>>◌, when, truthy}
use uscs.Deployment.Engine.{
  AdapterContext, DeploymentState, ServerlessArtifact, DeploymentEngine, TargetInput, RouterEngines,
  deployment_engine_for,
}
use uscs.Deployment.Build.{
  BuildStepDeps, BuildStepInput, BuildStepResult, built, no_artifact, run_build_step,
}
use uscs.Deployment.Execute.Input.{
  DeploymentTarget, PreviewTarget, StoredDeploymentHandle, StoredEnvironment,
  ExecuteDeploymentInput, DeploymentExecutionResult, DeploymentExecutionWrites,
  DeploymentExecutorDeps, rollback_action, create_action, context_of, application, preview_key_of,
  with_or, default_environment, resource_id_of, handle_of, BuildHandle, nothing_to_roll_back,
  refused,
}
use uscs.Deployment.Execute.Runs.{confirm, rollback, resume_running_deployment}

module _ {W : Type 0} (deps : DeploymentExecutorDeps W) (input : ExecuteDeploymentInput) where
  abbrev environment_id : Io W (Option String)
  environment_id = elim input.environment_id [
    | some id ↦ pure (some id)
    | none ↦ elim deps.writes.list_environments [
      | none ↦ pure none
      | some list ↦
          list input.organization_id input.project_id >>= λ es. pure (default_environment es)
    ]
  ]

  abbrev pub sync_with :
      Option (AdapterContext → ProviderRef → String → String → Io W (Unit {0}))
      → ExecutionModel
      → ProviderRef
      → Io W (Unit {0})
  sync_with (some sync) container app = environment_id >>= λ id. elim (truthy id) [
    | none ↦ pure tt
    | some id ↦ sync (context_of input) app input.project_id id
  ]
  sync_with _ _ app = pure tt

  abbrev on_build_started : Option (ProviderRef → Io W (Unit {0}))
  on_build_started = elim deps.writes.mark_build_handle [
    | none ↦ none
    | some mark ↦
        some (λ ref. mark input.organization_id input.deployment_id ref.provider ref.resource_id)
  ]

  abbrev pub build_deps : BuildStepDeps W
  build_deps = record {
    build = deps.build;
    poll_interval_ms = none;
    max_polls = none;
    sleep = deps.sleep;
    on_build_started = on_build_started;
    decimal = deps.decimal;
  }

  abbrev pub build_input : Option String → BuildStepInput
  build_input root_directory = record {
    organization_id = input.organization_id;
    idempotency_key = input.idempotency_key <> ":build";
    timeout_ms = input.timeout_ms;
    repository = input.git_repository;
    branch = input.git_branch;
    build_pack = input.build_pack;
    root_directory = root_directory;
  }

  abbrev pub deploy_built :
      DeploymentEngine W → ProviderRef → BuildStepResult → Io W DeploymentExecutionResult
  deploy_built engine app (no_artifact reason) =
      pure (refused (handle_of none) failed (some app.resource_id) reason)
  deploy_built engine app (built artifact ref) =
      engine.deploy (context_of input) app (some artifact) >>= λ d.
      confirm deps input engine d (some app.resource_id) (some ref)

  abbrev pub build_and_deploy :
      ExecutionModel
      → DeploymentEngine W
      → ProviderRef
      → Option String
      → Io W DeploymentExecutionResult
  build_and_deploy serverless engine app root =
      run_build_step build_deps (build_input root) >>= deploy_built engine app
  build_and_deploy container engine app root = engine.deploy (context_of input) app none >>= λ d.
      confirm deps input engine d (some app.resource_id) none

  -- From the application on: synchronise, build where the engine cannot, deploy.
  unfoldable pub deploy_to :
      DeploymentEngine W → Option String → ProviderRef → Io W DeploymentExecutionResult
  deploy_to engine root app =
      sync_with deps.env_vars engine.model app >> build_and_deploy engine.model engine app root

  abbrev record_target : Option String → ProviderRef → Io W (Unit {0})
  record_target (some key) app =
      deps.writes.set_preview_provider input.organization_id input.project_id key app.provider
        app.resource_id
  record_target none app =
      deps.writes.set_project_provider input.organization_id input.project_id app.provider
        app.resource_id

  abbrev application_name : Option String → String
  application_name (some key) = input.project_slug <> ("-" <> key)
  application_name none = input.project_slug

  abbrev target_input : Option String → Option String → TargetInput
  target_input key root_directory = record {
    name = application_name key;
    git_repository = input.git_repository;
    git_branch = input.git_branch;
    build_pack = input.build_pack;
    root_directory = root_directory;
    artifact = none;
  }

  abbrev created_as :
      DeploymentEngine W
      → Option String
      → Option String
      → AdapterResult OperationRef
      → Io W DeploymentExecutionResult
  created_as engine key root (err status reason) =
      pure (refused (handle_of none) status none reason)
  created_as engine key root (ok _ operation) =
      record_target key operation.provider_ref >> deploy_to engine root operation.provider_ref

  unfoldable pub create :
      DeploymentEngine W
      → Option String
      → Option String
      → Option ProviderRef
      → Io W DeploymentExecutionResult
  create engine key root (some app) = deploy_to engine root app
  create engine key root none =
      engine.ensure_target (context_of input) (target_input key root) >>= created_as engine key root

  -- What follows when nothing was resumed.
  abbrev pub first_attempt :
      DeploymentEngine W
      → Option String
      → Option String
      → Option ProviderRef
      → Option DeploymentExecutionResult
      → Io W DeploymentExecutionResult
  first_attempt engine key root app (some result) = pure result
  first_attempt engine key root app none = elim input.action [
    | rollback_action ↦ rollback deps input engine app (truthy input.commit)
    | create_action ↦ create engine key root app
  ]

  -- From the engine and the application on.
  unfoldable pub run_on :
      DeploymentEngine W
      → Option String
      → Option String
      → Option ProviderRef
      → Io W DeploymentExecutionResult
  run_on engine key root app =
      resume_running_deployment deps input engine app >>= first_attempt engine key root app

  abbrev pub root_of : Option DeploymentTarget → Option String
  root_of target = elim input.root_directory [
    | some dir ↦ some dir
    | none ↦ elim target [ none ↦ none | some t ↦ t.root_directory ]
  ]

  abbrev model_of : Option DeploymentTarget → ExecutionModel
  model_of target = with_or (λ t. t.execution_model) target container

  abbrev application_of : Option DeploymentTarget → Option ProviderRef
  application_of none = none
  application_of (some t) = application input.organization_id t.provider t.provider_resource_id

  abbrev pub preview_application_of : Option PreviewTarget → Option ProviderRef
  preview_application_of none = none
  preview_application_of (some t) =
      application input.organization_id t.provider t.provider_resource_id

  -- From the project's target on; the key is there for a preview.
  unfoldable pub route : Option String → Option DeploymentTarget → Io W DeploymentExecutionResult
  route (some key) target =
      deps.writes.get_preview_target input.organization_id input.project_id key >>= λ preview.
      run_on (deployment_engine_for deps.engines container) (some key) (root_of target)
        (preview_application_of preview)
  route none target =
      run_on (deployment_engine_for deps.engines (model_of target)) none (root_of target)
        (application_of target)

  unfoldable pub execute_deployment : Io W DeploymentExecutionResult
  execute_deployment =
      deps.writes.get_project_target input.organization_id input.project_id
      >>= route (preview_key_of input.kind input.preview_key)
