-- ===== src/Deployment/Execute/Runs.antt =====
-- deployment-executor.ts: resuming a run, reading a run back, and rolling back.
use uscs.Common.{String, Option, none, some, get_or_else, if◌then◌else◌, ◌===◌, ◌&&◌, not}
use uscs.Contracts.{
  EngineStatus, not_configured, in_flight, is_success, ProviderRef, OperationRef, AdapterResult, ok,
  err,
}
use uscs.Io.{Io, pure, ◌>>=◌, ◌>>◌}
use uscs.Deployment.Engine.{AdapterContext, DeploymentState, DeploymentEngine}
use uscs.Deployment.Execute.Input.{
  StoredDeploymentHandle, ExecuteDeploymentInput, DeploymentExecutionResult, DeploymentExecutorDeps,
  context_of, with_or, resource_id_of, handle_of, BuildHandle, nothing_to_roll_back, refused,
}

module _ {W : Type 0} (deps : DeploymentExecutorDeps W) (input : ExecuteDeploymentInput) where
  abbrev pub ctx : AdapterContext
  ctx = context_of input

  abbrev pub resumed_ref : Option ProviderRef → String → ProviderRef
  resumed_ref app handle = record {
    organization_id = input.organization_id;
    provider = with_or (λ a. a.provider) app "coolify";
    resource_type = "deployment";
    resource_id = handle;
  }

  abbrev pub resumed_as :
      StoredDeploymentHandle → String → AdapterResult DeploymentState → DeploymentExecutionResult
  resumed_as stored handle (err status reason) = record {
    status = status;
    url = none;
    provider_resource_id = stored.provider_resource_id;
    deployment_resource_id = some handle;
    build_provider_resource_id = none;
    build_provider = none;
    reason = some reason;
  }
  resumed_as stored handle (ok _ state) = record {
    status = state.status;
    url = state.url;
    provider_resource_id = stored.provider_resource_id;
    deployment_resource_id = some handle;
    build_provider_resource_id = none;
    build_provider = none;
    reason = state.reason;
  }

  abbrev pub resume_handle :
      DeploymentEngine W
      → Option ProviderRef
      → StoredDeploymentHandle
      → Option String
      → Io W (Option DeploymentExecutionResult)
  resume_handle engine app stored none = pure none
  resume_handle engine app stored (some handle) =
      if not (in_flight stored.status)
      then pure none
      else (engine.get_deployment ctx (resumed_ref app handle) >>= λ state.
          pure (some (resumed_as stored handle state)))

  abbrev pub resume_row :
      DeploymentEngine W
      → Option ProviderRef
      → Option StoredDeploymentHandle
      → Io W (Option DeploymentExecutionResult)
  resume_row engine app none = pure none
  resume_row engine app (some stored) =
      resume_handle engine app stored stored.deployment_resource_id

  abbrev pub resume_with :
      Option (String → String → Io W (Option StoredDeploymentHandle))
      → DeploymentEngine W
      → Option ProviderRef
      → Io W (Option DeploymentExecutionResult)
  resume_with none engine app = pure none
  resume_with (some read) engine app =
      read input.organization_id input.deployment_id >>= resume_row engine app

  unfoldable pub resume_running_deployment :
      DeploymentEngine W → Option ProviderRef → Io W (Option DeploymentExecutionResult)
  resume_running_deployment = resume_with deps.writes.get_deployment

  -- The state that is read back, over the status that the action itself gave.
  unfoldable pub confirmed_as :
      BuildHandle
      → String
      → Option String
      → EngineStatus
      → AdapterResult DeploymentState
      → DeploymentExecutionResult
  confirmed_as handle resolved run status (err _ _) = record {
    status = status;
    url = none;
    provider_resource_id = some resolved;
    deployment_resource_id = run;
    build_provider_resource_id = handle.build_provider_resource_id;
    build_provider = handle.build_provider;
    reason = none;
  }
  confirmed_as handle resolved run status (ok _ state) = record {
    status = state.status;
    url = state.url;
    provider_resource_id = some resolved;
    deployment_resource_id = run;
    build_provider_resource_id = handle.build_provider_resource_id;
    build_provider = handle.build_provider;
    reason =
        if not (is_success state.status) && not (in_flight state.status)
        then state.reason
        else none;
  }

  abbrev pub mark_in_flight : EngineStatus → String → Option String → Io W (Unit {0})
  mark_in_flight status resolved none = pure tt
  mark_in_flight status resolved (some run) = elim deps.writes.mark_in_flight [
    | none ↦ pure tt
    | some mark ↦ mark input.organization_id input.deployment_id status (some resolved) run
  ]

  abbrev run_of : ProviderRef → Option String
  run_of ref = if ref.resource_type === "deployment" then some ref.resource_id else none

  unfoldable pub confirm :
      DeploymentEngine W
      → AdapterResult OperationRef
      → Option String
      → Option ProviderRef
      → Io W DeploymentExecutionResult
  confirm engine (err status reason) provider_resource_id build_ref =
      pure (refused (handle_of build_ref) status provider_resource_id reason)
  confirm engine (ok status operation) provider_resource_id build_ref =
      let ref = operation.provider_ref in
      let resolved = get_or_else provider_resource_id ref.resource_id in
      mark_in_flight status resolved (run_of ref) >> engine.get_deployment ctx ref >>= λ state.
      pure (confirmed_as (handle_of build_ref) resolved (run_of ref) status state)

  unfoldable pub rollback :
      DeploymentEngine W → Option ProviderRef → Option String → Io W DeploymentExecutionResult
  rollback engine (some app) (some commit) =
      engine.rollback ctx app (some commit) >>= λ result. confirm engine result none none
  rollback engine app _ =
      pure (refused (handle_of none) not_configured (resource_id_of app) nothing_to_roll_back)
