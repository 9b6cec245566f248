-- ===== src/Deployment/Job.antt =====
-- apps/worker/src/deployment-job.ts: the handler runs the executor, the applier writes the row.
-- `iso` prints an instant; a payload's field that an older job may lack is an option.
use Prim.Native.String.{◌++◌ as ◌<>◌}
use uscs.Common.{
  ℕ, String, Bool, true, false, Option, none, some, get_or_else, if◌then◌else◌, ◌===◌, ◌&&◌, not,
}
use uscs.Contracts.{EngineStatus, in_flight, is_success, status_text, AdapterResult, ok, err}
use uscs.Io.{Io, pure, ◌>>=◌, ◌>>◌, when}
use uscs.Queue.{Job}
use uscs.Processor.{JobContext}
use uscs.Deployment.Execute.{execute_deployment}
use uscs.Deployment.Execute.Input.{
  DeploymentAction, DeploymentKind, production, preview, ExecuteDeploymentInput,
  DeploymentExecutionResult, DeploymentExecutorDeps,
}

abbrev pub deployment_job_kind : String
deployment_job_kind = "deployments.execute"

pub record DeploymentJobPayload : Type 0 where
  pub deployment_id : String
  pub organization_id : String
  pub project_id : String
  pub action : DeploymentAction
  pub project_slug : String
  pub git_repository : Option String
  pub git_branch : Option String
  pub build_pack : Option String
  pub root_directory : Option String
  pub commit : Option String
  pub kind : Option DeploymentKind
  pub staged : Option Bool
  pub environment_id : Option String
  pub preview_key : Option String

-- The columns of a write that may leave them out: `none` leaves the column as it is.
pub record StatusUpdate : Type 0 where
  pub id : String
  pub organization_id : String
  pub status : EngineStatus
  pub url : Option String
  pub failure_reason : Option String
  pub provider_resource_id : Option String
  pub deployment_resource_id : Option (Option String)
  pub build_provider_resource_id : Option (Option String)
  pub build_provider : Option (Option String)
  pub started_at : String
  pub finished_at : Option String

pub record DeploymentJobOutcomeWriter (W : Type 0) : Type 0 where
  pub update_status : StatusUpdate → Io W (Unit {0})
  -- organization, project, deployment
  pub promote : String → String → String → Io W (Unit {0})
  -- organization, metric, quantity
  pub record_usage : String → String → ℕ → Io W (Unit {0})

abbrev pub is_settled : EngineStatus → Bool
is_settled status = not (in_flight status)

abbrev pub is_production : DeploymentKind → Bool
is_production production = true
is_production preview = false

abbrev pub input_of : DeploymentJobPayload → JobContext → ExecuteDeploymentInput
input_of payload ctx = record {
  organization_id = payload.organization_id;
  project_id = payload.project_id;
  project_slug = payload.project_slug;
  deployment_id = payload.deployment_id;
  idempotency_key = ctx.idempotency_key;
  action = payload.action;
  git_repository = payload.git_repository;
  git_branch = payload.git_branch;
  build_pack = payload.build_pack;
  root_directory = payload.root_directory;
  commit = payload.commit;
  timeout_ms = ctx.timeout_ms;
  kind = get_or_else payload.kind production;
  preview_key = payload.preview_key;
  environment_id = payload.environment_id;
}

-- What the handler makes of the executor's result, by its reason.
abbrev result_with :
    Option String → DeploymentExecutionResult → AdapterResult DeploymentExecutionResult
result_with none result =
    if is_success result.status
    then ok result.status result
    else if in_flight result.status
    then ok result.status result
    else err result.status ("Deployment ended " <> (status_text result.status <> "."))
result_with (some reason) result = err result.status reason

unfoldable pub job_result : DeploymentExecutionResult → AdapterResult DeploymentExecutionResult
job_result result = result_with result.reason result

unfoldable pub deployment_job_handler :
    {W : Type 0}
    → DeploymentExecutorDeps W
    → DeploymentJobPayload
    → JobContext
    → Io W (AdapterResult DeploymentExecutionResult)
deployment_job_handler deps payload ctx =
    execute_deployment deps (input_of payload ctx) >>= λ result. pure (job_result result)

module _ {W : Type 0} (outcome : DeploymentJobOutcomeWriter W) where
  unfoldable pub promote_live : DeploymentJobPayload → Io W (Unit {0})
  promote_live payload =
      when
        (is_production (get_or_else payload.kind production)
          && not (get_or_else payload.staged false))
        (outcome.promote payload.organization_id payload.project_id payload.deployment_id)

  abbrev pub success_row : DeploymentJobPayload → DeploymentExecutionResult → String → StatusUpdate
  success_row payload value finished = record {
    id = payload.deployment_id;
    organization_id = payload.organization_id;
    status = value.status;
    url = value.url;
    failure_reason = none;
    provider_resource_id = value.provider_resource_id;
    deployment_resource_id = some value.deployment_resource_id;
    build_provider_resource_id = some value.build_provider_resource_id;
    build_provider = some value.build_provider;
    started_at = finished;
    finished_at = if is_settled value.status then some finished else none;
  }

  abbrev failure_row : DeploymentJobPayload → EngineStatus → String → String → StatusUpdate
  failure_row payload status reason finished = record {
    id = payload.deployment_id;
    organization_id = payload.organization_id;
    status = status;
    url = none;
    failure_reason = some reason;
    provider_resource_id = none;
    deployment_resource_id = none;
    build_provider_resource_id = none;
    build_provider = none;
    started_at = finished;
    finished_at = if is_settled status then some finished else none;
  }

  unfoldable pub apply_result :
      DeploymentJobPayload → String → AdapterResult DeploymentExecutionResult → Io W (Unit {0})
  apply_result payload finished (ok _ value) =
      outcome.update_status (success_row payload value finished)
      >> when (is_success value.status)
          (promote_live payload >> outcome.record_usage payload.organization_id "deployments" 1)
  apply_result payload finished (err status reason) =
      outcome.update_status (failure_row payload status reason finished)

  unfoldable pub deployment_applier :
      (clock : W → ℕ) (iso : ℕ → String)
      → Job DeploymentJobPayload
      → AdapterResult DeploymentExecutionResult
      → Io W (Unit {0})
  deployment_applier clock iso job result w =
      if job.kind === deployment_job_kind
      then apply_result job.payload (iso (clock w)) result w
      else (pure tt) w
