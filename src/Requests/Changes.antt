-- ===== src/Requests/Changes.antt =====
-- apps/api/src/procedures/deployments.ts: redeploying, cancelling, promoting and rolling back.
use Prim.Native.String.{◌++◌ as ◌<>◌}
use uscs.Common.{
  ℕ, String, Bool, false, not, ◌&&◌, Option, none, some, List, [], ◌∷◌, ◌===◌, if◌then◌else◌,
  is_some, trim, get_or_else,
}
use uscs.Contracts.{
  EngineStatus, failed, status_text, is_success, in_flight, ProviderRef, ExecutionModel, container,
  serverless, AdapterResult, ok, err,
}
use uscs.Io.{truthy}
use uscs.Api.Action.{
  invalid_input, conflict, engine_unavailable, Failure, value, Action, pure, raise, raise_if, ◌>>=◌,
  ◌>>◌,
}
use uscs.Api.Guard.{RequestContext}
use uscs.Api.Audit.{Meta, AuditEvent, optional_text, failure, found_or, event_of}
use uscs.Billing.{assert_within_budget}
use uscs.Deployment.Execute.Input.{rollback_action}
use uscs.Deployment.Engine.{AdapterContext, deployment_engine_for}
use uscs.Requests.Keys.{is_ref}
use uscs.Requests.Rows.{
  production, is_preview, Project, Deployment, DeploymentCreate, DeploymentUpdate, Promotion,
  DeploymentDeps, CreateInput, RequestResult,
}
use uscs.Requests.{
  from_io, deployment_not_found, permitted, idempotency_key, environment_id_for, replay,
  request_deployment, job_of,
}

pub record DeploymentChange : Type 0 where
  pub project_id : String
  pub deployment_id : String

pub record RedeployInput : Type 0 where
  pub project_id : String
  pub deployment_id : String
  pub idempotency_key : Option String

pub record RollbackInput : Type 0 where
  pub project_id : String
  pub commit : Option String
  pub idempotency_key : Option String

pub record CancelResult : Type 0 where
  pub deployment : Deployment
  pub engine_reason : Option String

pub record PromoteOutcome : Type 0 where
  pub deployment : Deployment
  pub previous_deployment_id : Option String

abbrev pub adapter_timeout_ms : ℕ
adapter_timeout_ms = 30000

abbrev pub hosting_provider : String
hosting_provider = "coolify"

abbrev pub serverless_provider : String
serverless_provider = "lambda"

abbrev pub provider_of : ExecutionModel → String
provider_of serverless = serverless_provider
provider_of container = hosting_provider

abbrev pub never_reached : String
never_reached = "This deployment never reached the hosting engine, so there was no build to cancel."

abbrev pub no_source : Failure
no_source =
    failure conflict
      "This deployment recorded no source to replay. Deploy with an explicit repository instead."

-- The request that replays a row's source.
abbrev pub replay_of : Project → Deployment → Option String → CreateInput
replay_of project source key = record {
  project_id = project.id;
  idempotency_key = truthy key;
  git_repository = truthy source.git_repository;
  git_branch = truthy source.git_branch;
  commit = none;
  build_pack = truthy source.build_pack;
  root_directory = truthy source.root_directory;
  kind = some source.kind;
  staged = source.staged;
  pull_request = source.pull_request;
}

-- The event of a change of a deployment.
abbrev pub deployment_event :
    RequestContext → Project → String → String → List (String × Meta) → AuditEvent
deployment_event ctx project event id metadata =
    event_of ctx project.organization_id event "deployment" id
      (("projectId", Meta.text project.id) ∷ metadata)

abbrev pub cannot_read : Failure
cannot_read = failure engine_unavailable "This deployment cannot read a deployment yet."

abbrev pub cannot_move : Failure
cannot_move = failure engine_unavailable "This deployment cannot move a production pointer yet."

abbrev pub never_live : Failure
never_live =
    failure conflict
      "Only a production deployment can be live. A preview has its own URL and is never promoted."

abbrev pub not_succeeded : Deployment → Failure
not_succeeded row =
    failure conflict (
      "Only a succeeded deployment can be promoted; this one is "
      <> (status_text row.status <> "."))

module _ {W : Type 0} (period_start : ℕ → ℕ) (ratio : ℕ → ℕ → ℕ) (precedes : String → String → Bool)
    (decimal : ℕ → String) (lower : String → String) (deps : DeploymentDeps W) where
  abbrev clock : Action W ℕ
  clock w = (value (deps.now w), w)

  -- A row of the project: one outside it does not exist for the caller.
  abbrev pub row_within : Project → Option Deployment → Action W Deployment
  row_within project none = raise deployment_not_found
  row_within project (some row) =
      if not (row.project_id === project.id) then raise deployment_not_found else pure row

  unfoldable pub read_row : RequestContext → Project → String → Action W Deployment
  read_row ctx project id = do
    get ← found_or deps.get_deployment cannot_read
    found ← get ctx.principal.user_id id
    row_within project found

  unfoldable pub redeploy_deployment : RequestContext → RedeployInput → Action W RequestResult
  unfolding permitted read_row request_deployment
  redeploy_deployment ctx input = do
    project ←
        permitted period_start ratio precedes decimal lower deps ctx input.project_id
          "deployment:create"
    source ← read_row ctx project input.deployment_id
    raise_if
        (not (is_some (truthy source.git_repository)) && not (is_some (truthy source.git_branch)))
        no_source
    request_deployment period_start ratio precedes decimal lower deps ctx
        (replay_of project source input.idempotency_key)

  abbrev update_of : Project → Deployment → EngineStatus → String → ℕ → Option ℕ → DeploymentUpdate
  update_of project row status reason started finished = record {
    id = row.id;
    organization_id = project.organization_id;
    status = status;
    url = row.url;
    failure_reason = some reason;
    provider_resource_id = row.provider_resource_id;
    deployment_resource_id = row.deployment_resource_id;
    started_at = started;
    finished_at = finished;
  }

  -- The engine would not cancel: the row keeps its status, with the engine's reason.
  unfoldable pub kept_row : Project → Deployment → String → Action W CancelResult
  kept_row project row reason = do
    now ← clock
    unchanged ← deps.update_deployment_status (update_of project row row.status reason now none)
    pure (record { deployment = get_or_else unchanged row; engine_reason = some reason })

  abbrev status_after : Option Deployment → EngineStatus
  status_after none = failed
  status_after (some row) = row.status

  -- The run is closed as `failed`.
  unfoldable pub closed_row : RequestContext → Project → Deployment → String → Action W CancelResult
  closed_row ctx project row reason = do
    started ← clock
    finished ← clock
    updated ←
        deps.update_deployment_status (update_of project row failed reason started (some finished))
    deps.record_audit_event (
        deployment_event ctx project "deployment.cancelled" row.id
          (("status", Meta.text (status_text (status_after updated))) ∷ []))
    pure (record { deployment = get_or_else updated row; engine_reason = some reason })

  abbrev run_ref : Project → String → ProviderRef
  run_ref project run = record {
    organization_id = project.organization_id;
    provider = provider_of (deployment_engine_for deps.engines project.execution_model).model;
    resource_type = "deployment";
    resource_id = run;
  }

  abbrev cancel_context : Project → Deployment → AdapterContext
  cancel_context project row = record {
    organization_id = project.organization_id;
    idempotency_key = "cancel-" <> row.id;
    timeout_ms = adapter_timeout_ms;
  }

  abbrev cancelled_as :
      RequestContext → Project → Deployment → AdapterResult (Unit {0}) → Action W CancelResult
  cancelled_as ctx project row (err status reason) = kept_row project row reason
  cancelled_as ctx project row (ok status _) =
      closed_row ctx project row "Cancelled by the customer."

  abbrev cancel_run : RequestContext → Project → Deployment → Option String → Action W CancelResult
  cancel_run ctx project row none = closed_row ctx project row never_reached
  cancel_run ctx project row (some run) = do
    result ← from_io (
        (deployment_engine_for deps.engines project.execution_model).cancel
          (cancel_context project row) (run_ref project run))
    cancelled_as ctx project row result

  unfoldable pub cancel_deployment : RequestContext → DeploymentChange → Action W CancelResult
  unfolding permitted read_row kept_row closed_row
  cancel_deployment ctx input = do
    project ←
        permitted period_start ratio precedes decimal lower deps ctx input.project_id
          "deployment:cancel"
    row ← read_row ctx project input.deployment_id
    raise_if (not (in_flight row.status)) (
        failure conflict (
          "Only a pending or running deployment can be cancelled; this one is "
          <> (status_text row.status <> ".")))
    cancel_run ctx project row (truthy row.deployment_resource_id)

  abbrev pub not_movable : Failure
  not_movable = failure conflict "The production pointer could not be moved."

  -- What is promoted is a production deployment that has succeeded.
  unfoldable pub promotable : Deployment → Action W (Unit {0})
  promotable row = do
    raise_if (is_preview row.kind) never_live
    raise_if (not (is_success row.status)) (not_succeeded row)

  abbrev pub promoted_event : RequestContext → Project → Deployment → Promotion → AuditEvent
  promoted_event ctx project row result =
      deployment_event ctx project "deployment.promoted" row.id
        (("previousDeploymentId", optional_text result.previous_deployment_id) ∷ [])

  -- The move of the production pointer to a row, with its audit event.
  unfoldable pub move_pointer :
      RequestContext
      → Project
      → (String → String → String → Action W Promotion)
      → Deployment
      → Action W PromoteOutcome
  move_pointer ctx project promote row = do
    result ← promote project.organization_id project.id row.id
    live ← found_or result.deployment not_movable
    deps.record_audit_event (promoted_event ctx project row result)
    pure (record { deployment = live; previous_deployment_id = result.previous_deployment_id })

  unfoldable pub promote_row :
      RequestContext
      → Project
      → (String → String → String → Action W Promotion)
      → Deployment
      → Action W PromoteOutcome
  unfolding promotable move_pointer
  promote_row ctx project promote row = promotable row >> move_pointer ctx project promote row

  unfoldable pub promote_deployment : RequestContext → DeploymentChange → Action W PromoteOutcome
  unfolding permitted promote_row
  promote_deployment ctx input = do
    project ←
        permitted period_start ratio precedes decimal lower deps ctx input.project_id
          "deployment:rollback"
    get ← found_or deps.get_deployment cannot_read
    promote ← found_or deps.promote_deployment cannot_move
    found ← get ctx.principal.user_id input.deployment_id
    row ← row_within project found
    promote_row ctx project promote row

  abbrev rollback_row : RequestContext → Project → String → Option String → DeploymentCreate
  rollback_row ctx project key environment = record {
    organization_id = project.organization_id;
    project_id = project.id;
    idempotency_key = key;
    requested_by = ctx.principal.user_id;
    kind = production;
    environment_id = environment;
    staged = false;
    git_branch = none;
    git_commit = none;
    pull_request = none;
    preview_key = none;
    git_repository = none;
    build_pack = none;
    root_directory = none;
  }

  -- The work of a rollback whose key is new, and the replay of one whose key is known.
  unfoldable pub roll_back_for :
      RequestContext → Project → String → String → Option Deployment → Action W RequestResult
  unfolding environment_id_for
  roll_back_for ctx project commit key (some existing) =
      replay period_start ratio precedes decimal lower deps project existing
  roll_back_for ctx project commit key none = do
    assert_within_budget period_start ratio precedes decimal deps.billing project.organization_id
        "deployments"
    environment ←
        environment_id_for period_start ratio precedes decimal lower deps ctx.principal.user_id
          project.id production
    deployment ← deps.create_deployment (rollback_row ctx project key environment)
    deps.get_project_deployment_target ctx.principal.user_id project.id
    deps.enqueue
        (record (job_of period_start ratio precedes decimal lower deps project
          (rollback_row ctx project key environment) deployment) {
            action = rollback_action;
            commit = some commit;
          })
    deps.record_audit_event (
        deployment_event ctx project "deployment.rollback_enqueued" deployment.id
          (("commit", Meta.text commit) ∷ ("idempotencyKey", Meta.text key) ∷ []))
    pure (record { deployment = deployment; replayed = false; engine_reason = none })

  unfoldable pub rollback_deployment : RequestContext → RollbackInput → Action W RequestResult
  unfolding permitted idempotency_key roll_back_for is_ref
  rollback_deployment ctx input = do
    project ←
        permitted period_start ratio precedes decimal lower deps ctx input.project_id
          "deployment:rollback"
    let commit = trim (get_or_else input.commit "")
    raise_if (not (is_ref commit))
        (failure invalid_input "A rollback needs the commit to return to.")
    key ← idempotency_key period_start ratio precedes decimal lower deps input.idempotency_key
    existing ← deps.find_by_idempotency_key ctx.principal.user_id project.organization_id key
    roll_back_for ctx project commit key existing
