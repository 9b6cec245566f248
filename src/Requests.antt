-- ===== src/Requests.antt =====
-- apps/api/src/procedures/deployments.ts: the procedures that request, redeploy, cancel and promote
-- a deployment, with a queue (`deps.queue` is given). The store is a record of actions; a method
-- that it may lack is an option.
pub mod Rows
pub mod Keys
pub mod Changes
pub mod Frames
pub mod PreviewKeys
pub mod Writes
pub mod Live
mod Tests
use Prim.Native.String.{◌++◌ as ◌<>◌}
use uscs.Common.{
  ℕ, String, Bool, true, false, not, ◌&&◌, ◌||◌, Option, none, some, List, [], ◌∷◌, ◌++◌, ltb,
  ◌===◌, find, if◌then◌else◌, is_empty, is_some, trim, get_or_else, utf16_length,
}
use uscs.Contracts.{
  EngineStatus, pending, failed, running, succeeded, status_text, is_success, in_flight,
  ExecutionModel,
}
use uscs.Io.{Io, Ending, returns, raises}
use uscs.Api.Action.{
  not_found, invalid_input, conflict, engine_unavailable, Failure, unexpected, Result, value,
  throws, Action, pure, raise, raise_if, lift, ◌>>=◌, ◌>>◌,
}
use uscs.Api.Guard.{RequestContext}
use uscs.Api.Audit.{Meta, AuditEvent, optional_text, failure, found_or, require, event_of}
use uscs.RootDirectory.{parse_root_directory}
use uscs.Billing.Records.{BillingDeps}
use uscs.Billing.{assert_within_budget}
use uscs.Deployment.Execute.Input.{DeploymentAction, create_action}
use uscs.Deployment.Engine.{AdapterContext, RouterEngines, DeploymentEngine, deployment_engine_for}
use uscs.Requests.Keys.{optional_ref, optional_repository, optional_build_pack, preview_key_for}
use uscs.Requests.Rows.{
  Kind, is_preview, kind_text, Project, Deployment, DeploymentCreate, DeploymentUpdate, Environment,
  PreviewTarget, DeploymentJob, Promotion, PreviewStore, DeploymentDeps, CreateInput, RequestResult,
  production, preview,
}

-- An action of an engine, inside a procedure: a message that it throws is not an `ApiError`.
abbrev pub ended_as : {W A : Type 0} → Ending A → Action W A
ended_as (returns a) = pure a
ended_as (raises e) = raise (unexpected e)

abbrev pub from_io : {W A : Type 0} → Io W A → Action W A
from_io m w = let (r, w') = m w in ended_as r w'

abbrev pub project_not_found : Failure
project_not_found = failure not_found "Project not found."

abbrev pub deployment_not_found : Failure
deployment_not_found = failure not_found "Deployment not found."

abbrev pub no_preview_targets : Failure
no_preview_targets = failure engine_unavailable "This deployment cannot record preview targets yet."

-- `(value ?? "") === ""`, as a text that is present.
abbrev pub present : Option String → Option String
present none = none
present (some s) = if is_empty s then none else some s

-- `{ ...(value ? { key: value } : {}) }`
abbrev pub meta_if : String → Option String → List (String × Meta)
meta_if key none = []
meta_if key (some s) = if is_empty s then [] else (key, Meta.text s) ∷ []

-- A preview's pull request number, if it is above 0.
abbrev pub pull_request_of : Kind → Option ℕ → Option ℕ
pull_request_of preview (some n) = if ltb 0 n then some n else none
pull_request_of _ _ = none

abbrev pub environment_of : Kind → List Environment → Option String
environment_of kind environments =
    elim (find (λ (e : Environment). e.kind === kind_text kind) environments) [
      | none ↦ none
      | some e ↦ some e.id
    ]

-- `ensurePreviewTarget`, shared with the webhook receiver.
module _ {W : Type 0} (store : PreviewStore W) where
  abbrev pub create_unless :
      (PreviewTarget → Action W (Unit {0}))
      → PreviewTarget
      → Option PreviewTarget
      → Action W (Unit {0})
  create_unless create input (some existing) = pure tt
  create_unless create input none = create input

  unfoldable pub ensure_preview_target : PreviewTarget → Action W (Unit {0})
  ensure_preview_target input = do
    get ← found_or store.get_preview_target_for_service no_preview_targets
    create ← found_or store.create_preview_target no_preview_targets
    existing ← get input.organization_id input.project_id input.preview_key
    create_unless create input existing

module _ {W : Type 0} (period_start : ℕ → ℕ) (ratio : ℕ → ℕ → ℕ) (precedes : String → String → Bool)
    (decimal : ℕ → String) (lower : String → String) (deps : DeploymentDeps W) where
  abbrev clock : Action W ℕ
  clock w = (value (deps.now w), w)

  abbrev pub key_or_new : Option String → Action W String
  key_or_new none = deps.new_id
  key_or_new (some key) =
      if ltb 200 (utf16_length key)
      then raise (failure invalid_input "The idempotency key is too long.")
      else pure key

  -- `normaliseIdempotencyKey`
  unfoldable pub idempotency_key : Option String → Action W String
  idempotency_key given = key_or_new (present (some (trim (get_or_else given ""))))

  abbrev pub environments_from :
      Option (String → String → Action W (List Environment))
      → String
      → String
      → Kind
      → Action W (Option String)
  environments_from none user project kind = pure none
  environments_from (some list) user project kind = do
    environments ← list user project
    pure (environment_of kind environments)

  -- `environmentIdFor`
  unfoldable pub environment_id_for : String → String → Kind → Action W (Option String)
  environment_id_for user project kind = environments_from deps.list_environments user project kind

  -- The project of a request, once its caller may do what is asked.
  unfoldable pub permitted : RequestContext → String → String → Action W Project
  permitted ctx project_id capability = do
    found ← deps.get_project ctx.principal.user_id project_id
    project ← found_or found project_not_found
    require ctx project.organization_id capability
    pure project

  abbrev pub replay : Project → Deployment → Action W RequestResult
  replay project existing =
      if not (existing.project_id === project.id)
      then raise (
          failure conflict
            "This idempotency key was already used for a deployment in another project.")
      else pure (record {
        deployment = existing;
        replayed = true;
        engine_reason = existing.failure_reason;
      })

  abbrev pub root_directory_of : Project → Option String → Action W (Option String)
  root_directory_of project none = pure project.root_directory
  root_directory_of project (some given) = lift (parse_root_directory (some given))

  -- The row that a request writes, and the job that follows it.
  abbrev pub job_of : Project → DeploymentCreate → Deployment → DeploymentJob
  job_of project row deployment = record {
    organization_id = project.organization_id;
    idempotency_key = row.idempotency_key;
    deployment_id = deployment.id;
    project_id = project.id;
    action = create_action;
    project_slug = project.slug;
    git_repository = row.git_repository;
    git_branch = row.git_branch;
    build_pack = row.build_pack;
    root_directory = row.root_directory;
    commit = row.git_commit;
    kind = row.kind;
    staged = row.staged;
    preview_key = row.preview_key;
    environment_id = row.environment_id;
  }

  abbrev target_of : DeploymentCreate → String → PreviewTarget
  target_of row key = record {
    organization_id = row.organization_id;
    project_id = row.project_id;
    preview_key = key;
    branch = row.git_branch;
    pull_request = row.pull_request;
    created_by = row.requested_by;
  }

  -- `if (kind === "preview" && previewKey)`
  abbrev pub ensure_target : DeploymentCreate → Kind → Option String → Action W (Unit {0})
  ensure_target row preview (some key) = ensure_preview_target deps.previews (target_of row key)
  ensure_target row _ _ = pure tt

  -- From the row on: the preview target, the job and the audit event.
  unfoldable pub record_and_enqueue :
      RequestContext → Project → DeploymentCreate → Action W RequestResult
  unfolding ensure_preview_target
  record_and_enqueue ctx project row = do
    deployment ← deps.create_deployment row
    ensure_target row row.kind row.preview_key
    deps.enqueue (job_of project row deployment)
    deps.record_audit_event (
        event_of ctx project.organization_id "deployment.enqueued" "deployment" deployment.id (
          ("projectId", Meta.text project.id)
            ∷ ("idempotencyKey", Meta.text row.idempotency_key)
            ∷ []
          ++ (meta_if "branch" row.git_branch ++ meta_if "commit" row.git_commit)))
    pure (record { deployment = deployment; replayed = false; engine_reason = none })

  -- What is done with a key: a known one is replayed, a new one is new work.
  unfoldable pub for_key :
      RequestContext
      → Project
      → (Option String → DeploymentCreate)
      → Kind
      → Option Deployment
      → Action W RequestResult
  unfolding record_and_enqueue
  for_key ctx project row kind (some existing) = replay project existing
  for_key ctx project row kind none = do
    assert_within_budget period_start ratio precedes decimal deps.billing project.organization_id
        "deployments"
    environment ← environment_id_for ctx.principal.user_id project.id kind
    record_and_enqueue ctx project (row environment)

  unfoldable pub request_deployment : RequestContext → CreateInput → Action W RequestResult
  unfolding permitted idempotency_key for_key environment_id_for
  request_deployment ctx input = do
    project ← permitted ctx input.project_id "deployment:create"
    branch ← lift (optional_ref input.git_branch "Branch")
    commit ← lift (optional_ref input.commit "Commit")
    repository ← lift (optional_repository input.git_repository)
    build_pack ← lift (optional_build_pack input.build_pack)
    root ← root_directory_of project input.root_directory
    let kind = get_or_else input.kind production
    let pull_request = pull_request_of kind input.pull_request
    let preview_key =
        if is_preview kind
        then some (preview_key_for lower decimal pull_request branch commit)
        else none
    raise_if (input.staged && is_preview kind) (
        failure invalid_input
          "Only a production deployment can be staged; a preview always has its own URL.")
    key ← idempotency_key input.idempotency_key
    existing ← deps.find_by_idempotency_key ctx.principal.user_id project.organization_id key
    for_key ctx project
        (λ environment. record {
          organization_id = project.organization_id;
          project_id = project.id;
          idempotency_key = key;
          requested_by = ctx.principal.user_id;
          kind = kind;
          environment_id = environment;
          staged = not (is_preview kind) && input.staged;
          git_branch = branch;
          git_commit = commit;
          pull_request = pull_request;
          preview_key = preview_key;
          git_repository = repository;
          build_pack = build_pack;
          root_directory = root;
        })
        kind existing
