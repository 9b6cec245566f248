-- ===== src/GitHook.antt =====
-- apps/api/src/git-hook.ts: the receiver of a git provider's webhook. `decimal` prints a number.
-- The store has the methods of `REQUIRED_WRITES`.
pub mod Delivery
mod Authentic
mod Writes
mod Tests
use Prim.Native.String.{◌++◌ as ◌<>◌}
use uscs.Common.{
  ℕ, String, Bool, true, false, not, ◌&&◌, ◌||◌, Option, none, some, List, [], ◌∷◌, ◌++◌, ltb,
  ◌===◌, if◌then◌else◌, is_some, get_or_else,
}
use uscs.Api.Action.{Failure, Result, value, throws, Action, pure, raise, ◌>>=◌, ◌>>◌}
use uscs.Api.Audit.{Meta, AuditEvent}
use uscs.Billing.Records.{BillingDeps}
use uscs.Billing.{HardCapRefusal, hard_cap_refusal}
use uscs.Deployment.Execute.Input.{create_action}
use uscs.GitLinks.{GitProvider, ProjectGitLink, provider_text, clone_url_for}
use uscs.GitLinks.Verify.{
  Refusal, unknown_link, not_configured, bad_signature, Verification, verified, refused,
  DeliveryInput, VerifyDeps, verify_git_delivery,
}
use uscs.Requests.Rows.{
  Kind, production, preview, is_preview, kind_text, Project, Deployment, DeploymentCreate,
  DeploymentJob, Environment, PreviewTarget, PreviewStore,
}
use uscs.Requests.{ensure_preview_target, environment_of, meta_if}
use uscs.Requests.Keys.{preview_key_for}
use uscs.GitHook.Delivery.{ParsedGitDelivery, Json, parse_git_delivery}

pub record GitHookDeps (W : Type 0) : Type 0 where
  pub verify : VerifyDeps W
  pub billing : BillingDeps W
  pub previews : PreviewStore W
  pub get_project_for_service : String → String → Action W (Option Project)
  pub find_by_idempotency_key_for_service : String → String → Action W (Option Deployment)
  pub create_deployment : DeploymentCreate → Action W Deployment
  pub list_environments_for_service : Option (String → String → Action W (List Environment))
  pub enqueue : DeploymentJob → Action W (Unit {0})
  pub record_audit_event : AuditEvent → Action W (Unit {0})

pub record GitHookOutcome : Type 0 where
  pub status : ℕ
  pub ok : Bool
  pub reason : Option String

abbrev pub answer : ℕ → Bool → String → GitHookOutcome
answer status ok reason = record { status = status; ok = ok; reason = some reason }

abbrev pub accepted : GitHookOutcome
accepted = record { status = 202; ok = true; reason = none }

-- An event that no member caused.
abbrev pub event_of_hook : String → String → String → String → List (String × Meta) → AuditEvent
event_of_hook organization event target_type target_id metadata = record {
  organization_id = organization;
  actor_id = none;
  actor_email = none;
  event = event;
  target_type = target_type;
  target_id = target_id;
  metadata = metadata;
}

abbrev is_production_branch : ProjectGitLink → Option String → Bool
is_production_branch link none = false
is_production_branch link (some branch) = branch === link.production_branch

unfoldable pub kind_of : ProjectGitLink → ParsedGitDelivery → Kind
kind_of link delivery =
    if is_some delivery.pull_request || not (is_production_branch link delivery.branch)
    then preview
    else production

module _ {W : Type 0} (period_start : ℕ → ℕ) (ratio : ℕ → ℕ → ℕ) (precedes : String → String → Bool)
    (decimal : ℕ → String) (lower : String → String) (deps : GitHookDeps W) where
  -- `branch-${delivery.branch}`: a branch that is null prints as `null`.
  abbrev branch_target : Option String → String
  branch_target none = "branch-null"
  branch_target (some branch) = "branch-" <> branch

  abbrev target_of : ParsedGitDelivery → String
  target_of delivery = elim delivery.pull_request [
    | some n ↦ "pr-" <> decimal n
    | none ↦ branch_target delivery.branch
  ]

  unfoldable pub hook_key : ProjectGitLink → ParsedGitDelivery → String
  hook_key link delivery =
      "webhook:"
      <> (link.id <> (":" <> (target_of delivery <> (":" <> get_or_else delivery.commit "latest"))))

  abbrev pub environments_from :
      Option (String → String → Action W (List Environment))
      → String
      → String
      → Kind
      → Action W (Option String)
  environments_from none organization project kind = pure none
  environments_from (some list) organization project kind = do
    environments ← list organization project
    pure (environment_of kind environments)

  abbrev pub preview_key : Kind → ParsedGitDelivery → Option String
  preview_key preview delivery =
      some (preview_key_for lower decimal delivery.pull_request delivery.branch delivery.commit)
  preview_key production delivery = none

  abbrev pub row_of :
      ProjectGitLink
      → Project
      → ParsedGitDelivery
      → Kind
      → String
      → Option String
      → DeploymentCreate
  row_of link project delivery kind url environment = record {
    organization_id = link.organization_id;
    project_id = link.project_id;
    idempotency_key = hook_key link delivery;
    requested_by = link.created_by;
    kind = kind;
    environment_id = environment;
    staged = false;
    git_branch = delivery.branch;
    git_commit = delivery.commit;
    pull_request = delivery.pull_request;
    preview_key = preview_key kind delivery;
    git_repository = some url;
    build_pack = none;
    root_directory = project.root_directory;
  }

  abbrev pub job_of : Project → DeploymentCreate → Deployment → DeploymentJob
  job_of project row deployment = record {
    organization_id = row.organization_id;
    idempotency_key = row.idempotency_key;
    deployment_id = deployment.id;
    project_id = row.project_id;
    action = create_action;
    project_slug = project.slug;
    git_repository = row.git_repository;
    git_branch = row.git_branch;
    build_pack = none;
    root_directory = project.root_directory;
    commit = row.git_commit;
    kind = row.kind;
    staged = false;
    preview_key = row.preview_key;
    environment_id = row.environment_id;
  }

  abbrev pub ensure_target : DeploymentCreate → Option String → Action W (Unit {0})
  ensure_target row none = pure tt
  ensure_target row (some key) = ensure_preview_target deps.previews (record {
    organization_id = row.organization_id;
    project_id = row.project_id;
    preview_key = key;
    branch = row.git_branch;
    pull_request = row.pull_request;
    created_by = row.requested_by;
  })

  -- `...(delivery.pullRequest ? { pullRequest } : {})`
  abbrev meta_of_request : Option ℕ → List (String × Meta)
  meta_of_request none = []
  meta_of_request (some n) = if ltb 0 n then ("pullRequest", Meta.number n) ∷ [] else []

  abbrev meta_of_branch : Option String → Meta
  meta_of_branch none = Meta.null
  meta_of_branch (some branch) = Meta.text branch

  abbrev pub triggered : ProjectGitLink → DeploymentCreate → Deployment → AuditEvent
  triggered link row deployment =
      event_of_hook link.organization_id
        (if is_preview row.kind then "deployment.preview.triggered" else "deployment.triggered")
        "deployment" deployment.id
        (("projectId", Meta.text link.project_id)
            ∷ ("linkId", Meta.text link.id)
            ∷ ("provider", Meta.text (provider_text link.provider))
            ∷ ("branch", meta_of_branch row.git_branch)
            ∷ []
          ++ (meta_if "commit" row.git_commit ++ meta_of_request row.pull_request))

  -- From the row on: the preview target, the job and the audit event.
  unfoldable pub trigger : ProjectGitLink → Project → DeploymentCreate → Action W GitHookOutcome
  trigger link project row = do
    deployment ← deps.create_deployment row
    ensure_target row row.preview_key
    deps.enqueue (job_of project row deployment)
    deps.record_audit_event (triggered link row deployment)
    pure accepted

  abbrev pub trigger_from :
      ProjectGitLink → Project → ParsedGitDelivery → Kind → Option String → Action W GitHookOutcome
  trigger_from link project delivery kind none = pure (answer 202 true "repository_url_unknown")
  trigger_from link project delivery kind (some url) = do
    environment ←
        environments_from deps.list_environments_for_service link.organization_id link.project_id
          kind
    trigger link project (row_of link project delivery kind url environment)

  abbrev pub unless_replayed :
      ProjectGitLink
      → Project
      → ParsedGitDelivery
      → Kind
      → Option Deployment
      → Action W GitHookOutcome
  unless_replayed link project delivery kind (some existing) = pure (answer 200 true "replayed")
  unless_replayed link project delivery kind none =
      trigger_from link project delivery kind (clone_url_for link.provider link.repository)

  -- The checks on the delivery, once the budget lets work through.
  unfoldable pub deploy_allowed :
      ProjectGitLink → Project → ParsedGitDelivery → Action W GitHookOutcome
  unfolding trigger kind_of hook_key
  deploy_allowed link project delivery =
      if not (is_some delivery.branch) && not (is_some delivery.pull_request)
      then pure (answer 202 true "not_a_deployable_event")
      else if is_preview (kind_of link delivery) && not link.previews_enabled
      then pure (answer 202 true "previews_disabled")
      else do
        existing ←
            deps.find_by_idempotency_key_for_service link.organization_id (hook_key link delivery)
        unless_replayed link project delivery (kind_of link delivery) existing

  abbrev pub unless_capped :
      ProjectGitLink → Project → ParsedGitDelivery → Option HardCapRefusal → Action W GitHookOutcome
  unless_capped link project delivery none = deploy_allowed link project delivery
  unless_capped link project delivery (some refusal) = do
    deps.record_audit_event (
        event_of_hook link.organization_id "deployment.cap_refused" "project" link.project_id
          (("reason", Meta.text "budget_exceeded") ∷ ("metric", Meta.text refusal.metric) ∷ []))
    pure (answer 202 true "budget_exceeded")

  abbrev pub for_project :
      ProjectGitLink → ParsedGitDelivery → Option Project → Action W GitHookOutcome
  for_project link delivery none = pure (answer 202 true "project_not_found")
  for_project link delivery (some project) = do
    refusal ←
        hard_cap_refusal period_start ratio precedes decimal deps.billing link.organization_id
          "deployments"
    unless_capped link project delivery refusal

  unfoldable pub deploy_from_delivery : ProjectGitLink → ParsedGitDelivery → Action W GitHookOutcome
  unfolding deploy_allowed
  deploy_from_delivery link delivery = do
    project ← deps.get_project_for_service link.organization_id link.project_id
    for_project link delivery project

  abbrev refused_as : Refusal → GitHookOutcome
  refused_as not_configured = answer 503 false "not_configured"
  refused_as unknown_link = answer 401 false "invalid_signature"
  refused_as bad_signature = answer 401 false "invalid_signature"

  abbrev pub once_verified :
      (String → Option Json) → Option String → String → Verification → Action W GitHookOutcome
  once_verified parse_json event body (refused reason) = pure (refused_as reason)
  once_verified parse_json event body (verified link secret) =
      deploy_from_delivery link (parse_git_delivery parse_json lower event body)

  unfoldable pub receive_git_delivery :
      (String → Option Json) → Option String → DeliveryInput → Action W GitHookOutcome
  unfolding deploy_from_delivery verify_git_delivery
  receive_git_delivery parse_json event input = do
    verification ← verify_git_delivery deps.verify input
    once_verified parse_json event input.body verification
