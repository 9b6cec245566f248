-- ===== src/Requests/Rows.antt =====
-- The rows, jobs and inputs of apps/api/src/procedures/deployments.ts, and what its procedures are
-- given: the store, the engines, the queue and the clock.
use uscs.Common.{ℕ, String, Bool, true, false, Option, List}
use uscs.Contracts.{EngineStatus, ExecutionModel}
use uscs.Api.Action.{Action}
use uscs.Api.Audit.{AuditEvent}
use uscs.Billing.Records.{BillingDeps}
use uscs.Deployment.Execute.Input.{DeploymentAction}
use uscs.Deployment.Engine.{RouterEngines}

pub data Kind : Type 0 where
  production preview : Kind

abbrev pub is_preview : Kind → Bool
is_preview preview = true
is_preview production = false

abbrev pub kind_text : Kind → String
kind_text production = "production"
kind_text preview = "preview"

pub record Project : Type 0 where
  pub id : String
  pub organization_id : String
  pub slug : String
  pub root_directory : Option String
  pub execution_model : ExecutionModel

pub record Deployment : Type 0 where
  pub id : String
  pub organization_id : String
  pub project_id : String
  pub status : EngineStatus
  pub url : Option String
  pub failure_reason : Option String
  pub kind : Kind
  pub staged : Bool
  pub git_repository : Option String
  pub git_branch : Option String
  pub git_commit : Option String
  pub build_pack : Option String
  pub root_directory : Option String
  pub pull_request : Option ℕ
  pub provider_resource_id : Option String
  pub deployment_resource_id : Option String

-- The columns that every request writes alike are left out: the status `pending`, the provider
-- `coolify`, and no address, reason or handle.
pub record DeploymentCreate : Type 0 where
  pub organization_id : String
  pub project_id : String
  pub idempotency_key : String
  pub requested_by : String
  pub kind : Kind
  pub environment_id : Option String
  pub staged : Bool
  pub git_branch : Option String
  pub git_commit : Option String
  pub pull_request : Option ℕ
  pub preview_key : Option String
  pub git_repository : Option String
  pub build_pack : Option String
  pub root_directory : Option String

pub record DeploymentUpdate : Type 0 where
  pub id : String
  pub organization_id : String
  pub status : EngineStatus
  pub url : Option String
  pub failure_reason : Option String
  pub provider_resource_id : Option String
  pub deployment_resource_id : Option String
  pub started_at : ℕ
  pub finished_at : Option ℕ

pub record Environment : Type 0 where
  pub id : String
  pub kind : String

pub record PreviewTarget : Type 0 where
  pub organization_id : String
  pub project_id : String
  pub preview_key : String
  pub branch : Option String
  pub pull_request : Option ℕ
  pub created_by : String

-- The payload of `deployments.execute` and the key of its job.
pub record DeploymentJob : Type 0 where
  pub organization_id : String
  pub idempotency_key : String
  pub deployment_id : String
  pub project_id : String
  pub action : DeploymentAction
  pub project_slug : String
  pub git_repository : Option String
  pub git_branch : Option String
  pub build_pack : Option String
  pub root_directory : Option String
  pub commit : Option String
  pub kind : Kind
  pub staged : Bool
  pub preview_key : Option String
  pub environment_id : Option String

-- `promoteDeployment`: the live deployment afterwards, if the move was made, and the one before.
pub record Promotion : Type 0 where
  pub deployment : Option Deployment
  pub previous_deployment_id : Option String

pub record PreviewStore (W : Type 0) : Type 0 where
  pub get_preview_target_for_service :
      Option (String → String → String → Action W (Option PreviewTarget))
  pub create_preview_target : Option (PreviewTarget → Action W (Unit {0}))

-- The writes of `REQUIRED_WRITES` that are called here are present.
pub record DeploymentDeps (W : Type 0) : Type 0 where
  pub get_project : String → String → Action W (Option Project)
  pub find_by_idempotency_key : String → String → String → Action W (Option Deployment)
  pub create_deployment : DeploymentCreate → Action W Deployment
  pub update_deployment_status : DeploymentUpdate → Action W (Option Deployment)
  pub get_deployment : Option (String → String → Action W (Option Deployment))
  pub promote_deployment : Option (String → String → String → Action W Promotion)
  pub get_project_deployment_target : String → String → Action W (Option String)
  pub list_environments : Option (String → String → Action W (List Environment))
  pub previews : PreviewStore W
  pub billing : BillingDeps W
  pub engines : RouterEngines W
  pub enqueue : DeploymentJob → Action W (Unit {0})
  pub record_audit_event : AuditEvent → Action W (Unit {0})
  pub new_id : Action W String
  pub now : W → ℕ

pub record CreateInput : Type 0 where
  pub project_id : String
  pub idempotency_key : Option String
  pub git_repository : Option String
  pub git_branch : Option String
  pub commit : Option String
  pub build_pack : Option String
  pub root_directory : Option String
  pub kind : Option Kind
  pub staged : Bool
  pub pull_request : Option ℕ

pub record RequestResult : Type 0 where
  pub deployment : Deployment
  pub replayed : Bool
  pub engine_reason : Option String
