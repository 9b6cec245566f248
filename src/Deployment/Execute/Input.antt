-- ===== src/Deployment/Execute/Input.antt =====
-- deployment-executor.ts: its input, its result, the store's actions it uses, and small helpers.
use uscs.Common.{ℕ, String, Bool, Option, none, some, List, [], ◌∷◌, find}
use uscs.Contracts.{EngineStatus, ProviderRef, ExecutionModel}
use uscs.Io.{Io, truthy}
use uscs.Deployment.Engine.{AdapterContext, RouterEngines}
use uscs.Deployment.Build.{BuildEngine}

pub record DeploymentTarget : Type 0 where
  pub provider : Option String
  pub provider_resource_id : Option String
  pub execution_model : ExecutionModel
  pub root_directory : Option String

pub record PreviewTarget : Type 0 where
  pub provider : Option String
  pub provider_resource_id : Option String

pub record StoredEnvironment : Type 0 where
  pub id : String
  pub is_default : Bool

pub record StoredDeploymentHandle : Type 0 where
  pub status : EngineStatus
  pub provider_resource_id : Option String
  pub deployment_resource_id : Option String

pub data DeploymentAction : Type 0 where
  create_action rollback_action : DeploymentAction

pub data DeploymentKind : Type 0 where
  production preview : DeploymentKind

pub record ExecuteDeploymentInput : Type 0 where
  pub organization_id : String
  pub project_id : String
  pub project_slug : String
  pub deployment_id : String
  pub idempotency_key : String
  pub action : DeploymentAction
  pub git_repository : Option String
  pub git_branch : Option String
  pub build_pack : Option String
  pub root_directory : Option String
  pub commit : Option String
  pub timeout_ms : ℕ
  pub kind : DeploymentKind
  pub preview_key : Option String
  pub environment_id : Option String

pub record DeploymentExecutionResult : Type 0 where
  pub status : EngineStatus
  pub url : Option String
  pub provider_resource_id : Option String
  pub deployment_resource_id : Option String
  pub build_provider_resource_id : Option String
  pub build_provider : Option String
  pub reason : Option String

-- The arguments of each method stand in the order of the fields of the source's input object.
pub record DeploymentExecutionWrites (W : Type 0) : Type 0 where
  pub get_project_target : String → String → Io W (Option DeploymentTarget)
  pub set_project_provider : String → String → String → String → Io W (Unit {0})
  pub get_preview_target : String → String → String → Io W (Option PreviewTarget)
  pub set_preview_provider : String → String → String → String → String → Io W (Unit {0})
  pub get_deployment : Option (String → String → Io W (Option StoredDeploymentHandle))
  pub mark_in_flight :
      Option (String → String → EngineStatus → Option String → String → Io W (Unit {0}))
  pub mark_build_handle : Option (String → String → String → String → Io W (Unit {0}))
  pub list_environments : Option (String → String → Io W (List StoredEnvironment))

pub record DeploymentExecutorDeps (W : Type 0) : Type 0 where
  pub engines : RouterEngines W
  pub build : BuildEngine W
  pub writes : DeploymentExecutionWrites W
  pub env_vars : Option (AdapterContext → ProviderRef → String → String → Io W (Unit {0}))
  pub sleep : ℕ → Io W (Unit {0})
  pub decimal : ℕ → String

abbrev pub context_of : ExecuteDeploymentInput → AdapterContext
context_of input = record {
  organization_id = input.organization_id;
  idempotency_key = input.idempotency_key;
  timeout_ms = input.timeout_ms;
}

abbrev pub with_or : {A B : Type 0} → (A → B) → Option A → B → B
with_or f none b = b
with_or f (some a) b = f a

abbrev application_with : String → Option String → Option String → Option ProviderRef
application_with organization_id provider none = none
application_with organization_id provider (some id) = some record {
  organization_id = organization_id;
  provider = with_or (λ p. p) provider "coolify";
  resource_type = "application";
  resource_id = id;
}

-- The handle of an application, when the row carries one.
abbrev pub application : String → Option String → Option String → Option ProviderRef
application organization_id provider id = application_with organization_id provider (truthy id)

-- `isPreview`, with the key that it guards.
abbrev pub preview_key_of : DeploymentKind → Option String → Option String
preview_key_of preview (some key) = some key
preview_key_of _ _ = none

abbrev first_id : List StoredEnvironment → Option String
first_id [] = none
first_id (e ∷ _) = some e.id

abbrev default_or : Option StoredEnvironment → List StoredEnvironment → Option String
default_or (some e) es = some e.id
default_or none es = first_id es

-- `defaultEnvironmentIdFor`, of the environments that the store lists.
unfoldable pub default_environment : List StoredEnvironment → Option String
default_environment es = default_or (find (λ e. e.is_default) es) es

abbrev pub resource_id_of : Option ProviderRef → Option String
resource_id_of none = none
resource_id_of (some ref) = some ref.resource_id

pub record BuildHandle : Type 0 where
  pub build_provider_resource_id : Option String
  pub build_provider : Option String

abbrev pub handle_of : Option ProviderRef → BuildHandle
handle_of (some ref) = record {
  build_provider_resource_id = some ref.resource_id;
  build_provider = some ref.provider;
}
handle_of none = record { build_provider_resource_id = none; build_provider = none }

abbrev pub nothing_to_roll_back : String
nothing_to_roll_back =
    "This project has no application on the hosting engine yet, so there is nothing to roll back."

-- A result that carries a reason and no run.
abbrev pub refused : BuildHandle → EngineStatus → Option String → String → DeploymentExecutionResult
refused handle status provider_resource_id reason = record {
  status = status;
  url = none;
  provider_resource_id = provider_resource_id;
  deployment_resource_id = none;
  build_provider_resource_id = handle.build_provider_resource_id;
  build_provider = handle.build_provider;
  reason = some reason;
}
