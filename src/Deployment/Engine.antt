-- ===== src/Deployment/Engine.antt =====
-- packages/adapters/src/execution-router.ts over the adapters of packages/adapters/src/index.ts.
-- The engines behind the adapters are outside: an adapter is a record of actions on the world.
pub mod Routing
use Prim.Native.String.{◌++◌ as ◌<>◌}
use uscs.Common.{ℕ, String, Bool, true, false, not, Option, none, some, List, if◌then◌else◌}
use uscs.Contracts.{
  EngineStatus, not_configured, ProviderRef, OperationRef, ExecutionModel, container, serverless,
  AdapterResult, ok, err,
}
use uscs.Io.{Io, pure, truthy}

pub record AdapterContext : Type 0 where
  pub organization_id : String
  pub idempotency_key : String
  pub timeout_ms : ℕ

pub record DeploymentState : Type 0 where
  pub ref : ProviderRef
  pub status : EngineStatus
  pub url : Option String
  pub reason : Option String

pub record LogPage : Type 0 where
  pub lines : List String
  pub cursor : Option String

pub data ServerlessArtifact : Type 0 where
  s3 : (bucket key : String) → ServerlessArtifact
  image : (uri : String) → ServerlessArtifact

pub record CreateApplicationInput : Type 0 where
  pub name : String
  pub git_repository : Option String
  pub git_branch : Option String
  pub build_pack : Option String
  pub root_directory : Option String

-- The operations of `HostingAdapter` that a deployment uses.
pub record HostingAdapter (W : Type 0) : Type 0 where
  pub create_application :
      AdapterContext → CreateApplicationInput → Io W (AdapterResult OperationRef)
  pub deploy : AdapterContext → ProviderRef → Io W (AdapterResult OperationRef)
  pub get_deployment : AdapterContext → ProviderRef → Io W (AdapterResult DeploymentState)
  pub cancel_deployment : AdapterContext → ProviderRef → Io W (AdapterResult (Unit {0}))
  pub rollback : AdapterContext → ProviderRef → String → Io W (AdapterResult OperationRef)
  pub get_logs : AdapterContext → ProviderRef → Option String → Io W (AdapterResult LogPage)
  pub delete_application : AdapterContext → ProviderRef → Io W (AdapterResult (Unit {0}))

-- `deploy` takes the function, the artifact and `publish`.
pub record ServerlessAdapter (W : Type 0) : Type 0 where
  pub is_not_configured : Bool
  pub create_function :
      AdapterContext → String → Option ServerlessArtifact → Io W (AdapterResult OperationRef)
  pub deploy :
      AdapterContext
      → ProviderRef
      → Option ServerlessArtifact
      → Bool
      → Io W (AdapterResult OperationRef)
  pub get_deployment : AdapterContext → ProviderRef → Io W (AdapterResult DeploymentState)
  pub delete_function : AdapterContext → ProviderRef → Io W (AdapterResult (Unit {0}))
  pub get_logs : AdapterContext → ProviderRef → Option String → Io W (AdapterResult LogPage)

pub record TargetInput : Type 0 where
  pub name : String
  pub git_repository : Option String
  pub git_branch : Option String
  pub build_pack : Option String
  pub root_directory : Option String
  pub artifact : Option ServerlessArtifact

pub record DeploymentEngine (W : Type 0) : Type 0 where
  pub model : ExecutionModel
  pub ensure_target : AdapterContext → TargetInput → Io W (AdapterResult OperationRef)
  pub deploy :
      AdapterContext → ProviderRef → Option ServerlessArtifact → Io W (AdapterResult OperationRef)
  pub get_deployment : AdapterContext → ProviderRef → Io W (AdapterResult DeploymentState)
  pub get_logs : AdapterContext → ProviderRef → Option String → Io W (AdapterResult LogPage)
  pub rollback : AdapterContext → ProviderRef → Option String → Io W (AdapterResult OperationRef)
  pub cancel : AdapterContext → ProviderRef → Io W (AdapterResult (Unit {0}))
  pub destroy : AdapterContext → ProviderRef → Io W (AdapterResult (Unit {0}))

pub record RouterEngines (W : Type 0) : Type 0 where
  pub hosting : HostingAdapter W
  pub serverless : ServerlessAdapter W

abbrev pub unsupported_reason : String → String
unsupported_reason operation =
    "The serverless engine has no "
    <> (operation
        <> ": that operation belongs to the container engine, and this project's execution model is serverless.")

abbrev unsupported : {W T : Type 0} → String → Io W (AdapterResult T)
unsupported operation = pure (err not_configured (unsupported_reason operation))

abbrev pub missing_artifact_reason : String
missing_artifact_reason =
    "This project runs serverless, and publishing new code needs a built artifact (an S3 object or an ECR image). None reached the deploy, so the step is not performed rather than faked."

abbrev pub no_revision_reason : String
no_revision_reason = "A rollback needs the git revision to return to, and none was resolved."

module _ {W : Type 0} where
  abbrev container_rollback :
      HostingAdapter W
      → AdapterContext
      → ProviderRef
      → Option String
      → Io W (AdapterResult OperationRef)
  container_rollback hosting ctx ref none = pure (err not_configured no_revision_reason)
  container_rollback hosting ctx ref (some commit) = hosting.rollback ctx ref commit

  unfoldable pub container_deployment_engine : HostingAdapter W → DeploymentEngine W
  container_deployment_engine hosting = record {
    model = container;
    ensure_target = λ ctx input. hosting.create_application ctx record {
      name = input.name;
      git_repository = truthy input.git_repository;
      git_branch = truthy input.git_branch;
      build_pack = truthy input.build_pack;
      root_directory = truthy input.root_directory;
    };
    deploy = λ ctx ref artifact. hosting.deploy ctx ref;
    get_deployment = hosting.get_deployment;
    get_logs = hosting.get_logs;
    rollback = λ ctx ref commit. container_rollback hosting ctx ref (truthy commit);
    cancel = hosting.cancel_deployment;
    destroy = hosting.delete_application;
  }

  abbrev serverless_deploy :
      ServerlessAdapter W
      → AdapterContext
      → ProviderRef
      → Option ServerlessArtifact
      → Io W (AdapterResult OperationRef)
  serverless_deploy functions ctx ref none = pure (err not_configured missing_artifact_reason)
  serverless_deploy functions ctx ref (some artifact) =
      functions.deploy ctx ref (some artifact) true

  unfoldable pub serverless_deployment_engine : ServerlessAdapter W → DeploymentEngine W
  serverless_deployment_engine functions = record {
    model = serverless;
    ensure_target = λ ctx input. functions.create_function ctx input.name input.artifact;
    deploy = serverless_deploy functions;
    get_deployment = functions.get_deployment;
    get_logs = functions.get_logs;
    rollback = λ ctx ref commit. unsupported "rollback";
    cancel = λ ctx ref. unsupported "cancel";
    destroy = functions.delete_function;
  }

  unfoldable pub not_configured_serverless : ServerlessAdapter W → DeploymentEngine W
  not_configured_serverless functions = record {
    model = serverless;
    ensure_target = λ ctx input. functions.create_function ctx input.name input.artifact;
    deploy = λ ctx ref artifact. functions.deploy ctx ref artifact false;
    get_deployment = functions.get_deployment;
    get_logs = functions.get_logs;
    rollback = λ ctx ref commit. functions.deploy ctx ref none false;
    cancel = functions.delete_function;
    destroy = functions.delete_function;
  }

  unfoldable pub deployment_engine_for : RouterEngines W → ExecutionModel → DeploymentEngine W
  deployment_engine_for engines serverless =
      if not engines.serverless.is_not_configured
      then serverless_deployment_engine engines.serverless
      else not_configured_serverless engines.serverless
  deployment_engine_for engines container = container_deployment_engine engines.hosting
