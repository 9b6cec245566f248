-- ===== src/Deployment/Build.antt =====
-- packages/adapters/src/build-run.ts, and `toServerlessArtifact` of packages/adapters/src/build.ts.
-- `decimal` prints a number; `sleep` is an action, as in the dependencies of the source.
pub mod Run
use Prim.Native.String.{◌++◌ as ◌<>◌}
use uscs.Common.{
  ℕ, zero, suc, String, Bool, true, false, Option, none, some, List, [], ◌∷◌, get_or_else,
  if◌then◌else◌,
}
use uscs.Contracts.{EngineStatus, degraded, ProviderRef, OperationRef, AdapterResult, ok, err}
use uscs.Io.{Io, pure, ◌>>=◌, ◌>>◌, truthy}
use uscs.Deployment.Engine.{AdapterContext, ServerlessArtifact, s3, image}

-- The fields of `BuildArtifact` that a deployment reads; `functions` in the order of its keys.
pub record BuildArtifact : Type 0 where
  pub image : Option String
  pub bucket : Option String
  pub functions : Option (List (String × String))

abbrev pub first_function : Option (List (String × String)) → Option String
first_function (some ((_, key) ∷ _)) = some key
first_function _ = none

abbrev bundle_of : Option String → Option String → Option ServerlessArtifact
bundle_of (some key) (some bucket) = some (s3 bucket key)
bundle_of _ _ = none

abbrev artifact_of : Option String → BuildArtifact → Option ServerlessArtifact
artifact_of (some uri) artifact = some (image uri)
artifact_of none artifact = bundle_of (first_function artifact.functions) (truthy artifact.bucket)

unfoldable pub to_serverless_artifact : BuildArtifact → Option ServerlessArtifact
to_serverless_artifact artifact = artifact_of (truthy artifact.image) artifact

pub record BuildRequest : Type 0 where
  pub repository : String
  pub branch : Option String
  pub root_directory : Option String
  pub build_pack : Option String

pub record BuildEngine (W : Type 0) : Type 0 where
  pub build : AdapterContext → BuildRequest → Io W (AdapterResult OperationRef)
  pub get_artifact : AdapterContext → ProviderRef → Io W (AdapterResult BuildArtifact)

pub record BuildStepDeps (W : Type 0) : Type 0 where
  pub build : BuildEngine W
  pub poll_interval_ms : Option ℕ
  pub max_polls : Option ℕ
  pub sleep : ℕ → Io W (Unit {0})
  pub on_build_started : Option (ProviderRef → Io W (Unit {0}))
  pub decimal : ℕ → String

pub record BuildStepInput : Type 0 where
  pub organization_id : String
  pub idempotency_key : String
  pub timeout_ms : ℕ
  pub repository : Option String
  pub branch : Option String
  pub build_pack : Option String
  pub root_directory : Option String

pub data BuildStepResult : Type 0 where
  built : ServerlessArtifact → ProviderRef → BuildStepResult
  no_artifact : String → BuildStepResult

abbrev nothing_to_build : String
nothing_to_build = "This project has no git repository, so there is nothing to build."

abbrev pub nothing_to_publish : String
nothing_to_publish =
    "The build finished but produced no artifact a serverless engine can publish (no image and no function bundle)."

abbrev pub is_degraded : EngineStatus → Bool
is_degraded degraded = true
is_degraded _ = false

abbrev pub finished_build : Option ServerlessArtifact → ProviderRef → BuildStepResult
finished_build none ref = no_artifact nothing_to_publish
finished_build (some code) ref = built code ref

module _ {W : Type 0} (deps : BuildStepDeps W) where
  abbrev interval : ℕ
  interval = get_or_else deps.poll_interval_ms 2000

  abbrev pub max_polls : ℕ
  max_polls = get_or_else deps.max_polls 150

  abbrev pub too_slow : String
  too_slow =
      "The build did not produce an artifact within "
      <> (deps.decimal max_polls <> (" polls of " <> (deps.decimal interval <> "ms.")))

  -- One turn of the polling loop; `later` is the rest of it.
  unfoldable pub polled :
      ProviderRef → Io W BuildStepResult → AdapterResult BuildArtifact → Io W BuildStepResult
  polled ref later (ok _ artifact) = pure (finished_build (to_serverless_artifact artifact) ref)
  polled ref later (err status reason) =
      if is_degraded status then deps.sleep interval >> later else pure (no_artifact reason)

  -- The polling loop, over the polls that are left.
  unfoldable pub poll : AdapterContext → ProviderRef → ℕ → Io W BuildStepResult
  poll ctx ref zero = pure (no_artifact too_slow)
  poll ctx ref (suc n) = deps.build.get_artifact ctx ref >>= polled ref (poll ctx ref n)

  abbrev announce : Option (ProviderRef → Io W (Unit {0})) → ProviderRef → Io W (Unit {0})
  announce none ref = pure tt
  announce (some on_build_started) ref = on_build_started ref

  abbrev pub after_start : AdapterContext → AdapterResult OperationRef → Io W BuildStepResult
  after_start ctx (err _ reason) = pure (no_artifact reason)
  after_start ctx (ok _ operation) =
      announce deps.on_build_started operation.provider_ref
      >> poll ctx operation.provider_ref max_polls

  abbrev pub context_of : BuildStepInput → AdapterContext
  context_of input = record {
    organization_id = input.organization_id;
    idempotency_key = input.idempotency_key;
    timeout_ms = input.timeout_ms;
  }

  abbrev run_with : Option String → BuildStepInput → Io W BuildStepResult
  run_with none input = pure (no_artifact nothing_to_build)
  run_with (some repository) input =
      deps.build.build (context_of input) record {
        repository = repository;
        branch = truthy input.branch;
        root_directory = truthy input.root_directory;
        build_pack = truthy input.build_pack;
      }
      >>= after_start (context_of input)

  unfoldable pub run_build_step : BuildStepInput → Io W BuildStepResult
  run_build_step input = run_with (truthy input.repository) input
