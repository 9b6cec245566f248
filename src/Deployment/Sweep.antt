-- ===== src/Deployment/Sweep.antt =====
-- apps/worker/src/deployment-reconcile.ts: the sweep over the rows that no job will settle.
-- Instants are milliseconds since the epoch; a row's creation time is `none` when its text is no
-- date. `iso` prints an instant, `decimal` a number.
pub mod Verdict
pub mod Honesty
pub mod Writes
use Prim.Native.String.{◌++◌ as ◌<>◌}
use uscs.Common.{
  ℕ, suc, ◌+◌, ◌-◌, ◌/◌, String, Bool, true, false, Option, none, some, List, [], ◌∷◌, get_or_else,
  if◌then◌else◌, ltb, ◌&&◌, not,
}
use uscs.Contracts.{
  EngineStatus, failed, not_configured, in_flight, is_success, status_text, ProviderRef,
  ExecutionModel, container, AdapterResult, ok, err,
}
use uscs.Io.{Io, pure, ◌>>=◌, ◌>>◌, when, truthy}
use uscs.Deployment.Engine.{
  AdapterContext, DeploymentEngine, DeploymentState, RouterEngines, deployment_engine_for,
}
use uscs.Deployment.Execute.Input.{DeploymentKind, production, preview}
use uscs.Deployment.Job.{DeploymentJobOutcomeWriter, StatusUpdate, is_settled, is_production}

abbrev pub default_stale_after_ms : ℕ
default_stale_after_ms = 600000

abbrev pub default_hard_ceiling_ms : ℕ
default_hard_ceiling_ms = 3600000

abbrev pub default_sweep_limit : ℕ
default_sweep_limit = 50

pub record StrandedDeployment : Type 0 where
  pub id : String
  pub organization_id : String
  pub project_id : String
  pub status : EngineStatus
  pub provider_resource_id : Option String
  pub deployment_resource_id : Option String
  pub created_at : Option ℕ
  pub kind : DeploymentKind
  pub staged : Bool

pub record DeploymentReconcilerDeps (W : Type 0) : Type 0 where
  pub engines : RouterEngines W
  -- the cutoff and the limit
  pub list_stranded : String → ℕ → Io W (List StrandedDeployment)
  -- the execution model of the project, by organization and project
  pub get_project_target : String → String → Io W (Option ExecutionModel)
  pub outcome : DeploymentJobOutcomeWriter W
  pub stale_after_ms : Option ℕ
  pub hard_ceiling_ms : Option ℕ
  pub limit : Option ℕ
  pub timeout_ms : Option ℕ
  pub iso : ℕ → String
  pub decimal : ℕ → String

-- `ageMs(createdAt, now) < ceilingMs`; a creation time that is no date has an infinite age.
abbrev pub is_younger : Option ℕ → ℕ → ℕ → Bool
is_younger none now ceiling = false
is_younger (some created) now ceiling = ltb now (created + ceiling)

pub record Settled : Type 0 where
  pub status : EngineStatus
  pub url : Option String
  pub reason : Option String

abbrev ref_to : String → String → String → ProviderRef
ref_to organization_id type id = record {
  organization_id = organization_id;
  provider = "coolify";
  resource_type = type;
  resource_id = id;
}

abbrev ref_by : String → Option String → Option String → Option ProviderRef
ref_by organization_id (some run) _ = some (ref_to organization_id "deployment" run)
ref_by organization_id none (some app) = some (ref_to organization_id "application" app)
ref_by organization_id none none = none

-- The handle that the sweep asks about: the run's, else the application's.
abbrev pub ref_of : StrandedDeployment → Option ProviderRef
ref_of row =
    ref_by row.organization_id (truthy row.deployment_resource_id) (truthy row.provider_resource_id)

abbrev pub no_handle : String
no_handle = "no engine handle was ever recorded."

abbrev pub still_in_flight : String
still_in_flight = "the engine still reports it in flight."

module _ {W : Type 0} (deps : DeploymentReconcilerDeps W) where
  abbrev pub hard_ceiling : ℕ
  hard_ceiling = get_or_else deps.hard_ceiling_ms default_hard_ceiling_ms

  abbrev pub unconfirmed_reason : EngineStatus → String → String
  unconfirmed_reason status detail =
      "The deployment was still "
      <> (status_text status
          <> (" after "
              <> (deps.decimal ((hard_ceiling + 30000) / 60000)
                  <> (" minutes and the engine could not confirm the build: " <> detail))))

  abbrev pub row_update : StrandedDeployment → Settled → String → StatusUpdate
  row_update row settled finished = record {
    id = row.id;
    organization_id = row.organization_id;
    status = settled.status;
    url = settled.url;
    failure_reason = settled.reason;
    provider_resource_id = row.provider_resource_id;
    deployment_resource_id = some row.deployment_resource_id;
    build_provider_resource_id = none;
    build_provider = none;
    started_at = finished;
    finished_at = if is_settled settled.status then some finished else none;
  }

  unfoldable pub write_settled : StrandedDeployment → ℕ → Settled → Io W Bool
  write_settled row now settled =
      deps.outcome.update_status (row_update row settled (deps.iso now))
      >> when (is_success settled.status) (
          when (is_production row.kind && not row.staged)
            (deps.outcome.promote row.organization_id row.project_id row.id)
          >> deps.outcome.record_usage row.organization_id "deployments" 1)
      >> pure true

  -- The row is failed, with a reason that names the ceiling.
  abbrev fail_unconfirmed : StrandedDeployment → ℕ → String → Io W Bool
  fail_unconfirmed row now detail =
      write_settled row now
        record { status = failed; url = none; reason = some (unconfirmed_reason row.status detail) }

  abbrev is_unknown : EngineStatus → Bool
  is_unknown not_configured = true
  is_unknown _ = false

  -- `settleOne` from the engine's answer on.
  unfoldable pub settle_answer : StrandedDeployment → ℕ → AdapterResult DeploymentState → Io W Bool
  settle_answer row now (ok _ state) =
      if in_flight state.status
      then if is_younger row.created_at now hard_ceiling
        then pure false
        else fail_unconfirmed row now still_in_flight
      else write_settled row now record { status = state.status; url = state.url; reason = none }
  settle_answer row now (err status reason) =
      if is_unknown status
      then write_settled row now record {
        status = failed;
        url = none;
        reason = some ("The engine has no record of this build: " <> reason);
      }
      else if is_younger row.created_at now hard_ceiling
      then pure false
      else fail_unconfirmed row now reason

  abbrev pub reconcile_context : StrandedDeployment → AdapterContext
  reconcile_context row = record {
    organization_id = row.organization_id;
    idempotency_key = "reconcile-deployment-" <> row.id;
    timeout_ms = get_or_else deps.timeout_ms 30000;
  }

  -- `settleOne` from the handle on.
  unfoldable pub settle_ref :
      StrandedDeployment → ℕ → DeploymentEngine W → Option ProviderRef → Io W Bool
  settle_ref row now engine none =
      if is_younger row.created_at now hard_ceiling
      then pure false
      else fail_unconfirmed row now no_handle
  settle_ref row now engine (some ref) =
      engine.get_deployment (reconcile_context row) ref >>= settle_answer row now

  abbrev pub model_of : DeploymentKind → Option ExecutionModel → ExecutionModel
  model_of preview target = container
  model_of production target = get_or_else target container

  unfoldable pub settle_one : StrandedDeployment → ℕ → Io W Bool
  settle_one row now = deps.get_project_target row.organization_id row.project_id >>= λ target.
      settle_ref row now (deployment_engine_for deps.engines (model_of row.kind target))
        (ref_of row)

  -- The loop of the sweep, with the count so far.
  unfoldable pub settle_all : ℕ → ℕ → List StrandedDeployment → Io W ℕ
  settle_all now settled [] = pure settled
  settle_all now settled (row ∷ rows) = settle_one row now >>= λ written.
      settle_all now (if written then suc settled else settled) rows

  -- The sweep at `now`. An instant before the epoch, which `-` would miss, is not modelled.
  unfoldable pub sweep : ℕ → Io W ℕ
  sweep now =
      deps.list_stranded (deps.iso (now - get_or_else deps.stale_after_ms default_stale_after_ms))
        (get_or_else deps.limit default_sweep_limit)
      >>= settle_all now 0
