-- ===== src/PolicyJob.antt =====
-- apps/worker/src/policy-job.ts: the handler and the applier of `policy.distribute.execute`. The
-- store and the edge are actions on the world; `iso` prints an instant, `decimal` a number.
pub mod Outcomes
mod Tests
use Prim.Native.String.{◌++◌ as ◌<>◌}
use uscs.Common.{ℕ, String, Bool, true, false, not, Option, none, some, ltb, if◌then◌else◌, ◌===◌}
use uscs.Contracts.{
  EngineStatus, failed, degraded, status_text, ProviderRef, AdapterResult, ok, err,
}
use uscs.Io.{Io, Ending, pure, ◌>>=◌, ◌>>◌}
use uscs.Queue.{Job}
use uscs.Deployment.Engine.{AdapterContext}
use uscs.Security.{SecurityPolicy, PolicyVersion, validate_policy, may_distribute}
use uscs.Security.Incidents.{Severity}
use uscs.Security.Distribution.{candidate_of, recorded_version, rejection_severity}

abbrev pub policy_job_kind : String
policy_job_kind = "policy.distribute.execute"

pub data PolicyState : Type 0 where
  draft compiled distributed active rejected degraded_state : PolicyState

-- The row of a policy; the protection's two columns are carried from the row to the row.
pub record StoredPolicy : Type 0 where
  pub policy : SecurityPolicy
  pub state : PolicyState
  pub protection_mode : String
  pub protection_expires_at : Option String

pub record PolicyJobPayload : Type 0 where
  pub organization_id : String
  pub policy_id : String
  pub version : ℕ
  pub actor_id : String
  pub actor_email : String

pub record PolicyExecutionResult : Type 0 where
  pub status : EngineStatus
  pub state : PolicyState
  pub version : ℕ
  pub distributed : Bool
  pub reason : Option String

-- The write of `saveSecurityPolicy`.
pub record PolicySave : Type 0 where
  pub stored : StoredPolicy
  pub state : PolicyState
  pub version : ℕ
  pub created_by : String

pub record PolicyEvent : Type 0 where
  pub id : String
  pub organization_id : String
  pub policy_id : String
  pub from_state : PolicyState
  pub to_state : PolicyState
  pub version : ℕ
  pub actor_id : String
  pub actor_email : String
  pub detail : String

pub record PolicyAudit : Type 0 where
  pub organization_id : String
  pub actor_id : String
  pub actor_email : String
  pub event : String
  pub target_id : String
  pub version : ℕ
  pub status : Option EngineStatus

pub record IncidentInput : Type 0 where
  pub id : String
  pub organization_id : String
  pub kind : String
  pub severity : Severity
  pub summary : String
  pub opened_at : String

-- `save_policy` answers with the version of the row that it wrote.
pub record PolicyJobDeps (W : Type 0) : Type 0 where
  pub apply_policy : AdapterContext → ProviderRef → Io W (AdapterResult ℕ)
  pub get_policy : String → Io W (Option StoredPolicy)
  pub save_policy : PolicySave → Io W ℕ
  pub record_event : PolicyEvent → Io W (Unit {0})
  pub record_audit : PolicyAudit → Io W (Unit {0})
  pub open_incident : Option (IncidentInput → Io W (Unit {0}))
  pub new_id : Io W String
  pub clock : W → ℕ
  pub iso : ℕ → String
  pub decimal : ℕ → String

-- The active version, which the job takes from the row that is its candidate too.
abbrev pub active_version : PolicyState → PolicyVersion → Option PolicyVersion
active_version active version = some version
active_version _ version = none

module _ {W : Type 0} (deps : PolicyJobDeps W) where
  abbrev pub edge_context : SecurityPolicy → AdapterContext
  edge_context policy = record {
    organization_id = policy.organization_id;
    idempotency_key = "distribute-" <> (policy.id <> ("-v" <> deps.decimal policy.version));
    timeout_ms = 20000;
  }

  abbrev pub edge_ref : SecurityPolicy → ProviderRef
  edge_ref policy = record {
    organization_id = policy.organization_id;
    provider = "coraza";
    resource_type = "policy";
    resource_id = policy.id;
  }

  abbrev pub applied_as : SecurityPolicy → AdapterResult ℕ → AdapterResult PolicyExecutionResult
  applied_as policy (err status reason) = err status reason
  applied_as policy (ok status engine_version) = ok status record {
    status = status;
    state = active;
    version = (recorded_version policy engine_version).version;
    distributed = true;
    reason = none;
  }

  abbrev pub distribute_allowed :
      SecurityPolicy → Option String → Io W (AdapterResult PolicyExecutionResult)
  distribute_allowed policy (some reason) = pure (err degraded reason)
  distribute_allowed policy none =
      deps.apply_policy (edge_context policy) (edge_ref policy) >>= λ applied.
      pure (applied_as policy applied)

  abbrev pub distribute_valid :
      StoredPolicy → Option String → Io W (AdapterResult PolicyExecutionResult)
  distribute_valid stored (some reason) = pure (err failed reason)
  distribute_valid stored none =
      let candidate = candidate_of stored.policy in
      distribute_allowed stored.policy
        (may_distribute deps.decimal candidate (active_version stored.state candidate))

  abbrev no_policy : String
  no_policy = "The policy this job names no longer exists."

  abbrev pub distribute_stored :
      PolicyJobPayload → Option StoredPolicy → Io W (AdapterResult PolicyExecutionResult)
  distribute_stored payload none = pure (err failed no_policy)
  distribute_stored payload (some stored) =
      if not (stored.policy.id === payload.policy_id)
      then pure (err failed no_policy)
      else distribute_valid stored (validate_policy stored.policy)

  unfoldable pub policy_job_handler : PolicyJobPayload → Io W (AdapterResult PolicyExecutionResult)
  policy_job_handler payload = deps.get_policy payload.organization_id >>= distribute_stored payload

  abbrev event_of :
      PolicyJobPayload → StoredPolicy → String → PolicyState → ℕ → String → PolicyEvent
  event_of payload stored id to_state version detail = record {
    id = id;
    organization_id = stored.policy.organization_id;
    policy_id = stored.policy.id;
    from_state = stored.state;
    to_state = to_state;
    version = version;
    actor_id = payload.actor_id;
    actor_email = payload.actor_email;
    detail = detail;
  }

  abbrev audit_of : PolicyJobPayload → StoredPolicy → String → ℕ → Option EngineStatus → PolicyAudit
  audit_of payload stored event version status = record {
    organization_id = stored.policy.organization_id;
    actor_id = payload.actor_id;
    actor_email = payload.actor_email;
    event = event;
    target_id = stored.policy.id;
    version = version;
    status = status;
  }

  abbrev incident_of : StoredPolicy → EngineStatus → String → String → ℕ → IncidentInput
  incident_of stored status reason id now = record {
    id = id;
    organization_id = stored.policy.organization_id;
    kind = "policy_distribution_rejected";
    severity = rejection_severity status;
    summary =
        "Policy v" <> (deps.decimal stored.policy.version <> (" was not applied: " <> reason));
    opened_at = deps.iso now;
  }

  abbrev pub report_incident :
      Option (IncidentInput → Io W (Unit {0}))
      → StoredPolicy
      → EngineStatus
      → String
      → Io W (Unit {0})
  report_incident none stored status reason = pure tt
  report_incident (some open_it) stored status reason =
      deps.new_id >>= λ id w. open_it (incident_of stored status reason id (deps.clock w)) w

  unfoldable pub apply_refusal :
      PolicyJobPayload → StoredPolicy → EngineStatus → String → Io W (Unit {0})
  apply_refusal payload stored status reason =
      deps.new_id
      >>= (λ id.
          deps.record_event (event_of payload stored id rejected stored.policy.version reason))
      >> deps.record_audit
          (audit_of payload stored "policy.rejected" stored.policy.version (some status))
      >> report_incident deps.open_incident stored status reason

  abbrev pub save_of : PolicyJobPayload → StoredPolicy → ℕ → PolicySave
  save_of payload stored version = record {
    stored = stored;
    state = active;
    version = version;
    created_by = payload.actor_id;
  }

  abbrev pub record_active : PolicyJobPayload → StoredPolicy → ℕ → Io W (Unit {0})
  record_active payload stored version =
      deps.new_id
      >>= (λ id. deps.record_event (
          event_of payload stored id active version "Policy distributed and accepted by the edge."))
      >> deps.record_audit (audit_of payload stored "policy.distributed" version none)

  unfoldable pub apply_policy_result :
      PolicyJobPayload → StoredPolicy → AdapterResult PolicyExecutionResult → Io W (Unit {0})
  apply_policy_result payload stored (err status reason) =
      apply_refusal payload stored status reason
  apply_policy_result payload stored (ok _ value) =
      deps.save_policy (save_of payload stored value.version) >>= record_active payload stored

  abbrev pub apply_stored :
      PolicyJobPayload → AdapterResult PolicyExecutionResult → Option StoredPolicy → Io W (Unit {0})
  apply_stored payload result none = pure tt
  apply_stored payload result (some stored) =
      if not (stored.policy.id === payload.policy_id)
      then pure tt
      else apply_policy_result payload stored result

  unfoldable pub policy_applier :
      Job PolicyJobPayload → AdapterResult PolicyExecutionResult → Io W (Unit {0})
  policy_applier job result =
      if not (job.kind === policy_job_kind)
      then pure tt
      else (deps.get_policy job.payload.organization_id >>= apply_stored job.payload result)
