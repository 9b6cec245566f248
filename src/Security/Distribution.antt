-- ===== src/Security/Distribution.antt =====
-- `distributePolicy` of apps/security-control/src/index.ts. The registry and the incidents are
-- passed from state to state; the edge is an action on the world.
pub mod Laws
pub mod Order
use Prim.Native.String.{◌++◌ as ◌<>◌}
use uscs.Common.{ℕ, String, Bool, true, false, Option, none, some, if◌then◌else◌, ltb}
use uscs.Contracts.{
  EngineStatus, succeeded, failed, not_configured, ProviderRef, AdapterResult, ok, err,
}
use uscs.Io.{Io, pure, ◌>>=◌}
use uscs.Deployment.Engine.{AdapterContext}
use uscs.Security.{SecurityPolicy, PolicyVersion, validate_policy, may_distribute}
use uscs.Security.Registry.{PolicyRegistry, record_version}
use uscs.Security.Incidents.{
  Severity, medium, high, Incident, IncidentTracker, OpenInput, open_incident,
}

pub record DistributionOutcome : Type 0 where
  pub distributed : Bool
  pub version : PolicyVersion
  pub reason : String

-- `registry` and `incidents` of the dependencies.
pub record ControlState : Type 0 where
  pub registry : PolicyRegistry
  pub incidents : IncidentTracker

-- `apply_policy` answers with the version that the engine echoes.
pub record DistributionDeps (W : Type 0) : Type 0 where
  pub apply_policy : AdapterContext → ProviderRef → Io W (AdapterResult ℕ)
  pub provider_ref : SecurityPolicy → ProviderRef
  pub clock : W → ℕ
  pub decimal : ℕ → String

abbrev pub Distributed : Type 0
Distributed = AdapterResult DistributionOutcome × ControlState

abbrev pub candidate_of : SecurityPolicy → PolicyVersion
candidate_of policy = record { policy_id = policy.id; version = policy.version }

abbrev pub recorded_version : SecurityPolicy → ℕ → PolicyVersion
recorded_version policy engine_version = record {
  policy_id = policy.id;
  version = if ltb policy.version engine_version then engine_version else policy.version;
}

abbrev pub rejection_severity : EngineStatus → Severity
rejection_severity not_configured = medium
rejection_severity _ = high

module _ {W : Type 0} (deps : DistributionDeps W) (policy : SecurityPolicy)
    (ctx : AdapterContext) where
  abbrev pub rejection : EngineStatus → String → OpenInput
  rejection status reason = record {
    organization_id = ctx.organization_id;
    kind = "policy_distribution_rejected";
    severity = rejection_severity status;
    summary =
        "Policy "
        <> (policy.id
            <> (" v" <> (deps.decimal policy.version <> (" was not applied: " <> reason))));
  }

  -- From the engine's answer on, in the state that the answer finds.
  unfoldable pub after_apply : ControlState → AdapterResult ℕ → Io W Distributed
  after_apply state (err status reason) w =
      let (incident, incidents) =
        open_incident (deps.clock w) (rejection status reason) state.incidents in
      (pure (
        err status (reason <> (" (incident inc-" <> (deps.decimal incident.id <> ")"))),
        record { registry = state.registry; incidents = incidents },
      ))
        w
  after_apply state (ok _ engine_version) w =
      let version = recorded_version policy engine_version in
      (pure (
        ok succeeded record { distributed = true; version = version; reason = "applied" },
        record {
          registry = record_version state.registry ctx.organization_id version;
          incidents = state.incidents;
        },
      ))
        w

  abbrev pub allowed_with : ControlState → Option String → Io W Distributed
  allowed_with state (some reason) = pure (err failed reason, state)
  allowed_with state none = deps.apply_policy ctx (deps.provider_ref policy) >>= after_apply state

  abbrev pub validated_with : ControlState → Option String → Io W Distributed
  validated_with state (some reason) = pure (err failed reason, state)
  validated_with state none =
      allowed_with state
        (may_distribute deps.decimal (candidate_of policy) (state.registry ctx.organization_id))

  unfoldable pub distribute_policy : ControlState → Io W Distributed
  distribute_policy state = validated_with state (validate_policy policy)
