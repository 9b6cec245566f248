-- ===== src/PolicyJob/Tests.antt =====
-- A run of the policy job on a small input. The world counts the calls of the edge.
use uscs.Common.{ℕ, suc, none, some}
use uscs.Contracts.{succeeded, ok}
use uscs.Io.{returns, pure}
use uscs.PolicyJob.{active, StoredPolicy, PolicyJobPayload, PolicyJobDeps}

abbrev stored : StoredPolicy
stored = record {
  policy = record {
    id = "policy-1";
    organization_id = "org-1";
    name = "Default";
    risk_level = "high";
    action = "block";
    version = 7;
  };
  state = active;
  protection_mode = "normal";
  protection_expires_at = none;
}

-- The job was enqueued for version 3.
abbrev payload : PolicyJobPayload
payload = record {
  organization_id = "org-1";
  policy_id = "policy-1";
  version = 3;
  actor_id = "user-1";
  actor_email = "user@org.test";
}

abbrev deps : PolicyJobDeps ℕ
deps = record {
  apply_policy = λ c r w. (returns (ok succeeded 7), suc w);
  get_policy = λ o. pure (some stored);
  save_policy = λ s. pure s.version;
  record_event = λ e. pure tt;
  record_audit = λ a. pure tt;
  open_incident = none;
  new_id = pure "id-1";
  clock = λ w. w;
  iso = λ t. "now";
  decimal = λ n. "7";
}
