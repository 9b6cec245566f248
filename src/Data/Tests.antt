-- ===== src/Data/Tests.antt =====
-- Runs of the data jobs on small inputs. The world counts what the engine restores.
use uscs.Common.{ℕ, suc, refl, none, some}
use uscs.Contracts.{running, succeeded, JobState, OperationRef, AdapterResult, ok}
use uscs.Io.{returns, pure}
use uscs.Queue.{Job}
use uscs.Processor.{JobContext}
use uscs.Data.{restore_job_handler}
use uscs.Data.Rows.{
  DataResource, DataBackup, BackupJobPayload, RestoreJobPayload, DataExecutionResult, DataJobDeps,
  backup_job_kind,
}
use uscs.Data.Restores.{Restored, restore_accepted}

abbrev resource : DataResource
resource = record {
  id = "resource-1";
  organization_id = "org-1";
  kind = "postgres";
  provider = none;
  provider_resource_id = some "db-1";
}

abbrev completed_backup : DataBackup
completed_backup = record {
  data_resource_id = "resource-1";
  status = succeeded;
  provider = none;
  provider_resource_id = some "backup-7";
}

abbrev operation : OperationRef
operation = record {
  job_id = "restore-job";
  provider_ref = record {
    organization_id = "org-1";
    provider = "postgres";
    resource_type = "database";
    resource_id = "db-1";
  };
}

abbrev deps : DataJobDeps ℕ
deps = record {
  backup = λ c r w. (returns (ok running r), suc w);
  restore = λ c b t w. (returns (ok succeeded operation), suc w);
  get_resource = λ o r. pure (some resource);
  get_backup = λ o b. pure (some completed_backup);
  update_backup = λ u. pure tt;
  update_restore = λ u. pure tt;
  record_audit = λ e. pure tt;
  record_usage = λ o m n. pure tt;
  clock = λ w. w;
  iso = λ t. "now";
}

abbrev payload : RestoreJobPayload
payload = record {
  restore_id = "restore-1";
  organization_id = "org-1";
  backup_id = "backup-row-1";
  data_resource_id = "resource-1";
  actor_id = "user-1";
  actor_email = "user@org.test";
}

abbrev ctx : JobContext
ctx = record { organization_id = "org-1"; idempotency_key = "k1"; timeout_ms = 30000 }

restore_accepted_example : Restored deps payload ctx 4 succeeded 5
unfolding restore_job_handler
restore_accepted_example =
    restore_accepted deps payload ctx 4 5 succeeded
      record { status = succeeded; provider_resource_id = some "restore-job"; reason = none } refl

abbrev backup_job : Job BackupJobPayload
backup_job = record {
  id = 1;
  organization_id = "org-1";
  kind = backup_job_kind;
  payload = record {
    backup_id = "backup-row-1";
    organization_id = "org-1";
    data_resource_id = "resource-1";
    actor_id = "user-1";
    actor_email = "user@org.test";
  };
  idempotency_key = "k1";
  state = JobState.running;
  attempts = 1;
  max_attempts = 3;
  created_at = 100;
  started_at = some 101;
  finished_at = none;
  last_error = none;
  lease_expires_at = some 60101;
  deferred_until = none;
}

abbrev still_running : AdapterResult DataExecutionResult
still_running =
    ok running record { status = running; provider_resource_id = some "backup-7"; reason = none }
