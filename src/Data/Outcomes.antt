-- ===== src/Data/Outcomes.antt =====
-- backup-job.ts: what the applier writes of a backup that the engine is still taking.
use uscs.Common.{none}
use uscs.Contracts.{EngineStatus}
use uscs.Io.{Io}
use uscs.Data.Rows.{BackupJobPayload, DataJobDeps, AuditEvent}

module _ {W : Type 0} (deps : DataJobDeps W) where
  failed_audit : BackupJobPayload → EngineStatus → AuditEvent
  failed_audit payload status = record {
    organization_id = payload.organization_id;
    actor_id = payload.actor_id;
    actor_email = payload.actor_email;
    event = "data.backup_failed";
    target_type = "data_backup";
    target_id = payload.backup_id;
    data_resource_id = payload.data_resource_id;
    backup_id = none;
    status = status;
  }
