-- ===== src/Data/Rows.antt =====
-- backup-job.ts and restore-job.ts: the payloads, the rows that the jobs read and write, and the
-- actions of the store and of the engine.
use uscs.Common.{ℕ, String, Option}
use uscs.Contracts.{EngineStatus, ProviderRef, OperationRef, AdapterResult}
use uscs.Io.{Io}
use uscs.Deployment.Engine.{AdapterContext}

abbrev pub backup_job_kind : String
backup_job_kind = "data.backup.execute"

abbrev pub restore_job_kind : String
restore_job_kind = "data.restore.execute"

-- The fields of the rows that the jobs read.
pub record DataResource : Type 0 where
  pub id : String
  pub organization_id : String
  pub kind : String
  pub provider : Option String
  pub provider_resource_id : Option String

pub record DataBackup : Type 0 where
  pub data_resource_id : String
  pub status : EngineStatus
  pub provider : Option String
  pub provider_resource_id : Option String

pub record BackupJobPayload : Type 0 where
  pub backup_id : String
  pub organization_id : String
  pub data_resource_id : String
  pub actor_id : String
  pub actor_email : String

pub record RestoreJobPayload : Type 0 where
  pub restore_id : String
  pub organization_id : String
  pub backup_id : String
  pub data_resource_id : String
  pub actor_id : String
  pub actor_email : String

-- `BackupExecutionResult` and `RestoreExecutionResult`.
pub record DataExecutionResult : Type 0 where
  pub status : EngineStatus
  pub provider_resource_id : Option String
  pub reason : Option String

-- The write of a backup's or a restore's row.
pub record DataUpdate : Type 0 where
  pub id : String
  pub organization_id : String
  pub status : EngineStatus
  pub provider_resource_id : Option String
  pub finished_at : Option String

pub record AuditEvent : Type 0 where
  pub organization_id : String
  pub actor_id : String
  pub actor_email : String
  pub event : String
  pub target_type : String
  pub target_id : String
  pub data_resource_id : String
  pub backup_id : Option String
  pub status : EngineStatus

pub record DataJobDeps (W : Type 0) : Type 0 where
  pub backup : AdapterContext → ProviderRef → Io W (AdapterResult ProviderRef)
  pub restore :
      AdapterContext → (backup_ref target_ref : ProviderRef) → Io W (AdapterResult OperationRef)
  pub get_resource : String → String → Io W (Option DataResource)
  pub get_backup : String → String → Io W (Option DataBackup)
  pub update_backup : DataUpdate → Io W (Unit {0})
  pub update_restore : DataUpdate → Io W (Unit {0})
  pub record_audit : AuditEvent → Io W (Unit {0})
  pub record_usage : String → String → ℕ → Io W (Unit {0})
  pub clock : W → ℕ
  pub iso : ℕ → String
