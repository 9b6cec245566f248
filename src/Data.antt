-- ===== src/Data.antt =====
-- apps/worker/src/backup-job.ts and restore-job.ts: the handlers and the appliers of the two data
-- jobs. The store and the database engine are actions on the world; `iso` prints an instant.
pub mod Restores
pub mod Outcomes
pub mod Rows
mod Tests
use uscs.Common.{
  ℕ, String, Bool, true, false, Option, none, some, get_or_else, if◌then◌else◌, ◌===◌, ◌&&◌, not,
}
use uscs.Contracts.{
  EngineStatus, succeeded, failed, not_configured, is_success, ProviderRef, OperationRef,
  AdapterResult, ok, err, status_of,
}
use uscs.Io.{Io, pure, ◌>>=◌, ◌>>◌, when, truthy}
use uscs.Queue.{Job}
use uscs.Processor.{JobContext}
use uscs.Deployment.Engine.{AdapterContext}
use uscs.Data.Rows.{
  backup_job_kind, restore_job_kind, DataResource, DataBackup, BackupJobPayload, RestoreJobPayload,
  DataExecutionResult, DataUpdate, AuditEvent, DataJobDeps,
}

abbrev pub ref_of : String → Option String → String → String → ProviderRef
ref_of organization_id provider type id = record {
  organization_id = organization_id;
  provider = get_or_else provider "postgres";
  resource_type = type;
  resource_id = id;
}

abbrev pub adapter_context : JobContext → DataResource → AdapterContext
adapter_context ctx resource = record {
  organization_id = resource.organization_id;
  idempotency_key = ctx.idempotency_key;
  timeout_ms = ctx.timeout_ms;
}

abbrev taken_as : AdapterResult ProviderRef → AdapterResult DataExecutionResult
taken_as (ok status ref) =
    ok status record { status = status; provider_resource_id = some ref.resource_id; reason = none }
taken_as (err status reason) = err status reason

abbrev performed_as : AdapterResult OperationRef → AdapterResult DataExecutionResult
performed_as (ok status operation) =
    ok status
      record { status = status; provider_resource_id = some operation.job_id; reason = none }
performed_as (err status reason) = err status reason

module _ {W : Type 0} (deps : DataJobDeps W) where
  abbrev backup_handle :
      JobContext → DataResource → Option String → Io W (AdapterResult DataExecutionResult)
  backup_handle ctx resource none =
      pure (err not_configured "This resource has no engine handle, so it cannot be backed up.")
  backup_handle ctx resource (some id) =
      if not (resource.kind === "postgres")
      then pure (
          err not_configured
            "Backing up an object-storage bucket is not available in this build yet.")
      else (deps.backup (adapter_context ctx resource)
            (ref_of resource.organization_id resource.provider "database" id)
          >>= λ taken. pure (taken_as taken))

  abbrev backup_resource :
      BackupJobPayload → JobContext → Option DataResource → Io W (AdapterResult DataExecutionResult)
  backup_resource payload ctx none =
      pure (err failed "The data resource this backup names no longer exists.")
  backup_resource payload ctx (some resource) =
      if not (resource.organization_id === payload.organization_id)
      then pure (err failed "The data resource this backup names no longer exists.")
      else backup_handle ctx resource (truthy resource.provider_resource_id)

  unfoldable pub backup_job_handler :
      BackupJobPayload → JobContext → Io W (AdapterResult DataExecutionResult)
  backup_job_handler payload ctx =
      deps.get_resource payload.organization_id payload.data_resource_id
      >>= backup_resource payload ctx

  -- From the backup's handle on; the handle is looked at only when the backup succeeded.
  abbrev pub restore_from :
      JobContext
      → DataResource
      → String
      → DataBackup
      → Option String
      → Io W (AdapterResult DataExecutionResult)
  restore_from ctx resource target backup none =
      pure (err failed "That backup did not complete, so there is nothing to restore from it.")
  restore_from ctx resource target backup (some id) =
      if not (is_success backup.status)
      then pure (err failed "That backup did not complete, so there is nothing to restore from it.")
      else (deps.restore (adapter_context ctx resource)
            (ref_of resource.organization_id backup.provider "backup" id)
            (ref_of resource.organization_id resource.provider "database" target)
          >>= λ performed. pure (performed_as performed))

  abbrev pub restore_backup :
      JobContext
      → DataResource
      → String
      → Option DataBackup
      → Io W (AdapterResult DataExecutionResult)
  restore_backup ctx resource target none =
      pure (err failed "The backup this restore names no longer exists for this resource.")
  restore_backup ctx resource target (some backup) =
      if not (backup.data_resource_id === resource.id)
      then pure (err failed "The backup this restore names no longer exists for this resource.")
      else restore_from ctx resource target backup (truthy backup.provider_resource_id)

  abbrev pub restore_target :
      RestoreJobPayload
      → JobContext
      → DataResource
      → Option String
      → Io W (AdapterResult DataExecutionResult)
  restore_target payload ctx resource none =
      pure (err not_configured "This resource has no engine handle, so it cannot be restored.")
  restore_target payload ctx resource (some target) =
      deps.get_backup payload.organization_id payload.backup_id
      >>= restore_backup ctx resource target

  abbrev pub restore_resource :
      RestoreJobPayload
      → JobContext
      → Option DataResource
      → Io W (AdapterResult DataExecutionResult)
  restore_resource payload ctx none =
      pure (err failed "The data resource this restore names no longer exists.")
  restore_resource payload ctx (some resource) =
      if not (resource.organization_id === payload.organization_id)
      then pure (err failed "The data resource this restore names no longer exists.")
      else if not (resource.kind === "postgres")
      then pure (
          err not_configured
            "Restoring an object-storage bucket is not available in this build yet.")
      else restore_target payload ctx resource (truthy resource.provider_resource_id)

  unfoldable pub restore_job_handler :
      RestoreJobPayload → JobContext → Io W (AdapterResult DataExecutionResult)
  restore_job_handler payload ctx =
      deps.get_resource payload.organization_id payload.data_resource_id
      >>= restore_resource payload ctx

  abbrev pub row_status : AdapterResult DataExecutionResult → EngineStatus
  row_status (ok _ value) = value.status
  row_status (err status _) = status

  abbrev row_resource : AdapterResult DataExecutionResult → Option String
  row_resource (ok _ value) = value.provider_resource_id
  row_resource (err _ _) = none

  abbrev pub update_of : String → String → AdapterResult DataExecutionResult → String → DataUpdate
  update_of id organization_id result finished = record {
    id = id;
    organization_id = organization_id;
    status = row_status result;
    provider_resource_id = row_resource result;
    finished_at = some finished;
  }

  abbrev pub backup_audit : BackupJobPayload → AdapterResult DataExecutionResult → AuditEvent
  backup_audit payload result = record {
    organization_id = payload.organization_id;
    actor_id = payload.actor_id;
    actor_email = payload.actor_email;
    event =
        if is_success (row_status result) then "data.backup_completed" else "data.backup_failed";
    target_type = "data_backup";
    target_id = payload.backup_id;
    data_resource_id = payload.data_resource_id;
    backup_id = none;
    status = row_status result;
  }

  abbrev pub restore_audit : RestoreJobPayload → AdapterResult DataExecutionResult → AuditEvent
  restore_audit payload result = record {
    organization_id = payload.organization_id;
    actor_id = payload.actor_id;
    actor_email = payload.actor_email;
    event =
        if is_success (row_status result) then "data.restore_completed" else "data.restore_failed";
    target_type = "data_restore";
    target_id = payload.restore_id;
    data_resource_id = payload.data_resource_id;
    backup_id = some payload.backup_id;
    status = row_status result;
  }

  abbrev pub apply_backup :
      BackupJobPayload → AdapterResult DataExecutionResult → String → Io W (Unit {0})
  apply_backup payload result finished =
      deps.update_backup (update_of payload.backup_id payload.organization_id result finished)
      >> deps.record_audit (backup_audit payload result)
      >> when (is_success (row_status result))
          (deps.record_usage payload.organization_id "backups" 1)

  unfoldable pub backup_applier :
      Job BackupJobPayload → AdapterResult DataExecutionResult → Io W (Unit {0})
  backup_applier job result w =
      if job.kind === backup_job_kind
      then apply_backup job.payload result (deps.iso (deps.clock w)) w
      else (pure tt) w

  abbrev pub apply_restore :
      RestoreJobPayload → AdapterResult DataExecutionResult → String → Io W (Unit {0})
  apply_restore payload result finished =
      deps.update_restore (update_of payload.restore_id payload.organization_id result finished)
      >> deps.record_audit (restore_audit payload result)

  unfoldable pub restore_applier :
      Job RestoreJobPayload → AdapterResult DataExecutionResult → Io W (Unit {0})
  restore_applier job result w =
      if job.kind === restore_job_kind
      then apply_restore job.payload result (deps.iso (deps.clock w)) w
      else (pure tt) w
