-- ===== src/Data/Restores.antt =====
-- restore-job.ts: what a restore that the engine accepted was run on.
use uscs.Common.{
  String, false, Option, get_or_else, none, some, ◌≡◌, refl, ap, ap₂, inl, inr, arith, Bool-cases,
  ◌===◌, not, eq_of_===,
}
use uscs.Contracts.{
  EngineStatus, succeeded, is_success, ProviderRef, OperationRef, AdapterResult, ok, err, status_of,
}
use uscs.Io.{Ending, returns, raises, pure, then_do, truthy, returned_value}
use uscs.Deployment.Engine.{AdapterContext}
use uscs.Processor.{JobContext}
use uscs.Data.{
  performed_as, restore_from, restore_backup, restore_target, restore_resource, restore_job_handler,
}
use uscs.Data.Rows.{DataResource, DataBackup, RestoreJobPayload, DataExecutionResult, DataJobDeps}

success-succeeded : (s : EngineStatus) → not (is_success s) ≡ false → s ≡ succeeded
success-succeeded s e = ground arith

module _ {W : Type 0} (deps : DataJobDeps W) (payload : RestoreJobPayload) (ctx : JobContext) where
  -- A handle of the resource's organization, with the default provider of the database engine.
  abbrev pub handle : DataResource → Option String → String → String → ProviderRef
  handle resource provider type id = record {
    organization_id = resource.organization_id;
    provider = get_or_else provider "postgres";
    resource_type = type;
    resource_id = id;
  }

  abbrev pub call_for : DataResource → AdapterContext
  call_for resource = record {
    organization_id = resource.organization_id;
    idempotency_key = ctx.idempotency_key;
    timeout_ms = ctx.timeout_ms;
  }

  -- The backup that the store holds under the job's id, of the resource and succeeded, restored into
  -- the resource by the engine.
  abbrev pub RestoredFrom : DataResource → W → EngineStatus → W → Type 0
  RestoredFrom resource w1 status w' =
      (backup : DataBackup) × (target : String) × (id : String) × (operation : OperationRef)
      × (w2 : W) × (deps.get_backup payload.organization_id payload.backup_id w1
          ≡ (returns (some backup), w2))
      × (truthy resource.provider_resource_id ≡ some target)
      × (backup.data_resource_id ≡ resource.id)
      × (backup.status ≡ succeeded)
      × (truthy backup.provider_resource_id ≡ some id)
      × (deps.restore (call_for resource) (handle resource backup.provider "backup" id)
            (handle resource resource.provider "database" target) w2
          ≡ (returns (ok status operation), w'))

  performed :
      (a : Ending (AdapterResult OperationRef)) (w1 w' : W) (status : EngineStatus)
      (value : DataExecutionResult)
      → then_do (λ r. pure (performed_as r)) a w1 ≡ (returns (ok status value), w')
      → (operation : OperationRef) × (a ≡ returns (ok status operation)) × (w1 ≡ w')
  performed (raises e) w1 w' status value h = cc
  performed (returns (err s m)) w1 w' status value h = cc
  performed (returns (ok s operation)) w1 w' status value h = (
    operation,
    ap (λ t. returns (ok t operation)) (ap status_of (returned_value (ap (λ p. p.0) h))),
    ap (λ p. p.1) h,
  )

  not_ok :
      (m : String × EngineStatus) (w w' : W) (status : EngineStatus) (value : DataExecutionResult)
      → pure {W = W} {A = AdapterResult DataExecutionResult} (err m.1 m.0) w
        ≡ (returns (ok status value), w')
      → ⊥
  not_ok m w w' status value h = cc

  restored-from :
      (resource : DataResource) (target : String) (backup : DataBackup) (o : Option String)
      (w1 w w' : W) (status : EngineStatus) (value : DataExecutionResult)
      → deps.get_backup payload.organization_id payload.backup_id w1 ≡ (returns (some backup), w)
      → truthy resource.provider_resource_id ≡ some target
      → backup.data_resource_id ≡ resource.id
      → truthy backup.provider_resource_id ≡ o
      → restore_from deps ctx resource target backup o w ≡ (returns (ok status value), w')
      → RestoredFrom resource w1 status w'
  restored-from resource target backup none w1 w w' status value g t b o h = cc
  restored-from resource target backup (some id) w1 w w' status value g t b o h =
      elim (Bool-cases (not (is_success backup.status))) [
        | inl unfinished ↦ absurd (not_ok _ w w' status value (rw unfinished at h))
        | inr finished ↦
            let (operation, answer, same) = performed _ _ w' status value (rw finished at h) in
            (
              backup,
              target,
              id,
              operation,
              w,
              g,
              t,
              b,
              success-succeeded backup.status finished,
              o,
              ap₂ (λ a v. (a, v)) answer same,
            )
      ]

  restored-backup :
      (resource : DataResource) (target : String) (b : Ending (Option DataBackup)) (w1 w w' : W)
      (status : EngineStatus) (value : DataExecutionResult)
      → deps.get_backup payload.organization_id payload.backup_id w1 ≡ (b, w)
      → truthy resource.provider_resource_id ≡ some target
      → then_do (restore_backup deps ctx resource target) b w ≡ (returns (ok status value), w')
      → RestoredFrom resource w1 status w'
  restored-backup resource target (raises e) w1 w w' status value g t h = cc
  restored-backup resource target (returns none) w1 w w' status value g t h = cc
  restored-backup resource target (returns (some backup)) w1 w w' status value g t h =
      elim (Bool-cases (backup.data_resource_id === resource.id)) [
        | inl same ↦
            restored-from resource target backup _ w1 w w' status value g t
              (eq_of_=== backup.data_resource_id resource.id same) refl (rw same at h)
        | inr other ↦ absurd (not_ok _ w w' status value (rw other at h))
      ]

  restored-target :
      (resource : DataResource) (o : Option String) (w w' : W) (status : EngineStatus)
      (value : DataExecutionResult)
      → truthy resource.provider_resource_id ≡ o
      → restore_target deps payload ctx resource o w ≡ (returns (ok status value), w')
      → RestoredFrom resource w status w'
  restored-target resource none w w' status value t h = cc
  restored-target resource (some target) w w' status value t h =
      restored-backup resource target _ w _ w' status value refl t h

  -- What the handler read, and what the engine did, when a restore is reported as accepted.
  abbrev pub Restored : W → EngineStatus → W → Type 0
  Restored w status w' =
      (resource : DataResource) × (w1 : W) × (deps.get_resource payload.organization_id
          payload.data_resource_id w
        ≡ (returns (some resource), w1))
      × (resource.organization_id ≡ payload.organization_id)
      × (resource.kind ≡ "postgres")
      × RestoredFrom resource w1 status w'

  Restored-resource :
      (r : Ending (Option DataResource)) (w w1 w' : W) (status : EngineStatus)
      (value : DataExecutionResult)
      → deps.get_resource payload.organization_id payload.data_resource_id w ≡ (r, w1)
      → then_do (restore_resource deps payload ctx) r w1 ≡ (returns (ok status value), w')
      → Restored w status w'
  Restored-resource (raises e) w w1 w' status value read h = cc
  Restored-resource (returns none) w w1 w' status value read h = cc
  Restored-resource (returns (some resource)) w w1 w' status value read h =
      elim (Bool-cases (resource.organization_id === payload.organization_id)) [
        | inr other ↦ absurd (not_ok _ w1 w' status value (rw other at h))
        | inl same ↦ elim (Bool-cases (resource.kind === "postgres")) [
          | inr bucket ↦ absurd (not_ok _ w1 w' status value (rw (same, bucket) at h))
          | inl postgres ↦ (
            resource,
            w1,
            read,
            eq_of_=== resource.organization_id payload.organization_id same,
            eq_of_=== resource.kind "postgres" postgres,
            restored-target resource _ w1 w' status value refl (rw (same, postgres) at h),
          )
        ]
      ]

  -- A restore that the handler reports as ok was run by the engine, with the status that is
  -- reported, on the handle of a postgres database that the store gave for the job's organization
  -- and resource, from the handle of the backup that the store gave for the job's backup id,
  -- which is of this resource and whose status is `succeeded`.
  pub restore_accepted :
      (w w' : W) (status : EngineStatus) (value : DataExecutionResult)
      → restore_job_handler deps payload ctx w ≡ (returns (ok status value), w')
      → Restored w status w'
  unfolding restore_job_handler
  restore_accepted w w' status value h = Restored-resource _ w _ w' status value refl h
