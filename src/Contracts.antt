-- ===== src/Contracts.antt =====
-- packages/contracts/src: the status vocabulary, provider references and adapter results.
-- An identifier (`Uuid`) is a text that the code only compares.
use uscs.Common.{String, Bool, true, false, Option}

pub data EngineStatus : Type 0 where
  pending running succeeded failed degraded not_configured : EngineStatus

abbrev pub is_terminal : EngineStatus → Bool
is_terminal EngineStatus.succeeded = true
is_terminal EngineStatus.failed = true
is_terminal EngineStatus.not_configured = true
is_terminal _ = false

abbrev pub is_success : EngineStatus → Bool
is_success EngineStatus.succeeded = true
is_success _ = false

-- `status === "pending" || status === "running"`, as the callers test it.
abbrev pub in_flight : EngineStatus → Bool
in_flight EngineStatus.pending = true
in_flight EngineStatus.running = true
in_flight _ = false

-- The status as the text that it is at run time.
abbrev pub status_text : EngineStatus → String
status_text EngineStatus.pending = "pending"
status_text EngineStatus.running = "running"
status_text EngineStatus.succeeded = "succeeded"
status_text EngineStatus.failed = "failed"
status_text EngineStatus.degraded = "degraded"
status_text EngineStatus.not_configured = "not_configured"

pub data JobState : Type 0 where
  queued running succeeded failed cancelled : JobState

abbrev pub is_job_terminal : JobState → Bool
is_job_terminal JobState.succeeded = true
is_job_terminal JobState.failed = true
is_job_terminal JobState.cancelled = true
is_job_terminal _ = false

abbrev pub is_queued : JobState → Bool
is_queued JobState.queued = true
is_queued _ = false

abbrev pub is_running : JobState → Bool
is_running JobState.running = true
is_running _ = false

abbrev pub is_succeeded : JobState → Bool
is_succeeded JobState.succeeded = true
is_succeeded _ = false

-- A provider's name is one of a fixed list of texts; the models here only pass it on.
pub record ProviderRef : Type 0 where
  pub organization_id : String
  pub provider : String
  pub resource_type : String
  pub resource_id : String

pub data ExecutionModel : Type 0 where
  container serverless : ExecutionModel

pub record Principal : Type 0 where
  pub user_id : String
  pub email : String
  pub display_name : Option String

pub record OperationRef : Type 0 where
  pub job_id : String
  pub provider_ref : ProviderRef

pub data AdapterResult (T : Type 0) : Type 0 where
  ok : EngineStatus → T → AdapterResult T
  err : EngineStatus → String → AdapterResult T

-- `result.status`, which both cases carry.
abbrev pub status_of : {T : Type 0} → AdapterResult T → EngineStatus
status_of (ok s _) = s
status_of (err s _) = s
