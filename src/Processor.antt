-- ===== src/Processor.antt =====
-- apps/worker/src/processor.ts: `InProcessWorker` over the queue of Queue.antt. `W` is the world
-- outside: engines, rows, clocks. A handler and an applier act on it and may throw. Log lines are
-- left out. Each clock is read where the source reads it.
pub mod Settled
pub mod Ticks
pub mod Polling
mod Tests
use Prim.Native.String.{◌++◌ as ◌<>◌}
use uscs.Common.{
  ℕ, zero, suc, ◌+◌, ◌/◌, String, Bool, true, false, Option, none, some, List, [], ◌∷◌, leb,
  get_or_else, if◌then◌else◌,
}
use uscs.Contracts.{
  EngineStatus, pending, running, succeeded, failed, degraded, not_configured, AdapterResult, ok,
  err, status_of, status_text, in_flight, JobState,
}
use uscs.Queue.{Job, JobQueue, claim, complete, fail, terminate, defer}

pub record JobOutcome : Type 0 where
  pub job_id : ℕ
  pub kind : String
  pub status : EngineStatus
  pub applied : Bool
  pub reason : Option String

pub record JobContext : Type 0 where
  pub organization_id : String
  pub idempotency_key : String
  pub timeout_ms : ℕ

-- How a call of a handler ends.
pub data Attempt (V : Type 0) : Type 0 where
  returned : AdapterResult V → Attempt V
  threw : String → Attempt V

abbrev pub JobHandler : Type 0 → Type 0 → Type 0 → Type 0
JobHandler W P V = P → JobContext → W → Attempt V × W

-- An applier returns the message of what it throws, if it throws.
abbrev pub Applier : Type 0 → Type 0 → Type 0 → Type 0
Applier W P V = Job P → AdapterResult V → W → Option String × W

-- `queue_clock` is the queue's clock, `system_clock` is `Date.now()`; `decimal` prints a number.
pub record WorkerOptions (W P V : Type 0) : Type 0 where
  pub handlers : String → Option (JobHandler W P V)
  pub lease_ms : Option ℕ
  pub default_timeout_ms : Option ℕ
  pub poll_backoff_ms : Option ℕ
  pub poll_ceiling_ms : Option ℕ
  pub apply : Option (Applier W P V)
  pub queue_clock : W → ℕ
  pub system_clock : W → ℕ
  pub decimal : ℕ → String

abbrev pub default_poll_backoff_ms : ℕ
default_poll_backoff_ms = 10000

abbrev pub default_poll_ceiling_ms : ℕ
default_poll_ceiling_ms = 3600000

abbrev no_handler : String → String
no_handler kind = "No handler registered for kind '" <> (kind <> "'.")

abbrev adapter_returned : EngineStatus → String
adapter_returned status = "Adapter returned " <> (status_text status <> ".")

-- `result.ok ? ... : result.reason`
abbrev pub reason_of : {V : Type 0} → AdapterResult V → String
reason_of (ok status _) = adapter_returned status
reason_of (err _ reason) = reason

abbrev pub is_unavailable : EngineStatus → Bool
is_unavailable not_configured = true
is_unavailable degraded = true
is_unavailable _ = false

abbrev pub is_done : {V : Type 0} → AdapterResult V → Bool
is_done (ok succeeded _) = true
is_done _ = false

module _ {W P V : Type 0} (options : WorkerOptions W P V) where
  abbrev ceiling_ms : ℕ
  ceiling_ms = get_or_else options.poll_ceiling_ms default_poll_ceiling_ms

  -- `ageMs >= ceilingMs`, without a subtraction that may be negative.
  abbrev pub past_ceiling : Job P → W → Bool
  past_ceiling job w = leb (job.created_at + ceiling_ms) (options.system_clock w)

  abbrev pub ceiling_reason : EngineStatus → String
  ceiling_reason status =
      "The engine still reports this build "
      <> (status_text status
          <> (" after "
              <> (options.decimal ((ceiling_ms + 30000) / 60000)
                  <> " minutes; it is not being worked on.")))

  abbrev run_apply : Option (Applier W P V) → Job P → AdapterResult V → W → W
  run_apply none job result w = w
  run_apply (some apply) job result w = (apply job result w).1

  -- `settle`: the row is written after the job's own state; what the applier throws is dropped. The
  -- applier gets the job as it was claimed, whose payload, kind and key no method of the queue changes.
  unfoldable pub settle :
      Job P → JobOutcome → AdapterResult V → JobQueue P → W → Option JobOutcome × JobQueue P × W
  settle job outcome result q w = (some outcome, q, run_apply options.apply job result w)

  abbrev outcome : Job P → EngineStatus → Bool → Option String → JobOutcome
  outcome job status applied reason = record {
    job_id = job.id;
    kind = job.kind;
    status = status;
    applied = applied;
    reason = reason;
  }

  -- The end of `tick` for an engine that still carries the work out.
  unfoldable pub poll_again :
      Job P → AdapterResult V → JobQueue P → W → Option JobOutcome × JobQueue P × W
  unfolding settle
  poll_again job result q w =
      let now = options.queue_clock w in
      let late = ceiling_reason (status_of result) in
      if past_ceiling job w
      then settle job (outcome job (status_of result) false (some late))
          (err (status_of result) late) (terminate now job.id late q) w
      else settle job (outcome job (status_of result) false none) result
          (defer now job.id (reason_of result)
            (get_or_else options.poll_backoff_ms default_poll_backoff_ms) q)
          w

  -- The end of `tick` for an adapter that gave up.
  unfoldable pub give_up :
      Job P → AdapterResult V → JobQueue P → W → Option JobOutcome × JobQueue P × W
  unfolding settle
  give_up job result q w =
      let now = options.queue_clock w in
      settle job (outcome job (status_of result) false (some (reason_of result))) result
        (if is_unavailable (status_of result)
          then terminate now job.id (reason_of result) q
          else fail now job.id (reason_of result) q)
        w

  -- `tick` from the point where the handler has returned or thrown.
  unfoldable pub conclude : Attempt V → Job P → JobQueue P → W → Option JobOutcome × JobQueue P × W
  unfolding settle
  conclude (threw reason) job q w =
      settle job (outcome job failed false (some reason)) (err failed reason)
        (fail (options.queue_clock w) job.id reason q) w
  conclude (returned result) job q w =
      if is_done result
      then settle job (outcome job (status_of result) true none) result
          (complete (options.queue_clock w) job.id q) w
      else if in_flight (status_of result)
      then poll_again job result q w
      else give_up job result q w

  abbrev pub context_of : Job P → JobContext
  context_of job = record {
    organization_id = job.organization_id;
    idempotency_key = job.idempotency_key;
    timeout_ms = get_or_else options.default_timeout_ms 30000;
  }

  -- `tick` from the point where the handler has been looked up.
  unfoldable pub dispatch :
      Option (JobHandler W P V) → Job P → JobQueue P → W → Option JobOutcome × JobQueue P × W
  unfolding settle
  dispatch none job q w =
      settle job (outcome job not_configured false (some (no_handler job.kind)))
        (err not_configured (no_handler job.kind))
        (terminate (options.queue_clock w) job.id (no_handler job.kind) q) w
  dispatch (some handler) job q w =
      let (attempt, w') = handler job.payload (context_of job) w in conclude attempt job q w'

  abbrev pub after_claim : Option (Job P) × JobQueue P → W → Option JobOutcome × JobQueue P × W
  after_claim (none, q) w = (none, q, w)
  after_claim (some job, q) w = dispatch (options.handlers job.kind) job q w

  unfoldable pub tick : JobQueue P → W → Option JobOutcome × JobQueue P × W
  tick q w = after_claim (claim (options.queue_clock w) (get_or_else options.lease_ms 60000) q) w

  -- One round of `drain`, with the rounds after it.
  abbrev pub drain_round :
      (JobQueue P → W → List JobOutcome × JobQueue P × W)
      → Option JobOutcome
      → JobQueue P
      → W
      → List JobOutcome × JobQueue P × W
  drain_round later none q w = ([], q, w)
  drain_round later (some outcome) q w = let (rest, q', w') = later q w in (outcome ∷ rest, q', w')

  -- The loop of `drain`, over the rounds that are left.
  unfoldable pub drain : ℕ → JobQueue P → W → List JobOutcome × JobQueue P × W
  drain zero q w = ([], q, w)
  drain (suc n) q w = let (o, q', w') = tick q w in drain_round (drain n) o q' w'

-- `jobStateFor`
unfoldable pub job_state_for : JobOutcome → JobState → JobState
job_state_for outcome queue_state = if outcome.applied then JobState.succeeded else queue_state
