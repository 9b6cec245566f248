-- ===== src/Queue.antt =====
-- packages/adapters/src/queue.ts: `InMemoryJobQueue`. A job's id `job-n` is the number n, and a
-- time is milliseconds since the epoch. `by_id` and `by_key` hold references to the same job
-- objects, so the map of keys is a map to ids here, and a job is read through `by_id`.
-- Each method takes the time that it reads from the clock.
pub mod Jobs
pub mod Invariant
pub mod Enqueue
pub mod Claim
pub mod Reap
pub mod Trace
mod Tests
use Prim.Native.String
use uscs.Common.{
  ℕ, zero, suc, ◌+◌, ◌-◌, String, Bool, true, false, not, ◌&&◌, ◌||◌, Option, none, some, List, [],
  ◌∷◌, ◌++◌, ltb, leb, ◌==◌, ◌===◌, get_or_else, if◌then◌else◌,
}
use uscs.Contracts.{JobState, queued, running, succeeded, failed, is_queued, is_running}

pub record Job (P : Type 0) : Type 0 where
  pub id : ℕ
  pub organization_id : String
  pub kind : String
  pub payload : P
  pub idempotency_key : String
  pub state : JobState
  pub attempts : ℕ
  pub max_attempts : ℕ
  pub created_at : ℕ
  pub started_at : Option ℕ
  pub finished_at : Option ℕ
  pub last_error : Option String
  pub lease_expires_at : Option ℕ
  pub deferred_until : Option ℕ

pub record EnqueueInput (P : Type 0) : Type 0 where
  pub organization_id : String
  pub kind : String
  pub payload : P
  pub idempotency_key : String
  pub max_attempts : Option ℕ

pub record JobQueue (P : Type 0) : Type 0 where
  pub by_key : List (String × ℕ)
  pub by_id : List (Job P)
  pub counter : ℕ

unfoldable pub key_of : String → String → String → String
key_of organization kind key =
    String.◌++◌ organization (String.◌++◌ "::" (String.◌++◌ kind (String.◌++◌ "::" key)))

-- `byKey.get(key)`, as the reference that it returns.
unfoldable pub reference : String → List (String × ℕ) → Option ℕ
reference key [] = none
reference key ((k, i) ∷ entries) = if k === key then some i else reference key entries

abbrev is_expired : Option ℕ → ℕ → Bool
is_expired none now = false
is_expired (some t) now = leb t now

-- `job.deferredUntil && ... > now` keeps a job invisible.
abbrev pub is_due : Option ℕ → ℕ → Bool
is_due none now = true
is_due (some t) now = leb t now

module _ {P : Type 0} where
  abbrev pub empty_queue : JobQueue P
  empty_queue = record { by_key = []; by_id = []; counter = 0 }

  -- `byId.get(jobId)`
  unfoldable pub get : ℕ → List (Job P) → Option (Job P)
  get i [] = none
  get i (j ∷ js) = if j.id == i then some j else get i js

  -- A mutation of the job object that `byId.get(jobId)` returns; nothing if there is none.
  unfoldable pub modify : ℕ → (Job P → Job P) → List (Job P) → List (Job P)
  modify i f [] = []
  modify i f (j ∷ js) = if j.id == i then f j ∷ js else j ∷ modify i f js

  abbrev pub key_of_input : EnqueueInput P → String
  key_of_input input = key_of input.organization_id input.kind input.idempotency_key

  abbrev pub key_of_job : Job P → String
  key_of_job j = key_of j.organization_id j.kind j.idempotency_key

  abbrev pub new_job : ℕ → ℕ → EnqueueInput P → Job P
  new_job now i input = record {
    id = i;
    organization_id = input.organization_id;
    kind = input.kind;
    payload = input.payload;
    idempotency_key = input.idempotency_key;
    state = queued;
    attempts = 0;
    max_attempts = get_or_else input.max_attempts 3;
    created_at = now;
    started_at = none;
    finished_at = none;
    last_error = none;
    lease_expires_at = none;
    deferred_until = none;
  }

  abbrev pub add_job : Job P → JobQueue P → JobQueue P
  add_job j q = record {
    by_key = q.by_key ++ (key_of_job j, j.id) ∷ [];
    by_id = q.by_id ++ j ∷ [];
    counter = j.id;
  }

  -- The job object behind a reference.
  abbrev pub deref : Option ℕ → JobQueue P → Option (Job P)
  deref none q = none
  deref (some i) q = get i q.by_id

  abbrev pub enqueue_at : Option (Job P) → ℕ → EnqueueInput P → JobQueue P → Job P × JobQueue P
  enqueue_at (some existing) now input q = (existing, q)
  enqueue_at none now input q = let j = new_job now (suc q.counter) input in (j, add_job j q)

  unfoldable pub enqueue : ℕ → EnqueueInput P → JobQueue P → Job P × JobQueue P
  enqueue now input q = enqueue_at (deref (reference (key_of_input input) q.by_key) q) now input q

  -- The three tests that `claim` makes of a job.
  unfoldable pub is_claimable : ℕ → Job P → Bool
  is_claimable now j =
      is_queued j.state && not (leb j.max_attempts j.attempts) && is_due j.deferred_until now

  unfoldable pub claimed : ℕ → ℕ → Job P → Job P
  claimed now lease_ms j = record j {
    state = running;
    attempts = j.attempts + 1;
    started_at = some now;
    lease_expires_at = some (now + lease_ms);
    deferred_until = none;
  }

  abbrev pub keep_before : Job P → Option (Job P × List (Job P)) → Option (Job P × List (Job P))
  keep_before j none = none
  keep_before j (some (c, js)) = some (c, j ∷ js)

  -- The loop of `claim`, in the order of insertion.
  unfoldable pub claim_in : ℕ → ℕ → List (Job P) → Option (Job P × List (Job P))
  claim_in now lease_ms [] = none
  claim_in now lease_ms (j ∷ js) =
      if is_claimable now j
      then some (claimed now lease_ms j, claimed now lease_ms j ∷ js)
      else keep_before j (claim_in now lease_ms js)

  abbrev pub with_claim : JobQueue P → Option (Job P × List (Job P)) → Option (Job P) × JobQueue P
  with_claim q none = (none, q)
  with_claim q (some (c, js)) = (some c, record q { by_id = js })

  unfoldable pub claim : ℕ → ℕ → JobQueue P → Option (Job P) × JobQueue P
  claim now lease_ms q = with_claim q (claim_in now lease_ms q.by_id)

  unfoldable pub completed : ℕ → Job P → Job P
  completed now j = record j {
    state = succeeded;
    finished_at = some now;
    last_error = none;
    lease_expires_at = none;
  }

  unfoldable pub failed_once : ℕ → String → Job P → Job P
  failed_once now reason j =
      if leb j.max_attempts j.attempts
      then record j {
        state = failed;
        finished_at = some now;
        last_error = some reason;
        lease_expires_at = none;
      }
      else record j { state = queued; last_error = some reason; lease_expires_at = none }

  unfoldable pub terminated : ℕ → String → Job P → Job P
  terminated now reason j = record j {
    state = failed;
    finished_at = some now;
    last_error = some reason;
    lease_expires_at = none;
  }

  -- `-` on ℕ stops at 0, as `Math.max(0, job.attempts - 1)` does.
  unfoldable pub deferred : ℕ → String → ℕ → Job P → Job P
  deferred now reason defer_ms j = record j {
    state = queued;
    attempts = j.attempts - 1;
    started_at = none;
    last_error = some reason;
    lease_expires_at = none;
    deferred_until = if ltb 0 defer_ms then some (now + defer_ms) else none;
  }

  abbrev pub on_job : ℕ → (Job P → Job P) → JobQueue P → JobQueue P
  on_job i f q = record q { by_id = modify i f q.by_id }

  unfoldable pub complete : ℕ → ℕ → JobQueue P → JobQueue P
  complete now i = on_job i (completed now)

  unfoldable pub fail : ℕ → ℕ → String → JobQueue P → JobQueue P
  fail now i reason = on_job i (failed_once now reason)

  unfoldable pub terminate : ℕ → ℕ → String → JobQueue P → JobQueue P
  terminate now i reason = on_job i (terminated now reason)

  unfoldable pub defer : ℕ → ℕ → String → ℕ → JobQueue P → JobQueue P
  defer now i reason defer_ms = on_job i (deferred now reason defer_ms)

  -- The job is running and its lease has passed.
  unfoldable pub is_stale : ℕ → Job P → Bool
  is_stale now j = is_running j.state && is_expired j.lease_expires_at now

  unfoldable pub reaped : ℕ → Job P → Job P
  reaped now j =
      if leb j.max_attempts j.attempts
      then record j {
        state = failed;
        finished_at = some now;
        last_error = some "lease expired and no attempts remain";
        lease_expires_at = none;
      }
      else record j { state = queued; last_error = some "lease expired"; lease_expires_at = none }

  -- The loop of `reapExpired`, with its count.
  unfoldable pub reap_in : ℕ → List (Job P) → ℕ × List (Job P)
  reap_in now [] = (0, [])
  reap_in now (j ∷ js) =
      let (n, rest) = reap_in now js in
      if is_stale now j then (suc n, reaped now j ∷ rest) else (n, j ∷ rest)

  unfoldable pub reap_expired : ℕ → JobQueue P → ℕ × JobQueue P
  reap_expired now q = let (n, js) = reap_in now q.by_id in (n, record q { by_id = js })
