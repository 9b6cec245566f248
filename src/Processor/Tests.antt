-- ===== src/Processor/Tests.antt =====
-- Runs of the worker on small inputs (apps/worker/src/processor.ts). The world is its clock.
use uscs.Common.{
  ℕ, suc, ◌≡◌, refl, String, false, Option, none, some, List, [], ◌∷◌, if◌then◌else◌, ◌===◌, arith,
}
use uscs.Contracts.{EngineStatus, JobState, running, succeeded, ok, is_succeeded}
use uscs.Queue.{
  Job, JobQueue, EnqueueInput, empty_queue, enqueue, reference, key_of, claim, claim_in, claimed,
  is_claimable, complete, completed, get, modify, new_job,
}
use uscs.Queue.Trace.{Call, enqueue_call, run, apply, run-IsValid}
use uscs.Processor.{
  JobHandler, WorkerOptions, returned, context_of, tick, drain, ceiling_reason, dispatch, conclude,
  settle,
}
use uscs.Processor.Settled.{IsSettled, reports_success}
use uscs.Processor.Ticks.{IsDrained, tick_settles, tick_honest, drain_lem}
use uscs.Processor.Polling.{polled_again, polled_too_long}

abbrev handler_of : EngineStatus → JobHandler ℕ String String
handler_of status payload ctx w = (returned (ok status payload), suc w)

abbrev handlers : String → Option (JobHandler ℕ String String)
handlers kind =
    if kind === "quick"
    then some (handler_of succeeded)
    else if kind === "slow"
    then some (handler_of running)
    else none

abbrev options : WorkerOptions ℕ String String
options = record {
  handlers = handlers;
  lease_ms = none;
  default_timeout_ms = none;
  poll_backoff_ms = none;
  poll_ceiling_ms = none;
  apply = none;
  queue_clock = λ w. w;
  system_clock = λ w. w;
  decimal = λ n. "60";
}

abbrev input : String → String → EnqueueInput String
input kind key = record {
  organization_id = "org-1";
  kind = kind;
  payload = "payload";
  idempotency_key = key;
  max_attempts = none;
}

abbrev calls : List (Call String)
calls = enqueue_call 100 (input "quick" "k1") ∷ enqueue_call 100 (input "slow" "k2") ∷ []

abbrev quick_first : JobQueue String
quick_first = run calls empty_queue

abbrev slow_only : JobQueue String
slow_only = run (enqueue_call 100 (input "slow" "k2") ∷ []) empty_queue

abbrev quick_job : Job String
quick_job = claimed 200 60000 (new_job 100 1 (input "quick" "k1"))

abbrev slow_job : ℕ → Job String
slow_job now = claimed now 60000 (new_job 100 1 (input "slow" "k2"))

tick_settles_example :
    IsSettled (get 1 (tick options quick_first 200).1.by_id) (tick options quick_first 200).0
unfolding run apply enqueue claim claim_in get reference key_of is_claimable claimed
tick_settles_example = tick_settles options quick_first _ 200 quick_job (run-IsValid calls) refl

tick_honest_example :
    is_succeeded (completed 201 quick_job).state
    ≡ reports_success (handler_of succeeded "payload" (context_of options quick_job) 200).0
unfolding run apply enqueue claim claim_in get reference key_of is_claimable claimed tick dispatch
    conclude settle complete completed modify
tick_honest_example =
    tick_honest options quick_first _ 200 quick_job (run-IsValid calls) refl (handler_of succeeded)
      (completed 201 quick_job) refl refl

drain_lem_example : IsDrained options 10 (drain options 10 quick_first 200)
drain_lem_example = drain_lem options 10 quick_first 200

abbrev done_first : List (Call String)
done_first =
    enqueue_call 100 (input "quick" "k1")
    ∷ Call.claim_call 150 60000
    ∷ Call.complete_call 160 1
    ∷ []

abbrev done_job : Job String
done_job = completed 160 (claimed 150 60000 (new_job 100 1 (input "quick" "k1")))

polled_again_example :
    (j k : Job String) × (get 1 slow_only.by_id ≡ some j)
    × (get 1 (tick options slow_only 200).1.by_id ≡ some k)
    × (k.state ≡ JobState.queued)
    × (k.attempts ≡ j.attempts)
    × (is_claimable 500 k ≡ false)
unfolding run apply enqueue claim claim_in get reference key_of is_claimable claimed
polled_again_example =
    polled_again options slow_only _ 200 (slow_job 200)
      (run-IsValid (enqueue_call 100 (input "slow" "k2") ∷ [])) refl (handler_of running) refl
      (ok running "payload") 201 refl refl 500 refl (omega arith) (omega arith)

polled_too_long_example :
    (k : Job String) × (get 1 (tick options slow_only 9000000).1.by_id ≡ some k)
    × (k.state ≡ JobState.failed)
    × (k.last_error ≡ some (ceiling_reason options running))
unfolding run apply enqueue claim claim_in get reference key_of is_claimable claimed
polled_too_long_example =
    polled_too_long options slow_only _ 9000000 (slow_job 9000000)
      (run-IsValid (enqueue_call 100 (input "slow" "k2") ∷ [])) refl (handler_of running) refl
      (ok running "payload") 9000001 refl refl refl
