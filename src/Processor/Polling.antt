-- ===== src/Processor/Polling.antt =====
-- Work that an engine has accepted and not finished (apps/worker/src/processor.ts): it is polled
-- again without spending an attempt, up to a ceiling.
use uscs.Common.{ℕ, ◌+◌, ◌<◌, ◌≡◌, refl, true, false, some, String, arith, get_or_else}
use uscs.Contracts.{AdapterResult, status_of, in_flight, JobState}
use uscs.Queue.{Job, JobQueue, get, deferred, terminated, is_claimable}
use uscs.Queue.Invariant.{IsValid}
use uscs.Queue.Claim.{claim_takes, refund}
use uscs.Processor.{
  JobHandler, WorkerOptions, returned, past_ceiling, is_done, reason_of, default_poll_backoff_ms,
  context_of, tick, dispatch, conclude, poll_again, ceiling_reason,
}
use uscs.Processor.Settled.{get-defer, get-terminate}
use uscs.Processor.Ticks.{claim_of}

in_flight-not-done :
    {V : Type 0} (result : AdapterResult V)
    → in_flight (status_of result) ≡ true
    → is_done result ≡ false
in_flight-not-done result h = ground arith

not_due :
    {P : Type 0} (now : ℕ) (reason : String) (ms : ℕ) (j : Job P) (t : ℕ)
    → 0 < ms
    → t < now + ms
    → is_claimable t (deferred now reason ms j) ≡ false
unfolding is_claimable deferred
not_due now reason ms j t p h = ground arith

module _ {W P V : Type 0} (options : WorkerOptions W P V) (q q1 : JobQueue P) (w : W) (c : Job P)
    (v : IsValid q) (e : claim_of options q w ≡ (some c, q1)) (handler : JobHandler W P V)
    (wired : options.handlers c.kind ≡ some handler) (result : AdapterResult V) (w' : W)
    (answer : handler c.payload (context_of options c) w ≡ (returned result, w'))
    (flying : in_flight (status_of result) ≡ true) where
  abbrev backoff : ℕ
  backoff = get_or_else options.poll_backoff_ms default_poll_backoff_ms

  polls : tick options q w ≡ poll_again options c result q1 w'
  unfolding tick dispatch conclude
  polls = rw (e, wired, answer, in_flight-not-done result flying, flying)

  -- If the handler of a claimed job answers pending or running, the job is younger than the
  -- ceiling and the poll interval is not zero, then after the tick the job is queued with the
  -- attempts that it had before the claim, and it is not claimable at a time before the interval
  -- has passed.
  pub polled_again :
      (t : ℕ)
      → past_ceiling options c w' ≡ false
      → 0 < backoff
      → t < options.queue_clock w' + backoff
      → (j k : Job P) × (get c.id q.by_id ≡ some j)
        × (get c.id (tick options q w).1.by_id ≡ some k)
        × (k.state ≡ JobState.queued)
        × (k.attempts ≡ j.attempts)
        × (is_claimable t k ≡ false)
  unfolding poll_again
  polled_again t early some_wait waits =
      let ((j, found, _, was), here, _) = claim_takes _ _ q q1 c v e in
      let now = options.queue_clock w' in
      let at = get-defer now c.id q1 c here (reason_of result) backoff in
      (
        j,
        deferred now (reason_of result) backoff c,
        found,
        rw polls (rw early at),
        unfold deferred in refl,
        refund _ _ now (reason_of result) backoff j c was,
        not_due now (reason_of result) backoff c t some_wait waits,
      )

  -- If the handler of a claimed job answers pending or running and the job has reached the
  -- ceiling, then after the tick the job is `failed` with the reason that names the ceiling.
  pub polled_too_long :
      past_ceiling options c w' ≡ true
      → (k : Job P) × (get c.id (tick options q w).1.by_id ≡ some k)
        × (k.state ≡ JobState.failed)
        × (k.last_error ≡ some (ceiling_reason options (status_of result)))
  unfolding poll_again terminated
  polled_too_long late =
      let (_, here, _) = claim_takes _ _ q q1 c v e in
      let reason = ceiling_reason options (status_of result) in
      (
        terminated (options.queue_clock w') reason c,
        rw polls (rw late (get-terminate (options.queue_clock w') c.id q1 c here reason)),
        refl,
        refl,
      )
