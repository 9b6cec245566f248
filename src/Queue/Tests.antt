-- ===== src/Queue/Tests.antt =====
-- Runs of the queue on small inputs (packages/adapters/src/queue.ts).
use uscs.Common.{ℕ, ◌≡◌, ◌≢◌, refl, String, true, none, some, List, [], ◌∷◌}
use uscs.Queue.{
  Job, EnqueueInput, empty_queue, enqueue, reference, key_of, claim, claim_in, complete,
  is_claimable, claimed, completed, get, modify, new_job,
}
use uscs.Queue.Invariant.{IsValid}
use uscs.Queue.Trace.{
  Call, enqueue_call, claim_call, complete_call, run, apply, run-IsValid, is_completed_in,
  succeeded_was_completed,
}
use uscs.Queue.Enqueue.{enqueue_idempotent}
use uscs.Queue.Claim.{claim_exclusive}

abbrev deploy : EnqueueInput String
deploy = record {
  organization_id = "org-1";
  kind = "deployments.execute";
  payload = "first";
  idempotency_key = "k1";
  max_attempts = none;
}

-- The same request, delivered again with another payload.
abbrev deploy_again : EnqueueInput String
deploy_again = record {
  organization_id = "org-1";
  kind = "deployments.execute";
  payload = "second";
  idempotency_key = "k1";
  max_attempts = some 9;
}

abbrev backup : EnqueueInput String
backup = record {
  organization_id = "org-2";
  kind = "data.backup.execute";
  payload = "backup";
  idempotency_key = "k2";
  max_attempts = some 1;
}

abbrev two_queued : List (Call String)
two_queued = enqueue_call 100 deploy ∷ enqueue_call 101 backup ∷ []

abbrev history : List (Call String)
history = enqueue_call 100 deploy ∷ claim_call 101 60000 ∷ complete_call 105 1 ∷ []

-- The deployment is claimed, and no one reports on it.
abbrev crashed : List (Call String)
crashed = enqueue_call 100 deploy ∷ claim_call 101 60 ∷ []

run-IsValid_example : IsValid (run history empty_queue)
run-IsValid_example = run-IsValid history

succeeded_was_completed_example : is_completed_in history 1 ≡ true
unfolding run apply enqueue claim claim_in complete modify get reference key_of is_claimable claimed
    completed
succeeded_was_completed_example = succeeded_was_completed history 1 _ refl refl

enqueue_idempotent_example :
    enqueue 200 deploy_again (enqueue 150 deploy (run two_queued empty_queue)).1
    ≡ enqueue 150 deploy (run two_queued empty_queue)
unfolding key_of
enqueue_idempotent_example =
    enqueue_idempotent 150 200 deploy deploy_again (run two_queued empty_queue)
      (run-IsValid two_queued) refl

claim_exclusive_example : ◌≢◌ {A = ℕ} 1 2
unfolding run apply enqueue claim claim_in get reference key_of is_claimable claimed
claim_exclusive_example =
    claim_exclusive 110 60000 111 60000 (run two_queued empty_queue) _ _ _ _
      (run-IsValid two_queued)
      (run-IsValid (enqueue_call 100 deploy ∷ enqueue_call 101 backup ∷ claim_call 110 60000 ∷ []))
      refl refl

abbrev abandoned : Job String
abandoned = claimed 101 60 (new_job 100 1 deploy)
