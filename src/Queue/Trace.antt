-- ===== src/Queue/Trace.antt =====
-- Histories of an `InMemoryJobQueue`: any methods in any order, at any times.
use uscs.Common.{
  ℕ, ◌≡◌, refl, ap, sym, subst, Bool, true, false, false≢true, ◌∙◌, ◌||◌, Option, none, some,
  String, List, [], ◌∷◌, arith, All, any, ◌==◌,
}
use uscs.Contracts.{succeeded, is_succeeded}
use uscs.Queue.{
  Job, JobQueue, EnqueueInput, empty_queue, enqueue, enqueue_at, deref, reference, claim, claim_in,
  with_claim, complete, fail, terminate, defer, reap_expired, claimed, completed, failed_once,
  terminated, deferred, reaped, get, key_of_input,
}
use uscs.Queue.Jobs.{Each, modify-Each, reap_in-Each, claim_in-Claims, Claims-Each}
use uscs.Queue.Invariant.{
  IsValid, empty-IsValid, complete-IsValid, fail-IsValid, terminate-IsValid, defer-IsValid,
  reap_expired-IsValid, claim-IsValid,
}
use uscs.Queue.Enqueue.{enqueue-IsValid, All-get, All-append_one, get-id}

-- A call of a method: its time first.
pub data Call (P : Type 0) : Type 0 where
  enqueue_call : ℕ → EnqueueInput P → Call P
  claim_call : ℕ → ℕ → Call P
  complete_call : ℕ → ℕ → Call P
  fail_call : ℕ → ℕ → String → Call P
  terminate_call : ℕ → ℕ → String → Call P
  defer_call : ℕ → ℕ → String → ℕ → Call P
  reap_call : ℕ → Call P

module _ {P : Type 0} where
  unfoldable pub apply : Call P → JobQueue P → JobQueue P
  apply (enqueue_call now input) q = (enqueue now input q).1
  apply (claim_call now lease_ms) q = (claim now lease_ms q).1
  apply (complete_call now i) q = complete now i q
  apply (fail_call now i reason) q = fail now i reason q
  apply (terminate_call now i reason) q = terminate now i reason q
  apply (defer_call now i reason ms) q = defer now i reason ms q
  apply (reap_call now) q = (reap_expired now q).1

  unfoldable pub run : List (Call P) → JobQueue P → JobQueue P
  run [] q = q
  run (c ∷ cs) q = run cs (apply c q)

  apply-IsValid : (c : Call P) (q : JobQueue P) → IsValid q → IsValid (apply c q)
  unfolding apply
  apply-IsValid (enqueue_call now input) q v = enqueue-IsValid now input q v
  apply-IsValid (claim_call now lease_ms) q v = claim-IsValid q v now lease_ms
  apply-IsValid (complete_call now i) q v = complete-IsValid q v now i
  apply-IsValid (fail_call now i reason) q v = fail-IsValid q v now i reason
  apply-IsValid (terminate_call now i reason) q v = terminate-IsValid q v now i reason
  apply-IsValid (defer_call now i reason ms) q v = defer-IsValid q v now i reason ms
  apply-IsValid (reap_call now) q v = reap_expired-IsValid q v now

  run_from-IsValid : (cs : List (Call P)) (q : JobQueue P) → IsValid q → IsValid (run cs q)
  unfolding run
  run_from-IsValid [] q v = v
  run_from-IsValid (c ∷ cs) q v = run_from-IsValid cs (apply c q) (apply-IsValid c q v)

  -- Whatever methods are called on a new queue, in whatever order and at whatever times, the
  -- queue's invariant holds afterwards: ids ascend and are bounded by the counter, the key map
  -- lists exactly the jobs and leads each job's key to that job, a running job has a lease and a
  -- finished one a finishing time.
  pub run-IsValid : (cs : List (Call P)) → IsValid (run cs empty_queue)
  run-IsValid cs = run_from-IsValid cs empty_queue empty-IsValid

  -- Is it the call that completes job `i`?
  abbrev pub completes : ℕ → Call P → Bool
  completes i (complete_call now k) = k == i
  completes i _ = false

  -- Each succeeded job is in `done`.
  abbrev Accounted : (ℕ → Bool) → JobQueue P → Type 0
  Accounted done q = All (λ j. is_succeeded j.state ≡ true → done j.id ≡ true) q.by_id

  abbrev Marks : (ℕ → Bool) → (ℕ → Bool) → Job P → Job P → Type 0
  Marks done done' j k =
      (is_succeeded j.state ≡ true → done j.id ≡ true)
      → is_succeeded k.state ≡ true
      → done' k.id ≡ true

  Each-Marks :
      (done done' : ℕ → Bool) (js ks : List (Job P))
      → Each (Marks done done') js ks
      → All (λ j. is_succeeded j.state ≡ true → done j.id ≡ true) js
      → All (λ k. is_succeeded k.state ≡ true → done' k.id ≡ true) ks
  Each-Marks done done' [] [] e h = tt
  Each-Marks done done' [] (k ∷ ks) e h = absurd e
  Each-Marks done done' (j ∷ js) [] e h = absurd e
  Each-Marks done done' (j ∷ js) (k ∷ ks) e h = (e.0 h.0, Each-Marks done done' js ks e.1 h.1)

  -- After a call, what it completed is accounted for too.
  abbrev with_call : (ℕ → Bool) → Call P → ℕ → Bool
  with_call done c i = done i || completes i c

  claimed-open :
      (now lease_ms : ℕ) (j : Job P) → is_succeeded (claimed now lease_ms j).state ≡ false
  unfolding claimed
  claimed-open now lease_ms j = refl

  failed_once-open :
      (now : ℕ) (r : String) (j : Job P) → is_succeeded (failed_once now r j).state ≡ false
  unfolding failed_once
  failed_once-open now r j = ground arith

  terminated-open :
      (now : ℕ) (r : String) (j : Job P) → is_succeeded (terminated now r j).state ≡ false
  unfolding terminated
  terminated-open now r j = refl

  deferred-open :
      (now : ℕ) (r : String) (ms : ℕ) (j : Job P) → is_succeeded (deferred now r ms j).state ≡ false
  unfolding deferred
  deferred-open now r ms j = refl

  reaped-open : (now : ℕ) (j : Job P) → is_succeeded (reaped now j).state ≡ false
  unfolding reaped
  reaped-open now j = ground arith

  module _ (done : ℕ → Bool) (q : JobQueue P) (h : Accounted done q) where
    Marks-refl : (c : Call P) (j : Job P) → Marks done (with_call done c) j j
    Marks-refl c j m s = ground (arith, m s)

    abbrev Steps : Call P → List (Job P) → Type 0
    Steps c = Each (Marks done (with_call done c)) q.by_id

    marked :
        (c : Call P) (js : List (Job P))
        → Steps c js
        → Accounted (with_call done c) (record q { by_id = js })
    marked c js e = Each-Marks done (with_call done c) q.by_id js e h

    same_jobs : (c : Call P) (js : List (Job P)) → Each (Marks done (with_call done c)) js js
    same_jobs c [] = tt
    same_jobs c (j ∷ js) = (Marks-refl c j, same_jobs c js)

    claim-Accounted :
        (now lease_ms : ℕ) (o : Option (Job P × List (Job P)))
        → claim_in now lease_ms q.by_id ≡ o
        → Accounted (with_call done (claim_call now lease_ms)) (with_claim q o).1
    claim-Accounted now lease_ms none e =
        marked (claim_call now lease_ms) q.by_id (same_jobs (claim_call now lease_ms) q.by_id)
    claim-Accounted now lease_ms (some (c, js)) e = marked (claim_call now lease_ms) js (
        Claims-Each now lease_ms _ (Marks-refl (claim_call now lease_ms))
          (λ j _ m s. absurd (false≢true (sym (claimed-open now lease_ms j) ∙ s))) q.by_id c js
          (claim_in-Claims now lease_ms q.by_id c js e))

    enqueue-Accounted :
        (now : ℕ) (input : EnqueueInput P) (o : Option (Job P))
        → Accounted (with_call done (enqueue_call now input)) (enqueue_at o now input q).1
    enqueue-Accounted now input none =
        All-append_one _ q.by_id _
          (marked (enqueue_call now input) q.by_id (same_jobs (enqueue_call now input) q.by_id))
          (λ s. absurd (false≢true s))
    enqueue-Accounted now input (some j) =
        marked (enqueue_call now input) q.by_id (same_jobs (enqueue_call now input) q.by_id)

    completes_it :
        (now i : ℕ) (j : Job P)
        → j.id ≡ i
        → with_call done (complete_call now i) (completed now j).id ≡ true
    unfolding completed
    completes_it now i j e = ground arith

    apply-Accounted : (c : Call P) → Accounted (with_call done c) (apply c q)
    unfolding apply enqueue claim complete fail terminate defer reap_expired
    apply-Accounted (enqueue_call now input) =
        enqueue-Accounted now input (deref (reference (key_of_input input) q.by_key) q)
    apply-Accounted (claim_call now lease_ms) =
        claim-Accounted now lease_ms (claim_in now lease_ms q.by_id) refl
    apply-Accounted (complete_call now i) = marked (complete_call now i) _ (
        modify-Each _ (Marks-refl (complete_call now i)) i _ (λ j e m s. completes_it now i j e)
          q.by_id)
    apply-Accounted (fail_call now i reason) = marked (fail_call now i reason) _ (
        modify-Each _ (Marks-refl (fail_call now i reason)) i _
          (λ j e m s. absurd (false≢true (sym (failed_once-open now reason j) ∙ s))) q.by_id)
    apply-Accounted (terminate_call now i reason) = marked (terminate_call now i reason) _ (
        modify-Each _ (Marks-refl (terminate_call now i reason)) i _
          (λ j e m s. absurd (false≢true (sym (terminated-open now reason j) ∙ s))) q.by_id)
    apply-Accounted (defer_call now i reason ms) = marked (defer_call now i reason ms) _ (
        modify-Each _ (Marks-refl (defer_call now i reason ms)) i _
          (λ j e m s. absurd (false≢true (sym (deferred-open now reason ms j) ∙ s))) q.by_id)
    apply-Accounted (reap_call now) = marked (reap_call now) _ (
        reap_in-Each _ (Marks-refl (reap_call now)) now
          (λ j e m s. absurd (false≢true (sym (reaped-open now j) ∙ s))) q.by_id)

  All-map :
      (Q R : Job P → Type 0) → ((j : Job P) → Q j → R j) → (js : List (Job P)) → All Q js → All R js
  All-map Q R f [] h = tt
  All-map Q R f (j ∷ js) h = (f j h.0, All-map Q R f js h.1)

  -- Is job `i` completed in a history?
  abbrev pub is_completed_in : List (Call P) → ℕ → Bool
  is_completed_in cs i = any (completes i) cs

  run-Accounted :
      (done : ℕ → Bool) (cs : List (Call P)) (q : JobQueue P)
      → Accounted done q
      → Accounted (λ i. done i || is_completed_in cs i) (run cs q)
  unfolding run
  run-Accounted done [] q h = All-map _ _ (λ j m s. ground (arith, m s)) q.by_id h
  run-Accounted done (c ∷ cs) q h =
      All-map _ _ (λ j m s. ground (arith, m s)) (run cs (apply c q)).by_id
        (run-Accounted (with_call done c) cs (apply c q) (apply-Accounted done q h c))

  -- A job that reads `succeeded` after any history of calls on a new queue was the subject of a
  -- call of `complete` in that history.
  pub succeeded_was_completed :
      (cs : List (Call P)) (i : ℕ) (j : Job P)
      → get i (run cs empty_queue).by_id ≡ some j
      → j.state ≡ succeeded
      → is_completed_in cs i ≡ true
  succeeded_was_completed cs i j e s =
      let h = run-Accounted (λ _. false) cs empty_queue tt in
      let it = All-get _ (run cs empty_queue).by_id i j h e (ap is_succeeded s) in
      subst (λ k. is_completed_in cs k ≡ true) (get-id (run cs empty_queue).by_id i j e) it
