-- ===== src/Queue/Invariant.antt =====
-- What holds of an `InMemoryJobQueue` (packages/adapters/src/queue.ts) after every method.
use uscs.Common.{
  ℕ, ◌<◌, ◌≤◌, ◌≡◌, refl, sym, ◌∙◌, true, Option, none, some, String, List, [], ◌∷◌, map, arith,
  All, is_some,
}
use uscs.Contracts.{is_running, is_job_terminal}
use uscs.Queue.{
  Job, JobQueue, key_of_job, reference, is_claimable, claimed, claim, claim_in, completed,
  failed_once, terminated, deferred, reaped, complete, fail, terminate, defer, reap_expired,
  with_claim, empty_queue,
}
use uscs.Queue.Jobs.{Each, modify-Each, reap_in-Each, claim_in-Claims, Claims-Each}

module _ {P : Type 0} where
  -- One job: its attempts stay within its budget, it holds a lease exactly while it runs, it has
  -- been tried if it runs, and it has an end time if its state is terminal.
  pub record IsSound (j : Job P) : Type 0 where
    pub capped : j.attempts ≤ j.max_attempts
    pub leased : is_some j.lease_expires_at ≡ is_running j.state
    pub tried : is_running j.state ≡ true → 0 < j.attempts
    pub ended : is_job_terminal j.state ≡ true → is_some j.finished_at ≡ true

  -- A change that keeps the job's identity, and its soundness.
  abbrev pub Keeps : Job P → Job P → Type 0
  Keeps j k = (k.id ≡ j.id) × (key_of_job k ≡ key_of_job j) × (IsSound j → IsSound k)

  Keeps-refl : (j : Job P) → Keeps j j
  Keeps-refl j = (refl, refl, λ s. s)

  claimed-Keeps :
      (now lease_ms : ℕ) (j : Job P) → is_claimable now j ≡ true → Keeps j (claimed now lease_ms j)
  unfolding is_claimable claimed
  claimed-Keeps now lease_ms j h = (refl, refl, λ s. ground arith)

  completed-Keeps : (now : ℕ) (j : Job P) → Keeps j (completed now j)
  unfolding completed
  completed-Keeps now j = (refl, refl, λ s. ground arith)

  failed_once-Keeps : (now : ℕ) (reason : String) (j : Job P) → Keeps j (failed_once now reason j)
  unfolding failed_once
  failed_once-Keeps now reason j = (ground arith, ground arith, λ s. ground arith)

  terminated-Keeps : (now : ℕ) (reason : String) (j : Job P) → Keeps j (terminated now reason j)
  unfolding terminated
  terminated-Keeps now reason j = (refl, refl, λ s. ground arith)

  deferred-Keeps :
      (now : ℕ) (reason : String) (ms : ℕ) (j : Job P) → Keeps j (deferred now reason ms j)
  unfolding deferred
  deferred-Keeps now reason ms j = (refl, refl, λ s. ground arith)

  reaped-Keeps : (now : ℕ) (j : Job P) → Keeps j (reaped now j)
  unfolding reaped
  reaped-Keeps now j = (ground arith, ground arith, λ s. ground arith)

  abbrev pub entry : Job P → String × ℕ
  entry j = (key_of_job j, j.id)

  -- Ids grow in the order of insertion.
  abbrev pub Ascending : ℕ → List (Job P) → Type 0
  Ascending lo [] = Unit
  Ascending lo (j ∷ js) = (lo < j.id) × Ascending j.id js

  pub record IsValid (q : JobQueue P) : Type 0 where
    pub sound : All IsSound q.by_id
    pub ascending : Ascending 0 q.by_id
    pub below : All (λ j. j.id ≤ q.counter) q.by_id
    pub keyed : q.by_key ≡ map entry q.by_id
    pub found : All (λ j. reference (key_of_job j) q.by_key ≡ some j.id) q.by_id

  Each-IsSound : (js ks : List (Job P)) → Each Keeps js ks → All IsSound js → All IsSound ks
  Each-IsSound [] [] e h = tt
  Each-IsSound [] (k ∷ ks) e h = absurd e
  Each-IsSound (j ∷ js) [] e h = absurd e
  Each-IsSound (j ∷ js) (k ∷ ks) e h = (e.0.2 h.0, Each-IsSound js ks e.1 h.1)

  Each-Ascending :
      (lo lo' : ℕ) (js ks : List (Job P))
      → lo' ≡ lo
      → Each Keeps js ks
      → Ascending lo js
      → Ascending lo' ks
  Each-Ascending lo lo' [] [] p e h = tt
  Each-Ascending lo lo' [] (k ∷ ks) p e h = absurd e
  Each-Ascending lo lo' (j ∷ js) [] p e h = absurd e
  Each-Ascending lo lo' (j ∷ js) (k ∷ ks) p e h =
      (omega (arith, e.0.0), Each-Ascending j.id k.id js ks e.0.0 e.1 h.1)

  Each-below :
      (n : ℕ) (js ks : List (Job P))
      → Each Keeps js ks
      → All (λ j. j.id ≤ n) js
      → All (λ j. j.id ≤ n) ks
  Each-below n [] [] e h = tt
  Each-below n [] (k ∷ ks) e h = absurd e
  Each-below n (j ∷ js) [] e h = absurd e
  Each-below n (j ∷ js) (k ∷ ks) e h = (omega (arith, e.0.0), Each-below n js ks e.1 h.1)

  Each-entries : (js ks : List (Job P)) → Each Keeps js ks → map entry ks ≡ map entry js
  Each-entries [] [] e = refl
  Each-entries [] (k ∷ ks) e = absurd e
  Each-entries (j ∷ js) [] e = absurd e
  Each-entries (j ∷ js) (k ∷ ks) e = cc (e.0.0, e.0.1, Each-entries js ks e.1)

  Each-found :
      (entries : List (String × ℕ)) (js ks : List (Job P))
      → Each Keeps js ks
      → All (λ j. reference (key_of_job j) entries ≡ some j.id) js
      → All (λ j. reference (key_of_job j) entries ≡ some j.id) ks
  Each-found entries [] [] e h = tt
  Each-found entries [] (k ∷ ks) e h = absurd e
  Each-found entries (j ∷ js) [] e h = absurd e
  Each-found entries (j ∷ js) (k ∷ ks) e h =
      (cc (e.0.0, e.0.1, h.0), Each-found entries js ks e.1 h.1)

  -- A method that changes jobs one by one, each within `Keeps`, keeps the invariant.
  pub Each-IsValid :
      (q : JobQueue P) (js : List (Job P))
      → Each Keeps q.by_id js
      → IsValid q
      → IsValid (record q { by_id = js })
  Each-IsValid q js e v = record {
    sound = Each-IsSound q.by_id js e v.sound;
    ascending = Each-Ascending 0 0 q.by_id js refl e v.ascending;
    below = Each-below q.counter q.by_id js e v.below;
    keyed = v.keyed ∙ sym (Each-entries q.by_id js e);
    found = Each-found q.by_key q.by_id js e v.found;
  }

  pub empty-IsValid : IsValid empty_queue
  empty-IsValid = record { sound = tt; ascending = tt; below = tt; keyed = refl; found = tt }

  module _ (q : JobQueue P) (v : IsValid q) (now : ℕ) where
    pub complete-IsValid : (i : ℕ) → IsValid (complete now i q)
    unfolding complete
    complete-IsValid i =
        Each-IsValid q _ (modify-Each Keeps Keeps-refl i _ (λ j _. completed-Keeps now j) q.by_id) v

    pub fail-IsValid : (i : ℕ) (reason : String) → IsValid (fail now i reason q)
    unfolding fail
    fail-IsValid i reason =
        Each-IsValid q _
          (modify-Each Keeps Keeps-refl i _ (λ j _. failed_once-Keeps now reason j) q.by_id) v

    pub terminate-IsValid : (i : ℕ) (reason : String) → IsValid (terminate now i reason q)
    unfolding terminate
    terminate-IsValid i reason =
        Each-IsValid q _
          (modify-Each Keeps Keeps-refl i _ (λ j _. terminated-Keeps now reason j) q.by_id) v

    pub defer-IsValid : (i : ℕ) (reason : String) (ms : ℕ) → IsValid (defer now i reason ms q)
    unfolding defer
    defer-IsValid i reason ms =
        Each-IsValid q _
          (modify-Each Keeps Keeps-refl i _ (λ j _. deferred-Keeps now reason ms j) q.by_id) v

    pub reap_expired-IsValid : IsValid (reap_expired now q).1
    unfolding reap_expired
    reap_expired-IsValid =
        Each-IsValid q _ (reap_in-Each Keeps Keeps-refl now (λ j _. reaped-Keeps now j) q.by_id) v

    with_claim-IsValid :
        (lease_ms : ℕ) (o : Option (Job P × List (Job P)))
        → claim_in now lease_ms q.by_id ≡ o
        → IsValid (with_claim q o).1
    with_claim-IsValid lease_ms none e = v
    with_claim-IsValid lease_ms (some (c, js)) e =
        Each-IsValid q js
          (Claims-Each now lease_ms Keeps Keeps-refl (claimed-Keeps now lease_ms) q.by_id c js
            (claim_in-Claims now lease_ms q.by_id c js e))
          v

    pub claim-IsValid : (lease_ms : ℕ) → IsValid (claim now lease_ms q).1
    unfolding claim
    claim-IsValid lease_ms = with_claim-IsValid lease_ms (claim_in now lease_ms q.by_id) refl
