-- ===== src/Queue/Reap.antt =====
-- `reapExpired` of packages/adapters/src/queue.ts: a crashed worker does not wedge its job.
use uscs.Common.{
  ℕ, ◌≡◌, refl, ap, inl, inr, false, some, List, [], ◌∷◌, arith, All, Bool-cases, length, filter,
  if◌then◌else◌,
}
use uscs.Queue.{Job, JobQueue, get, is_stale, reaped, reap_in, reap_expired}

module _ {P : Type 0} (now : ℕ) where
  reaped-not-stale : (now' : ℕ) (j : Job P) → is_stale now' (reaped now j) ≡ false
  unfolding is_stale reaped
  reaped-not-stale now' j = ground arith

  reap_in-count : (js : List (Job P)) → (reap_in now js).0 ≡ length (filter (is_stale now) js)
  unfolding reap_in
  reap_in-count [] = refl
  reap_in-count (j ∷ js) = ground (arith, reap_in-count js)

  reap_in-fresh : (js : List (Job P)) → All (λ j. is_stale now j ≡ false) (reap_in now js).1
  unfolding reap_in
  reap_in-fresh [] = tt
  reap_in-fresh (j ∷ js) = elim (Bool-cases (is_stale now j)) [
    | inl stale ↦ rw stale (reaped-not-stale now j, reap_in-fresh js)
    | inr fresh ↦ rw fresh (fresh, reap_in-fresh js)
  ]

  reaped-id : (j : Job P) → (reaped now j).id ≡ j.id
  unfolding reaped
  reaped-id j = ground arith

  get-reap_in :
      (i : ℕ) (js : List (Job P)) (j : Job P)
      → get i js ≡ some j
      → get i (reap_in now js).1 ≡ some (if is_stale now j then reaped now j else j)
  unfolding get reap_in
  get-reap_in i [] j e = cc
  get-reap_in i (k ∷ js) j e =
      ground (arith, get-reap_in i js j, reaped-id k, ap (is_stale now), ap (reaped now))

  -- A sweep counts the running jobs whose lease has passed.
  pub reap_expired-count :
      (q : JobQueue P) → (reap_expired now q).0 ≡ length (filter (is_stale now) q.by_id)
  unfolding reap_expired
  reap_expired-count q = reap_in-count q.by_id

  -- After a sweep no running job has a lease that has passed.
  pub reap_expired-fresh :
      (q : JobQueue P) → All (λ j. is_stale now j ≡ false) (reap_expired now q).1.by_id
  unfolding reap_expired
  reap_expired-fresh q = reap_in-fresh q.by_id

  -- A sweep of expired leases reaps a job exactly if it is running with a lease that has passed,
  -- and leaves every other job as it was.
  pub reap_expired-get :
      (q : JobQueue P) (i : ℕ) (j : Job P)
      → get i q.by_id ≡ some j
      → get i (reap_expired now q).1.by_id ≡ some (if is_stale now j then reaped now j else j)
  unfolding reap_expired
  reap_expired-get q i j e = get-reap_in i q.by_id j e
