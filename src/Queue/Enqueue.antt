-- ===== src/Queue/Enqueue.antt =====
-- `enqueue` of packages/adapters/src/queue.ts: one job for one (organization, kind, key).
use uscs.Common.{
  ℕ, suc, ◌≤◌, ◌≡◌, refl, sym, ap, ◌∙◌, subst, ◌≢◌, inl, inr, none, some, String, List, [], ◌∷◌,
  ◌++◌, map, arith, All, Bool-cases, Option-cases, ◌==◌, eq_refl,
}
use mathlib.Core.List.{map-append}
use uscs.Queue.{
  Job, JobQueue, EnqueueInput, key_of_job, key_of_input, new_job, add_job, reference, get, deref,
  enqueue,
}
use uscs.Queue.Invariant.{IsSound, IsValid, Ascending, entry}

reference-append_old :
    (xs ys : List (String × ℕ)) (key : String) (i : ℕ)
    → reference key xs ≡ some i
    → reference key (xs ++ ys) ≡ some i
unfolding reference
reference-append_old [] ys key i e = cc
reference-append_old ((k, n) ∷ xs) ys key i e = ground (arith, reference-append_old xs ys key i)

reference-append_new :
    (xs ys : List (String × ℕ)) (key : String)
    → reference key xs ≡ none
    → reference key (xs ++ ys) ≡ reference key ys
unfolding reference
reference-append_new [] ys key e = refl
reference-append_new ((k, n) ∷ xs) ys key e = ground (arith, reference-append_new xs ys key)

module _ {P : Type 0} where
  pub All-get :
      (Q : Job P → Type 0) (js : List (Job P)) (i : ℕ) (j : Job P)
      → All Q js
      → get i js ≡ some j
      → Q j
  unfolding get
  All-get Q [] i j h e = cc
  All-get Q (k ∷ js) i j h e = elim (Bool-cases (k.id == i)) [
    | inl this ↦ some-eq (rw this at e)
    | inr other ↦ All-get Q js i j h.1 (rw other at e)
  ]
    where
      some-eq : some k ≡ some j → Q j
      some-eq p = subst Q (cc) h.0

  pub get-id : (js : List (Job P)) (i : ℕ) (j : Job P) → get i js ≡ some j → j.id ≡ i
  unfolding get
  get-id [] i j e = cc
  get-id (k ∷ js) i j e = ground (arith, get-id js i j)

  -- In a valid queue two jobs with one key are one job.
  pub key_unique :
      (q : JobQueue P) (i i' : ℕ) (j j' : Job P)
      → IsValid q
      → get i q.by_id ≡ some j
      → get i' q.by_id ≡ some j'
      → key_of_job j ≡ key_of_job j'
      → i ≡ i'
  key_unique q i i' j j' v e e' same =
      let h = All-get (λ j. reference (key_of_job j) q.by_key ≡ some j.id) q.by_id i j v.found e in
      let h' =
        All-get (λ j. reference (key_of_job j) q.by_key ≡ some j.id) q.by_id i' j' v.found e' in
      let p : some j.id ≡ some j'.id = sym h ∙ ap (λ k. reference k q.by_key) same ∙ h' in
      cc (get-id q.by_id i j e, get-id q.by_id i' j' e')

  -- No reference dangles.
  get_of_reference :
      (js : List (Job P)) (key : String) (i : ℕ)
      → reference key (map entry js) ≡ some i
      → get i js ≢ none
  unfolding reference get
  get_of_reference [] key i e = cc
  get_of_reference (j ∷ js) key i e = ground (arith, get_of_reference js key i)

  get-append_new :
      (n : ℕ) (js : List (Job P)) (j : Job P)
      → All (λ j. j.id ≤ n) js
      → j.id ≡ suc n
      → get (suc n) (js ++ j ∷ []) ≡ some j
  unfolding get
  get-append_new n [] j h e = ground arith
  get-append_new n (k ∷ js) j h e = ground (arith, get-append_new n js j h.1 e)

  pub All-append_one :
      (Q : Job P → Type 0) (js : List (Job P)) (j : Job P) → All Q js → Q j → All Q (js ++ j ∷ [])
  All-append_one Q [] j h p = (p, tt)
  All-append_one Q (k ∷ js) j h p = (h.0, All-append_one Q js j h.1 p)

  All-weaken :
      (Q R : Job P → Type 0) → ((j : Job P) → Q j → R j) → (js : List (Job P)) → All Q js → All R js
  All-weaken Q R f [] h = tt
  All-weaken Q R f (j ∷ js) h = (f j h.0, All-weaken Q R f js h.1)

  Ascending-append_one :
      (lo n : ℕ) (js : List (Job P)) (j : Job P)
      → lo ≤ n
      → Ascending lo js
      → All (λ j. j.id ≤ n) js
      → j.id ≡ suc n
      → Ascending lo (js ++ j ∷ [])
  Ascending-append_one lo n [] j l h b e = (omega arith, tt)
  Ascending-append_one lo n (k ∷ js) j l h b e =
      (h.0, Ascending-append_one k.id n js j b.0 h.1 b.1 e)

  -- Adding a job under a key that the map does not have keeps the invariant.
  add_job-IsValid :
      (now : ℕ) (input : EnqueueInput P) (q : JobQueue P)
      → IsValid q
      → reference (key_of_input input) q.by_key ≡ none
      → IsValid (add_job (new_job now (suc q.counter) input) q)
  unfolding reference
  add_job-IsValid now input q v free =
      let j = new_job now (suc q.counter) input in
      record {
        sound = All-append_one IsSound q.by_id j v.sound (ground arith);
        ascending =
            Ascending-append_one 0 q.counter q.by_id j (omega arith) v.ascending v.below refl;
        below =
            All-append_one _ q.by_id j (All-weaken _ _ (λ k h. omega arith) q.by_id v.below)
              (omega arith);
        keyed = ap (λ es. es ++ entry j ∷ []) v.keyed ∙ sym (map-append entry q.by_id (j ∷ []));
        found =
            All-append_one _ q.by_id j
              (All-weaken _ _ (λ k h. reference-append_old q.by_key _ (key_of_job k) k.id h) q.by_id
                v.found)
              (reference-append_new q.by_key _ (key_of_job j) free
                ∙ ground (arith, eq_refl (key_of_job j)));
      }

  -- A key that leads to no job is not in the map.
  reference-none :
      (key : String) (q : JobQueue P)
      → IsValid q
      → deref (reference key q.by_key) q ≡ none
      → reference key q.by_key ≡ none
  reference-none key q v e = elim (Option-cases (reference key q.by_key)) [
    | inl free ↦ free
    | inr (i, taken) ↦
        absurd (
          get_of_reference q.by_id key i (ap (reference key) (sym v.keyed) ∙ taken) (rw taken at e))
  ]

  pub enqueue-IsValid :
      (now : ℕ) (input : EnqueueInput P) (q : JobQueue P)
      → IsValid q
      → IsValid (enqueue now input q).1
  unfolding enqueue
  enqueue-IsValid now input q v =
      elim (Option-cases (deref (reference (key_of_input input) q.by_key) q)) [
        | inl free ↦
            rw free (add_job-IsValid now input q v (reference-none (key_of_input input) q v free))
        | inr (j, taken) ↦ rw taken v
      ]

  enqueue_known :
      (now : ℕ) (input : EnqueueInput P) (q : JobQueue P) (j : Job P)
      → deref (reference (key_of_input input) q.by_key) q ≡ some j
      → enqueue now input q ≡ (j, q)
  unfolding enqueue
  enqueue_known now input q j e = rw e

  enqueue_new :
      (now : ℕ) (input : EnqueueInput P) (q : JobQueue P)
      → deref (reference (key_of_input input) q.by_key) q ≡ none
      → enqueue now input q
        ≡ (new_job now (suc q.counter) input, add_job (new_job now (suc q.counter) input) q)
  unfolding enqueue
  enqueue_new now input q e = rw e

  deref_new :
      (now : ℕ) (input : EnqueueInput P) (q : JobQueue P)
      → IsValid q
      → deref (reference (key_of_input input) q.by_key) q ≡ none
      → (let j = new_job now (suc q.counter) input in
          deref (reference (key_of_input input) (add_job j q).by_key) (add_job j q) ≡ some j)
  unfolding reference
  deref_new now input q v free =
      let j = new_job now (suc q.counter) input in
      let here : reference (key_of_job j) ((key_of_job j, j.id) ∷ []) ≡ some j.id =
        ground (arith, eq_refl (key_of_job j)) in
      let e =
        reference-append_new q.by_key ((key_of_job j, j.id) ∷ []) (key_of_job j)
          (reference-none (key_of_input input) q v free) in
      rw (e ∙ here) (get-append_new q.counter q.by_id j v.below refl)

  -- In a valid queue, enqueueing a second request with the key of the first, whatever else it
  -- carries and whenever it comes, answers with the first job and leaves the queue as the first
  -- request left it.
  pub enqueue_idempotent :
      (now now' : ℕ) (input input' : EnqueueInput P) (q : JobQueue P)
      → IsValid q
      → key_of_input input' ≡ key_of_input input
      → enqueue now' input' (enqueue now input q).1 ≡ enqueue now input q
  enqueue_idempotent now now' input input' q v same =
      elim (Option-cases (deref (reference (key_of_input input) q.by_key) q)) [
        | inl free ↦ rw (enqueue_new now input q free) (
            enqueue_known now' input' _ _ (
              ap
                (λ k.
                  deref (reference k (add_job (new_job now (suc q.counter) input) q).by_key)
                    (add_job (new_job now (suc q.counter) input) q))
                same
              ∙ deref_new now input q v free))
        | inr (j, taken) ↦
            rw (enqueue_known now input q j taken) (
              enqueue_known now' input' q j (ap (λ k. deref (reference k q.by_key) q) same ∙ taken))
      ]
