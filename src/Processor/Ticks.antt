-- ===== src/Processor/Ticks.antt =====
-- What a tick and a drain of apps/worker/src/processor.ts do to the queue.
use uscs.Common.{
  ℕ, zero, suc, ◌≤◌, ◌≡◌, refl, sym, ap, ◌∙◌, ◌≢◌, ◌⊎◌, inl, inr, Bool, true, false, Option,
  Option-cases, none, some, List, ◌∷◌, arith, All, length, get_or_else, false≢true,
}
use native.Mathlib.Decide.{ℕ_discrete}
use uscs.Contracts.{is_succeeded, is_job_terminal}
use uscs.Queue.{Job, JobQueue, get, claim, claim_in, with_claim, is_claimable}
use uscs.Queue.Invariant.{IsValid, claim-IsValid}
use uscs.Queue.Claim.{claim_takes, claim-none_iff}
use uscs.Processor.{
  JobOutcome, WorkerOptions, JobHandler, after_claim, context_of, dispatch, tick, drain,
}
use uscs.Processor.Settled.{
  IsSettled, dispatch-IsSettled, dispatch-others, dispatch-IsValid, dispatch-some, reports_success,
  applied_of, conclude-applied,
}

module _ {W P V : Type 0} (options : WorkerOptions W P V) where
  -- The claim that a tick makes.
  abbrev pub claim_of : JobQueue P → W → Option (Job P) × JobQueue P
  claim_of q w = claim (options.queue_clock w) (get_or_else options.lease_ms 60000) q

  after_claim-IsValid :
      (r : Option (Job P) × JobQueue P) (w : W) → IsValid r.1 → IsValid (after_claim options r w).1
  after_claim-IsValid (none, q) w v = v
  after_claim-IsValid (some c, q) w v = dispatch-IsValid options c q v _ w

  -- A tick keeps the queue's invariant.
  pub tick-IsValid : (q : JobQueue P) (w : W) → IsValid q → IsValid (tick options q w).1
  unfolding tick
  tick-IsValid q w v = after_claim-IsValid (claim_of q w) w (claim-IsValid q v _ _)

  -- An empty claim leaves the queue and the world as they are.
  tick_idle :
      (q : JobQueue P) (w : W) → (tick options q w).0 ≡ none → tick options q w ≡ (none, q, w)
  unfolding tick claim
  tick_idle q w e =
      go (claim_in (options.queue_clock w) (get_or_else options.lease_ms 60000) q.by_id) e
    where
      go :
          (o : Option (Job P × List (Job P)))
          → (after_claim options (with_claim q o) w).0 ≡ none
          → after_claim options (with_claim q o) w ≡ (none, q, w)
      go none h = refl
      go (some (c, js)) h = absurd (dispatch-some options c _ _ w h)

  tick_idle_claim : (q : JobQueue P) (w : W) → (tick options q w).0 ≡ none → (claim_of q w).0 ≡ none
  unfolding tick
  tick_idle_claim q w e = go (claim_of q w) e
    where
      go : (r : Option (Job P) × JobQueue P) → (after_claim options r w).0 ≡ none → r.0 ≡ none
      go (none, q') h = refl
      go (some c, q') h = absurd (dispatch-some options c q' _ w h)

  module _ (q q1 : JobQueue P) (w : W) (c : Job P) (v : IsValid q)
      (e : claim_of q w ≡ (some c, q1)) where
    abbrev here : get c.id q1.by_id ≡ some c
    here = (claim_takes _ _ q q1 c v e).1

    -- A tick on a valid queue settles the job that it claims, whatever the handler and the
    -- applier do: afterwards the job is not running, and it reads `succeeded` exactly if the
    -- outcome of the tick says that the work was applied.
    pub tick_settles : IsSettled (get c.id (tick options q w).1.by_id) (tick options q w).0
    unfolding tick
    tick_settles = rw e (dispatch-IsSettled options c q1 here _ w)

    -- Every other job is as it was.
    pub tick_others : (k : ℕ) → k ≢ c.id → get k (tick options q w).1.by_id ≡ get k q.by_id
    unfolding tick
    tick_others k other =
        rw e (dispatch-others options c q1 k other _ w ∙ (claim_takes _ _ q q1 c v e).2 k other)

    settled_state :
        (o : Option (Job P)) (r : Option JobOutcome) (j : Job P)
        → o ≡ some j
        → IsSettled o r
        → is_succeeded j.state ≡ applied_of r
    settled_state none r j p h = cc
    settled_state (some k) none j p h = absurd h
    settled_state (some k) (some o) j p h = ground arith

    -- With a handler for its kind, the job that a tick claims from a valid queue reads
    -- `succeeded` afterwards if and only if the handler returned a result that is both ok and
    -- `succeeded`; a handler that throws never has that effect.
    pub tick_honest :
        (handler : JobHandler W P V) (j : Job P)
        → options.handlers c.kind ≡ some handler
        → get c.id (tick options q w).1.by_id ≡ some j
        → is_succeeded j.state ≡ reports_success (handler c.payload (context_of options c) w).0
    unfolding tick dispatch
    tick_honest handler j wired found =
        settled_state _ _ j found tick_settles ∙ rw (e, wired) (conclude-applied options c q1 _ _)

  claimable-unfinished :
      (now : ℕ) (j : Job P) → is_claimable now j ≡ true → is_job_terminal j.state ≡ false
  unfolding is_claimable
  claimable-unfinished now j h = ground arith

  abbrev finished_of : Option (Job P) → Bool
  finished_of none = false
  finished_of (some j) = is_job_terminal j.state

  -- A finished job stays as it is, whatever a tick does.
  pub tick_finished :
      (q : JobQueue P) (w : W) (i : ℕ) (j : Job P)
      → IsValid q
      → get i q.by_id ≡ some j
      → is_job_terminal j.state ≡ true
      → get i (tick options q w).1.by_id ≡ some j
  unfolding tick
  tick_finished q w i j v found finished = go (claim_of q w) refl
    where
      go :
          (r : Option (Job P) × JobQueue P)
          → claim_of q w ≡ r
          → get i (tick options q w).1.by_id ≡ some j
      go (none, q1) e = rw (tick_idle q w (rw e)) found
      go (some c, q1) e = elim (ℕ_discrete i c.id) [
        | yes same ↦
            let ((k, at, free, _), _, _) = claim_takes _ _ q q1 c v e in
            let k_is : some k ≡ some j = sym at ∙ ap (λ n. get n q.by_id) (sym same) ∙ found in
            absurd (
              false≢true (
                sym (claimable-unfinished _ k free)
                ∙ ap (λ (o : Option (Job P)). finished_of o) k_is
                ∙ finished))
        | no other ↦ tick_others q q1 w c v e i other ∙ found
      ]

  -- At most `n` outcomes; exactly `n`, or a queue in which no job can be claimed.
  abbrev pub IsDrained : ℕ → List JobOutcome × JobQueue P × W → Type 0
  IsDrained n (outcomes, q, w) =
      (length outcomes ≤ n)
      × ((length outcomes ≡ n) ⊎ All (λ j. is_claimable (options.queue_clock w) j ≡ false) q.by_id)

  IsDrained-cons :
      (n : ℕ) (o : JobOutcome) (r : List JobOutcome × JobQueue P × W)
      → IsDrained n r
      → IsDrained (suc n) (o ∷ r.0, r.1, r.2)
  IsDrained-cons n o r (few, inl all) = (omega arith, inl (ap suc all))
  IsDrained-cons n o r (few, inr none_left) = (omega arith, inr none_left)

  -- A drain returns at most as many outcomes as it is given rounds, and fewer only when no job is
  -- left that can be claimed.
  pub drain_lem : (n : ℕ) (q : JobQueue P) (w : W) → IsDrained n (drain options n q w)
  unfolding drain
  drain_lem zero q w = (omega arith, inl refl)
  drain_lem (suc n) q w = elim (Option-cases (tick options q w).0) [
    | inl idle ↦
        rw (tick_idle q w idle)
          (omega arith, inr ((claim-none_iff _ _ q).0 (tick_idle_claim q w idle)))
    | inr (o, e) ↦ rw e (
        IsDrained-cons n o (drain options n (tick options q w).1 (tick options q w).2)
          (drain_lem n (tick options q w).1 (tick options q w).2))
  ]

  -- A job of a valid queue that is finished stays exactly as it is, however many rounds a drain
  -- runs.
  pub drain_finished :
      (n : ℕ) (q : JobQueue P) (w : W) (i : ℕ) (j : Job P)
      → IsValid q
      → get i q.by_id ≡ some j
      → is_job_terminal j.state ≡ true
      → get i (drain options n q w).1.by_id ≡ some j
  unfolding drain
  drain_finished zero q w i j v found finished = found
  drain_finished (suc n) q w i j v found finished =
      let next = tick_finished q w i j v found finished in
      elim (Option-cases (tick options q w).0) [
        | inl idle ↦ rw idle next
        | inr (o, e) ↦ rw e (
            drain_finished n (tick options q w).1 (tick options q w).2 i j (tick-IsValid q w v) next
              finished)
      ]
