-- ===== src/Processor/Settled.antt =====
-- How a tick of apps/worker/src/processor.ts leaves the job that it claimed.
use uscs.Common.{
  true, ℕ, ◌≡◌, refl, sym, ◌≢◌, inl, inr, Bool, false, Option, none, some, String, arith,
  Bool-cases,
}
use uscs.Contracts.{
  ok, err, EngineStatus, AdapterResult, status_of, is_running, is_succeeded, in_flight,
}
use uscs.Queue.{
  Job, JobQueue, get, complete, fail, terminate, defer, completed, failed_once, terminated,
  deferred,
}
use uscs.Queue.Invariant.{IsValid, complete-IsValid, fail-IsValid, terminate-IsValid, defer-IsValid}
use uscs.Queue.Jobs.{get-modify_self, get-modify_ne}
use uscs.Processor.{
  JobOutcome, Attempt, returned, threw, JobHandler, WorkerOptions, poll_again, give_up, conclude,
  dispatch, is_done, is_unavailable, past_ceiling,
}

module _ {P : Type 0} where
  -- Each method changes the job that it names, and only that one.
  module _ (now i : ℕ) (q : JobQueue P) (c : Job P) (here : get i q.by_id ≡ some c) where
    pub get-complete : get i (complete now i q).by_id ≡ some (completed now c)
    unfolding complete completed
    get-complete = get-modify_self i (completed now) q.by_id c (λ j. refl) here

    pub get-fail : (r : String) → get i (fail now i r q).by_id ≡ some (failed_once now r c)
    unfolding fail failed_once
    get-fail r = get-modify_self i (failed_once now r) q.by_id c (λ j. ground arith) here

    pub get-terminate : (r : String) → get i (terminate now i r q).by_id ≡ some (terminated now r c)
    unfolding terminate terminated
    get-terminate r = get-modify_self i (terminated now r) q.by_id c (λ j. refl) here

    pub get-defer :
        (r : String) (ms : ℕ) → get i (defer now i r ms q).by_id ≡ some (deferred now r ms c)
    unfolding defer deferred
    get-defer r ms = get-modify_self i (deferred now r ms) q.by_id c (λ j. refl) here

  module _ (now i k : ℕ) (q : JobQueue P) (other : k ≢ i) where
    pub get-complete_ne : get k (complete now i q).by_id ≡ get k q.by_id
    unfolding complete completed
    get-complete_ne = get-modify_ne i k (completed now) q.by_id (λ j. refl) other

    pub get-fail_ne : (r : String) → get k (fail now i r q).by_id ≡ get k q.by_id
    unfolding fail failed_once
    get-fail_ne r = get-modify_ne i k (failed_once now r) q.by_id (λ j. ground arith) other

    pub get-terminate_ne : (r : String) → get k (terminate now i r q).by_id ≡ get k q.by_id
    unfolding terminate terminated
    get-terminate_ne r = get-modify_ne i k (terminated now r) q.by_id (λ j. refl) other

    pub get-defer_ne : (r : String) (ms : ℕ) → get k (defer now i r ms q).by_id ≡ get k q.by_id
    unfolding defer deferred
    get-defer_ne r ms = get-modify_ne i k (deferred now r ms) q.by_id (λ j. refl) other

  -- The job is settled: it does not run, and it reads `succeeded` exactly if the outcome says so.
  abbrev pub IsSettled : Option (Job P) → Option JobOutcome → Type 0
  IsSettled none o = ⊥
  IsSettled (some j) none = ⊥
  IsSettled (some j) (some o) =
      (o.job_id ≡ j.id) × (is_running j.state ≡ false) × (is_succeeded j.state ≡ o.applied)

  failed_once-settled :
      (now : ℕ) (r : String) (j : Job P)
      → ((failed_once now r j).id ≡ j.id)
        × (is_running (failed_once now r j).state ≡ false)
        × (is_succeeded (failed_once now r j).state ≡ false)
  unfolding failed_once
  failed_once-settled now r j = ground arith

module _ {W P V : Type 0} (options : WorkerOptions W P V) (c : Job P) (q : JobQueue P) where
  module _ (here : get c.id q.by_id ≡ some c) where
    poll_again-IsSettled :
        (result : AdapterResult V) (w : W)
        → (let (o, q', _) = poll_again options c result q w in IsSettled (get c.id q'.by_id) o)
    unfolding poll_again terminated deferred
    poll_again-IsSettled result w = elim (Bool-cases (past_ceiling options c w)) [
      | inl late ↦ rw late (rw (get-terminate _ c.id q c here _) (refl, refl, refl))
      | inr early ↦ rw early (rw (get-defer _ c.id q c here _ _) (refl, refl, refl))
    ]

    give_up-IsSettled :
        (result : AdapterResult V) (w : W)
        → (let (o, q', _) = give_up options c result q w in IsSettled (get c.id q'.by_id) o)
    unfolding give_up terminated
    give_up-IsSettled result w = elim (Bool-cases (is_unavailable (status_of result))) [
      | inl gone ↦ rw gone (rw (get-terminate _ c.id q c here _) (refl, refl, refl))
      | inr there ↦ rw there (
          rw (get-fail _ c.id q c here _)
            (let (i, r, s) = failed_once-settled (options.queue_clock w) _ c in (sym i, r, s)))
    ]

    conclude-IsSettled :
        (attempt : Attempt V) (w : W)
        → (let (o, q', _) = conclude options attempt c q w in IsSettled (get c.id q'.by_id) o)
    unfolding conclude completed
    conclude-IsSettled (threw reason) w =
        rw (get-fail _ c.id q c here _)
          (let (i, r, s) = failed_once-settled (options.queue_clock w) reason c in (sym i, r, s))
    conclude-IsSettled (returned result) w = elim (Bool-cases (is_done result)) [
      | inl done ↦ rw done (rw (get-complete _ c.id q c here) (refl, refl, refl))
      | inr unfinished ↦ elim (Bool-cases (in_flight (status_of result))) [
        | inl flying ↦ rw (unfinished, flying) (poll_again-IsSettled result w)
        | inr landed ↦ rw (unfinished, landed) (give_up-IsSettled result w)
      ]
    ]

    pub dispatch-IsSettled :
        (handler : Option (JobHandler W P V)) (w : W)
        → (let (o, q', _) = dispatch options handler c q w in IsSettled (get c.id q'.by_id) o)
    unfolding dispatch terminated
    dispatch-IsSettled none w = rw (get-terminate _ c.id q c here _) (refl, refl, refl)
    dispatch-IsSettled (some handler) w =
        let (attempt, w') = handler c.payload _ w in conclude-IsSettled attempt w'

  -- What a settled claim leaves alone, and what it keeps.
  module _ (k : ℕ) (other : k ≢ c.id) where
    poll_again-others :
        (result : AdapterResult V) (w : W)
        → get k (poll_again options c result q w).1.by_id ≡ get k q.by_id
    unfolding poll_again
    poll_again-others result w = elim (Bool-cases (past_ceiling options c w)) [
      | inl late ↦ rw late (get-terminate_ne _ c.id k q other _)
      | inr early ↦ rw early (get-defer_ne _ c.id k q other _ _)
    ]

    give_up-others :
        (result : AdapterResult V) (w : W)
        → get k (give_up options c result q w).1.by_id ≡ get k q.by_id
    unfolding give_up
    give_up-others result w = elim (Bool-cases (is_unavailable (status_of result))) [
      | inl gone ↦ rw gone (get-terminate_ne _ c.id k q other _)
      | inr there ↦ rw there (get-fail_ne _ c.id k q other _)
    ]

    conclude-others :
        (attempt : Attempt V) (w : W)
        → get k (conclude options attempt c q w).1.by_id ≡ get k q.by_id
    unfolding conclude
    conclude-others (threw reason) w = get-fail_ne _ c.id k q other _
    conclude-others (returned result) w = elim (Bool-cases (is_done result)) [
      | inl done ↦ rw done (get-complete_ne _ c.id k q other)
      | inr unfinished ↦ elim (Bool-cases (in_flight (status_of result))) [
        | inl flying ↦ rw (unfinished, flying) (poll_again-others result w)
        | inr landed ↦ rw (unfinished, landed) (give_up-others result w)
      ]
    ]

    pub dispatch-others :
        (handler : Option (JobHandler W P V)) (w : W)
        → get k (dispatch options handler c q w).1.by_id ≡ get k q.by_id
    unfolding dispatch
    dispatch-others none w = get-terminate_ne _ c.id k q other _
    dispatch-others (some handler) w =
        let (attempt, w') = handler c.payload _ w in conclude-others attempt w'

  module _ (v : IsValid q) where
    conclude-IsValid : (attempt : Attempt V) (w : W) → IsValid (conclude options attempt c q w).1
    unfolding conclude poll_again give_up
    conclude-IsValid (threw reason) w = fail-IsValid q v _ _ _
    conclude-IsValid (returned result) w = elim (Bool-cases (is_done result)) [
      | inl done ↦ rw done (complete-IsValid q v _ _)
      | inr unfinished ↦ elim (Bool-cases (in_flight (status_of result))) [
        | inl flying ↦ elim (Bool-cases (past_ceiling options c w)) [
          | inl late ↦ rw (unfinished, flying, late) (terminate-IsValid q v _ _ _)
          | inr early ↦ rw (unfinished, flying, early) (defer-IsValid q v _ _ _ _)
        ]
        | inr landed ↦ elim (Bool-cases (is_unavailable (status_of result))) [
          | inl gone ↦ rw (unfinished, landed, gone) (terminate-IsValid q v _ _ _)
          | inr there ↦ rw (unfinished, landed, there) (fail-IsValid q v _ _ _)
        ]
      ]
    ]

    pub dispatch-IsValid :
        (handler : Option (JobHandler W P V)) (w : W) → IsValid (dispatch options handler c q w).1
    unfolding dispatch
    dispatch-IsValid none w = terminate-IsValid q v _ _ _
    dispatch-IsValid (some handler) w =
        let (attempt, w') = handler c.payload _ w in conclude-IsValid attempt w'

-- The answer of a handler that may settle a job as succeeded.
abbrev pub reports_success : {V : Type 0} → Attempt V → Bool
reports_success (returned (ok EngineStatus.succeeded _)) = true
reports_success _ = false

abbrev pub applied_of : Option JobOutcome → Bool
applied_of none = false
applied_of (some o) = o.applied

module _ {W P V : Type 0} (options : WorkerOptions W P V) (c : Job P) (q : JobQueue P) where
  pub conclude-applied :
      (attempt : Attempt V) (w : W)
      → applied_of (conclude options attempt c q w).0 ≡ reports_success attempt
  unfolding conclude poll_again give_up
  conclude-applied (threw reason) w = refl
  conclude-applied (returned (err status reason)) w = ground arith
  conclude-applied (returned (ok status value)) w = ground arith

  pub dispatch-some :
      (handler : Option (JobHandler W P V)) (w : W) → (dispatch options handler c q w).0 ≢ none
  unfolding dispatch conclude poll_again give_up
  dispatch-some none w h = cc
  dispatch-some (some handler) w h = ground arith
