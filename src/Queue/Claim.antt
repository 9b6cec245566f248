-- ===== src/Queue/Claim.antt =====
-- `claim` of packages/adapters/src/queue.ts: one worker at a time, and the first job that is due.
use uscs.Common.{
  ℕ, ◌<◌, ◌≡◌, refl, sym, ap, ◌∙◌, subst, ◌≢◌, ◌↔◌, false≢true, inl, inr, true, false, Option, none,
  some, String, List, [], ◌∷◌, arith, All,
}
use uscs.Contracts.{queued}
use uscs.Queue.{
  Job, JobQueue, get, is_claimable, claimed, claim_in, with_claim, claim, deferred, defer,
}
use uscs.Queue.Jobs.{Claims, claim_in-Claims, get-modify_self}
use uscs.Queue.Invariant.{IsValid, Ascending}

some_injective {ℓ} : {A : Type ℓ} {a b : A} → some a ≡ some b → a ≡ b
some_injective e = cc

no_claim {ℓ} : {A : Type ℓ} {a : A} → none ≡ some a → ⊥
no_claim e = cc

module _ {P : Type 0} (now lease_ms : ℕ) where
  -- What a claim returns of a queue: a claimable job of it, marked as running.
  abbrev pub IsClaimOf : Job P → JobQueue P → Type 0
  IsClaimOf c q =
      (j : Job P) × (get c.id q.by_id ≡ some j)
      × (is_claimable now j ≡ true)
      × (c ≡ claimed now lease_ms j)

  claimed-id : (j : Job P) → (claimed now lease_ms j).id ≡ j.id
  unfolding claimed
  claimed-id j = refl

  -- Every other job stays as it is, and the claimed one takes its new form.
  Claims-get :
      (lo : ℕ) (js : List (Job P)) (c : Job P) (js' : List (Job P))
      → Ascending lo js
      → Claims now lease_ms js c js'
      → (lo < c.id)
        × ((j : Job P) × (get c.id js ≡ some j)
            × (is_claimable now j ≡ true)
            × (c ≡ claimed now lease_ms j))
        × (get c.id js' ≡ some c)
        × ((i : ℕ) → i ≢ c.id → get i js' ≡ get i js)
  unfolding get
  Claims-get lo [] c js' a m = absurd m
  Claims-get lo (j ∷ js) c js' a (inl (takes, ec, ejs)) =
      let same : c.id ≡ j.id = ap (λ (k : Job P). k.id) ec ∙ claimed-id j in
      (
        omega (arith, same, a.0),
        (j, ground (arith, same), takes, ec),
        rw ejs (ground (arith, claimed-id j)),
        λ i ne. rw ejs (ground (arith, claimed-id j)),
      )
  Claims-get lo (j ∷ js) c js' a (inr (skips, (ks, ejs, m))) =
      let (above, (k, ek, tk, ck), gk, others) = Claims-get j.id js c ks a.1 m in
      (
        omega (arith, above, a.0),
        (k, ground arith, tk, ck),
        rw ejs (ground arith),
        λ i ne. rw ejs (ground (arith, others i ne)),
      )

  -- A claim takes a claimable job, marks it as running, and leaves every other job as it was.
  pub claim_takes :
      (q q' : JobQueue P) (c : Job P)
      → IsValid q
      → claim now lease_ms q ≡ (some c, q')
      → IsClaimOf c q
        × (get c.id q'.by_id ≡ some c)
        × ((i : ℕ) → i ≢ c.id → get i q'.by_id ≡ get i q.by_id)
  unfolding claim
  claim_takes q q' c v e = go (claim_in now lease_ms q.by_id) refl e
    where
      go :
          (o : Option (Job P × List (Job P)))
          → claim_in now lease_ms q.by_id ≡ o
          → with_claim q o ≡ (some c, q')
          → IsClaimOf c q
            × (get c.id q'.by_id ≡ some c)
            × ((i : ℕ) → i ≢ c.id → get i q'.by_id ≡ get i q.by_id)
      go none e h = absurd (no_claim (ap (λ (r : Option (Job P) × JobQueue P). r.0) h))
      go (some (d, js)) e h =
          let same : d ≡ c = some_injective (ap (λ (r : Option (Job P) × JobQueue P). r.0) h) in
          let after : js ≡ q'.by_id = ap (λ (r : Option (Job P) × JobQueue P). r.1.by_id) h in
          let m =
            subst (λ x. Claims now lease_ms q.by_id c x) after
              (subst (λ x. Claims now lease_ms q.by_id x js) same
                (claim_in-Claims now lease_ms q.by_id d js e)) in
          let (_, of, here, others) = Claims-get 0 q.by_id c q'.by_id v.ascending m in
          (of, here, others)

  claim_in-none :
      (js : List (Job P))
      → (claim_in now lease_ms js ≡ none) ↔ All (λ j. is_claimable now j ≡ false) js
  unfolding claim_in
  claim_in-none [] = (λ _. tt, λ _. refl)
  claim_in-none (j ∷ js) =
      (λ h. ground (arith, claim_in-none js), λ h. ground (arith, (claim_in-none js).1 h.1))

  with_claim-none :
      (q : JobQueue P) (o : Option (Job P × List (Job P)))
      → ((with_claim q o).0 ≡ none) ↔ (o ≡ none)
  with_claim-none q none = (λ _. refl, λ _. refl)
  with_claim-none q (some (c, js)) = (λ h. cc, λ h. cc)

  -- A claim comes back empty exactly when no job of the queue is claimable.
  pub claim-none_iff :
      (q : JobQueue P)
      → ((claim now lease_ms q).0 ≡ none) ↔ All (λ j. is_claimable now j ≡ false) q.by_id
  unfolding claim
  claim-none_iff q = (
    λ h. (claim_in-none q.by_id).0 ((with_claim-none q (claim_in now lease_ms q.by_id)).0 h),
    λ h. (with_claim-none q (claim_in now lease_ms q.by_id)).1 ((claim_in-none q.by_id).1 h),
  )

  -- A running job is not claimable.
  claimed-not-claimable :
      (now' : ℕ) (j : Job P) → is_claimable now' (claimed now lease_ms j) ≡ false
  unfolding is_claimable claimed
  claimed-not-claimable now' j = refl

module _ {P : Type 0} where
  deferred-id :
      (now : ℕ) (reason : String) (ms : ℕ) (j : Job P) → (deferred now reason ms j).id ≡ j.id
  unfolding deferred
  deferred-id now reason ms j = refl

  pub refund :
      (now lease_ms now' : ℕ) (reason : String) (ms : ℕ) (j c : Job P)
      → c ≡ claimed now lease_ms j
      → (deferred now' reason ms c).attempts ≡ j.attempts
  unfolding deferred claimed
  refund now lease_ms now' reason ms j c e = ground arith

  -- Two claims in a row on valid queues, at any times and with any leases, never hand out the
  -- same job.
  pub claim_exclusive :
      (now lease_ms now' lease_ms' : ℕ) (q q' q'' : JobQueue P) (c d : Job P)
      → IsValid q
      → IsValid q'
      → claim now lease_ms q ≡ (some c, q')
      → claim now' lease_ms' q' ≡ (some d, q'')
      → c.id ≢ d.id
  claim_exclusive now lease_ms now' lease_ms' q q' q'' c d v v' e e' same =
      let ((j, _, _, was), here, _) = claim_takes now lease_ms q q' c v e in
      let ((k, found, free, _), _, _) = claim_takes now' lease_ms' q' q'' d v' e' in
      let k_is : some k ≡ some c = sym found ∙ ap (λ i. get i q'.by_id) (sym same) ∙ here in
      let busy = claimed-not-claimable now lease_ms now' j in
      false≢true
        (sym busy ∙ subst (λ x. is_claimable now' x ≡ true) (some_injective k_is ∙ was) free)

  -- A job that is claimed from a valid queue and then deferred is queued again with the attempts
  -- that it had before the claim.
  pub claim-defer_refunds :
      (now lease_ms now' : ℕ) (reason : String) (defer_ms : ℕ) (q q' : JobQueue P) (c : Job P)
      → IsValid q
      → claim now lease_ms q ≡ (some c, q')
      → (j k : Job P) × (get c.id q.by_id ≡ some j)
        × (get c.id (defer now' c.id reason defer_ms q').by_id ≡ some k)
        × (k.attempts ≡ j.attempts)
        × (k.state ≡ queued)
  unfolding defer
  claim-defer_refunds now lease_ms now' reason defer_ms q q' c v e =
      let ((j, found, _, was), here, _) = claim_takes now lease_ms q q' c v e in
      (
        j,
        deferred now' reason defer_ms c,
        found,
        get-modify_self c.id (deferred now' reason defer_ms) q'.by_id c
            (deferred-id now' reason defer_ms) here,
        refund now lease_ms now' reason defer_ms j c was,
        unfold deferred in refl,
      )
