-- ===== src/Queue/Jobs.antt =====
-- Queue.antt walks a list of jobs and changes some of them in place: what each walk keeps.
use uscs.Common.{
  ℕ, ◌≡◌, refl, ◌≢◌, ◌⊎◌, inl, inr, true, false, Option, none, some, List, [], ◌∷◌, arith,
  Bool-cases, ◌==◌,
}
use uscs.Queue.{
  Job, get, modify, is_claimable, claimed, claim_in, keep_before, is_stale, reaped, reap_in,
}

module _ {P : Type 0} where
  -- The jobs of two lists are related one by one.
  abbrev pub Each : (Job P → Job P → Type 0) → List (Job P) → List (Job P) → Type 0
  Each R [] [] = Unit
  Each R [] (_ ∷ _) = ⊥
  Each R (_ ∷ _) [] = ⊥
  Each R (j ∷ js) (k ∷ ks) = R j k × Each R js ks

  module _ (R : Job P → Job P → Type 0) (same : (j : Job P) → R j j) where
    pub Each-refl : (js : List (Job P)) → Each R js js
    Each-refl [] = tt
    Each-refl (j ∷ js) = (same j, Each-refl js)

    pub modify-Each :
        (i : ℕ) (f : Job P → Job P)
        → ((j : Job P) → j.id ≡ i → R j (f j))
        → (js : List (Job P)) → Each R js (modify i f js)
    unfolding modify
    modify-Each i f h [] = tt
    modify-Each i f h (j ∷ js) = elim (Bool-cases (j.id == i)) [
      | inl this ↦ rw this (h j (ground arith), Each-refl js)
      | inr other ↦ rw other (same j, modify-Each i f h js)
    ]

    pub reap_in-Each :
        (now : ℕ)
        → ((j : Job P) → is_stale now j ≡ true → R j (reaped now j))
        → (js : List (Job P)) → Each R js (reap_in now js).1
    unfolding reap_in
    reap_in-Each now h [] = tt
    reap_in-Each now h (j ∷ js) = elim (Bool-cases (is_stale now j)) [
      | inl stale ↦ rw stale (h j stale, reap_in-Each now h js)
      | inr fresh ↦ rw fresh (same j, reap_in-Each now h js)
    ]

  -- How a claim takes the first claimable job, as a relation.
  module _ (now lease_ms : ℕ) where
    abbrev pub Claims : List (Job P) → Job P → List (Job P) → Type 0
    Claims [] c js' = ⊥
    Claims (j ∷ js) c js' =
        ((is_claimable now j ≡ true)
          × (c ≡ claimed now lease_ms j)
          × (js' ≡ claimed now lease_ms j ∷ js))
        ⊎ ((is_claimable now j ≡ false) × ((ks : List (Job P)) × (js' ≡ j ∷ ks) × Claims js c ks))

    keep_before-some :
        (j : Job P) (o : Option (Job P × List (Job P))) (c : Job P) (js' : List (Job P))
        → keep_before j o ≡ some (c, js')
        → (ks : List (Job P)) × (js' ≡ j ∷ ks) × (o ≡ some (c, ks))
    keep_before-some j none c js' e = cc
    keep_before-some j (some (d, ks)) c js' e = (ks, cc, cc)

    pub claim_in-Claims :
        (js : List (Job P)) (c : Job P) (js' : List (Job P))
        → claim_in now lease_ms js ≡ some (c, js')
        → Claims js c js'
    unfolding claim_in
    claim_in-Claims [] c js' e = cc
    claim_in-Claims (j ∷ js) c js' e = elim (Bool-cases (is_claimable now j)) [
      | inl takes ↦ let e' = rw takes at e in inl (takes, cc, cc)
      | inr skips ↦
          let (ks, front, rest) =
            keep_before-some j (claim_in now lease_ms js) c js' (rw skips at e) in
          inr (skips, (ks, front, claim_in-Claims js c ks rest))
    ]

    pub Claims-Each :
        (R : Job P → Job P → Type 0)
        → ((j : Job P) → R j j)
        → ((j : Job P) → is_claimable now j ≡ true → R j (claimed now lease_ms j))
        → (js : List (Job P)) (c : Job P) (js' : List (Job P)) → Claims js c js'
        → Each R js js'
    Claims-Each R same h [] c js' m = absurd m
    Claims-Each R same h (j ∷ js) c js' (inl (takes, _, e)) = rw e (h j takes, Each-refl R same js)
    Claims-Each R same h (j ∷ js) c js' (inr (_, (ks, e, m))) =
        rw e (same j, Claims-Each R same h js c ks m)

  -- The job that a change is made to, and the others.
  pub get-modify_self :
      (i : ℕ) (f : Job P → Job P) (js : List (Job P)) (j : Job P)
      → ((j : Job P) → (f j).id ≡ j.id)
      → get i js ≡ some j
      → get i (modify i f js) ≡ some (f j)
  unfolding get modify
  get-modify_self i f [] j same e = cc
  get-modify_self i f (k ∷ js) j same e = ground (arith, same k, get-modify_self i f js j same)

  pub get-modify_ne :
      (i k : ℕ) (f : Job P → Job P) (js : List (Job P))
      → ((j : Job P) → (f j).id ≡ j.id)
      → k ≢ i
      → get k (modify i f js) ≡ get k js
  unfolding get modify
  get-modify_ne i k f [] same ne = refl
  get-modify_ne i k f (j ∷ js) same ne = ground (arith, same j, get-modify_ne i k f js same ne)
