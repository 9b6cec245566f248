-- ===== src/Api/Counted.antt =====
-- Counting what actions write: deployment rows and jobs, by two measures of the world.
use uscs.Common.{ℕ, ◌+◌, ◌≤◌, Bool, true, false, ◌≡◌, refl, arith, if◌then◌else◌}
use uscs.Api.Action.{Failure, Result, value, throws, Action, pure, raise, raise_if, lift, ◌>>=◌}

module _ {W : Type 0} (rows jobs : W → ℕ) where
  abbrev pub Same : W → W → Type 0
  Same w w' = (rows w' ≡ rows w) × (jobs w' ≡ jobs w)

  -- At most one row more, and no more jobs than rows.
  abbrev pub IsPaired : W → W → Type 0
  IsPaired w w' =
      (rows w ≤ rows w')
      × (rows w' ≤ rows w + 1)
      × (jobs w ≤ jobs w')
      × (jobs w' + rows w ≤ jobs w + rows w')

  abbrev pub OneJob : W → W → Type 0
  OneJob w w' = (rows w' ≡ rows w) × (jobs w ≤ jobs w') × (jobs w' ≤ jobs w + 1)

  -- The action writes neither a row nor a job, however it ends.
  pub record Keeps {A : Type 0} (m : Action W A) : Type 0 where
    pub same : (w : W) → Same w (m w).1

  -- The action writes at most one row, and a job only with a row, however it ends.
  pub record Pairs {A : Type 0} (m : Action W A) : Type 0 where
    pub paired : (w : W) → IsPaired w (m w).1

  -- The action writes at most one job, and no row.
  pub record Completes {A : Type 0} (m : Action W A) : Type 0 where
    pub one_job : (w : W) → OneJob w (m w).1

  -- How a call that writes a row ends: with one more row if it returns, and with at most one more.
  abbrev pub Inserted : {A : Type 0} → W → Result A × W → Type 0
  Inserted w (value a, w') = (rows w' ≡ rows w + 1) × (jobs w' ≡ jobs w)
  Inserted w (throws e, w') = (rows w ≤ rows w') × (rows w' ≤ rows w + 1) × (jobs w' ≡ jobs w)

  pub record Inserts {A : Type 0} (m : Action W A) : Type 0 where
    pub inserted : (w : W) → Inserted w (m w)

  pub pure-Keeps : {A : Type 0} (a : A) → Keeps (pure a)
  pure-Keeps a = record { same = λ w. (refl, refl) }

  pub raise-Keeps : (A : Type 0) (e : Failure) → Keeps {A = A} (raise e)
  raise-Keeps A e = record { same = λ w. (refl, refl) }

  pub lift-Keeps : {A : Type 0} (r : Result A) → Keeps (lift r)
  lift-Keeps r = record { same = λ w. (refl, refl) }

  pub raise_if-Keeps : (b : Bool) (e : Failure) → Keeps (raise_if b e)
  raise_if-Keeps true e = record { same = λ w. (refl, refl) }
  raise_if-Keeps false e = record { same = λ w. (refl, refl) }

  pub if-Keeps :
      {A : Type 0} (b : Bool) (m n : Action W A) → Keeps m → Keeps n → Keeps (if b then m else n)
  if-Keeps true m n h k = h
  if-Keeps false m n h k = k

  pub if-Pairs :
      {A : Type 0} (b : Bool) (m n : Action W A) → Pairs m → Pairs n → Pairs (if b then m else n)
  if-Pairs true m n h k = h
  if-Pairs false m n h k = k

  -- What holds of the worlds after a call and after what follows it.
  after :
      {A B : Type 0} (P : W → Type 0) (p : Result A × W) (f : A → Action W B)
      → P p.1
      → ((a : A) → P (f a p.1).1)
      → P
          (let r : Result B × W = elim p.0 [ value a ↦ f a p.1 | throws e ↦ (throws e, p.1) ] in
            r).1
  after P (value a, w) f h k = k a
  after P (throws e, w) f h k = h

  pub >>=-Keeps :
      {A B : Type 0} (m : Action W A) (f : A → Action W B)
      → Keeps m
      → ((a : A) → Keeps (f a))
      → Keeps (m >>= f)
  >>=-Keeps m f h k = record {
    same = λ w.
        let first = h.same w in
        after (Same w) (m w) f first
          (λ a. let step = (k a).same (m w).1 in omega (arith, step, first));
  }

  pub >>=-Pairs :
      {A B : Type 0} (m : Action W A) (f : A → Action W B)
      → Keeps m
      → ((a : A) → Pairs (f a))
      → Pairs (m >>= f)
  >>=-Pairs m f h k = record {
    paired = λ w.
        let first = h.same w in
        after (IsPaired w) (m w) f (omega (arith, first))
          (λ a. let step = (k a).paired (m w).1 in omega (arith, step, first));
  }

  pub >>=-Completes :
      {A B : Type 0} (m : Action W A) (f : A → Action W B)
      → Keeps m
      → ((a : A) → Completes (f a))
      → Completes (m >>= f)
  >>=-Completes m f h k = record {
    one_job = λ w.
        let first = h.same w in
        after (OneJob w) (m w) f (omega (arith, first))
          (λ a. let step = (k a).one_job (m w).1 in omega (arith, step, first));
  }

  -- A job, and then nothing more that counts.
  pub job-Completes :
      {A B : Type 0} (m : Action W A) (f : A → Action W B)
      → Completes m
      → ((a : A) → Keeps (f a))
      → Completes (m >>= f)
  job-Completes m f h k = record {
    one_job = λ w.
        let first = h.one_job w in
        after (OneJob w) (m w) f first
          (λ a. let step = (k a).same (m w).1 in omega (arith, step, first));
  }

  pub Keeps-Pairs : {A : Type 0} (m : Action W A) → Keeps m → Pairs m
  Keeps-Pairs m h = record { paired = λ w. let first = h.same w in omega (arith, first) }

  then-IsPaired :
      {A B : Type 0} (w : W) (p : Result A × W) (f : A → Action W B)
      → Inserted w p
      → ((a : A) → Completes (f a))
      → IsPaired w
          (let r : Result B × W = elim p.0 [ value a ↦ f a p.1 | throws e ↦ (throws e, p.1) ] in
            r).1
  then-IsPaired w (value a, w') f h k = let step = (k a).one_job w' in omega (arith, h, step)
  then-IsPaired w (throws e, w') f h k = omega (arith, h)

  pub inserts-Pairs :
      {A B : Type 0} (m : Action W A) (f : A → Action W B)
      → Inserts m
      → ((a : A) → Completes (f a))
      → Pairs (m >>= f)
  inserts-Pairs m f h k = record { paired = λ w. then-IsPaired w (m w) f (h.inserted w) k }
