-- ===== src/Billing/Totals.antt =====
-- What the roll-up of apps/api/src/procedures/billing.ts adds up to.
use uscs.Common.{
  ℕ, ◌+◌, ◌≤◌, max, String, Bool, List, [], ◌∷◌, ◌≡◌, refl, arith, ◌===◌, if◌then◌else◌, eq_iff,
}
use uscs.Billing.Records.{UsageRecord, UsageTotal}
use uscs.Billing.{tally, tally_all, add_to, insert_by_metric, sort_by_metric, roll_up}

-- The quantities of a metric, summed over the records, and over the totals.
abbrev pub recorded : String → List UsageRecord → ℕ
recorded m [] = 0
recorded m (r ∷ rs) = (if r.metric === m then r.quantity else 0) + recorded m rs

abbrev pub totalled : String → List UsageTotal → ℕ
totalled m [] = 0
totalled m (t ∷ ts) = (if t.metric === m then t.total else 0) + totalled m ts

-- How many records there are of a metric, and how many the totals count.
abbrev pub record_count : String → List UsageRecord → ℕ
record_count m [] = 0
record_count m (r ∷ rs) = (if r.metric === m then 1 else 0) + record_count m rs

abbrev pub counted : String → List UsageTotal → ℕ
counted m [] = 0
counted m (t ∷ ts) = (if t.metric === m then t.records else 0) + counted m ts

-- How many lines the totals have for a metric.
abbrev pub lines : String → List UsageTotal → ℕ
lines m [] = 0
lines m (t ∷ ts) = (if t.metric === m then 1 else 0) + lines m ts

totalled-tally :
    (m : String) (r : UsageRecord) (ts : List UsageTotal)
    → totalled m (tally r ts) ≡ (if r.metric === m then r.quantity else 0) + totalled m ts
unfolding tally add_to
totalled-tally m r [] = ground arith
totalled-tally m r (t ∷ ts) =
    ground
      (arith, totalled-tally m r ts, eq_iff t.metric r.metric, eq_iff t.metric m, eq_iff r.metric m)

counted-tally :
    (m : String) (r : UsageRecord) (ts : List UsageTotal)
    → counted m (tally r ts) ≡ (if r.metric === m then 1 else 0) + counted m ts
unfolding tally add_to
counted-tally m r [] = ground arith
counted-tally m r (t ∷ ts) =
    ground
      (arith, counted-tally m r ts, eq_iff t.metric r.metric, eq_iff t.metric m, eq_iff r.metric m)

-- A metric keeps its one line; a new one gets one.
lines-tally :
    (m : String) (r : UsageRecord) (ts : List UsageTotal)
    → lines m (tally r ts) ≡ (if r.metric === m then max 1 (lines m ts) else lines m ts)
unfolding tally add_to
lines-tally m r [] = ground arith
lines-tally m r (t ∷ ts) =
    ground
      (arith, lines-tally m r ts, eq_iff t.metric r.metric, eq_iff t.metric m, eq_iff r.metric m)

totalled-tally_all :
    (m : String) (rs : List UsageRecord) (ts : List UsageTotal)
    → totalled m (tally_all rs ts) ≡ recorded m rs + totalled m ts
unfolding tally_all
totalled-tally_all m [] ts = omega arith
totalled-tally_all m (r ∷ rs) ts =
    omega (arith, totalled-tally_all m rs (tally r ts), totalled-tally m r ts)

counted-tally_all :
    (m : String) (rs : List UsageRecord) (ts : List UsageTotal)
    → counted m (tally_all rs ts) ≡ record_count m rs + counted m ts
unfolding tally_all
counted-tally_all m [] ts = omega arith
counted-tally_all m (r ∷ rs) ts =
    omega (arith, counted-tally_all m rs (tally r ts), counted-tally m r ts)

lines-tally_all :
    (m : String) (rs : List UsageRecord) (ts : List UsageTotal)
    → lines m ts ≤ 1
    → lines m (tally_all rs ts) ≤ 1
unfolding tally_all
lines-tally_all m [] ts h = h
lines-tally_all m (r ∷ rs) ts h =
    let step = lines-tally m r ts in lines-tally_all m rs (tally r ts) (ground arith)

module _ (precedes : String → String → Bool) where
  abbrev by_metric : List UsageTotal → List UsageTotal
  by_metric ts = sort_by_metric precedes (λ (t : UsageTotal). t.metric) ts

  abbrev insert : UsageTotal → List UsageTotal → List UsageTotal
  insert t ts = insert_by_metric precedes (λ (t : UsageTotal). t.metric) t ts

  totalled-insert :
      (m : String) (t : UsageTotal) (ts : List UsageTotal)
      → totalled m (insert t ts) ≡ (if t.metric === m then t.total else 0) + totalled m ts
  unfolding insert_by_metric
  totalled-insert m t [] = refl
  totalled-insert m t (u ∷ us) = ground (arith, totalled-insert m t us)

  counted-insert :
      (m : String) (t : UsageTotal) (ts : List UsageTotal)
      → counted m (insert t ts) ≡ (if t.metric === m then t.records else 0) + counted m ts
  unfolding insert_by_metric
  counted-insert m t [] = refl
  counted-insert m t (u ∷ us) = ground (arith, counted-insert m t us)

  lines-insert :
      (m : String) (t : UsageTotal) (ts : List UsageTotal)
      → lines m (insert t ts) ≡ (if t.metric === m then 1 else 0) + lines m ts
  unfolding insert_by_metric
  lines-insert m t [] = refl
  lines-insert m t (u ∷ us) = ground (arith, lines-insert m t us)

  totalled-sort : (m : String) (ts : List UsageTotal) → totalled m (by_metric ts) ≡ totalled m ts
  unfolding sort_by_metric
  totalled-sort m [] = refl
  totalled-sort m (t ∷ ts) = omega (arith, totalled-insert m t (by_metric ts), totalled-sort m ts)

  counted-sort : (m : String) (ts : List UsageTotal) → counted m (by_metric ts) ≡ counted m ts
  unfolding sort_by_metric
  counted-sort m [] = refl
  counted-sort m (t ∷ ts) = omega (arith, counted-insert m t (by_metric ts), counted-sort m ts)

  lines-sort : (m : String) (ts : List UsageTotal) → lines m (by_metric ts) ≡ lines m ts
  unfolding sort_by_metric
  lines-sort m [] = refl
  lines-sort m (t ∷ ts) = omega (arith, lines-insert m t (by_metric ts), lines-sort m ts)

  -- For each metric, the totals of the usage report add up to the quantities of the metric's
  -- records and count these records, and there is at most one total of the metric.
  pub roll_up_exact :
      (rs : List UsageRecord) (m : String)
      → (totalled m (roll_up precedes rs) ≡ recorded m rs)
        × (counted m (roll_up precedes rs) ≡ record_count m rs)
        × (lines m (roll_up precedes rs) ≤ 1)
  unfolding roll_up
  roll_up_exact rs m = (
    omega (arith, totalled-sort m (tally_all rs []), totalled-tally_all m rs []),
    omega (arith, counted-sort m (tally_all rs []), counted-tally_all m rs []),
    omega (arith, lines-sort m (tally_all rs []), lines-tally_all m rs [] (omega arith)),
  )
