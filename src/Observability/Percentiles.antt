-- ===== src/Observability/Percentiles.antt =====
-- Which of the sorted durations `percentiles` of packages/observability/src/index.ts reports.
use Prim.Native.Nat.{min}
use uscs.Common.{
  ℕ, zero, suc, ◌+◌, ◌-◌, ◌*◌, ◌≤◌, ◌<◌, max, ◌≡◌, refl, sym, ap, subst, ◌∙◌, inl, inr, Bool-cases,
  List, [], ◌∷◌, length, arith, leb, ◌==◌, if◌then◌else◌,
}
use uscs.Observability.{sort, insert_sorted, at, LatencySample, percentiles, summarize_latency}
use uscs.Observability.Order.{
  count, Ascending, count-sort, length-sort, sort-Ascending, at-le, count-at, minimum-sort,
  maximum-sort,
}

-- How many of the values are at most `a`.
abbrev pub count_le : ℕ → List ℕ → ℕ
count_le a [] = 0
count_le a (x ∷ xs) = (if leb x a then 1 else 0) + count_le a xs

count_le-insert_sorted :
    (a x : ℕ) (ys : List ℕ)
    → count_le a (insert_sorted x ys) ≡ (if leb x a then 1 else 0) + count_le a ys
unfolding insert_sorted
count_le-insert_sorted a x [] = refl
count_le-insert_sorted a x (y ∷ ys) = ground (arith, count_le-insert_sorted a x ys)

count_le-sort : (a : ℕ) (xs : List ℕ) → count_le a (sort xs) ≡ count_le a xs
unfolding sort
count_le-sort a [] = refl
count_le-sort a (x ∷ xs) =
    count_le-insert_sorted a x (sort xs)
    ∙ ap (λ n. (if leb x a then 1 else 0) + n) (count_le-sort a xs)

-- Of ascending values, those up to an index are at most the one at that index.
count_le-at : (s : List ℕ) (i : ℕ) → Ascending s → i < length s → i + 1 ≤ count_le (at s i) s
unfolding at
count_le-at [] i a h = absurd (omega arith)
count_le-at (x ∷ xs) zero a h = ground arith
count_le-at (x ∷ xs) (suc i) (a, s) h =
    let first = at-le (x ∷ xs) 0 (suc i) (a, s) (omega arith) h in
    ground (arith, count_le-at xs i s (omega arith), first)

-- The fields of a summary follow one another.
pub record IsOrdered (s : LatencySample) : Type 0 where
  pub min_p50 : s.min ≤ s.p50
  pub p50_p95 : s.p50 ≤ s.p95
  pub p95_p99 : s.p95 ≤ s.p99
  pub p99_max : s.p99 ≤ s.max

module _ (ceil_part : ℕ → ℕ → ℕ) where
  -- The index that is reported of `n + 1` sorted durations.
  index : ℕ → ℕ → ℕ
  index n percentile =
      if percentile == 0
      then 0
      else if leb 100 percentile
      then n
      else max 0 (min n (ceil_part percentile (suc n) - 1))

  index-le : (n p : ℕ) → index n p ≤ n
  unfolding index
  index-le n p = ground arith

  percentiles-at :
      (x : ℕ) (xs : List ℕ) (p : ℕ)
      → percentiles ceil_part (x ∷ xs) p ≡ at (sort (x ∷ xs)) (index (length xs) p)
  unfolding percentiles index
  percentiles-at x xs p =
      let last : suc (length xs) - 1 ≡ length xs = omega arith in
      elim (Bool-cases (p == 0)) [
        | inl e ↦ rw e (minimum-sort x xs)
        | inr e ↦ elim (Bool-cases (leb 100 p)) [
          | inl h ↦ rw (e, h) (maximum-sort x xs)
          | inr h ↦ rw (e, h, length-sort (x ∷ xs), last) refl
        ]
      ]

  in_range : (x : ℕ) (xs : List ℕ) (p : ℕ) → index (length xs) p < length (sort (x ∷ xs))
  in_range x xs p = omega (arith, index-le (length xs) p, length-sort (x ∷ xs))

  -- A percentile of durations is one of the durations, whatever rank the rounding gives.
  pub percentiles_observed :
      (x : ℕ) (xs : List ℕ) (p : ℕ) → 1 ≤ count (percentiles ceil_part (x ∷ xs) p) (x ∷ xs)
  percentiles_observed x xs p =
      let s = sort (x ∷ xs) in
      let i = index (length xs) p in
      let found : 1 ≤ count (at s i) (x ∷ xs) =
        subst (λ n. 1 ≤ n) (count-sort (at s i) (x ∷ xs)) (count-at s i (in_range x xs p)) in
      subst (λ v. 1 ≤ count v (x ∷ xs)) (sym (percentiles-at x xs p)) found

  index_enough :
      (n p c : ℕ)
      → p ≤ 100
      → p * suc n ≤ 100 * ceil_part p (suc n)
      → ceil_part p (suc n) ≤ suc n
      → index n p + 1 ≤ c
      → p * suc n ≤ 100 * c
  unfolding index
  index_enough n p c b h k le = elim (Bool-cases (p == 0)) [
    | inl e ↦ let z : p ≡ 0 = ground arith in rw z (omega arith)
    | inr e ↦ elim (Bool-cases (leb 100 p)) [
      | inl g ↦ let z : p ≡ 100 = ground arith in ground (arith, z)
      | inr g ↦ ground arith
    ]
  ]

  -- If the rank of a percentile is the product with the count, divided by 100 and rounded up,
  -- then at least this percentage of the durations is not above the percentile that is reported.
  pub percentiles_cover :
      (x : ℕ) (xs : List ℕ) (p : ℕ)
      → p ≤ 100
      → p * suc (length xs) ≤ 100 * ceil_part p (suc (length xs))
      → ceil_part p (suc (length xs)) ≤ suc (length xs)
      → p * suc (length xs) ≤ 100 * count_le (percentiles ceil_part (x ∷ xs) p) (x ∷ xs)
  percentiles_cover x xs p b h k =
      let s = sort (x ∷ xs) in
      let i = index (length xs) p in
      let covered : i + 1 ≤ count_le (at s i) (x ∷ xs) =
        subst (λ n. i + 1 ≤ n) (count_le-sort (at s i) (x ∷ xs))
          (count_le-at s i (sort-Ascending (x ∷ xs)) (in_range x xs p)) in
      subst (λ v. p * suc (length xs) ≤ 100 * count_le v (x ∷ xs)) (sym (percentiles-at x xs p))
        (index_enough (length xs) p (count_le (at s i) (x ∷ xs)) b h k covered)

  index_monotone :
      (n p q : ℕ) → ceil_part p (suc n) ≤ ceil_part q (suc n) → p ≤ q → index n p ≤ index n q
  unfolding index
  index_monotone n p q m h = ground (arith, m)

  pub percentiles_monotone :
      (x : ℕ) (xs : List ℕ) (p q : ℕ)
      → ceil_part p (suc (length xs)) ≤ ceil_part q (suc (length xs))
      → p ≤ q
      → percentiles ceil_part (x ∷ xs) p ≤ percentiles ceil_part (x ∷ xs) q
  percentiles_monotone x xs p q m h =
      rw (percentiles-at x xs p, percentiles-at x xs q)
        (at-le (sort (x ∷ xs)) _ _ (sort-Ascending (x ∷ xs)) (index_monotone (length xs) p q m h)
          (in_range x xs q))

  -- If the rank does not fall when the percentile rises, the summary of any durations is in
  -- order: minimum, median, 95th percentile, 99th percentile, maximum.
  pub summarize_latency-IsOrdered :
      (xs : List ℕ)
      → ((p q n : ℕ) → p ≤ q → ceil_part p n ≤ ceil_part q n)
      → IsOrdered (summarize_latency ceil_part xs)
  summarize_latency-IsOrdered [] m = unfold summarize_latency in omega arith
  summarize_latency-IsOrdered (x ∷ xs) m =
      unfold summarize_latency in
      record {
        min_p50 = le 0 50 (omega arith);
        p50_p95 = le 50 95 (omega arith);
        p95_p99 = le 95 99 (omega arith);
        p99_max = le 99 100 (omega arith);
      }
    where
      le : (p q : ℕ) → p ≤ q → percentiles ceil_part (x ∷ xs) p ≤ percentiles ceil_part (x ∷ xs) q
      le p q h = percentiles_monotone x xs p q (m p q (suc (length xs)) h) h
