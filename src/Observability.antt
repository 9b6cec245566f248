-- ===== src/Observability.antt =====
-- packages/observability/src/index.ts: the percentiles of a sample of durations and the load
-- report. Durations are whole milliseconds. What the source computes in binary64 is a parameter:
-- `ceil_part p n` is `Math.ceil((p / 100) * n)` and `rate n t` is `(n / t) * 1000`.
mod Order
mod Percentiles
mod Redact
mod Redaction
mod Logger
mod Tests
use uscs.Common.{
  ℕ, zero, suc, ◌-◌, max, Bool, true, false, List, [], ◌∷◌, map, filter, length, ltb, leb, ◌==◌,
  if◌then◌else◌,
}
use Prim.Native.Nat.{min}

-- `samples.sort((a, b) => a - b)`
unfoldable pub insert_sorted : ℕ → List ℕ → List ℕ
insert_sorted x [] = x ∷ []
insert_sorted x (y ∷ ys) = let rest = insert_sorted x ys in if leb x y then x ∷ y ∷ ys else y ∷ rest

unfoldable pub sort : List ℕ → List ℕ
unfolding insert_sorted
sort [] = []
sort (x ∷ xs) = insert_sorted x (sort xs)

-- `sorted[i]!`: every use keeps the index in range.
unfoldable pub at : List ℕ → ℕ → ℕ
at [] i = 0
at (x ∷ xs) zero = x
at (x ∷ xs) (suc i) = at xs i

-- `Math.min(...xs)` and `Math.max(...xs)` of a list that is not empty.
unfoldable pub minimum : List ℕ → ℕ
minimum [] = 0
minimum (x ∷ []) = x
minimum (x ∷ y ∷ ys) = min x (minimum (y ∷ ys))

unfoldable pub maximum : List ℕ → ℕ
maximum [] = 0
maximum (x ∷ []) = x
maximum (x ∷ y ∷ ys) = max x (maximum (y ∷ ys))

pub record LatencySample : Type 0 where
  pub count : ℕ
  pub min : ℕ
  pub p50 : ℕ
  pub p95 : ℕ
  pub p99 : ℕ
  pub max : ℕ

pub record Observation : Type 0 where
  pub ok : Bool
  pub duration_ms : ℕ

pub record LoadReport : Type 0 where
  pub total : ℕ
  pub ok : ℕ
  pub failed : ℕ
  pub throughput : ℕ
  pub latency : LatencySample

module _ (ceil_part : ℕ → ℕ → ℕ) where
  -- The rank is clamped: `Math.max(0, Math.min(sorted.length - 1, rank))`.
  unfoldable pub percentiles : List ℕ → ℕ → ℕ
  unfolding sort at minimum maximum
  percentiles [] percentile = 0
  percentiles (x ∷ xs) percentile =
      if percentile == 0
      then minimum (x ∷ xs)
      else if leb 100 percentile
      then maximum (x ∷ xs)
      else let sorted = sort (x ∷ xs) in
        let rank = ceil_part percentile (length sorted) - 1 in
        at sorted (max 0 (min (length sorted - 1) rank))

  unfoldable pub summarize_latency : List ℕ → LatencySample
  unfolding percentiles minimum maximum
  summarize_latency [] = record { count = 0; min = 0; p50 = 0; p95 = 0; p99 = 0; max = 0 }
  summarize_latency (x ∷ xs) = record {
    count = length (x ∷ xs);
    min = minimum (x ∷ xs);
    p50 = percentiles (x ∷ xs) 50;
    p95 = percentiles (x ∷ xs) 95;
    p99 = percentiles (x ∷ xs) 99;
    max = maximum (x ∷ xs);
  }

  unfoldable pub summarize_load : (ℕ → ℕ → ℕ) → List Observation → ℕ → LoadReport
  unfolding summarize_latency
  summarize_load rate observations elapsed_ms =
      let durations = map (λ (o : Observation). o.duration_ms) observations in
      let ok_count = length (filter (λ (o : Observation). o.ok) observations) in
      record {
        total = length observations;
        ok = ok_count;
        failed = length observations - ok_count;
        throughput = if ltb 0 elapsed_ms then rate (length observations) elapsed_ms else 0;
        latency = summarize_latency durations;
      }
