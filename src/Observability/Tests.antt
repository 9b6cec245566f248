-- ===== src/Observability/Tests.antt =====
-- Runs of the definitions for packages/observability/src/index.ts, and concrete instances of
-- the theorems.
use uscs.Common.{
  ℕ, ◌+◌, ◌*◌, ◌/◌, ◌≤◌, String, true, false, List, [], ◌∷◌, ◌≡◌, refl, arith, inl, inr,
}
use uscs.Observability.{Observation, summarize_latency, summarize_load, percentiles}
use uscs.Observability.Order.{count}
use uscs.Observability.Percentiles.{
  count_le, percentiles_observed, percentiles_cover, IsOrdered, summarize_latency-IsOrdered,
}
use uscs.Observability.Redact.{atom, object, Fields, no_fields, field, redact}
use uscs.Observability.Redaction.{Alike, AlikeFields}
use uscs.Observability.Logger.{LoggerOptions, info, warn, emit, emit_conceals}

-- The exact `Math.ceil((p / 100) * n)`.
abbrev exact : ℕ → ℕ → ℕ
exact p n = (p * n + 99) / 100

abbrev three : List ℕ
three = 30 ∷ 10 ∷ 20 ∷ []

median : percentiles exact three 50 ≡ 20
unfolding percentiles
median = refl

abbrev two_calls : List Observation
two_calls = record { ok = true; duration_ms = 7 } ∷ record { ok = false; duration_ms = 9 } ∷ []

report : (summarize_load exact (λ n t. n * 1000 / t) two_calls 4).throughput ≡ 500
unfolding summarize_load
report = refl

percentiles_observed_example : 1 ≤ count (percentiles exact three 95) three
percentiles_observed_example = percentiles_observed exact 30 (10 ∷ 20 ∷ []) 95

percentiles_cover_example : 50 * 3 ≤ 100 * count_le (percentiles exact three 50) three
percentiles_cover_example =
    percentiles_cover exact 30 (10 ∷ 20 ∷ []) 50 (omega arith) (omega arith) (omega arith)

exact_monotone : (p q n : ℕ) → p ≤ q → exact p n ≤ exact q n
exact_monotone p q n h = grind arith

summarize_latency-IsOrdered_example : IsOrdered (summarize_latency exact three)
summarize_latency-IsOrdered_example = summarize_latency-IsOrdered exact three exact_monotone

abbrev login : String → Fields
login secret =
    field "user" (atom "ada")
      (field "headers" (object (field "X-Api-Key" (atom secret) no_fields)) no_fields)

hidden :
    redact (object (login "abc")) 0
    ≡ object (
        field "user"
          (atom "ada")
          (field "headers" (object (field "X-Api-Key" (atom "[redacted]") no_fields)) no_fields))
unfolding redact
hidden = refl

logins_Alike : Alike 9 (object (login "abc")) (object (login "xyz"))
unfolding Alike redact
logins_Alike = (refl, inr refl, (refl, inr (refl, inl refl, tt), tt))

fields_Alike : AlikeFields 8 (login "abc") (login "xyz")
unfolding Alike redact
fields_Alike = (refl, inr refl, (refl, inr (refl, inl refl, tt), tt))

abbrev options : LoggerOptions
options = record { service = "api"; min_level = info; base = field "token" (atom "t") no_fields }

emit_conceals_example :
    emit options warn "login" (login "abc") "noon" []
    ≡ emit options warn "login" (login "xyz") "noon" []
emit_conceals_example =
    emit_conceals options warn "login" "noon" (login "abc") (login "xyz") [] fields_Alike
