-- ===== src/Billing/Tests.antt =====
-- Runs of the definitions for apps/api/src/procedures/billing.ts, and concrete instances of the
-- theorems.
use uscs.Common.{◌≤◌, String, Bool, true, false, List, [], ◌∷◌, some, ◌≡◌, refl}
use uscs.Authorization.{role_in}
use uscs.Api.Action.{throws}
use uscs.Api.Guard.{require_capability, organization_not_found}
use uscs.Billing.Records.{UsageRecord}
use uscs.Billing.{SaveBudgetInput, natural, roll_up, assert_within_budget}
use uscs.Billing.Totals.{totalled, recorded, counted, record_count, lines, roll_up_exact}
use uscs.Billing.Caps.{Enforced, assert_within_budget-Enforced}
use uscs.Samples.{empty, member, cap, usage, get_budget, list_usage, billing}

abbrev three : List UsageRecord
three = usage "deployments" 2 ∷ usage "backups" 1 ∷ usage "deployments" 4 ∷ []

abbrev after_all : String → String → Bool
after_all a b = false

roll_up_exact_example :
    (totalled "deployments" (roll_up after_all three) ≡ recorded "deployments" three)
    × (counted "deployments" (roll_up after_all three) ≡ record_count "deployments" three)
    × (lines "deployments" (roll_up after_all three) ≤ 1)
roll_up_exact_example = roll_up_exact after_all three "deployments"

deployments_total : totalled "deployments" (roll_up after_all three) ≡ 6
unfolding roll_up
deployments_total = refl

abbrev recorded_twice : List UsageRecord
recorded_twice = usage "deployments" 1 ∷ usage "deployments" 1 ∷ []

assert_within_budget-Enforced_example :
    Enforced
      (λ n. n)
      (λ a b. a)
      after_all
      (λ n. "2")
      (billing 2)
      "deployments"
      (some (cap 2))
      recorded_twice
      empty
      empty
      (assert_within_budget
        (λ n. n)
        (λ a b. a)
        after_all
        (λ n. "2")
        (billing 2)
        "o1"
        "deployments"
        empty)
assert_within_budget-Enforced_example =
    assert_within_budget-Enforced (λ n. n) (λ a b. a) after_all (λ n. "2") (billing 2)
      (get_budget 2) list_usage "o1" "deployments" (some (cap 2)) recorded_twice empty empty empty
      (record { budgets = refl; usage = refl }) refl refl

abbrev saved : SaveBudgetInput
saved = record {
  organization_id = "o2";
  metric = "deployments";
  limit_quantity = natural 3;
  hard_cap = true;
}

stranger : (c : String) → require_capability member "o2" c ≡ throws organization_not_found
unfolding require_capability role_in
stranger c = refl
