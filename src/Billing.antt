-- ===== src/Billing.antt =====
-- apps/api/src/procedures/billing.ts: usage, budgets and the hard cap. The store's methods and the
-- clock are fields of `BillingDeps`. Quantities are natural numbers, instants are milliseconds.
-- Parameters are what the language computes outside of them: `period_start` is the first instant
-- of an instant's month, `ratio` the division in binary64, `precedes` the order of `localeCompare`.
pub mod Records
pub mod Totals
pub mod Caps
mod Tests
use Prim.Native.String.{◌++◌ as ◌<>◌}
use uscs.Common.{
  ℕ, ◌+◌, String, Bool, true, false, not, ◌&&◌, Option, none, some, List, [], ◌∷◌, map, ◌===◌, ltb,
  leb, includes, if◌then◌else◌, trim,
}
use uscs.Api.Action.{
  invalid_input, budget_exceeded, engine_unavailable, Detail, ApiError, Failure, api, Result, value,
  Action, pure, raise, raise_if, ◌>>=◌, ◌>>◌,
}
use uscs.Api.Guard.{RequestContext}
use uscs.Api.Audit.{Meta, AuditEvent, failure, found_or, require, event_of}
use uscs.Billing.Records.{UsageRecord, Budget, BudgetSave, BillingDeps, UsageTotal, UsageReport}

abbrev later_of : Option ℕ → ℕ → ℕ
later_of none at = at
later_of (some current) at = if ltb current at then at else current

unfoldable pub add_to : UsageRecord → UsageTotal → UsageTotal
add_to r t = record {
  metric = t.metric;
  total = t.total + r.quantity;
  records = t.records + 1;
  last_recorded_at = some (later_of t.last_recorded_at r.recorded_at);
}

-- One round of the loop: the map keeps the order in which the metrics came first.
unfoldable pub tally : UsageRecord → List UsageTotal → List UsageTotal
unfolding add_to
tally r [] =
    add_to r (record { metric = r.metric; total = 0; records = 0; last_recorded_at = none }) ∷ []
tally r (t ∷ ts) =
    let rest = tally r ts in if t.metric === r.metric then add_to r t ∷ ts else t ∷ rest

unfoldable pub tally_all : List UsageRecord → List UsageTotal → List UsageTotal
unfolding tally
tally_all [] totals = totals
tally_all (r ∷ rs) totals = tally_all rs (tally r totals)

module _ {A : Type 0} (precedes : String → String → Bool) (metric_of : A → String) where
  -- `sort((a, b) => a.metric.localeCompare(b.metric))`
  unfoldable pub insert_by_metric : A → List A → List A
  insert_by_metric t [] = t ∷ []
  insert_by_metric t (u ∷ us) =
      let rest = insert_by_metric t us in
      if precedes (metric_of u) (metric_of t) then u ∷ rest else t ∷ u ∷ us

  unfoldable pub sort_by_metric : List A → List A
  unfolding insert_by_metric
  sort_by_metric [] = []
  sort_by_metric (t ∷ ts) = insert_by_metric t (sort_by_metric ts)

unfoldable pub roll_up : (String → String → Bool) → List UsageRecord → List UsageTotal
unfolding tally_all sort_by_metric
roll_up precedes records =
    sort_by_metric precedes (λ (t : UsageTotal). t.metric) (tally_all records [])

pub record BudgetStatus : Type 0 where
  pub metric : String
  pub limit_quantity : ℕ
  pub hard_cap : Bool
  pub used_quantity : ℕ
  pub ratio : ℕ
  pub exceeded : Bool

pub record BudgetReport : Type 0 where
  pub budgets : List BudgetStatus
  pub period_start : ℕ

pub record HardCapRefusal : Type 0 where
  pub message : String
  pub metric : String
  pub limit_quantity : ℕ
  pub used_quantity : ℕ

abbrev pub usage_metrics : List String
usage_metrics = "deployments" ∷ "backups" ∷ []

-- The number of a request: one that is not finite or is below 0 is refused.
pub data Quantity : Type 0 where
  natural : ℕ → Quantity
  negative not_finite : Quantity

pub record SaveBudgetInput : Type 0 where
  pub organization_id : String
  pub metric : String
  pub limit_quantity : Quantity
  pub hard_cap : Bool

abbrev pub sum_quantities : List UsageRecord → ℕ
sum_quantities [] = 0
sum_quantities (r ∷ rs) = r.quantity + sum_quantities rs

abbrev pub unavailable : String → Failure
unavailable message = failure engine_unavailable message

abbrev pub unknown_metric : String → Failure
unknown_metric metric =
    failure invalid_input
      ("Unknown metric '" <> (metric <> "'. Recorded metrics: deployments, backups."))

abbrev pub limit_of : {W : Type 0} → Quantity → Action W ℕ
limit_of (natural n) = pure n
limit_of negative = raise (failure invalid_input "The limit must be a non-negative number.")
limit_of not_finite = raise (failure invalid_input "The limit must be a non-negative number.")

unfoldable pub refusal : (ℕ → String) → String → ℕ → ℕ → HardCapRefusal
refusal decimal metric limit used = record {
  message =
      "This organization has reached its hard cap of "
      <> (decimal limit
          <> (" " <> (metric <> " for this month. Raise the cap in Billing to continue.")));
  metric = metric;
  limit_quantity = limit;
  used_quantity = used;
}

-- A refusal is thrown.
abbrev pub exceeds : {W : Type 0} → Option HardCapRefusal → Action W (Unit {0})
exceeds none = pure tt
exceeds (some r) = raise (
    api (record {
      code = budget_exceeded;
      message = r.message;
      details =
          ("metric", Detail.text r.metric)
          ∷ ("limitQuantity", Detail.number r.limit_quantity)
          ∷ ("usedQuantity", Detail.number r.used_quantity)
          ∷ [];
    }))

module _ {W : Type 0} (period_start : ℕ → ℕ) (ratio : ℕ → ℕ → ℕ) (precedes : String → String → Bool)
    (decimal : ℕ → String) (deps : BillingDeps W) where
  abbrev clock : Action W ℕ
  clock w = (value (deps.now w), w)

  unfoldable pub read_usage : RequestContext → String → Action W UsageReport
  unfolding roll_up
  read_usage ctx organization = do
    require ctx organization "billing:read"
    records ← deps.list_usage_records ctx.principal.user_id organization
    pure (record { totals = roll_up precedes records; records = records })

  abbrev pub usage_from :
      Option (String → String → ℕ → Action W (List UsageRecord)) → String → String → ℕ → Action W ℕ
  usage_from none organization metric since = pure 0
  usage_from (some list) organization metric since = do
    records ← list organization metric since
    pure (sum_quantities records)

  unfoldable pub usage_since : String → String → ℕ → Action W ℕ
  usage_since organization metric since =
      usage_from deps.list_usage_for_service organization metric since

  unfoldable pub budget_status : Budget → ℕ → BudgetStatus
  budget_status budget used = record {
    metric = budget.metric;
    limit_quantity = budget.limit_quantity;
    hard_cap = budget.hard_cap;
    used_quantity = used;
    ratio = if ltb 0 budget.limit_quantity then ratio used budget.limit_quantity else 0;
    exceeded = budget.hard_cap && leb budget.limit_quantity used;
  }

  -- The loop over the budgets.
  unfoldable pub statuses : String → ℕ → List Budget → Action W (List BudgetStatus)
  unfolding usage_since budget_status
  statuses organization start [] = pure []
  statuses organization start (b ∷ bs) =
      let later = statuses organization start bs in
      usage_since organization b.metric start >>= λ used.
      later >>= λ rest. pure (budget_status b used ∷ rest)

  unfoldable pub read_budgets : RequestContext → String → Action W BudgetReport
  unfolding statuses sort_by_metric
  read_budgets ctx organization = do
    require ctx organization "billing:read"
    now ← clock
    list ← found_or deps.list_budgets (unavailable "This deployment cannot read a budget yet.")
    rows ← list ctx.principal.user_id organization
    budgets ← statuses organization (period_start now) rows
    pure (record {
      budgets = sort_by_metric precedes (λ (b : BudgetStatus). b.metric) budgets;
      period_start = period_start now;
    })

  unfoldable pub refused_by : String → String → Option Budget → Action W (Option HardCapRefusal)
  unfolding usage_since refusal
  refused_by organization metric none = pure none
  refused_by organization metric (some budget) = if not budget.hard_cap then pure none else do
    now ← clock
    used ← usage_since organization metric (period_start now)
    pure (
        if ltb used budget.limit_quantity
        then none
        else some (refusal decimal metric budget.limit_quantity used))

  abbrev pub refusal_from :
      Option (String → String → Action W (Option Budget))
      → String
      → String
      → Action W (Option HardCapRefusal)
  refusal_from none organization metric = pure none
  refusal_from (some get) organization metric = do
    budget ← get organization metric
    refused_by organization metric budget

  unfoldable pub hard_cap_refusal : String → String → Action W (Option HardCapRefusal)
  hard_cap_refusal organization metric =
      refusal_from deps.get_budget_for_service organization metric

  unfoldable pub assert_within_budget : String → String → Action W (Unit {0})
  unfolding hard_cap_refusal
  assert_within_budget organization metric = do
    found ← hard_cap_refusal organization metric
    exceeds found

  unfoldable pub save_budget : RequestContext → SaveBudgetInput → Action W Budget
  save_budget ctx input = do
    require ctx input.organization_id "billing:manage"
    save ← found_or deps.save_budget (unavailable "This deployment cannot record a budget yet.")
    let metric = trim input.metric
    raise_if (not (includes usage_metrics metric)) (unknown_metric metric)
    limit ← limit_of input.limit_quantity
    saved ← save (record {
      organization_id = input.organization_id;
      metric = metric;
      limit_quantity = limit;
      hard_cap = input.hard_cap;
      updated_by = ctx.principal.user_id;
    })
    deps.record_audit_event (
        event_of ctx input.organization_id "billing.budget_saved" "budget" metric (
          ("metric", Meta.text metric)
          ∷ ("limitQuantity", Meta.number limit)
          ∷ ("hardCap", Meta.flag input.hard_cap)
          ∷ []))
    pure saved

  -- The audit event of a removal that removed something.
  abbrev audit_removal : Bool → AuditEvent → Action W (Unit {0})
  audit_removal true event = deps.record_audit_event event
  audit_removal false event = pure tt

  unfoldable pub remove_budget : RequestContext → String → String → Action W Bool
  remove_budget ctx organization metric = do
    require ctx organization "billing:manage"
    delete ← found_or deps.delete_budget (unavailable "This deployment cannot record a budget yet.")
    removed ← delete ctx.principal.user_id organization metric
    audit_removal removed (
        event_of ctx organization "billing.budget_removed" "budget" metric
          (("metric", Meta.text metric) ∷ []))
    pure removed
