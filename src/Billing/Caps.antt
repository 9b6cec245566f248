-- ===== src/Billing/Caps.antt =====
-- What the procedures of apps/api/src/procedures/billing.ts refuse.
use uscs.Common.{
  ℕ, ◌+◌, ◌<◌, ◌≤◌, String, Bool, true, false, Option, none, some, List, [], ◌∷◌, map, ◌≡◌, refl,
  ap, ◌∙◌, ◌⊎◌, inl, inr, Bool-cases, arith, ltb, if◌then◌else◌,
}
use uscs.Api.Action.{
  budget_exceeded, Detail, ApiError, api, Result, Failure, value, throws, Action, >>=-value, pure,
}
use uscs.Api.Guard.{RequestContext, require_capability}
use uscs.Billing.Records.{BillingDeps, UsageRecord, Budget}
use uscs.Billing.{
  HardCapRefusal, SaveBudgetInput, sum_quantities, refusal, read_usage, read_budgets, save_budget,
  remove_budget, assert_within_budget, hard_cap_refusal, refused_by, usage_since, exceeds,
}

-- What is answered to new work once the quantity that is used is known.
abbrev pub verdict : (ℕ → String) → String → Budget → ℕ → Option HardCapRefusal
verdict decimal metric b used =
    if ltb used b.limit_quantity then none else some (refusal decimal metric b.limit_quantity used)

-- What the records add up to: the sum of the list of their quantities.
abbrev pub total : List ℕ → ℕ
total [] = 0
total (n ∷ ns) = n + total ns

abbrev pub spent : List UsageRecord → ℕ
spent rs = total (map (λ (r : UsageRecord). r.quantity) rs)

sum_quantities-spent : (rs : List UsageRecord) → sum_quantities rs ≡ spent rs
sum_quantities-spent [] = refl
sum_quantities-spent (r ∷ rs) = ap (λ n. r.quantity + n) (sum_quantities-spent rs)

module _ {W : Type 0} (period_start : ℕ → ℕ) (ratio : ℕ → ℕ → ℕ) (precedes : String → String → Bool)
    (decimal : ℕ → String) (deps : BillingDeps W) where
  -- The store can read budgets and usage, by these methods.
  pub record Reads (get : String → String → Action W (Option Budget))
      (list : String → String → ℕ → Action W (List UsageRecord)) : Type 0 where
    pub budgets : deps.get_budget_for_service ≡ some get
    pub usage : deps.list_usage_for_service ≡ some list

  usage_since-value :
      (organization metric : String) (since : ℕ)
      (list : String → String → ℕ → Action W (List UsageRecord)) (rs : List UsageRecord) (w w' : W)
      → deps.list_usage_for_service ≡ some list
      → list organization metric since w ≡ (value rs, w')
      → usage_since period_start ratio precedes decimal deps organization metric since w
        ≡ (value (sum_quantities rs), w')
  unfolding usage_since
  usage_since-value organization metric since list rs w w' l u =
      simp l (>>=-value (list organization metric since) (λ rs. pure (sum_quantities rs)) w w' rs u)

  refused_by-hard :
      (organization metric : String) (b : Budget)
      (list : String → String → ℕ → Action W (List UsageRecord)) (rs : List UsageRecord) (w w' : W)
      → b.hard_cap ≡ true
      → deps.list_usage_for_service ≡ some list
      → list organization metric (period_start (deps.now w)) w ≡ (value rs, w')
      → refused_by period_start ratio precedes decimal deps organization metric (some b) w
        ≡ (value (verdict decimal metric b (sum_quantities rs)), w')
  unfolding refused_by
  refused_by-hard organization metric b list rs w w' h l u = simp h (
      >>=-value
        (usage_since period_start ratio precedes decimal deps organization metric
          (period_start (deps.now w)))
        (λ used. pure (verdict decimal metric b used)) w w' (sum_quantities rs)
        (usage_since-value organization metric (period_start (deps.now w)) list rs w w' l u))

  hard_cap_refusal-hard :
      (get : String → String → Action W (Option Budget))
      (list : String → String → ℕ → Action W (List UsageRecord)) (organization metric : String)
      (b : Budget) (rs : List UsageRecord) (w w' w'' : W)
      → Reads get list
      → get organization metric w ≡ (value (some b), w')
      → b.hard_cap ≡ true
      → list organization metric (period_start (deps.now w')) w' ≡ (value rs, w'')
      → hard_cap_refusal period_start ratio precedes decimal deps organization metric w
        ≡ (value (verdict decimal metric b (sum_quantities rs)), w'')
  unfolding hard_cap_refusal
  hard_cap_refusal-hard get list organization metric b rs w w' w'' r g h u = simp r.budgets (
      >>=-value (get organization metric)
        (refused_by period_start ratio precedes decimal deps organization metric) w w' (some b) g
      ∙ refused_by-hard organization metric b list rs w' w'' h r.usage u)

  assert_within_budget-hard :
      (get : String → String → Action W (Option Budget))
      (list : String → String → ℕ → Action W (List UsageRecord)) (organization metric : String)
      (b : Budget) (rs : List UsageRecord) (w w' w'' : W)
      → Reads get list
      → get organization metric w ≡ (value (some b), w')
      → b.hard_cap ≡ true
      → list organization metric (period_start (deps.now w')) w' ≡ (value rs, w'')
      → assert_within_budget period_start ratio precedes decimal deps organization metric w
        ≡ exceeds (verdict decimal metric b (sum_quantities rs)) w''
  unfolding assert_within_budget
  assert_within_budget-hard get list organization metric b rs w w' w'' r g h u =
      >>=-value (hard_cap_refusal period_start ratio precedes decimal deps organization metric)
        exceeds w w'' (verdict decimal metric b (sum_quantities rs))
        (hard_cap_refusal-hard get list organization metric b rs w w' w'' r g h u)

  -- How a hard budget answers: new work passes while what is spent is below the limit, and is
  -- refused with the figures when it is not.
  abbrev pub Capped : String → Budget → List UsageRecord → W → Result (Unit {0}) × W → Type 0
  Capped metric b rs w r =
      ((spent rs < b.limit_quantity) × (r ≡ (value tt, w)))
      ⊎ ((e : ApiError) × (b.limit_quantity ≤ spent rs)
          × (r ≡ (throws (api e), w))
          × (e.code ≡ budget_exceeded)
          × (e.details
              ≡ ("metric", Detail.text metric)
                ∷ ("limitQuantity", Detail.number b.limit_quantity)
                ∷ ("usedQuantity", Detail.number (spent rs))
                ∷ []))

  -- How new work ends: only a hard budget may refuse it. `w'` is the world that the read of the
  -- budget left, `w''` that of the read of the records.
  abbrev pub Enforced :
      String → Option Budget → List UsageRecord → W → W → Result (Unit {0}) × W → Type 0
  Enforced metric none rs w' w'' r = r ≡ (value tt, w')
  Enforced metric (some b) rs w' w'' r =
      ((b.hard_cap ≡ false) × (r ≡ (value tt, w')))
      ⊎ ((b.hard_cap ≡ true) × Capped metric b rs w'' r)

  capped :
      (metric : String) (b : Budget) (rs : List UsageRecord) (w : W) (r : Result (Unit {0}) × W)
      → r ≡ exceeds (verdict decimal metric b (sum_quantities rs)) w
      → Capped metric b rs w r
  unfolding refusal
  capped metric b rs w r e =
      let sums = sum_quantities-spent rs in
      elim (Bool-cases (ltb (sum_quantities rs) b.limit_quantity)) [
        | inl below ↦ inl (ground (arith, sums), e ∙ rw below refl)
        | inr reached ↦ inr (
          record {
            code = budget_exceeded;
            message = (refusal decimal metric b.limit_quantity (sum_quantities rs)).message;
            details =
                ("metric", Detail.text metric)
                ∷ ("limitQuantity", Detail.number b.limit_quantity)
                ∷ ("usedQuantity", Detail.number (sum_quantities rs))
                ∷ [];
          },
          ground (arith, sums),
          e ∙ rw reached refl,
          refl,
          ap
              (λ n.
                ("metric", Detail.text metric)
                ∷ ("limitQuantity", Detail.number b.limit_quantity)
                ∷ ("usedQuantity", Detail.number n)
                ∷ [])
              sums,
        )
      ]

  not_hard :
      (get : String → String → Action W (Option Budget)) (organization metric : String)
      (o : Option Budget) (w w' : W)
      → deps.get_budget_for_service ≡ some get
      → get organization metric w ≡ (value o, w')
      → ◌≡◌ {A = Action W (Option HardCapRefusal)}
          (refused_by period_start ratio precedes decimal deps organization metric o)
          (pure none)
      → assert_within_budget period_start ratio precedes decimal deps organization metric w
        ≡ (value tt, w')
  unfolding assert_within_budget hard_cap_refusal
  not_hard get organization metric o w w' r g h =
      >>=-value (hard_cap_refusal period_start ratio precedes decimal deps organization metric)
        exceeds w w' none
        (simp r (
          >>=-value (get organization metric)
            (refused_by period_start ratio precedes decimal deps organization metric) w w' o g
          ∙ ap (λ m. m w') h))

  -- If the store reads budgets and usage and gives the metric's budget, if any, and the records
  -- since the start of the month, then new work passes without a budget and with one that is not
  -- hard; with a hard one it passes while the sum of the quantities is below the limit, and is
  -- refused with `budget_exceeded`, the metric, the limit and the sum when it is not.
  pub assert_within_budget-Enforced :
      (get : String → String → Action W (Option Budget))
      (list : String → String → ℕ → Action W (List UsageRecord)) (organization metric : String)
      (o : Option Budget) (rs : List UsageRecord) (w w' w'' : W)
      → Reads get list
      → get organization metric w ≡ (value o, w')
      → list organization metric (period_start (deps.now w')) w' ≡ (value rs, w'')
      → Enforced metric o rs w' w''
          (assert_within_budget period_start ratio precedes decimal deps organization metric w)
  unfolding refused_by
  assert_within_budget-Enforced get list organization metric none rs w w' w'' r g u =
      not_hard get organization metric none w w' r.budgets g refl
  assert_within_budget-Enforced get list organization metric (some b) rs w w' w'' r g u =
      elim (Bool-cases b.hard_cap) [
        | inr soft ↦
            inl (soft, not_hard get organization metric (some b) w w' r.budgets g (rw soft refl))
        | inl hard ↦ inr (
          hard,
          capped metric b rs w'' _
              (assert_within_budget-hard get list organization metric b rs w w' w'' r g hard u),
        )
      ]

  -- No procedure does anything for a caller without its capability.
  pub unauthorized :
      (ctx : RequestContext) (organization metric : String) (input : SaveBudgetInput)
      (e f g : Failure) (w : W)
      → require_capability ctx organization "billing:read" ≡ throws e
      → require_capability ctx organization "billing:manage" ≡ throws f
      → require_capability ctx input.organization_id "billing:manage" ≡ throws g
      → (read_usage period_start ratio precedes decimal deps ctx organization w ≡ (throws e, w))
        × (read_budgets period_start ratio precedes decimal deps ctx organization w ≡ (throws e, w))
        × (remove_budget period_start ratio precedes decimal deps ctx organization metric w
            ≡ (throws f, w))
        × (save_budget period_start ratio precedes decimal deps ctx input w ≡ (throws g, w))
  unfolding read_usage read_budgets remove_budget save_budget
  unauthorized ctx organization metric input e f g w h k l = (simp h, simp h, simp k, simp l)
