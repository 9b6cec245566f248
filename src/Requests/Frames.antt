-- ===== src/Requests/Frames.antt =====
-- What the requests of apps/api/src/procedures/deployments.ts write: rows and jobs, counted.
use uscs.Common.{ℕ, String, Bool, not, Option, none, some, List, ◌≡◌, refl, ltb, if◌then◌else◌}
use uscs.Api.Action.{Failure, value, Action, ◌>>=◌}
use uscs.Api.Audit.{AuditEvent, found_or}
use uscs.Api.Counted.{Keeps, if-Keeps, Completes, Inserts, pure-Keeps, raise-Keeps, >>=-Keeps}
use uscs.Billing.Records.{BillingDeps, Budget, UsageRecord}
use uscs.Billing.{
  HardCapRefusal, sum_quantities, refusal, usage_since, refused_by, hard_cap_refusal, exceeds,
  usage_from, refusal_from, assert_within_budget,
}
use uscs.Requests.Rows.{
  Environment, DeploymentCreate, PreviewTarget, PreviewStore, DeploymentDeps, DeploymentJob,
}
use uscs.Requests.{no_preview_targets, ensure_preview_target, create_unless}

module _ {W : Type 0} (rows jobs : W → ℕ) where
  abbrev pub K : {A : Type 0} → Action W A → Type 0
  K m = Keeps rows jobs m

  -- The reads of the billing store count nothing.
  pub record BillingReads (deps : BillingDeps W) : Type 0 where
    pub get_budget :
        (get : String → String → Action W (Option Budget))
        → deps.get_budget_for_service ≡ some get
        → (o m : String) → K (get o m)
    pub list_usage :
        (list : String → String → ℕ → Action W (List UsageRecord))
        → deps.list_usage_for_service ≡ some list
        → (o m : String) (n : ℕ) → K (list o m n)

  pub found_or-Keeps : {A : Type 0} (o : Option A) (e : Failure) → K (found_or {W = W} o e)
  found_or-Keeps {A} none e = raise-Keeps rows jobs A e
  found_or-Keeps (some a) e = pure-Keeps rows jobs a

  module _ (period_start : ℕ → ℕ) (ratio : ℕ → ℕ → ℕ) (precedes : String → String → Bool)
      (decimal : ℕ → String) (deps : BillingDeps W) (reads : BillingReads deps) where
    usage-Keeps :
        (o : Option (String → String → ℕ → Action W (List UsageRecord))) (org m : String) (n : ℕ)
        → deps.list_usage_for_service ≡ o
        → K (usage_from period_start ratio precedes decimal deps o org m n)
    usage-Keeps none org m n e = pure-Keeps rows jobs 0
    usage-Keeps (some list) org m n e =
        >>=-Keeps rows jobs (list org m n) _ (reads.list_usage list e org m n)
          (λ rs. pure-Keeps rows jobs (sum_quantities rs))

    abbrev read_clock : Action W ℕ
    read_clock w = (value (deps.now w), w)

    clock-Keeps : K read_clock
    clock-Keeps = record { same = λ w. (refl, refl) }

    refused_by-Keeps :
        (org m : String) (b : Option Budget)
        → K (refused_by period_start ratio precedes decimal deps org m b)
    unfolding refused_by usage_since
    refused_by-Keeps org m none = pure-Keeps rows jobs none
    refused_by-Keeps org m (some b) =
        if-Keeps rows jobs (not b.hard_cap) _ _ (pure-Keeps rows jobs none) (
          >>=-Keeps rows jobs read_clock _ clock-Keeps (λ now.
            >>=-Keeps rows jobs
              (usage_since period_start ratio precedes decimal deps org m (period_start now)) _
              (usage-Keeps deps.list_usage_for_service org m (period_start now) refl)
              (λ used. pure-Keeps rows jobs (
                if ltb used b.limit_quantity
                then none
                else some (refusal decimal m b.limit_quantity used)))))

    refusal-Keeps :
        (o : Option (String → String → Action W (Option Budget))) (org m : String)
        → deps.get_budget_for_service ≡ o
        → K (refusal_from period_start ratio precedes decimal deps o org m)
    refusal-Keeps none org m e = pure-Keeps rows jobs none
    refusal-Keeps (some get) org m e =
        >>=-Keeps rows jobs (get org m) _ (reads.get_budget get e org m) (refused_by-Keeps org m)

    exceeds-Keeps : (r : Option HardCapRefusal) → K (exceeds r)
    exceeds-Keeps none = pure-Keeps rows jobs tt
    exceeds-Keeps (some r) = record { same = λ w. (refl, refl) }

    pub hard_cap_refusal-Keeps :
        (org m : String) → K (hard_cap_refusal period_start ratio precedes decimal deps org m)
    unfolding hard_cap_refusal
    hard_cap_refusal-Keeps org m = refusal-Keeps deps.get_budget_for_service org m refl

    pub assert_within_budget-Keeps :
        (org m : String) → K (assert_within_budget period_start ratio precedes decimal deps org m)
    unfolding assert_within_budget
    assert_within_budget-Keeps org m =
        >>=-Keeps rows jobs (hard_cap_refusal period_start ratio precedes decimal deps org m) _
          (hard_cap_refusal-Keeps org m) exceeds-Keeps

  -- The preview targets are neither deployment rows nor jobs.
  pub record PreviewCounts (store : PreviewStore W) : Type 0 where
    pub get_preview :
        (get : String → String → String → Action W (Option PreviewTarget))
        → store.get_preview_target_for_service ≡ some get
        → (o p k : String) → K (get o p k)
    pub create_preview :
        (create : PreviewTarget → Action W (Unit {0}))
        → store.create_preview_target ≡ some create
        → (t : PreviewTarget) → K (create t)

  module _ (store : PreviewStore W) (counts : PreviewCounts store) where
    create_unless-Keeps :
        (create : PreviewTarget → Action W (Unit {0})) (t : PreviewTarget)
        (o : Option PreviewTarget)
        → K (create t)
        → K (create_unless store create t o)
    create_unless-Keeps create t none h = h
    create_unless-Keeps create t (some existing) h = pure-Keeps rows jobs tt

    targets-Keeps :
        (get : Option (String → String → String → Action W (Option PreviewTarget)))
        (create : Option (PreviewTarget → Action W (Unit {0}))) (t : PreviewTarget)
        → store.get_preview_target_for_service ≡ get
        → store.create_preview_target ≡ create
        → K (do
          g ← found_or get no_preview_targets
          c ← found_or create no_preview_targets
          existing ← g t.organization_id t.project_id t.preview_key
          create_unless store c t existing)
    targets-Keeps none create t e f = raise-Keeps rows jobs (Unit {0}) no_preview_targets
    targets-Keeps (some get) none t e f = raise-Keeps rows jobs (Unit {0}) no_preview_targets
    targets-Keeps (some get) (some create) t e f =
        >>=-Keeps rows jobs (get t.organization_id t.project_id t.preview_key) _
          (counts.get_preview get e t.organization_id t.project_id t.preview_key)
          (λ o. create_unless-Keeps create t o (counts.create_preview create f t))

    pub ensure_preview_target-Keeps : (t : PreviewTarget) → K (ensure_preview_target store t)
    unfolding ensure_preview_target
    ensure_preview_target-Keeps t =
        targets-Keeps store.get_preview_target_for_service store.create_preview_target t refl refl

  -- What the store and the queue write: a row where one is created, a job where one is enqueued.
  pub record StoreCounts (deps : DeploymentDeps W) : Type 0 where
    pub get_project : (u p : String) → K (deps.get_project u p)
    pub find : (u o k : String) → K (deps.find_by_idempotency_key u o k)
    pub create : (row : DeploymentCreate) → Inserts rows jobs (deps.create_deployment row)
    pub target : (u p : String) → K (deps.get_project_deployment_target u p)
    pub environments :
        (list : String → String → Action W (List Environment))
        → deps.list_environments ≡ some list
        → (u p : String) → K (list u p)
    pub previews : PreviewCounts deps.previews
    pub budgets : BillingReads deps.billing
    pub enqueue : (job : DeploymentJob) → Completes rows jobs (deps.enqueue job)
    pub audit : (event : AuditEvent) → K (deps.record_audit_event event)
    pub new_id : K deps.new_id
