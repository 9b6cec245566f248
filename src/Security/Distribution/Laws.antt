-- ===== src/Security/Distribution/Laws.antt =====
-- apps/security-control/src/index.ts: a policy never rolls backwards, and a rejection is an incident.
use uscs.Common.{
  ℕ, ◌≤◌, String, Option, none, some, List, [], ◌∷◌, ◌≡◌, refl, subst, ap, ◌∙◌, eq_refl,
}
use uscs.Contracts.{EngineStatus, succeeded, AdapterResult, ok, err}
use uscs.Io.{Io, Ending, returns, raises, pure, ◌>>=◌, then_do, >>=-returns, returned_value}
use uscs.Deployment.Engine.{AdapterContext}
use uscs.Security.{SecurityPolicy, PolicyVersion, validate_policy, may_distribute}
use uscs.Security.Registry.{PolicyRegistry, record_version}
use uscs.Security.Incidents.{open_incident}
use uscs.Security.Distribution.{
  DistributionDeps, DistributionOutcome, ControlState, Distributed, candidate_of, recorded_version,
  rejection, after_apply, allowed_with, validated_with, distribute_policy,
}
use uscs.Security.Distribution.Order.{
  NotBack, not_back, NotBack-trans, record-sets, record-NotBack, recorded-le, engine-le,
}

module _ {W : Type 0} (deps : DistributionDeps W) (policy : SecurityPolicy)
    (ctx : AdapterContext) where
  -- What the ending of a distribution leaves, if it ends at all.
  abbrev pub Keeps : ControlState → Ending Distributed → Type 0
  Keeps state (raises e) = Unit
  Keeps state (returns (result, state')) = NotBack state.registry state'.registry

  after_apply-Keeps :
      (state : ControlState) (a : Ending (AdapterResult ℕ)) (w : W)
      → may_distribute deps.decimal (candidate_of policy) (state.registry ctx.organization_id)
        ≡ none
      → Keeps state (then_do (after_apply deps policy ctx state) a w).0
  unfolding after_apply
  after_apply-Keeps state (raises e) w allowed = tt
  after_apply-Keeps state (returns (err s reason)) w allowed = not_back state.registry
  after_apply-Keeps state (returns (ok s n)) w allowed =
      record-NotBack deps.decimal state.registry ctx.organization_id policy n allowed

  allowed_with-Keeps :
      (state : ControlState) (w : W) (o : Option String)
      → may_distribute deps.decimal (candidate_of policy) (state.registry ctx.organization_id) ≡ o
      → Keeps state (allowed_with deps policy ctx state o w).0
  allowed_with-Keeps state w (some reason) e = not_back state.registry
  allowed_with-Keeps state w none e = after_apply-Keeps state _ _ e

  validated_with-Keeps :
      (state : ControlState) (w : W) (o : Option String)
      → Keeps state (validated_with deps policy ctx state o w).0
  validated_with-Keeps state w (some reason) = not_back state.registry
  validated_with-Keeps state w none = allowed_with-Keeps state w _ refl

  pub distribute_policy-Keeps :
      (state : ControlState) (w : W) → Keeps state (distribute_policy deps policy ctx state w).0
  unfolding distribute_policy
  distribute_policy-Keeps state w = validated_with-Keeps state w (validate_policy policy)

  applies :
      (state : ControlState) (w w' : W) (a : AdapterResult ℕ)
      → validate_policy policy ≡ none
      → may_distribute deps.decimal (candidate_of policy) (state.registry ctx.organization_id)
        ≡ none
      → deps.apply_policy ctx (deps.provider_ref policy) w ≡ (returns a, w')
      → distribute_policy deps policy ctx state w ≡ after_apply deps policy ctx state a w'
  unfolding distribute_policy
  applies state w w' a valid allowed applied =
      ap (λ o. validated_with deps policy ctx state o w) valid
      ∙ ap (λ o. allowed_with deps policy ctx state o w) allowed
      ∙ >>=-returns (deps.apply_policy ctx (deps.provider_ref policy))
          (after_apply deps policy ctx state) w w' a applied

  -- If a valid policy that may be distributed is refused by the engine, the answer has the
  -- engine's status, the active versions are as before, and one incident of the organization is
  -- opened.
  pub rejected_opens_incident :
      (state : ControlState) (w w' : W) (status : EngineStatus) (reason : String)
      → validate_policy policy ≡ none
      → may_distribute deps.decimal (candidate_of policy) (state.registry ctx.organization_id)
        ≡ none
      → deps.apply_policy ctx (deps.provider_ref policy) w ≡ (returns (err status reason), w')
      → (said : String) × (distribute_policy deps policy ctx state w ≡ (
        returns (
          err status said,
          record {
            registry = state.registry;
            incidents =
                (open_incident
                  (deps.clock w')
                  (rejection deps policy ctx status reason)
                  state.incidents).1;
          },
        ),
        w',
      ))
  unfolding after_apply
  rejected_opens_incident state w w' status reason valid allowed applied =
      (_, applies state w w' (err status reason) valid allowed applied)

  -- If a valid policy that may be distributed is accepted by the engine, then the organization's
  -- active version is of this policy and no older than the version that was sent and the version
  -- that the engine gave, the outcome carries it, and no incident is opened.
  pub accepted_activates :
      (state : ControlState) (w w' : W) (status : EngineStatus) (n : ℕ)
      → validate_policy policy ≡ none
      → may_distribute deps.decimal (candidate_of policy) (state.registry ctx.organization_id)
        ≡ none
      → deps.apply_policy ctx (deps.provider_ref policy) w ≡ (returns (ok status n), w')
      → (v : PolicyVersion) × (outcome : DistributionOutcome) × (state' : ControlState)
        × (distribute_policy deps policy ctx state w ≡ (returns (ok succeeded outcome, state'), w'))
        × (state'.registry ctx.organization_id ≡ some v)
        × (outcome.version ≡ v)
        × (v.policy_id ≡ policy.id)
        × (policy.version ≤ v.version)
        × (n ≤ v.version)
        × (state'.incidents ≡ state.incidents)
  unfolding after_apply record_version
  accepted_activates state w w' status n valid allowed applied =
      let at = applies state w w' (ok status n) valid allowed applied in
      let sets =
        record-sets deps.decimal state.registry ctx.organization_id policy n
          (state.registry ctx.organization_id) allowed in
      (
        recorded_version policy n,
        _,
        _,
        at,
        ap (λ (r : PolicyRegistry). r ctx.organization_id) sets
            ∙ (rw (eq_refl ctx.organization_id) refl),
        refl,
        refl,
        recorded-le policy n,
        engine-le policy n,
        refl,
      )

-- The distributions of a list, one after another; one that throws ends them.
abbrev pub distribute_all :
    {W : Type 0}
    → DistributionDeps W
    → List (SecurityPolicy × AdapterContext)
    → ControlState
    → Io W ControlState
distribute_all deps [] state = pure state
distribute_all deps ((policy, ctx) ∷ rest) state =
    distribute_policy deps policy ctx state >>= λ d. distribute_all deps rest d.1

all-NotBack :
    {W : Type 0} (deps : DistributionDeps W) (rest : List (SecurityPolicy × AdapterContext))
    (state state' : ControlState) (w w' : W)
    → distribute_all deps rest state w ≡ (returns state', w')
    → NotBack state.registry state'.registry
all-NotBack deps [] state state' w w' e =
    subst (λ (s : ControlState). NotBack state.registry s.registry)
      (returned_value (ap (λ p. p.0) e)) (not_back state.registry)
all-NotBack {W} deps ((policy, ctx) ∷ rest) state state' w w' e =
    after (distribute_policy deps policy ctx state w).0
      (distribute_policy deps policy ctx state w).1
      (distribute_policy-Keeps deps policy ctx state w)
      (λ s1 w1 h. all-NotBack deps rest s1 state' w1 w' h) e
  where
    after :
        (a : Ending Distributed) (w1 : W)
        → Keeps deps policy ctx state a
        → ((s1 : ControlState) (w1 : W)
            → distribute_all deps rest s1 w1 ≡ (returns state', w')
            → NotBack s1.registry state'.registry)
        → then_do (λ d. distribute_all deps rest d.1) a w1 ≡ (returns state', w')
        → NotBack state.registry state'.registry
    after (raises m) w1 k ih h = cc
    after (returns (result, s1)) w1 k ih h =
        NotBack-trans state.registry s1.registry state'.registry k (ih s1 w1 h)

-- If a list of policies is distributed one after another and none throws, whatever the policies
-- and the organizations, then a version that was active for an organization before is followed by
-- a version of the same policy that is no older.
pub never_rolls_back :
    {W : Type 0} (deps : DistributionDeps W) (policies : List (SecurityPolicy × AdapterContext))
    (state state' : ControlState) (w w' : W) (organization_id : String) (v : PolicyVersion)
    → distribute_all deps policies state w ≡ (returns state', w')
    → state.registry organization_id ≡ some v
    → (v' : PolicyVersion) × (state'.registry organization_id ≡ some v')
      × (v'.policy_id ≡ v.policy_id)
      × (v.version ≤ v'.version)
never_rolls_back deps policies state state' w w' organization_id v e active =
    all-NotBack deps policies state state' w w' e organization_id v active
