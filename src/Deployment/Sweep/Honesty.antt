-- ===== src/Deployment/Sweep/Honesty.antt =====
-- deployment-reconcile.ts: what the sweep asks about a row, and what it then writes of it.
use uscs.Common.{
  ℕ, ◌+◌, ◌<◌, ◌≤◌, String, Bool, true, false, not, ◌&&◌, Option, none, some, get_or_else, ◌≡◌,
  refl, ap, ◌∙◌, ◌⊎◌, inl, inr, if◌then◌else◌, Bool-cases, arith,
}
use Prim.Native.String.{◌++◌ as ◌<>◌}
use uscs.Contracts.{
  EngineStatus, failed, not_configured, in_flight, is_success, ProviderRef, ExecutionModel,
  container, AdapterResult, ok, err,
}
use uscs.Io.{Io, returns, pure, ◌>>◌, truthy}
use uscs.Deployment.Engine.{
  AdapterContext, DeploymentEngine, DeploymentState, deployment_engine_for,
}
use uscs.Deployment.Execute.Input.{DeploymentKind, production, preview}
use uscs.Deployment.Job.{StatusUpdate, is_production}
use uscs.Deployment.Sweep.{
  StrandedDeployment, DeploymentReconcilerDeps, Settled, is_younger, ref_of, no_handle,
  still_in_flight, hard_ceiling, write_settled, settle_one, model_of, row_update,
}
use uscs.Deployment.Sweep.Verdict.{
  unsettled, expired, decide, verdict, act, Consulted, no_ref, by_ref, settle_one-verdict,
}

module _ {W : Type 0} (deps : DeploymentReconcilerDeps W) (row : StrandedDeployment) (now : ℕ) where
  -- The engine of the project's execution model, and of containers for a preview.
  abbrev pub engine_of : DeploymentKind → Option ExecutionModel → DeploymentEngine W
  engine_of production target = deployment_engine_for deps.engines (get_or_else target container)
  engine_of preview target = deployment_engine_for deps.engines container

  abbrev pub call : AdapterContext
  call = record {
    organization_id = row.organization_id;
    idempotency_key = "reconcile-deployment-" <> row.id;
    timeout_ms = get_or_else deps.timeout_ms 30000;
  }

  abbrev pub handle : String → String → ProviderRef
  handle type id = record {
    organization_id = row.organization_id;
    provider = "coolify";
    resource_type = type;
    resource_id = id;
  }

  -- What the engine has said of the row's run, or of its application where it has no run, in the
  -- world that this left: nothing where it has neither.
  pub data Asked : W → Option (AdapterResult DeploymentState) → W → Type 0 where
    of_nothing :
        {w w1 : W} {target : Option ExecutionModel}
        → deps.get_project_target row.organization_id row.project_id w ≡ (returns target, w1)
        → truthy row.deployment_resource_id ≡ none
        → truthy row.provider_resource_id ≡ none
        → Asked w none w1
    of_run :
        {w w1 w2 : W} {target : Option ExecutionModel} {id : String}
        {answer : AdapterResult DeploymentState}
        → deps.get_project_target row.organization_id row.project_id w ≡ (returns target, w1)
        → truthy row.deployment_resource_id ≡ some id
        → (engine_of row.kind target).get_deployment call (handle "deployment" id) w1
          ≡ (returns answer, w2)
        → Asked w (some answer) w2
    of_application :
        {w w1 w2 : W} {target : Option ExecutionModel} {id : String}
        {answer : AdapterResult DeploymentState}
        → deps.get_project_target row.organization_id row.project_id w ≡ (returns target, w1)
        → truthy row.deployment_resource_id ≡ none
        → truthy row.provider_resource_id ≡ some id
        → (engine_of row.kind target).get_deployment call (handle "application" id) w1
          ≡ (returns answer, w2)
        → Asked w (some answer) w2

  engine_of-model :
      (kind : DeploymentKind) (target : Option ExecutionModel)
      → deployment_engine_for deps.engines (model_of deps kind target) ≡ engine_of kind target
  engine_of-model production target = refl
  engine_of-model preview target = refl

  ref_of-nothing :
      truthy row.deployment_resource_id ≡ none
      → truthy row.provider_resource_id ≡ none
      → ref_of row ≡ none
  ref_of-nothing h k = rw (h, k) refl

  ref_of-run :
      (id : String)
      → truthy row.deployment_resource_id ≡ some id
      → ref_of row ≡ some (handle "deployment" id)
  ref_of-run id h = rw h refl

  ref_of-application :
      (id : String)
      → truthy row.deployment_resource_id ≡ none
      → truthy row.provider_resource_id ≡ some id
      → ref_of row ≡ some (handle "application" id)
  ref_of-application id h k = rw (h, k) refl

  Asked-Consulted :
      (w w' : W) (answer : Option (AdapterResult DeploymentState))
      → Asked w answer w'
      → Consulted deps row now w answer w'
  Asked-Consulted w w' _ (of_nothing read h k) = no_ref read (ref_of-nothing h k)
  Asked-Consulted w w' _ (of_run {w1 = w1} {target = target} {id = id} read h a) =
      by_ref read (ref_of-run id h) (
        ap (λ (e : DeploymentEngine W). e.get_deployment call (handle "deployment" id) w1)
          (engine_of-model row.kind target)
        ∙ a)
  Asked-Consulted w w' _ (of_application {w1 = w1} {target = target} {id = id} read h k a) =
      by_ref read (ref_of-application id h k) (
        ap (λ (e : DeploymentEngine W). e.get_deployment call (handle "application" id) w1)
          (engine_of-model row.kind target)
        ∙ a)

  abbrev pub ceiling : ℕ
  ceiling = get_or_else deps.hard_ceiling_ms 3600000

  -- A row of a known creation time that has not reached the ceiling, and every other row.
  abbrev pub Young : Option ℕ → Type 0
  Young none = ⊥
  Young (some created) = now < created + ceiling

  abbrev pub Aged : Option ℕ → Type 0
  Aged none = Unit
  Aged (some created) = created + ceiling ≤ now

  younger-Young : (o : Option ℕ) → is_younger o now (hard_ceiling deps) ≡ true → Young o
  younger-Young none h = cc
  younger-Young (some created) h = ground (arith, h)

  younger-Aged : (o : Option ℕ) → is_younger o now (hard_ceiling deps) ≡ false → Aged o
  younger-Aged none h = tt
  younger-Aged (some created) h = ground (arith, h)

  -- The engine has no final state of the run: it was not asked, it still works, or it refused.
  abbrev pub Unresolved : Option (AdapterResult DeploymentState) → Type 0
  Unresolved none = Unit
  Unresolved (some (ok t state)) = in_flight state.status ≡ true
  Unresolved (some (err status reason)) = Unit

  -- The engine does not know the run.
  abbrev pub Unknown : Option (AdapterResult DeploymentState) → Type 0
  Unknown none = ⊥
  Unknown (some (ok t state)) = ⊥
  Unknown (some (err status reason)) = status ≡ not_configured

  -- What may be written: `failed` where the engine has no final state, once the row is too old or
  -- when the engine does not know the run, and else the engine's own final state.
  abbrev pub Honest : Option (AdapterResult DeploymentState) → EngineStatus → Option String → Type 0
  Honest answer status url =
      ((status ≡ failed) × Unresolved answer × (Aged row.created_at ⊎ Unknown answer))
      ⊎ ((t : EngineStatus) × (state : DeploymentState) × (answer ≡ some (ok t state))
          × (status ≡ state.status)
          × (url ≡ state.url)
          × (in_flight state.status ≡ false))

  -- The writes for a row: its update, and the promotion and the usage of a success.
  abbrev pub written : StatusUpdate → Io W Bool
  written update =
      deps.outcome.update_status update
      >> (if is_success update.status
          then ((if is_production row.kind && not row.staged
                then deps.outcome.promote row.organization_id row.project_id row.id
                else pure tt)
              >> deps.outcome.record_usage row.organization_id "deployments" 1)
          else pure tt)
      >> pure true

  unfoldable Ruled : Option (AdapterResult DeploymentState) → Type 0
  Ruled answer =
      ((verdict deps row now answer ≡ none) × Young row.created_at)
      ⊎ ((s : Settled) × (verdict deps row now answer ≡ some s) × Honest answer s.status s.url)

  decide-Ruled :
      (answer : Option (AdapterResult DeploymentState)) (detail : String)
      → verdict deps row now answer ≡ decide deps row now (unsettled detail)
      → Unresolved answer
      → Ruled answer
  unfolding Ruled
  decide-Ruled answer detail e unresolved =
      elim (Bool-cases (is_younger row.created_at now (hard_ceiling deps))) [
        | inl young ↦ inl (e ∙ (rw young refl), younger-Young row.created_at young)
        | inr aged ↦ inr (
          expired deps row now detail,
          e ∙ (rw aged refl),
          inl (refl, unresolved, inl (younger-Aged row.created_at aged)),
        )
      ]

  verdict-Ruled : (answer : Option (AdapterResult DeploymentState)) → Ruled answer
  unfolding Ruled
  verdict-Ruled none = decide-Ruled none no_handle refl tt
  verdict-Ruled (some (ok t state)) = elim (Bool-cases (in_flight state.status)) [
    | inl flying ↦ decide-Ruled (some (ok t state)) still_in_flight (rw flying refl) flying
    | inr settled ↦ inr (
      record { status = state.status; url = state.url; reason = none },
      rw settled refl,
      inr (t, state, refl, refl, refl, settled),
    )
  ]
  verdict-Ruled (some (err not_configured reason)) = inr (_, refl, inl (refl, tt, inr refl))
  verdict-Ruled (some (err status reason)) = decide-Ruled (some (err status reason)) reason refl tt

  -- Once the project's target is read and the engine has answered about the row's run, or about
  -- its application if it has no run, the sweep either leaves the row alone, which it does only
  -- below the ceiling's age, or writes one update of this row, with a promotion and usage only
  -- for a status `succeeded`. What it writes is `failed`, which it does only where the engine has
  -- no final state and the row has reached the ceiling's age or the engine does not know the run,
  -- or it is the engine's own final status and address.
  pub settle_one-Honest :
      (w w' : W) (answer : Option (AdapterResult DeploymentState))
      → Asked w answer w'
      → ((settle_one deps row now w ≡ (returns false, w')) × Young row.created_at)
        ⊎ ((update : StatusUpdate) × (settle_one deps row now w ≡ written update w')
            × (update.id ≡ row.id)
            × (update.organization_id ≡ row.organization_id)
            × Honest answer update.status update.url)
  unfolding write_settled Ruled
  settle_one-Honest w w' answer asked =
      let at = settle_one-verdict deps row now w w' answer (Asked-Consulted w w' answer asked) in
      elim (verdict-Ruled answer) [
        | inl (waits, young) ↦ inl (at ∙ ap (λ v. act deps row now v w') waits, young)
        | inr (s, is_verdict, honest) ↦ inr (
          row_update deps row s (deps.iso now),
          at ∙ ap (λ v. act deps row now v w') is_verdict,
          refl,
          refl,
          honest,
        )
      ]
