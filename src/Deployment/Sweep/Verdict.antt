-- ===== src/Deployment/Sweep/Verdict.antt =====
-- deployment-reconcile.ts: what the sweep decides of one row, set against a description by cases
-- of what the engine said, and the writes that it shares with the applier.
use uscs.Common.{
  ℕ, String, Bool, false, Option, none, some, ◌≡◌, refl, ap, ◌∙◌, inl, inr, if◌then◌else◌,
  Bool-cases,
}
use Prim.Native.String.{◌++◌ as ◌<>◌}
use uscs.Contracts.{
  failed, not_configured, in_flight, ProviderRef, ExecutionModel, AdapterResult, ok, err,
}
use uscs.Io.{Io, returns, pure, >>=-returns}
use uscs.Deployment.Engine.{DeploymentState, deployment_engine_for}
use uscs.Deployment.Sweep.{
  StrandedDeployment, DeploymentReconcilerDeps, Settled, is_younger, ref_of, no_handle,
  still_in_flight, hard_ceiling, unconfirmed_reason, write_settled, settle_answer, settle_ref,
  settle_one, reconcile_context, model_of,
}

-- What the engine's answer says of a row.
pub data Said : Type 0 where
  final : Settled → Said
  unsettled : String → Said

abbrev pub says : Option (AdapterResult DeploymentState) → Said
says none = unsettled no_handle
says (some (ok _ state)) =
    if in_flight state.status
    then unsettled still_in_flight
    else final record { status = state.status; url = state.url; reason = none }
says (some (err not_configured reason)) = final record {
  status = failed;
  url = none;
  reason = some ("The engine has no record of this build: " <> reason);
}
says (some (err _ reason)) = unsettled reason

module _ {W : Type 0} (deps : DeploymentReconcilerDeps W) (row : StrandedDeployment) (now : ℕ) where
  abbrev pub expired : String → Settled
  expired detail = record {
    status = failed;
    url = none;
    reason = some (unconfirmed_reason deps row.status detail);
  }

  abbrev pub decide : Said → Option Settled
  decide (final settled) = some settled
  decide (unsettled detail) =
      if is_younger row.created_at now (hard_ceiling deps) then none else some (expired detail)

  -- What is to be written of the row, if anything.
  abbrev pub verdict : Option (AdapterResult DeploymentState) → Option Settled
  verdict answer = decide (says answer)

  abbrev pub act : Option Settled → Io W Bool
  act none = pure false
  act (some settled) = write_settled deps row now settled

  settle_answer-verdict :
      (a : AdapterResult DeploymentState) → settle_answer deps row now a ≡ act (verdict (some a))
  unfolding settle_answer
  settle_answer-verdict (ok t state) = elim (Bool-cases (in_flight state.status)) [
    | inl flying ↦
        rw flying (elim (Bool-cases (is_younger row.created_at now (hard_ceiling deps))) [
          | inl young ↦ rw young refl
          | inr aged ↦ rw aged refl
        ])
    | inr settled ↦ rw settled refl
  ]
  settle_answer-verdict (err not_configured reason) = refl
  settle_answer-verdict (err _ reason) =
      elim (Bool-cases (is_younger row.created_at now (hard_ceiling deps))) [
        | inl young ↦ rw young refl
        | inr aged ↦ rw aged refl
      ]

  -- The world and the answer that the sweep decides on: after the read of the project's target,
  -- and of the run or the application where the row has a handle.
  pub data Consulted : W → Option (AdapterResult DeploymentState) → W → Type 0 where
    no_ref :
        {w w1 : W} {target : Option ExecutionModel}
        → deps.get_project_target row.organization_id row.project_id w ≡ (returns target, w1)
        → ref_of row ≡ none
        → Consulted w none w1
    by_ref :
        {w w1 w2 : W} {target : Option ExecutionModel} {ref : ProviderRef}
        {answer : AdapterResult DeploymentState}
        → deps.get_project_target row.organization_id row.project_id w ≡ (returns target, w1)
        → ref_of row ≡ some ref
        → (let engine = deployment_engine_for deps.engines (model_of deps row.kind target) in
            engine.get_deployment (reconcile_context deps row) ref w1)
          ≡ (returns answer, w2)
        → Consulted w (some answer) w2

  -- The sweep carries out the verdict on the engine's answer.
  pub settle_one-verdict :
      (w w' : W) (answer : Option (AdapterResult DeploymentState))
      → Consulted w answer w'
      → settle_one deps row now w ≡ act (verdict answer) w'
  unfolding settle_one settle_ref
  settle_one-verdict w w' _ (no_ref {target = target} read bare) =
      >>=-returns (deps.get_project_target row.organization_id row.project_id)
        (λ t.
          settle_ref deps row now (deployment_engine_for deps.engines (model_of deps row.kind t))
            (ref_of row))
        w w' target read
      ∙ ap
          (λ r.
            settle_ref deps row now
              (deployment_engine_for deps.engines (model_of deps row.kind target)) r w')
          bare
      ∙ elim (Bool-cases (is_younger row.created_at now (hard_ceiling deps))) [
        | inl young ↦ rw young refl
        | inr aged ↦ rw aged refl
      ]
  settle_one-verdict w w' _
        (by_ref {w1 = w1} {target = target} {ref = ref} {answer = a} read has_ref asked) =
      let engine = deployment_engine_for deps.engines (model_of deps row.kind target) in
      >>=-returns (deps.get_project_target row.organization_id row.project_id)
        (λ t.
          settle_ref deps row now (deployment_engine_for deps.engines (model_of deps row.kind t))
            (ref_of row))
        w w1 target read
      ∙ ap (λ r. settle_ref deps row now engine r w1) has_ref
      ∙ >>=-returns (engine.get_deployment (reconcile_context deps row) ref)
          (settle_answer deps row now) w1 w' a asked
      ∙ ap (λ m. m w') (settle_answer-verdict a)
