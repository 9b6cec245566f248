-- ===== src/Deployment/Engine/Routing.antt =====
-- execution-router.ts: what the router promises of the port that it chooses.
use uscs.Common.{String, Bool, true, false, Option, none, ◌≡◌, refl}
use uscs.Contracts.{not_configured, ProviderRef, serverless, AdapterResult, err}
use uscs.Io.{Io, returns}
use uscs.Deployment.Engine.{
  AdapterContext, ServerlessArtifact, HostingAdapter, ServerlessAdapter, RouterEngines, TargetInput,
  serverless_deployment_engine, not_configured_serverless, deployment_engine_for,
}

-- The call reports `not_configured` and has done nothing.
abbrev pub Declines : {W T : Type 0} → Io W (AdapterResult T) → Type 0
Declines {W} m = (w : W) → (reason : String) × (m w ≡ (returns (err not_configured reason), w))

-- A stand-in for an engine that is not configured: each of its operations declines.
pub record IsStandIn {W : Type 0} (functions : ServerlessAdapter W) : Type 0 where
  pub marked : functions.is_not_configured ≡ true
  pub creates :
      (ctx : AdapterContext) (name : String) (a : Option ServerlessArtifact)
      → Declines (functions.create_function ctx name a)
  pub deploys :
      (ctx : AdapterContext) (ref : ProviderRef) (a : Option ServerlessArtifact) (publish : Bool)
      → Declines (functions.deploy ctx ref a publish)
  pub reads :
      (ctx : AdapterContext) (ref : ProviderRef) → Declines (functions.get_deployment ctx ref)
  pub deletes :
      (ctx : AdapterContext) (ref : ProviderRef) → Declines (functions.delete_function ctx ref)
  pub logs :
      (ctx : AdapterContext) (ref : ProviderRef) (cursor : Option String)
      → Declines (functions.get_logs ctx ref cursor)

module _ {W : Type 0} where
  pub serverless_isolated :
      (engines : RouterEngines W) (hosting : HostingAdapter W)
      → deployment_engine_for engines serverless
        ≡ deployment_engine_for
            (record { hosting = hosting; serverless = engines.serverless })
            serverless
  unfolding deployment_engine_for
  serverless_isolated engines hosting = refl

  -- If the serverless adapter is a stand-in whose operations all answer `not_configured` and do
  -- nothing, then each operation of the port that the router chooses for a serverless project
  -- does so too.
  pub unconfigured-Declines :
      (engines : RouterEngines W) (stand_in : IsStandIn engines.serverless) (ctx : AdapterContext)
      (ref : ProviderRef) (input : TargetInput) (artifact : Option ServerlessArtifact)
      (text : Option String)
      → (let engine = deployment_engine_for engines serverless in
          Declines (engine.ensure_target ctx input)
          × Declines (engine.deploy ctx ref artifact)
          × Declines (engine.get_deployment ctx ref)
          × Declines (engine.get_logs ctx ref text)
          × Declines (engine.rollback ctx ref text)
          × Declines (engine.cancel ctx ref)
          × Declines (engine.destroy ctx ref))
  unfolding deployment_engine_for not_configured_serverless
  unconfigured-Declines engines s ctx ref input artifact text = rw (s.marked) (
    s.creates ctx input.name input.artifact,
    s.deploys ctx ref artifact false,
    s.reads ctx ref,
    s.logs ctx ref text,
    s.deploys ctx ref none false,
    s.deletes ctx ref,
    s.deletes ctx ref,
  )

  pub serverless_refuses :
      (functions : ServerlessAdapter W) (ctx : AdapterContext) (ref : ProviderRef)
      (commit : Option String)
      → (let engine = serverless_deployment_engine functions in
          Declines (engine.deploy ctx ref none)
          × Declines (engine.rollback ctx ref commit)
          × Declines (engine.cancel ctx ref))
  unfolding serverless_deployment_engine
  serverless_refuses functions ctx ref commit = (λ w. (_, refl), λ w. (_, refl), λ w. (_, refl))
