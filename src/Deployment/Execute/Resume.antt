-- ===== src/Deployment/Execute/Resume.antt =====
-- deployment-executor.ts: a redelivered job, a preview's target, a build that fails, and the
-- state that is read back.
use uscs.Common.{
  String, Option, none, some, ◌≡◌, refl, sym, ap, ap₂, fun_ext, ◌∙◌, ◌⊎◌, inl, inr, if◌then◌else◌,
  Bool-cases,
}
use uscs.Contracts.{
  EngineStatus, failed, in_flight, ProviderRef, OperationRef, container, serverless, AdapterResult,
  ok, err,
}
use uscs.Io.{returned_value, Io, Ending, returns, raises, pure, ◌>>=◌, ◌>>◌, then_do, >>=-returns}
use uscs.Deployment.Engine.{
  AdapterContext, DeploymentEngine, DeploymentState, deployment_engine_for,
}
use uscs.Deployment.Build.{no_artifact, run_build_step}
use uscs.Deployment.Execute.{
  create, run_on, first_attempt, route, root_of, deploy_to, build_deps, build_input, deploy_built,
  sync_with, build_and_deploy, preview_application_of,
}
use uscs.Deployment.Execute.Runs.{
  rollback, resume_running_deployment, resume_row, resume_handle, resumed_as, resumed_ref, confirm,
  confirmed_as, resume_with,
}
use uscs.Deployment.Execute.Input.{
  ExecuteDeploymentInput, DeploymentExecutorDeps, DeploymentExecutionResult, DeploymentTarget,
  StoredDeploymentHandle, context_of, refused, handle_of, BuildHandle,
}

module _ {W : Type 0} (deps : DeploymentExecutorDeps W) (input : ExecuteDeploymentInput) where
  -- The run that a row's handle names, at the engine of the application if there is one.
  abbrev pub run_named : Option ProviderRef → String → ProviderRef
  run_named app handle = record {
    organization_id = input.organization_id;
    provider = elim app [ some a ↦ a.provider | none ↦ "coolify" ];
    resource_type = "deployment";
    resource_id = handle;
  }

  abbrev pub call : AdapterContext
  call = record {
    organization_id = input.organization_id;
    idempotency_key = input.idempotency_key;
    timeout_ms = input.timeout_ms;
  }

  -- What the engine said of a run, with the row's own handles.
  abbrev pub said_of :
      StoredDeploymentHandle
      → String
      → EngineStatus
      → Option String
      → Option String
      → DeploymentExecutionResult
  said_of stored handle status url reason = record {
    status = status;
    url = url;
    provider_resource_id = stored.provider_resource_id;
    deployment_resource_id = some handle;
    build_provider_resource_id = none;
    build_provider = none;
    reason = reason;
  }

  abbrev pub reported :
      StoredDeploymentHandle → String → AdapterResult DeploymentState → DeploymentExecutionResult
  reported stored handle (ok _ state) = said_of stored handle state.status state.url state.reason
  reported stored handle (err status reason) = said_of stored handle status none (some reason)

  -- The executor of a store that keeps no rows.
  abbrev pub rowless : DeploymentExecutorDeps W
  rowless = record deps { writes = record deps.writes { get_deployment = none } }

  -- What a job does whose row has a handle: it polls the run of the handle while the row is in
  -- flight, and does what it would do without a row when the row is terminal.
  abbrev pub redelivered :
      DeploymentEngine W
      → Option String
      → Option String
      → Option ProviderRef
      → StoredDeploymentHandle
      → String
      → Io W DeploymentExecutionResult
  redelivered engine key root app stored handle =
      if in_flight stored.status
      then (engine.get_deployment call (run_named app handle) >>= λ state.
          pure (reported stored handle state))
      else run_on rowless input engine key root app

  run_named-resumed :
      (app : Option ProviderRef) (handle : String)
      → resumed_ref deps input app handle ≡ run_named app handle
  run_named-resumed none handle = refl
  run_named-resumed (some a) handle = refl

  reported-resumed :
      (stored : StoredDeploymentHandle) (handle : String) (a : AdapterResult DeploymentState)
      → resumed_as deps input stored handle a ≡ reported stored handle a
  reported-resumed stored handle (ok _ state) = refl
  reported-resumed stored handle (err status reason) = refl

  polled :
      (engine : DeploymentEngine W) (app : Option ProviderRef) (stored : StoredDeploymentHandle)
      (handle : String)
      → (engine.get_deployment (context_of input) (resumed_ref deps input app handle) >>= λ state.
          pure (resumed_as deps input stored handle state))
        ≡ (engine.get_deployment call (run_named app handle) >>= λ state.
            pure (reported stored handle state))
  polled engine app stored handle =
      ap₂
        (λ ref (report : AdapterResult DeploymentState → DeploymentExecutionResult).
          engine.get_deployment call ref >>= λ state. pure (report state))
        (run_named-resumed app handle) (fun_ext (reported-resumed stored handle))

  -- The ordinary path reads no row.
  first_attempt-rowless :
      (engine : DeploymentEngine W) (key root : Option String) (app : Option ProviderRef)
      → first_attempt rowless input engine key root app none
        ≡ first_attempt deps input engine key root app none
  unfolding rollback confirm confirmed_as deploy_to create
  first_attempt-rowless engine key root app = refl

  resumed-settled :
      (engine : DeploymentEngine W) (key root : Option String) (app : Option ProviderRef)
      (stored : StoredDeploymentHandle) (handle : String)
      (a : Ending (AdapterResult DeploymentState)) (w : W)
      → then_do
          (first_attempt deps input engine key root app)
          (then_do (λ state. pure (some (resumed_as deps input stored handle state))) a w).0
          (then_do (λ state. pure {W = W} (some (resumed_as deps input stored handle state))) a w).1
        ≡ then_do (λ state. pure (resumed_as deps input stored handle state)) a w
  resumed-settled engine key root app stored handle (returns (ok _ _)) w = refl
  resumed-settled engine key root app stored handle (returns (err _ _)) w = refl
  resumed-settled engine key root app stored handle (raises e) w = refl

  resume-handle :
      (engine : DeploymentEngine W) (app : Option ProviderRef) (stored : StoredDeploymentHandle)
      (handle : String) (read : String → String → Io W (Option StoredDeploymentHandle)) (w w1 : W)
      → deps.writes.get_deployment ≡ some read
      → read input.organization_id input.deployment_id w ≡ (returns (some stored), w1)
      → stored.deployment_resource_id ≡ some handle
      → resume_running_deployment deps input engine app w
        ≡ resume_handle deps input engine app stored (some handle) w1
  unfolding resume_running_deployment
  resume-handle engine app stored handle read w w1 wired row handled =
      ap (λ o. resume_with deps input o engine app w) wired
      ∙ >>=-returns (read input.organization_id input.deployment_id)
          (resume_row deps input engine app) w w1 (some stored) row
      ∙ ap (λ h. resume_handle deps input engine app stored h w1) handled

  -- A deployment job whose row has a run's handle asks the engine for this run and does nothing
  -- else while the row is pending or running: it reports the status, the address and the reason
  -- that the engine gave, or its refusal, and the row's own handles. When the row is terminal the
  -- job does what it does with a store that keeps no rows.
  pub run_on-redelivered :
      (engine : DeploymentEngine W) (key root : Option String) (app : Option ProviderRef)
      (stored : StoredDeploymentHandle) (handle : String)
      (read : String → String → Io W (Option StoredDeploymentHandle)) (w w1 : W)
      → deps.writes.get_deployment ≡ some read
      → read input.organization_id input.deployment_id w ≡ (returns (some stored), w1)
      → stored.deployment_resource_id ≡ some handle
      → run_on deps input engine key root app w ≡ redelivered engine key root app stored handle w1
  unfolding run_on resume_running_deployment
  run_on-redelivered engine key root app stored handle read w w1 wired row handled =
      ap (λ p. then_do (first_attempt deps input engine key root app) p.0 p.1)
        (resume-handle engine app stored handle read w w1 wired row handled)
      ∙ elim (Bool-cases (in_flight stored.status)) [
        | inl flying ↦ rw flying (
            resumed-settled engine key root app stored handle _ _
            ∙ ap (λ m. m w1) (polled engine app stored handle))
        | inr settled ↦
            rw settled (ap (λ m. m w1) (sym (first_attempt-rowless engine key root app)))
      ]

  -- A preview's deployment does not depend on the project's target but for its root directory:
  -- two targets with which the executor builds from the same directory lead to the same actions,
  -- whatever application, provider or execution model they name.
  pub preview_isolated :
      (key : String) (target target' : Option DeploymentTarget)
      → root_of deps input target ≡ root_of deps input target'
      → route deps input (some key) target ≡ route deps input (some key) target'
  unfolding route
  preview_isolated key target target' same =
      ap
        (λ root.
          deps.writes.get_preview_target input.organization_id input.project_id key >>= λ preview.
          run_on deps input (deployment_engine_for deps.engines container) (some key) root
            (preview_application_of deps input preview))
        same

  no_sync :
      (sync : Option (AdapterContext → ProviderRef → String → String → Io W (Unit {0})))
      (app : ProviderRef)
      → sync_with deps input sync serverless app ≡ pure tt
  no_sync none app = refl
  no_sync (some sync) app = refl

  -- If the engine is serverless and its build ends without code, the deployment ends as `failed`
  -- with the build's reason, in the world that the build left: nothing is deployed and no
  -- variable is synchronised.
  pub unbuilt_not_deployed :
      (engine : DeploymentEngine W) (root : Option String) (app : ProviderRef) (reason : String)
      (w w1 : W)
      → engine.model ≡ serverless
      → run_build_step (build_deps deps input) (build_input deps input root) w
        ≡ (returns (no_artifact reason), w1)
      → deploy_to deps input engine root app w
        ≡ (returns (refused (handle_of none) failed (some app.resource_id) reason), w1)
  unfolding deploy_to
  unbuilt_not_deployed engine root app reason w w1 model unbuilt =
      ap
        (λ m.
          (sync_with deps input deps.env_vars m app
              >> build_and_deploy deps input m engine app root)
            w)
        model
      ∙ ap (λ m. (m >> build_and_deploy deps input serverless engine app root) w)
          (no_sync deps.env_vars app)
      ∙ >>=-returns (run_build_step (build_deps deps input) (build_input deps input root))
          (deploy_built deps input engine app) w w1 (no_artifact reason) unbuilt

  -- Where the status of a result that `confirm` gives comes from.
  abbrev pub Vouched : DeploymentEngine W → AdapterResult OperationRef → EngineStatus → W → Type 0
  Vouched engine action status w' =
      (operation : OperationRef) × (taken : EngineStatus) × (action ≡ ok taken operation)
      × (read : Ending (AdapterResult DeploymentState)) × (w1 : W) × (engine.get_deployment
            (context_of input) operation.provider_ref w1
          ≡ (read, w'))
      × (((s : EngineStatus) × (state : DeploymentState) × (read ≡ returns (ok s state))
            × (state.status ≡ status))
          ⊎ ((s : EngineStatus) × (m : String) × (read ≡ returns (err s m)) × (taken ≡ status)))

  Origin : Ending (AdapterResult DeploymentState) → EngineStatus → EngineStatus → Type 0
  Origin read taken status =
      ((s : EngineStatus) × (state : DeploymentState) × (read ≡ returns (ok s state))
        × (state.status ≡ status))
      ⊎ ((s : EngineStatus) × (m : String) × (read ≡ returns (err s m)) × (taken ≡ status))

  read_back :
      (handle : BuildHandle) (resolved : String) (run : Option String) (taken : EngineStatus)
      (read : Ending (AdapterResult DeploymentState)) (w1 w' : W) (r : DeploymentExecutionResult)
      → then_do (λ state. pure (confirmed_as deps input handle resolved run taken state)) read w1
        ≡ (returns r, w')
      → (w1 ≡ w') × Origin read taken r.status
  unfolding confirmed_as Origin
  read_back handle resolved run taken (raises e) w1 w' r h = cc
  read_back handle resolved run taken (returns (ok s state)) w1 w' r h =
      (ap (λ p. p.1) h, inl (s, state, refl, ap (λ d. d.status) (returned_value (ap (λ p. p.0) h))))
  read_back handle resolved run taken (returns (err s m)) w1 w' r h =
      (ap (λ p. p.1) h, inr (s, m, refl, ap (λ d. d.status) (returned_value (ap (λ p. p.0) h))))

  after_mark :
      (engine : DeploymentEngine W) (operation : OperationRef) (handle : BuildHandle)
      (resolved : String) (run : Option String) (taken : EngineStatus) (marked : Ending (Unit {0}))
      (w1 w' : W) (r : DeploymentExecutionResult)
      → (let asked =
            then_do
              (λ _. engine.get_deployment (context_of input) operation.provider_ref)
              marked
              w1 in
          then_do
            (λ state. pure (confirmed_as deps input handle resolved run taken state))
            asked.0
            asked.1)
        ≡ (returns r, w')
      → Vouched engine (ok taken operation) r.status w'
  unfolding Origin
  after_mark engine operation handle resolved run taken (raises e) w1 w' r h = cc
  after_mark engine operation handle resolved run taken (returns tt) w1 w' r h =
      let answer = engine.get_deployment (context_of input) operation.provider_ref w1 in
      let (same, origin) = read_back handle resolved run taken answer.0 answer.1 w' r h in
      (operation, taken, refl, answer.0, w1, ap (λ v. (answer.0, v)) same, origin)

  -- When `confirm` returns, the status of its result is that of the action that was refused, or
  -- the one that the engine gave when it was asked for the run afterwards, or the action's own
  -- status when the engine refused to answer.
  pub confirm-Vouched :
      (engine : DeploymentEngine W) (action : AdapterResult OperationRef) (id : Option String)
      (build_ref : Option ProviderRef) (w w' : W) (r : DeploymentExecutionResult)
      → confirm deps input engine action id build_ref w ≡ (returns r, w')
      → ((m : String) × (action ≡ err r.status m)) ⊎ Vouched engine action r.status w'
  unfolding confirm
  confirm-Vouched engine (err s m) id build_ref w w' r h =
      inl (m, ap (λ t. err t m) (ap (λ d. d.status) (returned_value (ap (λ p. p.0) h))))
  confirm-Vouched engine (ok s operation) id build_ref w w' r h =
      inr (after_mark engine operation _ _ _ s _ _ w' r h)
