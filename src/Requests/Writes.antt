-- ===== src/Requests/Writes.antt =====
-- How much a request of apps/api/src/procedures/deployments.ts writes, however it ends.
use uscs.Common.{
  ℕ, String, Bool, not, Option, none, some, List, ◌≡◌, refl, ltb, ◌===◌, utf16_length, trim,
  get_or_else,
}
use uscs.Api.Action.{invalid_input, Action, raise_if, lift}
use uscs.Api.Guard.{RequestContext, require_capability}
use uscs.Api.Audit.{failure, found_or, require}
use uscs.Api.Counted.{
  Keeps, if-Keeps, IsPaired, Pairs, pure-Keeps, raise-Keeps, lift-Keeps, raise_if-Keeps, >>=-Keeps,
  >>=-Pairs, >>=-Completes, job-Completes, Keeps-Pairs, inserts-Pairs,
}
use uscs.RootDirectory.{parse_root_directory}
use uscs.Billing.{assert_within_budget}
use uscs.Requests.Keys.{optional_ref, optional_repository, optional_build_pack}
use uscs.Requests.Rows.{
  Kind, production, preview, Project, Deployment, Environment, DeploymentCreate, DeploymentDeps,
  CreateInput, RequestResult,
}
use uscs.Requests.{
  key_or_new, environments_from, ensure_target, root_directory_of, project_not_found, present,
  idempotency_key, environment_id_for, environment_of, permitted, replay, record_and_enqueue,
  for_key, request_deployment, job_of,
}
use uscs.Requests.Changes.{RollbackInput, roll_back_for, rollback_deployment}
use uscs.Requests.Frames.{
  found_or-Keeps, assert_within_budget-Keeps, ensure_preview_target-Keeps, StoreCounts,
}

module _ {W : Type 0} (rows jobs : W → ℕ) (period_start : ℕ → ℕ) (ratio : ℕ → ℕ → ℕ)
    (precedes : String → String → Bool) (decimal : ℕ → String) (lower : String → String)
    (deps : DeploymentDeps W) (counts : StoreCounts rows jobs deps) where
  abbrev Kept : {A : Type 0} → Action W A → Type 0
  Kept m = Keeps rows jobs m

  permitted-Keeps :
      (ctx : RequestContext) (id capability : String)
      → Kept (permitted period_start ratio precedes decimal lower deps ctx id capability)
  unfolding permitted
  permitted-Keeps ctx id capability =
      >>=-Keeps rows jobs (deps.get_project ctx.principal.user_id id) _
        (counts.get_project ctx.principal.user_id id)
        (λ found.
          >>=-Keeps rows jobs (found_or found project_not_found) _
            (found_or-Keeps rows jobs found project_not_found)
            (λ project.
              >>=-Keeps rows jobs (require ctx project.organization_id capability) _
                (lift-Keeps rows jobs (require_capability ctx project.organization_id capability))
                (λ _. pure-Keeps rows jobs project)))

  of_key-Keeps :
      (o : Option String) → Kept (key_or_new period_start ratio precedes decimal lower deps o)
  of_key-Keeps none = counts.new_id
  of_key-Keeps (some key) =
      if-Keeps rows jobs (ltb 200 (utf16_length key)) _ _
        (raise-Keeps rows jobs String (failure invalid_input "The idempotency key is too long."))
        (pure-Keeps rows jobs key)

  key-Keeps :
      (given : Option String)
      → Kept (idempotency_key period_start ratio precedes decimal lower deps given)
  unfolding idempotency_key
  key-Keeps given = of_key-Keeps (present (some (trim (get_or_else given ""))))

  environments-Keeps :
      (o : Option (String → String → Action W (List Environment))) (user project : String)
      (kind : Kind)
      → deps.list_environments ≡ o
      → Kept (environments_from period_start ratio precedes decimal lower deps o user project kind)
  environments-Keeps none user project kind e = pure-Keeps rows jobs none
  environments-Keeps (some list) user project kind e =
      >>=-Keeps rows jobs (list user project) _ (counts.environments list e user project)
        (λ es. pure-Keeps rows jobs (environment_of kind es))

  environment-Keeps :
      (user project : String) (kind : Kind)
      → Kept (environment_id_for period_start ratio precedes decimal lower deps user project kind)
  unfolding environment_id_for
  environment-Keeps user project kind =
      environments-Keeps deps.list_environments user project kind refl

  replay-Keeps :
      (project : Project) (existing : Deployment)
      → Kept (replay period_start ratio precedes decimal lower deps project existing)
  replay-Keeps project existing =
      if-Keeps rows jobs (not (existing.project_id === project.id)) _ _
        (raise-Keeps rows jobs RequestResult _) (pure-Keeps rows jobs _)

  ensure-Keeps :
      (row : DeploymentCreate) (kind : Kind) (key : Option String)
      → Kept (ensure_target period_start ratio precedes decimal lower deps row kind key)
  ensure-Keeps row preview (some key) =
      ensure_preview_target-Keeps rows jobs deps.previews counts.previews _
  ensure-Keeps row preview none = pure-Keeps rows jobs tt
  ensure-Keeps row production key = pure-Keeps rows jobs tt

  record_and_enqueue-Pairs :
      (ctx : RequestContext) (project : Project) (row : DeploymentCreate)
      → Pairs rows jobs
          (record_and_enqueue period_start ratio precedes decimal lower deps ctx project row)
  unfolding record_and_enqueue
  record_and_enqueue-Pairs ctx project row =
      inserts-Pairs rows jobs (deps.create_deployment row) _ (counts.create row) (λ d.
        >>=-Completes rows jobs
          (ensure_target period_start ratio precedes decimal lower deps row row.kind
            row.preview_key)
          _ (ensure-Keeps row row.kind row.preview_key)
          (λ _.
            job-Completes rows jobs
              (deps.enqueue (job_of period_start ratio precedes decimal lower deps project row d)) _
              (counts.enqueue _)
              (λ _.
                >>=-Keeps rows jobs (deps.record_audit_event _) _ (counts.audit _)
                  (λ _. pure-Keeps rows jobs _))))

  for_key-Pairs :
      (ctx : RequestContext) (project : Project) (row : Option String → DeploymentCreate)
      (kind : Kind) (existing : Option Deployment)
      → Pairs rows jobs
          (for_key period_start ratio precedes decimal lower deps ctx project row kind existing)
  unfolding for_key
  for_key-Pairs ctx project row kind (some existing) =
      Keeps-Pairs rows jobs _ (replay-Keeps project existing)
  for_key-Pairs ctx project row kind none =
      >>=-Pairs rows jobs
        (assert_within_budget period_start ratio precedes decimal deps.billing
          project.organization_id "deployments")
        _
        (assert_within_budget-Keeps rows jobs period_start ratio precedes decimal deps.billing
          counts.budgets project.organization_id "deployments")
        (λ _.
          >>=-Pairs rows jobs
            (environment_id_for period_start ratio precedes decimal lower deps ctx.principal.user_id
              project.id kind)
            _ (environment-Keeps ctx.principal.user_id project.id kind)
            (λ e. record_and_enqueue-Pairs ctx project (row e)))

  root-Keeps :
      (project : Project) (given : Option String)
      → Kept (root_directory_of period_start ratio precedes decimal lower deps project given)
  root-Keeps project none = pure-Keeps rows jobs project.root_directory
  root-Keeps project (some given) = lift-Keeps rows jobs (parse_root_directory (some given))

  request_deployment-Pairs :
      (ctx : RequestContext) (input : CreateInput)
      → Pairs rows jobs
          (request_deployment period_start ratio precedes decimal lower deps ctx input)
  unfolding request_deployment
  request_deployment-Pairs ctx input =
      >>=-Pairs rows jobs
        (permitted period_start ratio precedes decimal lower deps ctx input.project_id
          "deployment:create")
        _ (permitted-Keeps ctx input.project_id "deployment:create")
        (λ project.
          >>=-Pairs rows jobs (lift (optional_ref input.git_branch "Branch")) _
            (lift-Keeps rows jobs _)
            (λ branch.
              >>=-Pairs rows jobs (lift (optional_ref input.commit "Commit")) _
                (lift-Keeps rows jobs _)
                (λ commit.
                  >>=-Pairs rows jobs (lift (optional_repository input.git_repository)) _
                    (lift-Keeps rows jobs _)
                    (λ repository.
                      >>=-Pairs rows jobs (lift (optional_build_pack input.build_pack)) _
                        (lift-Keeps rows jobs _)
                        (λ pack.
                          >>=-Pairs rows jobs
                            (root_directory_of period_start ratio precedes decimal lower deps
                              project input.root_directory)
                            _ (root-Keeps project input.root_directory)
                            (λ root.
                              >>=-Pairs rows jobs (raise_if _ _) _ (raise_if-Keeps rows jobs _ _)
                                (λ _.
                                  >>=-Pairs rows jobs
                                    (idempotency_key period_start ratio precedes decimal lower deps
                                      input.idempotency_key)
                                    _ (key-Keeps input.idempotency_key)
                                    (λ key.
                                      >>=-Pairs rows jobs (deps.find_by_idempotency_key _ _ key) _
                                        (counts.find _ _ key)
                                        (λ existing. for_key-Pairs ctx project _ _ existing)))))))))

  roll_back_for-Pairs :
      (ctx : RequestContext) (project : Project) (commit key : String)
      (existing : Option Deployment)
      → Pairs rows jobs (
          roll_back_for period_start ratio precedes decimal lower deps ctx project commit key
            existing)
  unfolding roll_back_for
  roll_back_for-Pairs ctx project commit key (some existing) =
      Keeps-Pairs rows jobs _ (replay-Keeps project existing)
  roll_back_for-Pairs ctx project commit key none =
      >>=-Pairs rows jobs
        (assert_within_budget period_start ratio precedes decimal deps.billing
          project.organization_id "deployments")
        _
        (assert_within_budget-Keeps rows jobs period_start ratio precedes decimal deps.billing
          counts.budgets project.organization_id "deployments")
        (λ _.
          >>=-Pairs rows jobs
            (environment_id_for period_start ratio precedes decimal lower deps ctx.principal.user_id
              project.id production)
            _ (environment-Keeps ctx.principal.user_id project.id production)
            (λ e. inserts-Pairs rows jobs (deps.create_deployment _) _ (counts.create _) (λ d.
              >>=-Completes rows jobs
                (deps.get_project_deployment_target ctx.principal.user_id project.id) _
                (counts.target ctx.principal.user_id project.id)
                (λ _. job-Completes rows jobs (deps.enqueue _) _ (counts.enqueue _) (λ _.
                  >>=-Keeps rows jobs (deps.record_audit_event _) _ (counts.audit _)
                    (λ _. pure-Keeps rows jobs _))))))

  rollback_deployment-Pairs :
      (ctx : RequestContext) (input : RollbackInput)
      → Pairs rows jobs
          (rollback_deployment period_start ratio precedes decimal lower deps ctx input)
  unfolding rollback_deployment
  rollback_deployment-Pairs ctx input =
      >>=-Pairs rows jobs
        (permitted period_start ratio precedes decimal lower deps ctx input.project_id
          "deployment:rollback")
        _ (permitted-Keeps ctx input.project_id "deployment:rollback")
        (λ project. >>=-Pairs rows jobs (raise_if _ _) _ (raise_if-Keeps rows jobs _ _) (λ _.
          >>=-Pairs rows jobs
            (idempotency_key period_start ratio precedes decimal lower deps input.idempotency_key) _
            (key-Keeps input.idempotency_key)
            (λ key.
              >>=-Pairs rows jobs (deps.find_by_idempotency_key _ _ key) _ (counts.find _ _ key)
                (λ existing. roll_back_for-Pairs ctx project _ key existing))))

  -- If each call of the store and the queue writes what it names, at most one row or at most one
  -- job, then a request for a deployment or a rollback, however it ends and at whatever call it
  -- throws, leaves at most one more deployment row, and a job only together with its row.
  pub requests-IsPaired :
      (ctx : RequestContext) (create : CreateInput) (back : RollbackInput) (w : W)
      → IsPaired rows jobs w
          (request_deployment period_start ratio precedes decimal lower deps ctx create w).1
        × IsPaired rows jobs w
            (rollback_deployment period_start ratio precedes decimal lower deps ctx back w).1
  requests-IsPaired ctx create back w = (
    (request_deployment-Pairs ctx create).paired w,
    (rollback_deployment-Pairs ctx back).paired w,
  )
