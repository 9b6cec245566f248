-- ===== src/Requests/Live.antt =====
-- What a promotion of apps/api/src/procedures/deployments.ts makes live.
use uscs.Common.{
  ℕ, String, Bool, true, false, not, Option, none, some, ◌≡◌, refl, ap, subst, ◌∙◌, arith, ◌===◌,
  Bool-cases, inl, inr, eq_of_===,
}
use uscs.Contracts.{EngineStatus, succeeded, is_success}
use uscs.Api.Action.{Failure, Result, value, throws, Action, raise_if}
use uscs.Api.Guard.{RequestContext, require_capability}
use uscs.Api.Audit.{found_or, require}
use uscs.Api.Returning.{
  Returning, >>=-Returning, pure-Returning, found_or-value, raise_if-value, require-value,
}
use uscs.Requests.Rows.{
  Kind, production, is_preview, Project, Deployment, Promotion, DeploymentDeps,
}
use uscs.Requests.{permitted, deployment_not_found, project_not_found}
use uscs.Requests.Changes.{
  DeploymentChange, PromoteOutcome, row_within, cannot_read, cannot_move, never_live, not_succeeded,
  not_movable, promoted_event, promotable, move_pointer, promote_row, promote_deployment,
}

module _ {W : Type 0} (period_start : ℕ → ℕ) (ratio : ℕ → ℕ → ℕ) (precedes : String → String → Bool)
    (decimal : ℕ → String) (lower : String → String) (deps : DeploymentDeps W) where
  abbrev Promotable : Deployment → Type 0
  Promotable row = (is_preview row.kind ≡ false) × (is_success row.status ≡ true)

  promotable-Returning :
      (row : Deployment)
      → Returning
          (λ _. Promotable row)
          (promotable period_start ratio precedes decimal lower deps row)
  unfolding promotable
  promotable-Returning row =
      >>=-Returning (λ _. Promotable row) (raise_if (is_preview row.kind) never_live) _
        (λ a v v' e. record {
          gives = λ w w' b h.
              let done =
                raise_if-value (not (is_success row.status)) (not_succeeded row) b w w' h in
              (raise_if-value (is_preview row.kind) never_live a v v' e, ground (arith, done));
        })

  row_within-value :
      (project : Project) (o : Option Deployment) (row : Deployment) (w w' : W)
      → row_within period_start ratio precedes decimal lower deps project o w ≡ (value row, w')
      → (o ≡ some row) × ((row.project_id === project.id) ≡ true)
  row_within-value project none row w w' h = cc
  row_within-value project (some r) row w w' h = elim (Bool-cases (r.project_id === project.id)) [
    | inr e ↦ absurd (no_throw (simp e at h))
    | inl e ↦
        let same : r ≡ row = ap kept (simp e at h) in
        (ap some same, subst (λ (d : Deployment). (d.project_id === project.id) ≡ true) same e)
  ]
    where
      kept : Result Deployment × W → Deployment
      kept (value x, v) = x
      kept (throws f, v) = r

      no_throw :
          ◌≡◌ {A = (Result Deployment × W)} (throws deployment_not_found, w) (value row, w') → ⊥
      no_throw x = cc

  -- The project that the store gave for an id, in whose organization the caller may do something.
  pub record Permitted (ctx : RequestContext) (id capability : String) (project : Project)
      : Type 0 where
    pub asked : W
    pub answered : W
    pub given : deps.get_project ctx.principal.user_id id asked ≡ (value (some project), answered)
    pub allowed : require_capability ctx project.organization_id capability ≡ value tt

  permitted-Returning :
      (ctx : RequestContext) (id capability : String)
      → Returning
          (Permitted ctx id capability)
          (permitted period_start ratio precedes decimal lower deps ctx id capability)
  unfolding permitted
  permitted-Returning ctx id capability =
      >>=-Returning _ (deps.get_project ctx.principal.user_id id) _ (λ o v v' e.
        >>=-Returning _ (found_or o project_not_found) _ (λ project u u' f.
          >>=-Returning _ (require ctx project.organization_id capability) _ (λ a t t' g.
            pure-Returning _ project (record {
              asked = v;
              answered = v';
              given =
                  e ∙ ap (λ x. (value x, v')) (found_or-value o project_not_found project u u' f);
              allowed = require-value ctx project.organization_id capability a t t' g;
            }))))

  -- What the store was asked to make live, and what it answered.
  pub record Moved (project : Project) (row : Deployment)
      (promote : String → String → String → Action W Promotion) (outcome : PromoteOutcome)
      : Type 0 where
    pub asked : W
    pub answered : W
    pub result : Promotion
    pub moves : promote project.organization_id project.id row.id asked ≡ (value result, answered)
    pub is_live : result.deployment ≡ some outcome.deployment
    pub was_live : result.previous_deployment_id ≡ outcome.previous_deployment_id

  move_pointer-Returning :
      (ctx : RequestContext) (project : Project)
      (promote : String → String → String → Action W Promotion) (row : Deployment)
      → Returning
          (Moved project row promote)
          (move_pointer period_start ratio precedes decimal lower deps ctx project promote row)
  unfolding move_pointer
  move_pointer-Returning ctx project promote row =
      >>=-Returning _ (promote project.organization_id project.id row.id) _ (λ result v v' e.
        >>=-Returning _ (found_or result.deployment unmoved) _ (λ live u u' f.
          >>=-Returning _
            (deps.record_audit_event (
              promoted_event period_start ratio precedes decimal lower deps ctx project row result))
            _
            (λ a t t' g.
              pure-Returning (Moved project row promote)
                (record {
                  deployment = live;
                  previous_deployment_id = result.previous_deployment_id;
                })
                (record {
                  asked = v;
                  answered = v';
                  result = result;
                  moves = e;
                  is_live = found_or-value result.deployment unmoved live u u' f;
                  was_live = refl;
                }))))
    where
      unmoved : Failure
      unmoved = not_movable period_start ratio precedes decimal lower deps

  -- The row that was made live.
  pub record Promoted (ctx : RequestContext) (input : DeploymentChange) (outcome : PromoteOutcome)
      : Type 0 where
    pub project : Project
    pub row : Deployment
    pub get : String → String → Action W (Option Deployment)
    pub promote : String → String → String → Action W Promotion
    pub before : W
    pub afterwards : W
    pub permitted : Permitted ctx input.project_id "deployment:rollback" project
    pub reads : deps.get_deployment ≡ some get
    pub found :
        get ctx.principal.user_id input.deployment_id before ≡ (value (some row), afterwards)
    pub of_project : row.project_id ≡ project.id
    pub is_live_kind : row.kind ≡ production
    pub has_succeeded : row.status ≡ succeeded
    pub writes : deps.promote_deployment ≡ some promote
    pub moved : Moved project row promote outcome

  kind_of_live : (k : Kind) → is_preview k ≡ false → k ≡ production
  kind_of_live k e = ground arith

  success : (s : EngineStatus) → is_success s ≡ true → s ≡ succeeded
  success s e = ground arith

  promote_row-Returning :
      (ctx : RequestContext) (project : Project)
      (promote : String → String → String → Action W Promotion) (row : Deployment)
      → Returning
          (λ outcome. Promotable row × Moved project row promote outcome)
          (promote_row period_start ratio precedes decimal lower deps ctx project promote row)
  unfolding promote_row
  promote_row-Returning ctx project promote row =
      >>=-Returning _ (promotable period_start ratio precedes decimal lower deps row) _ (λ a v v' e.
        record {
          gives = λ w w' outcome h. (
            (promotable-Returning row).gives v v' a e,
            (move_pointer-Returning ctx project promote row).gives w w' outcome h,
          );
        })

  promote-Returning :
      (ctx : RequestContext) (input : DeploymentChange)
      → Returning
          (Promoted ctx input)
          (promote_deployment period_start ratio precedes decimal lower deps ctx input)
  unfolding promote_deployment
  promote-Returning ctx input =
      >>=-Returning _
        (permitted period_start ratio precedes decimal lower deps ctx input.project_id
          "deployment:rollback")
        _
        (λ project v v' e.
          >>=-Returning _ (found_or deps.get_deployment cannot_read) _ (λ get u u' f.
            >>=-Returning _ (found_or deps.promote_deployment cannot_move) _ (λ promote t t' g.
              >>=-Returning _ (get ctx.principal.user_id input.deployment_id) _ (λ o s s' h.
                >>=-Returning _
                  (row_within period_start ratio precedes decimal lower deps project o) _
                  (λ row r r' k.
                    let (here, within) = row_within-value project o row r r' k in
                    record {
                      gives = λ q q' outcome l.
                          let (p, m) =
                            (promote_row-Returning ctx project promote row).gives q q' outcome l in
                          record {
                            project = project;
                            row = row;
                            get = get;
                            promote = promote;
                            before = s;
                            afterwards = s';
                            permitted =
                                (permitted-Returning ctx input.project_id
                                    "deployment:rollback").gives
                                  v v' project e;
                            reads = found_or-value deps.get_deployment cannot_read get u u' f;
                            found = h ∙ ap (λ x. (value x, s')) here;
                            of_project = eq_of_=== row.project_id project.id within;
                            is_live_kind = kind_of_live row.kind p.0;
                            has_succeeded = success row.status p.1;
                            writes =
                                found_or-value deps.promote_deployment cannot_move promote t t' g;
                            moved = m;
                          };
                    })))))

  -- If promoting a deployment returns, then the store gave a project for the request's project
  -- id, in whose organization the caller has the capability `deployment:rollback`; the row that
  -- the store gave for the named deployment is of this project, of production and `succeeded`;
  -- and the store was asked to make this row live, and answered with the deployments of the
  -- outcome.
  pub promote_deployment-Promoted :
      (ctx : RequestContext) (input : DeploymentChange) (outcome : PromoteOutcome) (w w' : W)
      → promote_deployment period_start ratio precedes decimal lower deps ctx input w
        ≡ (value outcome, w')
      → Promoted ctx input outcome
  promote_deployment-Promoted ctx input outcome w w' h =
      (promote-Returning ctx input).gives w w' outcome h
