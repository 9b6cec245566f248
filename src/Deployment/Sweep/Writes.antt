-- ===== src/Deployment/Sweep/Writes.antt =====
-- deployment-reconcile.ts and deployment-job.ts: a confirmed success has the same effect whether
-- the sweep or the job's applier records it; and the count of a sweep.
use uscs.Common.{
  ℕ, suc, ◌+◌, ◌≤◌, length, String, Bool, true, false, List, [], ◌∷◌, ◌≡◌, refl, ap, sym, ◌∙◌,
  arith, if◌then◌else◌, ◌&&◌, not, get_or_else,
}
use uscs.Contracts.{EngineStatus, is_success, ok}
use uscs.Io.{Io, Ending, returns, raises, pure, ◌>>◌, when, then_do, >>=-returns, returned_value}
use uscs.Deployment.Execute.Input.{DeploymentExecutionResult, production}
use uscs.Deployment.Job.{
  DeploymentJobPayload, apply_result, promote_live, success_row, is_production,
}
use uscs.Deployment.Sweep.{
  StrandedDeployment, DeploymentReconcilerDeps, Settled, write_settled, row_update, settle_all,
}

-- A value put after an action does not change what the action does.
world-pure : {W A B : Type 0} (m : Io W A) (b : B) (w : W) → ((m >> pure b) w).1 ≡ (m w).1
world-pure {W} {A} {B} m b w = at (m w).0 (m w).1
  where
    at : (r : Ending A) (v : W) → (then_do (λ _. pure {W = W} b) r v).1 ≡ v
    at (returns a) v = refl
    at (raises e) v = refl

module _ {W : Type 0} (deps : DeploymentReconcilerDeps W) where
  -- What follows the row's own write.
  abbrev effects : Bool → String → String → String → EngineStatus → Io W (Unit {0})
  effects live organization_id project_id id status = when (is_success status) (
      when live (deps.outcome.promote organization_id project_id id)
      >> deps.outcome.record_usage organization_id "deployments" 1)

  -- For one deployment with the same status, if the write of its row leads both to the same
  -- world, then the sweep's promotion and usage writes and those of the job's applier lead to the
  -- same world.
  pub write_settled-apply_result :
      (row : StrandedDeployment) (now : ℕ) (settled : Settled) (payload : DeploymentJobPayload)
      (finished : String) (status : EngineStatus) (value : DeploymentExecutionResult) (w v w1 : W)
      → deps.outcome.update_status (row_update deps row settled (deps.iso now)) w ≡ (returns tt, w1)
      → deps.outcome.update_status (success_row deps.outcome payload value finished) v
        ≡ (returns tt, w1)
      → payload.organization_id ≡ row.organization_id
      → payload.project_id ≡ row.project_id
      → payload.deployment_id ≡ row.id
      → get_or_else payload.kind production ≡ row.kind
      → get_or_else payload.staged false ≡ row.staged
      → value.status ≡ settled.status
      → (write_settled deps row now settled w).1
        ≡ (apply_result deps.outcome payload finished (ok status value) v).1
  unfolding write_settled apply_result promote_live
  write_settled-apply_result row now settled payload finished status value w v w1 wrote wrote' o p d
        k s e =
      world-pure
        (deps.outcome.update_status (row_update deps row settled (deps.iso now))
          >> effects (is_production row.kind && not row.staged) row.organization_id row.project_id
              row.id settled.status)
        true w
      ∙ ap (λ r. r.1)
          (>>=-returns (deps.outcome.update_status (row_update deps row settled (deps.iso now)))
            (λ _.
              effects (is_production row.kind && not row.staged) row.organization_id row.project_id
                row.id settled.status)
            w w1 tt wrote)
      ∙ (rw (sym o, sym p, sym d, sym k, sym s, sym e) refl)
      ∙ sym (
          ap (λ r. r.1)
            (>>=-returns
              (deps.outcome.update_status (success_row deps.outcome payload value finished))
              (λ _.
                effects
                  (is_production (get_or_else payload.kind production)
                    && not (get_or_else payload.staged false))
                  payload.organization_id payload.project_id payload.deployment_id value.status)
              v w1 tt wrote'))

  count_after :
      (now n k : ℕ) (rows : List StrandedDeployment) (b : Ending Bool) (w1 w' : W)
      → ((m : ℕ) (v : W)
          → settle_all deps now m rows v ≡ (returns k, w')
          → (m ≤ k) × (k ≤ m + length rows))
      → then_do (λ written. settle_all deps now (if written then suc n else n) rows) b w1
        ≡ (returns k, w')
      → (n ≤ k) × (k ≤ n + suc (length rows))
  count_after now n k rows (raises e) w1 w' ih h = cc
  count_after now n k rows (returns true) w1 w' ih h =
      let (low, high) = ih (suc n) w1 h in (omega arith, omega arith)
  count_after now n k rows (returns false) w1 w' ih h =
      let (low, high) = ih n w1 h in (omega arith, omega arith)

  settle_all-bounds :
      (now n k : ℕ) (rows : List StrandedDeployment) (w w' : W)
      → settle_all deps now n rows w ≡ (returns k, w')
      → (n ≤ k) × (k ≤ n + length rows)
  unfolding settle_all
  settle_all-bounds now n k [] w w' h = ground (arith, returned_value (ap (λ p. p.0) h))
  settle_all-bounds now n k (row ∷ rows) w w' h =
      count_after now n k rows _ _ w' (λ m v. settle_all-bounds now m k rows v w') h
