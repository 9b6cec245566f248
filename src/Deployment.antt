-- ===== src/Deployment.antt =====
-- A deployment, from the engines up: packages/adapters/src/execution-router.ts and build-run.ts,
-- and deployment-executor.ts, deployment-job.ts and deployment-reconcile.ts of apps/worker/src.
pub mod Engine
pub mod Build
pub mod Execute
pub mod Job
pub mod Sweep
mod Tests
