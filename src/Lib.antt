-- ===== src/Lib.antt =====
-- Cloud Wai, a control plane over hosting engines: a verification library of its core.
--
-- The program. The API (apps/api/src) authenticates a request, tests a capability and enqueues a
-- job. The worker (apps/worker/src) claims jobs from the queue, runs the handler of their kind
-- against an engine, records the job's own state, and lets an applier write the row that the
-- customer sees. A sweep settles deployments whose job is gone. The security control distributes
-- policies to the edge and tracks incidents. What each part does must be honest: `succeeded` is
-- only ever the engine's own answer, and a request may do only what a membership grants.
--
-- Files and the code they are about:
--   Common: tests on numbers and texts, list functions, JavaScript's text length and trim.
--   Contracts: packages/contracts/src (statuses, results, job states).
--   Authorization: packages/authorization/src/index.ts (the matrix); Lattice has its order.
--   Auth: packages/auth/src/index.ts and api-keys.ts (principals, keys and their scopes).
--   Api: apps/api/src/errors.ts (Action), guard.ts (Guard) and context.ts (Context).
--   Queue: packages/adapters/src/queue.ts, InMemoryJobQueue: `byKey` and `byId` are lists in the
--     order of insertion, a reference of `byKey` is a job's number, each method takes the time
--     that it reads. Invariant, Enqueue, Claim, Reap and Trace hold its theorems.
--   Processor: apps/worker/src/processor.ts, InProcessWorker: `tick` is claim, dispatch and
--     conclude; `drain` is a recursion on the rounds that are left.
--   Io: awaited calls that return or throw, on a world `W` that stands for all that is outside.
--   Deployment: Engine is packages/adapters/src/execution-router.ts, Build is build-run.ts and
--     `toServerlessArtifact` of build.ts, Execute is apps/worker/src/deployment-executor.ts, Job is
--     deployment-job.ts and Sweep is deployment-reconcile.ts.
--   Security: packages/security/src/index.ts; Registry, Incidents and Distribution are
--     apps/security-control/src/index.ts.
--   Protection: packages/database/src/protection.ts.
--   Data: backup-job.ts and restore-job.ts of apps/worker/src.
--   PolicyJob: policy-job.ts of apps/worker/src; EnvSync: env-sync.ts there;
--     Applier: applier.ts there.
--   Requests: apps/api/src/procedures/deployments.ts for a deployment with a job queue; Keys has its
--     validators and the preview key, Changes redeploy, cancel, promote and rollback.
--   Billing: procedures/billing.ts of apps/api/src; GitLinks: procedures/git-links.ts there;
--     Members and Projects: the members and projects of procedures/organizations.ts there;
--     RootDirectory: root-directory.ts there; GitHook: git-hook.ts there.
--   Observability: packages/observability/src/index.ts (percentiles; Redact and Logger).
--   Routes: apps/web/src/routes.ts. Samples: a small world for the runs of the procedures.
-- A file Tests holds runs of its component on small inputs.
--
-- How code is modelled. Identifiers are texts that are only compared. Times are milliseconds since
-- the epoch. A read of a clock, a call of an engine or of the store is an action on `W`, in the
-- order of the source; what such a call may do is not assumed but where a theorem names it.
-- JavaScript's falsy empty text is written out (`truthy`). Numbers in messages are printed by an
-- argument `decimal`, instants by `iso`. Log lines are left out. Objects that the source mutates
-- (the queue, the registry, the incidents) are passed from state to state.
--
-- Bounds. A drain takes its number of rounds, and the polling of a build its number of polls, as
-- the source does; both end by structural recursion, so no fuel is invented. Instants before the
-- epoch and versions that are not natural numbers are not modelled.
--
-- Not modelled: the engines' HTTP adapters and the store's REST calls, which are arguments;
-- cryptography; the API's other procedures, the path of a deployment request without a queue, the
-- edge compiler and the web application's pages. The text functions of JavaScript that a file takes
-- as arguments (`lower`, the percent codec, the order of texts) and JSON.parse are named there.
pub mod Api
pub mod Applier
pub mod Auth
pub mod Authorization
pub mod Billing
pub mod Common
pub mod Contracts
pub mod Data
pub mod Deployment
pub mod EnvSync
pub mod GitHook
pub mod GitLinks
pub mod Io
pub mod Members
pub mod Observability
pub mod PolicyJob
pub mod Processor
pub mod Projects
pub mod Protection
pub mod Queue
pub mod Requests
pub mod RootDirectory
pub mod Routes
pub mod Samples
pub mod Security
