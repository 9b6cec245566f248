-- ===== src/Requests/Tests.antt =====
-- Runs of the definitions for apps/api/src/procedures/deployments.ts, and concrete instances of
-- the theorems.
use Prim.Native.Char.{char}
use uscs.Common.{ℕ, String, Bool, false, none, some, [], ◌∷◌, ◌≡◌, refl}
use uscs.Authorization.{role_in, can, has_capability}
use uscs.Contracts.{succeeded}
use uscs.Api.Action.{value}
use uscs.Api.Guard.{require_capability, allowed}
use uscs.Api.Counted.{IsPaired, pure-Keeps}
use uscs.Requests.Rows.{CreateInput}
use uscs.Requests.{request_deployment}
use uscs.Requests.Keys.{preview_key_for, collapse, take}
use uscs.Requests.Changes.{
  RollbackInput, DeploymentChange, PromoteOutcome, promote_deployment, rollback_deployment,
}
use uscs.Requests.Frames.{StoreCounts}
use uscs.Requests.Writes.{requests-IsPaired}
use uscs.Requests.Live.{Promoted, promote_deployment-Promoted}
use uscs.Requests.PreviewKeys.{preview_key_for-shared}
use uscs.Samples.Counts.{
  billing_Reads, preview_Counts, create-Inserts, enqueue-Completes, find-Keeps,
}
use uscs.Samples.{empty, row_count, job_count, member, store, deployment}

abbrev request : CreateInput
request = record {
  project_id = "p1";
  idempotency_key = some "k1";
  git_repository = some "https://git.test/shop";
  git_branch = some "main";
  commit = none;
  build_pack = none;
  root_directory = some "apps/web";
  kind = none;
  staged = false;
  pull_request = none;
}

abbrev back : RollbackInput
back = record { project_id = "p1"; commit = some "abc1234"; idempotency_key = none }

store_Counts : (limit : ℕ) → StoreCounts row_count job_count (store limit)
store_Counts limit = record {
  get_project = λ u p. pure-Keeps row_count job_count _;
  find = λ u o k. find-Keeps k;
  create = create-Inserts;
  target = λ u p. pure-Keeps row_count job_count _;
  environments = λ list e u p. cc;
  previews = preview_Counts;
  budgets = billing_Reads limit;
  enqueue = λ job. enqueue-Completes job.idempotency_key;
  audit = λ e. pure-Keeps row_count job_count tt;
  new_id = pure-Keeps row_count job_count "k1";
}

abbrev later : String → String → Bool
later a b = false

requests-IsPaired_example :
    IsPaired row_count job_count empty
      (request_deployment
        (λ n. n)
        (λ a b. a)
        later
        (λ n. "2")
        (λ s. s)
        (store 3)
        member
        request
        empty).1
    × IsPaired row_count job_count empty
        (rollback_deployment
          (λ n. n)
          (λ a b. a)
          later
          (λ n. "2")
          (λ s. s)
          (store 3)
          member
          back
          empty).1
requests-IsPaired_example =
    requests-IsPaired row_count job_count (λ n. n) (λ a b. a) later (λ n. "2") (λ s. s) (store 3)
      (store_Counts 3) member request back empty

requested :
    (request_deployment
      (λ n. n)
      (λ a b. a)
      later
      (λ n. "2")
      (λ s. s)
      (store 3)
      member
      request
      empty).1.jobs
    ≡ "k1" ∷ []
unfolding request_deployment require_capability role_in can has_capability allowed
    uscs.Authorization.role_capabilities uscs.Requests.Keys.optional_ref
    uscs.Requests.Keys.optional_repository uscs.Requests.Keys.optional_build_pack
    uscs.RootDirectory.parse_root_directory uscs.Billing.assert_within_budget
    uscs.Billing.refused_by
requested = refl

capped :
    (request_deployment
      (λ n. n)
      (λ a b. a)
      later
      (λ n. "2")
      (λ s. s)
      (store 2)
      member
      request
      empty).1
    ≡ empty
unfolding request_deployment require_capability role_in can has_capability allowed
    uscs.Authorization.role_capabilities uscs.Requests.Keys.optional_ref
    uscs.Requests.Keys.optional_repository uscs.Requests.Keys.optional_build_pack
    uscs.RootDirectory.parse_root_directory uscs.Billing.assert_within_budget
    uscs.Billing.refused_by
capped = refl

abbrev change : DeploymentChange
change = record { project_id = "p1"; deployment_id = "d1" }

abbrev promoted : PromoteOutcome
promoted = record { deployment = deployment succeeded "d1"; previous_deployment_id = none }

runs :
    promote_deployment (λ n. n) (λ a b. a) later (λ n. "2") (λ s. s) (store 3) member change empty
    ≡ (value promoted, empty)
unfolding promote_deployment require_capability role_in can has_capability allowed
    uscs.Authorization.role_capabilities
runs = refl

promote_deployment-Promoted_example :
    Promoted (λ n. n) (λ a b. a) later (λ n. "2") (λ s. s) (store 3) member change promoted
promote_deployment-Promoted_example =
    promote_deployment-Promoted (λ n. n) (λ a b. a) later (λ n. "2") (λ s. s) (store 3) member
      change promoted empty empty runs

preview_key_for-shared_example :
    preview_key_for (λ s. s) (λ n. "7") none (some "feature/x") (some "c")
    ≡ preview_key_for (λ s. s) (λ n. "7") none (some "feature-x") (some "c")
preview_key_for-shared_example =
    preview_key_for-shared (λ s. s) (λ n. "7") "feature/x" "feature-x" "c" "feature" "x"
      (char b'/' tt) (char b'-' tt) refl refl refl refl refl refl
