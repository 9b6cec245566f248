-- ===== src/Samples.antt =====
-- A small world for the runs of the procedures of apps/api/src: the keys of the deployment rows and
-- of the jobs that were written. One project, whose organization has a hard cap of two deployments.
pub mod Counts
use uscs.Common.{
  ℕ, suc, String, Bool, true, false, Option, none, some, List, [], ◌∷◌, length, any, ◌===◌,
  if◌then◌else◌,
}
use uscs.Contracts.{
  EngineStatus, pending, succeeded, running, container, AdapterResult, ok, err, not_configured,
}
use uscs.Io
use uscs.Authorization.{owner, Membership}
use uscs.Api.Action.{pure, Action, value}
use uscs.Api.Guard.{RequestContext}
use uscs.Billing.Records.{BillingDeps, Budget, BudgetSave, UsageRecord}
use uscs.Deployment.Engine.{HostingAdapter, ServerlessAdapter, RouterEngines}
use uscs.Requests.Rows.{
  Kind, production, Project, Deployment, DeploymentCreate, DeploymentDeps, PreviewStore, Promotion,
}

pub record World : Type 0 where
  pub rows : List String
  pub jobs : List String

abbrev pub row_count : World → ℕ
row_count w = length w.rows

abbrev pub job_count : World → ℕ
job_count w = length w.jobs

abbrev pub empty : World
empty = record { rows = []; jobs = [] }

abbrev pub member : RequestContext
member = record {
  principal = record { user_id = "u1"; email = "ada@cloud.test"; display_name = none };
  memberships = record { organization_id = "o1"; user_id = "u1"; role = owner } ∷ [];
  api_key = none;
}

abbrev pub shop : Project
shop = record {
  id = "p1";
  organization_id = "o1";
  slug = "shop";
  root_directory = none;
  execution_model = container;
}

abbrev pub cap : ℕ → Budget
cap limit = record {
  organization_id = "o1";
  metric = "deployments";
  limit_quantity = limit;
  hard_cap = true;
  updated_by = none;
  created_at = 0;
  updated_at = 0;
}

abbrev pub usage : String → ℕ → UsageRecord
usage metric quantity = record {
  id = "r";
  organization_id = "o1";
  metric = metric;
  quantity = quantity;
  recorded_at = 5;
}

abbrev pub get_budget : ℕ → String → String → Action World (Option Budget)
get_budget limit organization metric = pure (some (cap limit))

abbrev pub list_usage : String → String → ℕ → Action World (List UsageRecord)
list_usage organization metric since = pure (usage metric 1 ∷ usage metric 1 ∷ [])

abbrev pub billing : ℕ → BillingDeps World
billing limit = record {
  list_usage_records = λ u o. pure (usage "deployments" 1 ∷ []);
  list_usage_for_service = some list_usage;
  list_budgets = none;
  get_budget_for_service = some (get_budget limit);
  save_budget = none;
  delete_budget = none;
  record_audit_event = λ e. pure tt;
  now = λ w. 10;
}

abbrev declined : {A : Type 0} → Io.Io World (AdapterResult A)
declined = Io.pure (err not_configured "no credential")

abbrev pub engines : RouterEngines World
engines = record {
  hosting = record {
    create_application = λ c i. declined;
    deploy = λ c r. declined;
    get_deployment = λ c r. declined;
    cancel_deployment = λ c r. declined;
    rollback = λ c r commit. declined;
    get_logs = λ c r cursor. declined;
    delete_application = λ c r. declined;
  };
  serverless = record {
    is_not_configured = true;
    create_function = λ c n a. declined;
    deploy = λ c r a p. declined;
    get_deployment = λ c r. declined;
    delete_function = λ c r. declined;
    get_logs = λ c r cursor. declined;
  };
}

abbrev pub deployment : EngineStatus → String → Deployment
deployment status id = record {
  id = id;
  organization_id = "o1";
  project_id = "p1";
  status = status;
  url = none;
  failure_reason = none;
  kind = production;
  staged = false;
  git_repository = none;
  git_branch = none;
  git_commit = none;
  build_pack = none;
  root_directory = none;
  pull_request = none;
  provider_resource_id = none;
  deployment_resource_id = none;
}

abbrev pub previews : PreviewStore World
previews = record {
  get_preview_target_for_service = some (λ o p k. pure none);
  create_preview_target = some (λ t. pure tt);
}

abbrev pub find : String → Action World (Option Deployment)
find key w =
    (value (if any (λ k. k === key) w.rows then some (deployment pending key) else none), w)

abbrev pub create : DeploymentCreate → Action World Deployment
create row w = (
  value (deployment pending row.idempotency_key),
  record { rows = row.idempotency_key ∷ w.rows; jobs = w.jobs },
)

abbrev pub enqueue : String → Action World (Unit {0})
enqueue key w = (value tt, record { rows = w.rows; jobs = key ∷ w.jobs })

abbrev pub get_deployment : String → String → Action World (Option Deployment)
get_deployment user id = pure (some (deployment succeeded id))

abbrev pub store : ℕ → DeploymentDeps World
store limit = record {
  get_project = λ u p. pure (some shop);
  find_by_idempotency_key = λ u o k. find k;
  create_deployment = create;
  update_deployment_status = λ u. pure none;
  get_deployment = some get_deployment;
  promote_deployment = some (λ o p d.
      pure (record { deployment = some (deployment succeeded d); previous_deployment_id = none }));
  get_project_deployment_target = λ u p. pure none;
  list_environments = none;
  previews = previews;
  billing = billing limit;
  engines = engines;
  enqueue = λ job. enqueue job.idempotency_key;
  record_audit_event = λ e. pure tt;
  new_id = pure "k1";
  now = λ w. 10;
}
