-- ===== src/Samples/Counts.antt =====
-- What the small world's store does to the counts of its rows and jobs.
use uscs.Common.{ℕ, subst, ap, get_or_else, String, none, some, ◌≡◌, refl, arith}
use uscs.Api.Action.{pure}
use uscs.Api.Counted.{Keeps, Inserts, Completes, pure-Keeps}
use uscs.Requests.Rows.{DeploymentCreate}
use uscs.Requests.Frames.{BillingReads, PreviewCounts}
use uscs.Samples.{
  row_count, job_count, billing, get_budget, list_usage, previews, create, find, enqueue,
}

-- A method that is present has what the one that was given has.
pub given : {A : Type 0} (P : A → Type 0) (a b : A) → some a ≡ some b → P a → P b
given P a b e p = subst P (ap (λ o. get_or_else o a) e) p

pub billing_Reads : (limit : ℕ) → BillingReads row_count job_count (billing limit)
billing_Reads limit = record {
  get_budget = λ get e o m.
      given (λ g. Keeps row_count job_count (g o m)) (get_budget limit) get e
        (pure-Keeps row_count job_count _);
  list_usage = λ list e o m n.
      given (λ g. Keeps row_count job_count (g o m n)) list_usage list e
        (pure-Keeps row_count job_count _);
}

pub preview_Counts : PreviewCounts row_count job_count previews
preview_Counts = record {
  get_preview = λ get e o p k.
      given (λ g. Keeps row_count job_count (g o p k)) (λ o p k. pure none) get e
        (pure-Keeps row_count job_count none);
  create_preview = λ c e t.
      given (λ g. Keeps row_count job_count (g t)) (λ t. pure tt) c e
        (pure-Keeps row_count job_count tt);
}

pub create-Inserts : (row : DeploymentCreate) → Inserts row_count job_count (create row)
create-Inserts row = record { inserted = λ w. omega arith }

pub enqueue-Completes : (key : String) → Completes row_count job_count (enqueue key)
enqueue-Completes key = record { one_job = λ w. omega arith }

pub find-Keeps : (key : String) → Keeps row_count job_count (find key)
find-Keeps key = record { same = λ w. (refl, refl) }
