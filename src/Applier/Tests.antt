-- ===== src/Applier/Tests.antt =====
-- A run of the combined applier on a small input. The world counts the writes.
use uscs.Common.{ℕ, suc, String, none, some, List, [], ◌∷◌, if◌then◌else◌, ◌===◌}
use uscs.Contracts.{JobState}
use uscs.Io.{returns}
use uscs.Queue.{Job}
use uscs.Applier.{JobOutcomeWriter}

-- The applier of a kind: it writes for its own kind only.
abbrev applier_of : String → JobOutcomeWriter ℕ String String
applier_of kind job result w = if job.kind === kind then (returns tt, suc w) else (returns tt, w)

abbrev backup : Job String
backup = record {
  id = 1;
  organization_id = "org-1";
  kind = "data.backup.execute";
  payload = "payload";
  idempotency_key = "k1";
  state = JobState.running;
  attempts = 1;
  max_attempts = 3;
  created_at = 100;
  started_at = some 101;
  finished_at = none;
  last_error = none;
  lease_expires_at = some 60101;
  deferred_until = none;
}

abbrev deployments : List (JobOutcomeWriter ℕ String String)
deployments = applier_of "deployments.execute" ∷ []

abbrev restores : List (JobOutcomeWriter ℕ String String)
restores = applier_of "data.restore.execute" ∷ []
