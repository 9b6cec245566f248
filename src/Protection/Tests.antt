-- ===== src/Protection/Tests.antt =====
-- Runs of the protection rules on small inputs.
use uscs.Common.{some, []}
use uscs.Protection.{at, by_password, DeploymentProtection}

abbrev preview_password : DeploymentProtection
preview_password = record {
  mode = by_password;
  allowed_cidrs = [];
  basic_user = some "preview";
  expires_at = some (at 5000);
}
