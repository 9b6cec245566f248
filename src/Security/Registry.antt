-- ===== src/Security/Registry.antt =====
-- `PolicyVersionRegistry` of apps/security-control/src/index.ts, as a function of the organization.
use uscs.Common.{String, Option, none, some, if◌then◌else◌, ltb, ◌===◌, ◌&&◌}
use uscs.Security.{PolicyVersion}

abbrev pub PolicyRegistry : Type 0
PolicyRegistry = String → Option PolicyVersion

abbrev pub empty_registry : PolicyRegistry
empty_registry organization_id = none

abbrev pub set : PolicyRegistry → String → PolicyVersion → PolicyRegistry
set registry organization_id version other =
    if other === organization_id then some version else registry other

abbrev pub record_over :
    PolicyRegistry → String → PolicyVersion → Option PolicyVersion → PolicyRegistry
record_over registry organization_id version none = set registry organization_id version
record_over registry organization_id version (some current) =
    if (version.policy_id === current.policy_id) && ltb version.version current.version
    then registry
    else set registry organization_id version

unfoldable pub record_version : PolicyRegistry → String → PolicyVersion → PolicyRegistry
record_version registry organization_id version =
    record_over registry organization_id version (registry organization_id)
