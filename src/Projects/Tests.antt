-- ===== src/Projects/Tests.antt =====
-- A run of the definitions for a project in apps/api/src/procedures/organizations.ts, and a concrete
-- instance of the theorem.
use uscs.Common.{ℕ, suc, String, none, some, ◌≡◌, refl}
use uscs.Contracts.{container}
use uscs.Authorization.{role_in, can, has_capability, role_capabilities}
use uscs.Api.Action.{value, pure}
use uscs.Api.Guard.{require_capability, allowed}
use uscs.Projects.{Project, UpdateInput, ProjectDeps, update_project}
use uscs.Projects.Names.{Renamed, update_project-Renamed}
use uscs.Samples

abbrev shop : String → Project
shop name = record {
  id = "p1";
  organization_id = "o1";
  name = name;
  slug = "shop";
  execution_model = container;
  root_directory = none;
  provider_resource_id = some "app";
}

-- The world counts the writes.
abbrev deps : ProjectDeps ℕ
deps = record {
  get_project = λ u p. pure (some (shop "Shop"));
  update_project = some (λ u w. (value (some (shop "Store")), suc w));
  record_audit_event = λ e. pure tt;
}

abbrev rename : UpdateInput
rename = record {
  project_id = "p1";
  name = some " Store ";
  slug = some "shop";
  execution_model = none;
  root_directory = none;
}

renamed_shop : update_project deps Samples.member rename 0 ≡ (value (shop "Store"), 1)
unfolding update_project require_capability allowed can role_in has_capability role_capabilities
renamed_shop = refl

update_project-Renamed_example : Renamed deps Samples.member rename
update_project-Renamed_example =
    update_project-Renamed deps Samples.member rename (shop "Store") 0 1 renamed_shop
