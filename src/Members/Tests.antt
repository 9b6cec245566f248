-- ===== src/Members/Tests.antt =====
-- Runs of the definitions for the members in apps/api/src/procedures/organizations.ts, and concrete
-- instances of the theorems.
use uscs.Common.{ℕ, suc, String, true, none, some, [], ◌∷◌, ◌≡◌, refl}
use uscs.Authorization.{OrgRole, owner, viewer, role_in, can, has_capability, role_capabilities}
use uscs.Api.Action.{value, pure}
use uscs.Api.Guard.{require_capability, allowed, role_for}
use uscs.Members.{
  OrganizationMember, OrgDeps, RoleInput, update_organization_member_role,
  remove_organization_member,
}
use uscs.Members.Changes.{Changed, update_organization_member_role-Changed}
use uscs.Members.Removal.{Removed, remove_organization_member-Removed}
use uscs.Samples

abbrev row : String → OrgRole → OrganizationMember
row id role = record {
  organization_id = "o1";
  user_id = id;
  role = role;
  email = none;
  display_name = none;
  invited_by = none;
  created_at = 0;
}

-- The world counts the writes.
abbrev deps : OrgDeps ℕ
deps = record {
  list_organization_members = λ u o. pure (row "u1" owner ∷ row "u2" owner ∷ row "u3" viewer ∷ []);
  update_organization_member_role = λ c w. (value (some (row c.member_id c.role)), suc w);
  remove_organization_member = λ u o m w. (value true, suc w);
  record_audit_event = λ e. pure tt;
}

abbrev demotion : RoleInput
demotion = record { organization_id = "o1"; member_id = "u2"; role = viewer }

demoted :
    update_organization_member_role deps Samples.member demotion 0 ≡ (value (row "u2" viewer), 1)
unfolding update_organization_member_role require_capability allowed can role_for role_in
    has_capability role_capabilities
demoted = refl

left : remove_organization_member deps Samples.member "o1" "u1" 0 ≡ (value true, 1)
unfolding remove_organization_member require_capability allowed can role_for role_in has_capability
    role_capabilities
left = refl

update_organization_member_role-Changed_example : Changed deps Samples.member demotion
update_organization_member_role-Changed_example =
    update_organization_member_role-Changed deps Samples.member demotion (row "u2" viewer) 0 1
      demoted

remove_organization_member-Removed_example : Removed deps Samples.member "o1" "u1"
remove_organization_member-Removed_example =
    remove_organization_member-Removed deps Samples.member "o1" "u1" true 0 1 left
