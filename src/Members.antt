-- ===== src/Members.antt =====
-- apps/api/src/procedures/organizations.ts: the members of an organization and their roles.
pub mod Owners
mod Changes
mod Removal
mod Tests
use uscs.Common.{
  ℕ, String, Bool, true, false, not, ◌&&◌, Option, none, some, List, [], ◌∷◌, ◌==◌, ◌===◌, length,
  find, filter, if◌then◌else◌,
}
use uscs.Authorization.{OrgRole, owner, admin, member, viewer}
use uscs.Api.Action.{
  not_found, forbidden, invalid_input, conflict, Failure, Action, pure, raise_if, ◌>>=◌, ◌>>◌,
}
use uscs.Api.Guard.{RequestContext, role_for, organization_not_found}
use uscs.Api.Audit.{Meta, AuditEvent, failure, found_or, require, event_of}

pub record OrganizationMember : Type 0 where
  pub organization_id : String
  pub user_id : String
  pub role : OrgRole
  pub email : Option String
  pub display_name : Option String
  pub invited_by : Option String
  pub created_at : ℕ

pub record RoleChange : Type 0 where
  pub user_id : String
  pub organization_id : String
  pub member_id : String
  pub role : OrgRole

pub record OrgDeps (W : Type 0) : Type 0 where
  pub list_organization_members : String → String → Action W (List OrganizationMember)
  pub update_organization_member_role : RoleChange → Action W (Option OrganizationMember)
  pub remove_organization_member : String → String → String → Action W Bool
  pub record_audit_event : AuditEvent → Action W (Unit {0})

pub record RoleInput : Type 0 where
  pub organization_id : String
  pub member_id : String
  pub role : OrgRole

abbrev pub role_text : OrgRole → String
role_text owner = "owner"
role_text admin = "admin"
role_text member = "member"
role_text viewer = "viewer"

abbrev pub is_owner : OrgRole → Bool
is_owner owner = true
is_owner _ = false

abbrev pub has_id : String → OrganizationMember → Bool
has_id id m = m.user_id === id

-- `members.filter((m) => m.role === "owner" && m.userId !== input.memberId)`
abbrev pub other_owners : String → List OrganizationMember → List OrganizationMember
other_owners id = filter (λ m. is_owner m.role && not (has_id id m))

abbrev pub is_last_owner : String → List OrganizationMember → Bool
is_last_owner id members = length (other_owners id members) == 0

abbrev pub member_not_found : Failure
member_not_found = failure not_found "Member not found."

abbrev pub cannot_demote : Failure
cannot_demote = failure conflict "The last owner cannot be demoted."

abbrev pub cannot_remove : Failure
cannot_remove = failure conflict "The last owner cannot be removed."

abbrev pub own_role : Failure
own_role = failure invalid_input "You cannot change your own role."

abbrev pub not_yours : Failure
not_yours = failure forbidden "Only an owner can change an owner's role."

abbrev pub not_grantable : Failure
not_grantable = failure forbidden "Only an owner can grant the owner role."

abbrev pub not_removable : Failure
not_removable = failure forbidden "Only an owner can remove an owner."

module _ {W : Type 0} (deps : OrgDeps W) where
  -- The caller's rank against the target's and the new role's, and the last owner.
  unfoldable pub may_change :
      OrgRole
      → OrganizationMember
      → OrgRole
      → String
      → List OrganizationMember
      → Action W (Unit {0})
  may_change caller target role id members = do
    raise_if (not (is_owner caller) && is_owner target.role) not_yours
    raise_if (not (is_owner caller) && is_owner role) not_grantable
    raise_if (is_owner target.role && not (is_owner role) && is_last_owner id members) cannot_demote

  -- The write of the new role, and its audit event.
  unfoldable pub write_role :
      RequestContext → RoleInput → OrganizationMember → Action W OrganizationMember
  write_role ctx input target = do
    found ← deps.update_organization_member_role (record {
      user_id = ctx.principal.user_id;
      organization_id = input.organization_id;
      member_id = input.member_id;
      role = input.role;
    })
    updated ← found_or found member_not_found
    deps.record_audit_event (
        event_of ctx input.organization_id "member.role_changed" "member" input.member_id (
          ("from", Meta.text (role_text target.role))
          ∷ ("to", Meta.text (role_text input.role))
          ∷ []))
    pure updated

  unfoldable pub update_organization_member_role :
      RequestContext → RoleInput → Action W OrganizationMember
  unfolding may_change write_role
  update_organization_member_role ctx input = do
    require ctx input.organization_id "member:invite"
    caller ← found_or (role_for ctx input.organization_id) organization_not_found
    raise_if (input.member_id === ctx.principal.user_id) own_role
    members ← deps.list_organization_members ctx.principal.user_id input.organization_id
    target ← found_or (find (has_id input.member_id) members) member_not_found
    may_change caller target input.role input.member_id members
    write_role ctx input target

  unfoldable pub may_remove :
      OrgRole → OrganizationMember → Bool → String → List OrganizationMember → Action W (Unit {0})
  may_remove caller target removing_self id members = do
    raise_if (not removing_self && not (is_owner caller) && is_owner target.role) not_removable
    raise_if (is_owner target.role && is_last_owner id members) cannot_remove

  -- The removal, and its audit event.
  unfoldable pub write_removal :
      RequestContext → String → String → Bool → OrganizationMember → Action W Bool
  write_removal ctx organization id removing_self target = do
    removed ← deps.remove_organization_member ctx.principal.user_id organization id
    raise_if (not removed) member_not_found
    deps.record_audit_event (
        event_of ctx organization "member.removed" "member" id
          (("role", Meta.text (role_text target.role)) ∷ ("self", Meta.flag removing_self) ∷ []))
    pure true

  unfoldable pub remove_organization_member : RequestContext → String → String → Action W Bool
  unfolding may_remove write_removal
  remove_organization_member ctx organization id = do
    let removing_self = id === ctx.principal.user_id
    require ctx organization (if removing_self then "org:read" else "member:remove")
    caller ← found_or (role_for ctx organization) organization_not_found
    members ← deps.list_organization_members ctx.principal.user_id organization
    target ← found_or (find (has_id id) members) member_not_found
    may_remove caller target removing_self id members
    write_removal ctx organization id removing_self target
