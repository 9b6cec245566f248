-- ===== src/Members/Removal.antt =====
-- What a removal of a member in apps/api/src/procedures/organizations.ts has looked at.
use uscs.Common.{
  String, Bool, true, false, not, ◌&&◌, none, some, List, ◌===◌, find, Bool-cases, inl, inr, ◌≡◌,
  if◌then◌else◌,
}
use uscs.Authorization.{OrgRole}
use uscs.Api.Action.{value, raise_if}
use uscs.Api.Guard.{RequestContext, require_capability, role_for, organization_not_found}
use uscs.Api.Audit.{found_or, require}
use uscs.Api.Returning.{
  Returning, >>=-Returning, holds-Returning, found_or-value, raise_if-value, require-value,
}
use uscs.Members.{
  OrganizationMember, OrgDeps, is_owner, has_id, is_last_owner, member_not_found, cannot_remove,
  not_removable, may_remove, write_removal, remove_organization_member,
}
use uscs.Members.Owners.{has_owner, edited, edited-not-owner, other_owners-edited}

module _ {W : Type 0} (deps : OrgDeps W) where
  abbrev pub capability_of : RequestContext → String → String
  capability_of ctx id = if id === ctx.principal.user_id then "org:read" else "member:remove"

  -- A removal of a member that was made.
  pub record Removed (ctx : RequestContext) (organization id : String) : Type 0 where
    pub caller : OrgRole
    pub target : OrganizationMember
    pub members : List OrganizationMember
    pub before : W
    pub afterwards : W
    pub permitted : require_capability ctx organization (capability_of ctx id) ≡ value tt
    pub ranked : role_for ctx organization ≡ some caller
    pub listed :
        deps.list_organization_members ctx.principal.user_id organization before
        ≡ (value members, afterwards)
    pub found : find (has_id id) members ≡ some target
    pub below :
        (id === ctx.principal.user_id) ≡ false
        → is_owner caller ≡ false
        → is_owner target.role ≡ false
    pub keeps : has_owner members ≡ true → has_owner (edited id none members) ≡ true

  abbrev Clear : OrgRole → OrganizationMember → Bool → String → List OrganizationMember → Type 0
  Clear caller target removing_self id members =
      ((not removing_self && not (is_owner caller) && is_owner target.role) ≡ false)
      × ((is_owner target.role && is_last_owner id members) ≡ false)

  may_remove-Returning :
      (caller : OrgRole) (target : OrganizationMember) (removing_self : Bool) (id : String)
      (members : List OrganizationMember)
      → Returning
          (λ _. Clear caller target removing_self id members)
          (may_remove deps caller target removing_self id members)
  unfolding may_remove
  may_remove-Returning caller target removing_self id members =
      >>=-Returning _
        (raise_if (not removing_self && not (is_owner caller) && is_owner target.role)
          not_removable)
        _
        (λ a v v' e. record {
          gives = λ w w' c g.
              (raise_if-value _ not_removable a v v' e, raise_if-value _ cannot_remove c w w' g);
        })

  keeps_owner :
      (target : OrganizationMember) (id : String) (members : List OrganizationMember)
      → find (has_id id) members ≡ some target
      → (is_owner target.role && is_last_owner id members) ≡ false
      → has_owner members ≡ true
      → has_owner (edited id none members) ≡ true
  keeps_owner target id members h k l = elim (Bool-cases (is_owner target.role)) [
    | inr e ↦ edited-not-owner id none members target h e l
    | inl e ↦ other_owners-edited id none members (simp e at k)
  ]

  remove-Returning :
      (ctx : RequestContext) (organization id : String)
      → Returning
          (λ _. Removed ctx organization id)
          (remove_organization_member deps ctx organization id)
  unfolding remove_organization_member
  remove-Returning ctx organization id =
      let self = id === ctx.principal.user_id in
      >>=-Returning _ (require ctx organization (capability_of ctx id)) _ (λ a v v' e.
        >>=-Returning _ (found_or (role_for ctx organization) organization_not_found) _
          (λ caller u u' f.
            >>=-Returning _ (deps.list_organization_members ctx.principal.user_id organization) _
              (λ members s s' h.
                >>=-Returning _ (found_or (find (has_id id) members) member_not_found) _
                  (λ target r r' k.
                    >>=-Returning _ (may_remove deps caller target self id members) _ (λ c q q' l.
                      let (x, y) =
                        (may_remove-Returning caller target self id members).gives q q' c l in
                      let here = found_or-value _ member_not_found target r r' k in
                      holds-Returning (write_removal deps ctx organization id self target) (record {
                        caller = caller;
                        target = target;
                        members = members;
                        before = s;
                        afterwards = s';
                        permitted = require-value ctx organization (capability_of ctx id) a v v' e;
                        ranked = found_or-value _ organization_not_found caller u u' f;
                        listed = h;
                        found = here;
                        below = λ n o. simp (n, o) at x;
                        keeps = keeps_owner target id members here y;
                      }))))))

  -- If a removal of a member returns, then the caller has the capability `member:remove`, or
  -- `org:read` to leave; unless the caller leaves or is an owner, the member is no owner; and if
  -- the members that the store listed had an owner, they have one without the member.
  pub remove_organization_member-Removed :
      (ctx : RequestContext) (organization id : String) (removed : Bool) (w w' : W)
      → remove_organization_member deps ctx organization id w ≡ (value removed, w')
      → Removed ctx organization id
  remove_organization_member-Removed ctx organization id removed w w' h =
      (remove-Returning ctx organization id).gives w w' removed h
