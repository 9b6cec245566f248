-- ===== src/Members/Changes.antt =====
-- What a change of a role in apps/api/src/procedures/organizations.ts has looked at.
use uscs.Common.{String, true, false, not, ◌&&◌, some, List, ◌===◌, find, Bool-cases, inl, inr, ◌≡◌}
use uscs.Authorization.{OrgRole}
use uscs.Api.Action.{value, raise_if}
use uscs.Api.Guard.{RequestContext, require_capability, role_for, organization_not_found}
use uscs.Api.Audit.{found_or, require}
use uscs.Api.Returning.{
  Returning, >>=-Returning, holds-Returning, found_or-value, raise_if-value, require-value,
}
use uscs.Members.{
  OrganizationMember, OrgDeps, RoleInput, is_owner, has_id, is_last_owner, member_not_found,
  cannot_demote, own_role, not_yours, not_grantable, may_change, write_role,
  update_organization_member_role,
}
use uscs.Members.Owners.{has_owner, edited, edited-not-owner, edited-owner, other_owners-edited}

module _ {W : Type 0} (deps : OrgDeps W) where
  -- A change of a member's role that was made.
  pub record Changed (ctx : RequestContext) (input : RoleInput) : Type 0 where
    pub caller : OrgRole
    pub target : OrganizationMember
    pub members : List OrganizationMember
    pub before : W
    pub afterwards : W
    pub permitted : require_capability ctx input.organization_id "member:invite" ≡ value tt
    pub ranked : role_for ctx input.organization_id ≡ some caller
    pub of_another : (input.member_id === ctx.principal.user_id) ≡ false
    pub listed :
        deps.list_organization_members ctx.principal.user_id input.organization_id before
        ≡ (value members, afterwards)
    pub found : find (has_id input.member_id) members ≡ some target
    pub below : is_owner caller ≡ false → is_owner target.role ≡ false
    pub grants : is_owner caller ≡ false → is_owner input.role ≡ false
    pub keeps :
        has_owner members ≡ true
        → has_owner (edited input.member_id (some input.role) members) ≡ true

  abbrev Clear : OrgRole → OrganizationMember → OrgRole → String → List OrganizationMember → Type 0
  Clear caller target role id members =
      ((not (is_owner caller) && is_owner target.role) ≡ false)
      × ((not (is_owner caller) && is_owner role) ≡ false)
      × ((is_owner target.role && not (is_owner role) && is_last_owner id members) ≡ false)

  may_change-Returning :
      (caller : OrgRole) (target : OrganizationMember) (role : OrgRole) (id : String)
      (members : List OrganizationMember)
      → Returning
          (λ _. Clear caller target role id members)
          (may_change deps caller target role id members)
  unfolding may_change
  may_change-Returning caller target role id members =
      >>=-Returning _ (raise_if (not (is_owner caller) && is_owner target.role) not_yours) _
        (λ a v v' e.
          >>=-Returning _ (raise_if (not (is_owner caller) && is_owner role) not_grantable) _
            (λ b u u' f. record {
              gives = λ w w' c g. (
                raise_if-value _ not_yours a v v' e,
                raise_if-value _ not_grantable b u u' f,
                raise_if-value _ cannot_demote c w w' g,
              );
            }))

  keeps_owner :
      (target : OrganizationMember) (role : OrgRole) (id : String)
      (members : List OrganizationMember)
      → find (has_id id) members ≡ some target
      → (is_owner target.role && not (is_owner role) && is_last_owner id members) ≡ false
      → has_owner members ≡ true
      → has_owner (edited id (some role) members) ≡ true
  keeps_owner target role id members h k l = elim (Bool-cases (is_owner target.role)) [
    | inr e ↦ edited-not-owner id (some role) members target h e l
    | inl e ↦ elim (Bool-cases (is_owner role)) [
      | inl f ↦ edited-owner id role members target h f
      | inr f ↦ other_owners-edited id (some role) members (simp (e, f) at k)
    ]
  ]

  change-Returning :
      (ctx : RequestContext) (input : RoleInput)
      → Returning (λ _. Changed ctx input) (update_organization_member_role deps ctx input)
  unfolding update_organization_member_role
  change-Returning ctx input =
      >>=-Returning _ (require ctx input.organization_id "member:invite") _ (λ a v v' e.
        >>=-Returning _ (found_or (role_for ctx input.organization_id) organization_not_found) _
          (λ caller u u' f.
            >>=-Returning _ (raise_if (input.member_id === ctx.principal.user_id) own_role) _
              (λ b t t' g.
                >>=-Returning _
                  (deps.list_organization_members ctx.principal.user_id input.organization_id) _
                  (λ members s s' h.
                    >>=-Returning _
                      (found_or (find (has_id input.member_id) members) member_not_found) _
                      (λ target r r' k.
                        >>=-Returning _
                          (may_change deps caller target input.role input.member_id members) _
                          (λ c q q' l.
                            let (x, y, z) =
                              (may_change-Returning caller target input.role input.member_id
                                  members).gives
                                q q' c l in
                            let here = found_or-value _ member_not_found target r r' k in
                            holds-Returning (write_role deps ctx input target) (record {
                              caller = caller;
                              target = target;
                              members = members;
                              before = s;
                              afterwards = s';
                              permitted =
                                  require-value ctx input.organization_id "member:invite" a v v' e;
                              ranked = found_or-value _ organization_not_found caller u u' f;
                              of_another = raise_if-value _ own_role b t t' g;
                              listed = h;
                              found = here;
                              below = λ o. simp o at x;
                              grants = λ o. simp o at y;
                              keeps = keeps_owner target input.role input.member_id members here z;
                            })))))))

  -- If a change of a member's role returns, then the caller has the capability `member:invite`
  -- and is not the member; unless the caller is an owner, neither the member nor the new role is
  -- one; and if the members that the store listed had an owner, they have one after the change.
  pub update_organization_member_role-Changed :
      (ctx : RequestContext) (input : RoleInput) (updated : OrganizationMember) (w w' : W)
      → update_organization_member_role deps ctx input w ≡ (value updated, w')
      → Changed ctx input
  update_organization_member_role-Changed ctx input updated w w' h =
      (change-Returning ctx input).gives w w' updated h
