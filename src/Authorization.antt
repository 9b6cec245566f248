-- ===== src/Authorization.antt =====
-- packages/authorization/src/index.ts: the permission matrix and the role lookup.
-- A capability is a text of the list `capabilities`, as the string union is at run time.
pub mod Lattice
use uscs.Common.{
  String, Bool, true, false, not, ◌&&◌, Option, none, some, List, [], ◌∷◌, ◌===◌, find, filter,
  includes,
}
use uscs.Contracts.{Principal}

pub data OrgRole : Type 0 where
  owner admin member viewer : OrgRole

abbrev pub capabilities : List String
capabilities =
    "org:read" ∷ "org:update" ∷ "org:delete" ∷ "member:read" ∷ "member:invite" ∷ "member:remove"
    ∷ "project:read" ∷ "project:create" ∷ "project:update" ∷ "project:delete" ∷ "deployment:read"
    ∷ "deployment:create" ∷ "deployment:cancel" ∷ "deployment:rollback" ∷ "data:read"
    ∷ "data:create" ∷ "data:backup" ∷ "data:restore" ∷ "data:rotate" ∷ "data:destroy"
    ∷ "domain:read" ∷ "domain:create" ∷ "domain:verify" ∷ "domain:delete" ∷ "security:read"
    ∷ "security:update" ∷ "security:quarantine" ∷ "apikey:read" ∷ "apikey:create" ∷ "apikey:revoke"
    ∷ "billing:read" ∷ "billing:manage" ∷ "audit:read" ∷ []

unfoldable pub role_capabilities : OrgRole → List String
role_capabilities owner = capabilities
role_capabilities admin =
    filter (λ c. not (c === "org:delete") && not (c === "billing:manage")) capabilities
role_capabilities member =
    "org:read" ∷ "member:read" ∷ "project:read" ∷ "project:create" ∷ "project:update"
    ∷ "deployment:read" ∷ "deployment:create" ∷ "deployment:cancel" ∷ "data:read" ∷ "domain:read"
    ∷ "security:read" ∷ "apikey:read" ∷ "billing:read" ∷ "audit:read" ∷ []
role_capabilities viewer =
    "org:read" ∷ "member:read" ∷ "project:read" ∷ "deployment:read" ∷ "data:read" ∷ "domain:read"
    ∷ "security:read" ∷ "billing:read" ∷ "audit:read" ∷ []

pub record Membership : Type 0 where
  pub organization_id : String
  pub user_id : String
  pub role : OrgRole

unfoldable pub has_capability : OrgRole → String → Bool
has_capability role capability = includes (role_capabilities role) capability

-- The test of `memberships.find(...)`, which every lookup of a membership shares.
abbrev pub is_membership_of : String → String → Membership → Bool
is_membership_of organization user m = (m.organization_id === organization) && (m.user_id === user)

abbrev pub role_of : Option Membership → Option OrgRole
role_of none = none
role_of (some m) = some m.role

unfoldable pub role_in : List Membership → String → Principal → Option OrgRole
role_in memberships organization principal =
    role_of (find (is_membership_of organization principal.user_id) memberships)

abbrev pub role_grants : Option OrgRole → String → Bool
role_grants none capability = false
role_grants (some role) capability = has_capability role capability

unfoldable pub can : List Membership → String → Principal → String → Bool
unfolding role_in
can memberships organization principal capability =
    role_grants (role_in memberships organization principal) capability
