-- ===== src/Api/Guard.antt =====
-- apps/api/src/guard.ts: the scope guard. `RequestContext` and `ApiKeyAuth` are those of
-- apps/api/src/context.ts.
pub mod Laws
use uscs.Common.{
  String, Bool, true, false, not, Option, none, some, List, [], ◌∷◌, ◌===◌, includes, if◌then◌else◌,
}
use uscs.Contracts.{Principal}
use uscs.Authorization.{OrgRole, Membership, role_in, can}
use uscs.Api.Action.{ErrorCode, not_found, forbidden, ApiError, Failure, api, Result, value, throws}

pub record ApiKeyAuth : Type 0 where
  pub key_id : String
  pub organization_id : String
  pub scopes : List String

pub record RequestContext : Type 0 where
  pub principal : Principal
  pub memberships : List Membership
  pub api_key : Option ApiKeyAuth

-- `key.organizationId !== organizationId`
abbrev pub is_foreign : ApiKeyAuth → String → Bool
is_foreign key organization = not (key.organization_id === organization)

-- The part of `allowed` that a key narrows.
abbrev pub key_permits : Option ApiKeyAuth → String → String → Bool
key_permits none organization capability = true
key_permits (some key) organization capability =
    if is_foreign key organization then false else includes key.scopes capability

unfoldable pub allowed : RequestContext → String → String → Bool
allowed ctx organization capability =
    if can ctx.memberships organization ctx.principal capability
    then key_permits ctx.api_key organization capability
    else false

unfoldable pub role_for : RequestContext → String → Option OrgRole
role_for ctx organization = role_in ctx.memberships organization ctx.principal

abbrev pub organization_not_found : Failure
organization_not_found =
    api (record { code = not_found; message = "Organization not found."; details = [] })

abbrev pub requires_capability : String → Failure
requires_capability capability = api (record {
  code = forbidden;
  message =
      Prim.Native.String.◌++◌ "Requires capability: " (Prim.Native.String.◌++◌ capability ".");
  details = [];
})

abbrev key_is_foreign : Option ApiKeyAuth → String → Bool
key_is_foreign none organization = false
key_is_foreign (some key) organization = is_foreign key organization

abbrev pub is_member : Option OrgRole → Bool
is_member none = false
is_member (some _) = true

unfoldable pub require_capability : RequestContext → String → String → Result (Unit {0})
unfolding role_for
require_capability ctx organization capability =
    if key_is_foreign ctx.api_key organization
    then throws organization_not_found
    else if not (is_member (role_for ctx organization))
    then throws organization_not_found
    else if not (allowed ctx organization capability)
    then throws (requires_capability capability)
    else value tt
