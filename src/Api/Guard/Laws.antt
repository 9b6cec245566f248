-- ===== src/Api/Guard/Laws.antt =====
-- What the scope guard of apps/api/src/guard.ts admits, and what its refusals reveal.
use uscs.Common.{
  ◌≡◌, refl, ◌↔◌, ◌⊎◌, inl, inr, String, true, false, Option, none, some, arith, includes,
  eq_of_===, ===_of_eq, Bool-cases, false≢true, sym, ◌∙◌,
}
use uscs.Authorization.{can}
use uscs.Api.Action.{value, throws}
use uscs.Api.Guard.{
  ApiKeyAuth, RequestContext, key_permits, allowed, role_for, organization_not_found,
  key_is_foreign, is_member, require_capability,
}

-- What a key lets through: nothing to check for a session, else its organization and scopes.
abbrev pub KeyAdmits : Option ApiKeyAuth → String → String → Type 0
KeyAdmits none organization c = Unit
KeyAdmits (some key) organization c =
    (key.organization_id ≡ organization) × (includes key.scopes c ≡ true)

key_permits_iff :
    (o : Option ApiKeyAuth) (organization c : String)
    → (key_permits o organization c ≡ true) ↔ KeyAdmits o organization c
key_permits_iff none organization c = (λ _. tt, λ _. refl)
key_permits_iff (some key) organization c = (
  λ h. (eq_of_=== key.organization_id organization (ground arith), ground arith),
  λ h. rw (===_of_eq key.organization_id organization h.0) h.1,
)

-- A request may act in an organization exactly when the owner's membership grants the capability
-- and, for a request with an API key, the key is of that organization and has the scope.
pub allowed_iff :
    (ctx : RequestContext) (organization c : String)
    → (allowed ctx organization c ≡ true) ↔ (
        (can ctx.memberships organization ctx.principal c ≡ true)
        × KeyAdmits ctx.api_key organization c)
unfolding allowed
allowed_iff ctx organization c =
    elim (Bool-cases (can ctx.memberships organization ctx.principal c)) [
      | inl yes_member ↦ (
        λ h. (yes_member, (key_permits_iff ctx.api_key organization c).0 (rw yes_member at h)),
        λ h. rw yes_member ((key_permits_iff ctx.api_key organization c).1 h.1),
      )
      | inr no_member ↦ (
        λ h. absurd (false≢true (rw no_member at h)),
        λ h. absurd (false≢true (sym no_member ∙ h.0)),
      )
    ]

-- Those to whom the organization does not exist: non-members, and keys of another organization.
abbrev pub IsStranger : RequestContext → String → Type 0
IsStranger ctx organization =
    (role_for ctx organization ≡ none) ⊎ (key_is_foreign ctx.api_key organization ≡ true)

-- `requireCapability` answers `Organization not found.` exactly to those who have no role in the
-- organization and to keys of another organization, whatever capability is asked for.
pub require_capability-not_found_iff :
    (ctx : RequestContext) (organization c : String)
    → (require_capability ctx organization c ≡ throws organization_not_found)
      ↔ IsStranger ctx organization
unfolding require_capability
require_capability-not_found_iff ctx organization c = (λ h. ground arith, λ h. ground arith)

member_of_can :
    (ctx : RequestContext) (organization c : String)
    → can ctx.memberships organization ctx.principal c ≡ true
    → is_member (role_for ctx organization) ≡ true
unfolding can role_for
member_of_can ctx organization c h = ground arith

not_foreign :
    (o : Option ApiKeyAuth) (organization c : String)
    → KeyAdmits o organization c
    → key_is_foreign o organization ≡ false
not_foreign none organization c h = refl
not_foreign (some key) organization c h = rw (===_of_eq key.organization_id organization h.0)

-- `requireCapability` returns exactly when `allowed` holds.
pub require_capability-value_iff :
    (ctx : RequestContext) (organization c : String)
    → (require_capability ctx organization c ≡ value tt) ↔ (allowed ctx organization c ≡ true)
unfolding require_capability
require_capability-value_iff ctx organization c = (
  λ h. ground arith,
  λ h.
      let (granted, key) = (allowed_iff ctx organization c).0 h in
      ground (
        arith,
        member_of_can ctx organization c granted,
        not_foreign ctx.api_key organization c key,
      ),
)
