-- ===== src/Authorization/Lattice.antt =====
-- The roles of packages/authorization/src/index.ts are ordered by what they grant.
use uscs.Common.{
  ℕ, ◌≤◌, ◌≡◌, refl, String, true, Option, none, some, List, arith, find, includes_subset,
}
use uscs.Contracts.{Principal}
use uscs.Authorization.{
  OrgRole, owner, admin, member, viewer, role_capabilities, Membership, has_capability,
  is_membership_of, role_of, role_grants, can,
}

abbrev pub rank : OrgRole → ℕ
rank viewer = 0
rank member = 1
rank admin = 2
rank owner = 3

-- A role of a higher rank, in the order viewer, member, admin, owner, grants every capability
-- that one of a lower rank grants.
pub has_capability_mono :
    (low high : OrgRole) (c : String)
    → rank low ≤ rank high
    → has_capability low c ≡ true
    → has_capability high c ≡ true
unfolding has_capability role_capabilities
has_capability_mono viewer viewer c h e = e
has_capability_mono viewer member c h e =
    includes_subset (role_capabilities viewer) (role_capabilities member) c refl e
has_capability_mono viewer admin c h e =
    includes_subset (role_capabilities viewer) (role_capabilities admin) c refl e
has_capability_mono viewer owner c h e =
    includes_subset (role_capabilities viewer) (role_capabilities owner) c refl e
has_capability_mono member viewer c h e = absurd (omega arith)
has_capability_mono member member c h e = e
has_capability_mono member admin c h e =
    includes_subset (role_capabilities member) (role_capabilities admin) c refl e
has_capability_mono member owner c h e =
    includes_subset (role_capabilities member) (role_capabilities owner) c refl e
has_capability_mono admin viewer c h e = absurd (omega arith)
has_capability_mono admin member c h e = absurd (omega arith)
has_capability_mono admin admin c h e = e
has_capability_mono admin owner c h e =
    includes_subset (role_capabilities admin) (role_capabilities owner) c refl e
has_capability_mono owner viewer c h e = absurd (omega arith)
has_capability_mono owner member c h e = absurd (omega arith)
has_capability_mono owner admin c h e = absurd (omega arith)
has_capability_mono owner owner c h e = e

role_grants-some :
    (o : Option Membership) (c : String)
    → role_grants (role_of o) c ≡ true
    → (m : Membership) × (o ≡ some m) × (has_capability m.role c ≡ true)
role_grants-some none c h = cc
role_grants-some (some m) c h = (m, refl, h)

-- A granted capability comes from the first membership of that user in that organization.
pub can_needs_membership :
    (ms : List Membership) (organization : String) (p : Principal) (c : String)
    → can ms organization p c ≡ true
    → (m : Membership) × (find (is_membership_of organization p.user_id) ms ≡ some m)
      × (has_capability m.role c ≡ true)
unfolding can
can_needs_membership ms organization p c h =
    role_grants-some (find (is_membership_of organization p.user_id) ms) c h
