-- ===== src/Members/Owners.antt =====
-- The owners among the members of an organization, before and after a change.
use uscs.Common.{
  String, Bool, true, false, Option, none, some, List, [], ◌∷◌, find, any, get_or_else, Bool-cases,
  inl, inr, ◌≡◌, ap, ◌∙◌, arith, if◌then◌else◌,
}
use uscs.Authorization.{OrgRole}
use uscs.Members.{OrganizationMember, is_owner, has_id, is_last_owner}

some_eq : {A : Type 0} {a b : A} → some a ≡ some b → a ≡ b
some_eq {A} {a} e = ap (λ o. get_or_else o a) e

-- Whether there is an owner.
abbrev pub has_owner : List OrganizationMember → Bool
has_owner = any (λ m. is_owner m.role)

-- The members once the first of an id has a new role, or is gone.
abbrev pub edited : String → Option OrgRole → List OrganizationMember → List OrganizationMember
edited id change [] = []
edited id none (m ∷ ms) = let rest = edited id none ms in if has_id id m then ms else m ∷ rest
edited id (some role) (m ∷ ms) =
    let rest = edited id (some role) ms in
    if has_id id m then record m { role = role } ∷ ms else m ∷ rest

-- Another owner is an owner.
other_owners-has_owner :
    (id : String) (ms : List OrganizationMember) → is_last_owner id ms ≡ false → has_owner ms ≡ true
other_owners-has_owner id [] h = ground arith
other_owners-has_owner id (m ∷ ms) h = ground (arith, other_owners-has_owner id ms)

-- Another owner stays.
pub other_owners-edited :
    (id : String) (change : Option OrgRole) (ms : List OrganizationMember)
    → is_last_owner id ms ≡ false
    → has_owner (edited id change ms) ≡ true
other_owners-edited id change [] h = ground arith
other_owners-edited id none (m ∷ ms) h =
    ground (arith, other_owners-edited id none ms, other_owners-has_owner id ms)
other_owners-edited id (some role) (m ∷ ms) h =
    ground (arith, other_owners-edited id (some role) ms, other_owners-has_owner id ms)

-- The owners are others than a member who is none.
pub edited-not-owner :
    (id : String) (change : Option OrgRole) (ms : List OrganizationMember) (t : OrganizationMember)
    → find (has_id id) ms ≡ some t
    → is_owner t.role ≡ false
    → has_owner ms ≡ true
    → has_owner (edited id change ms) ≡ true
edited-not-owner id change [] t h k l = cc
edited-not-owner id none (m ∷ ms) t h k l = elim (Bool-cases (has_id id m)) [
  | inl e ↦
      let same : m ≡ t = some_eq (simp e at h) in
      let plain : is_owner m.role ≡ false =
        ap (λ (x : OrganizationMember). is_owner x.role) same ∙ k in
      simp (e, plain) (simp plain at l)
  | inr e ↦ ground (arith, e, edited-not-owner id none ms t (simp e at h) k)
]
edited-not-owner id (some role) (m ∷ ms) t h k l = elim (Bool-cases (has_id id m)) [
  | inl e ↦
      let same : m ≡ t = some_eq (simp e at h) in
      let plain : is_owner m.role ≡ false =
        ap (λ (x : OrganizationMember). is_owner x.role) same ∙ k in
      ground (arith, e, plain, l)
  | inr e ↦ ground (arith, e, edited-not-owner id (some role) ms t (simp e at h) k)
]

-- Whoever becomes an owner is one.
pub edited-owner :
    (id : String) (role : OrgRole) (ms : List OrganizationMember) (t : OrganizationMember)
    → find (has_id id) ms ≡ some t
    → is_owner role ≡ true
    → has_owner (edited id (some role) ms) ≡ true
edited-owner id role [] t h k = cc
edited-owner id role (m ∷ ms) t h k = elim (Bool-cases (has_id id m)) [
  | inl e ↦ ground (arith, e, k)
  | inr e ↦ ground (arith, e, edited-owner id role ms t (simp e at h) k)
]
