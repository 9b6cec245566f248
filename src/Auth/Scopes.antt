-- ===== src/Auth/Scopes.antt =====
-- A key's authority lies within its stored scopes and within its owner's role.
use uscs.Common.{
  ℕ, ◌≡◌, refl, ◌↔◌, String, Bool, true, ◌&&◌, ◌||◌, Option, none, some, List, [], ◌∷◌, arith, find,
  includes, includes-filter, eq_iff, ◌∙◌, ap, Bool-cases, includes-filter_iff, &&-eq-true, &&-intro,
  sym, false≢true, inl, inr,
}
use uscs.Authorization.{
  OrgRole, Membership, role_of, role_grants, has_capability, is_membership_of, capabilities,
}
use uscs.Auth.ApiKeys.{
  ApiKeyAuthority, unique_from, bounded_scopes, is_key_active, scopes_within, effective_scopes,
}

includes-unique_from :
    (seen xs : List String) (s : String)
    → includes seen s || includes (unique_from seen xs) s ≡ includes seen s || includes xs s
unfolding unique_from
includes-unique_from seen [] s = refl
includes-unique_from seen (x ∷ xs) s = ground (
  arith,
  includes-unique_from (x ∷ seen) xs s,
  includes-unique_from seen xs s,
  eq_iff x s,
  ap (includes seen),
)

-- The scopes of a new key are exactly those that were requested and that the owner's role grants.
pub includes-bounded_scopes :
    (requested : List String) (role : OrgRole) (c : String)
    → includes (bounded_scopes requested role) c ≡ (includes requested c && has_capability role c)
unfolding bounded_scopes
includes-bounded_scopes requested role c =
    includes-filter (has_capability role) (unique_from [] requested) c
    ∙ ap (λ b. b && has_capability role c) (includes-unique_from [] requested c)

-- What an active key may do now: its scope, in the vocabulary, that the owner's present role grants.
abbrev pub Grants : ApiKeyAuthority → List Membership → ℕ → String → Type 0
Grants key ms now c =
    (is_key_active key now ≡ true)
    × (includes key.scopes c ≡ true)
    × (includes capabilities c ≡ true)
    × ((m : Membership) × (find (is_membership_of key.organization_id key.owner_id) ms ≡ some m)
        × (has_capability m.role c ≡ true))

within : Membership → String → Bool
within m scope = includes capabilities scope && has_capability m.role scope

scopes_within_sound :
    (o : Option Membership) (scopes : List String) (c : String)
    → includes (scopes_within o scopes) c ≡ true
    → (includes scopes c ≡ true)
      × (includes capabilities c ≡ true)
      × ((m : Membership) × (o ≡ some m) × (has_capability m.role c ≡ true))
unfolding within
scopes_within_sound none scopes c h = cc
scopes_within_sound (some m) scopes c h =
    let (s, both) = (includes-filter_iff (within m) scopes c).0 h in
    let (v, g) = &&-eq-true (includes capabilities c) (has_capability m.role c) both in
    (s, v, (m, refl, g))

scopes_within_complete :
    (o : Option Membership) (m : Membership) (scopes : List String) (c : String)
    → o ≡ some m
    → includes scopes c ≡ true
    → includes capabilities c ≡ true
    → has_capability m.role c ≡ true
    → includes (scopes_within o scopes) c ≡ true
unfolding within
scopes_within_complete none m scopes c found s v h = cc
scopes_within_complete (some n) m scopes c found s v h =
    let g = sym (ap (λ (o : Option Membership). role_grants (role_of o) c) found) in
    (includes-filter_iff (within n) scopes c).1
      (s, &&-intro (includes capabilities c) (has_capability n.role c) v (sym g ∙ h))

-- A text is an effective scope of a key exactly when the key is active, stores it, it is in the
-- vocabulary, and the first membership of the key's owner in the key's organization grants it.
pub effective_scopes_iff :
    (key : ApiKeyAuthority) (ms : List Membership) (now : ℕ) (c : String)
    → (includes (effective_scopes key ms now) c ≡ true) ↔ Grants key ms now c
unfolding effective_scopes
effective_scopes_iff key ms now c = (forth, back)
  where
    forth : includes (effective_scopes key ms now) c ≡ true → Grants key ms now c
    forth h = elim (Bool-cases (is_key_active key now)) [
      | inl active ↦
          let o = find (is_membership_of key.organization_id key.owner_id) ms in
          let (s, v, m) = scopes_within_sound o key.scopes c (rw active at h) in (active, s, v, m)
      | inr inactive ↦ absurd (false≢true (rw inactive at h))
    ]

    back : Grants key ms now c → includes (effective_scopes key ms now) c ≡ true
    back (active, s, v, (m, found, h)) = rw active (
        scopes_within_complete (find (is_membership_of key.organization_id key.owner_id) ms) m
          key.scopes c found s v h)
