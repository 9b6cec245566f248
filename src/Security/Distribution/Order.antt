-- ===== src/Security/Distribution/Order.antt =====
-- apps/security-control/src/index.ts: what recording a version does to the active ones.
use uscs.Common.{
  ℕ, ◌≤◌, String, Bool, false, Option, none, some, ◌≡◌, refl, subst, ap, sym, ◌∙◌, inl, inr, arith,
  Bool-cases, if◌then◌else◌, ◌===◌, ltb, ◌&&◌, eq_iff,
}
use uscs.Security.{SecurityPolicy, PolicyVersion, may_distribute}
use uscs.Security.Registry.{PolicyRegistry, record_version, record_over, set}
use uscs.Security.Distribution.{candidate_of, recorded_version}

-- What was active is still active, with the same version or a newer one.
abbrev pub NotBack : PolicyRegistry → PolicyRegistry → Type 0
NotBack before after =
    (organization_id : String) (v : PolicyVersion)
    → before organization_id ≡ some v
    → (v' : PolicyVersion) × (after organization_id ≡ some v')
      × (v'.policy_id ≡ v.policy_id)
      × (v.version ≤ v'.version)

pub not_back : (r : PolicyRegistry) → NotBack r r
not_back r o v e = (v, e, refl, omega arith)

pub NotBack-trans : (r s t : PolicyRegistry) → NotBack r s → NotBack s t → NotBack r t
NotBack-trans r s t h k o v e =
    let (v1, e1, same1, le1) = h o v e in
    let (v2, e2, same2, le2) = k o v1 e1 in (v2, e2, same2 ∙ same1, omega (arith, le1, le2))

allowed-order :
    (decimal : ℕ → String) (policy : SecurityPolicy) (cur : PolicyVersion)
    → may_distribute decimal (candidate_of policy) (some cur) ≡ none
    → (policy.id ≡ cur.policy_id) × (cur.version ≤ policy.version)
unfolding may_distribute
allowed-order decimal policy cur allowed = ground (arith, eq_iff policy.id cur.policy_id)

pub recorded-le :
    (policy : SecurityPolicy) (n : ℕ) → policy.version ≤ (recorded_version policy n).version
recorded-le policy n = ground arith

pub engine-le : (policy : SecurityPolicy) (n : ℕ) → n ≤ (recorded_version policy n).version
engine-le policy n = ground arith

pub record-sets :
    (decimal : ℕ → String) (registry : PolicyRegistry) (id : String) (policy : SecurityPolicy)
    (n : ℕ) (o : Option PolicyVersion)
    → may_distribute decimal (candidate_of policy) o ≡ none
    → record_over registry id (recorded_version policy n) o
      ≡ set registry id (recorded_version policy n)
record-sets decimal registry id policy n none allowed = refl
record-sets decimal registry id policy n (some cur) allowed =
    let (same, order) = allowed-order decimal policy cur allowed in
    let later = recorded-le policy n in
    let fresh : cur.version ≤ (recorded_version policy n).version = omega (arith, order, later) in
    if-false registry (set registry id (recorded_version policy n))
      (((recorded_version policy n).policy_id === cur.policy_id)
        && ltb (recorded_version policy n).version cur.version)
      (and-false ((recorded_version policy n).policy_id === cur.policy_id) _
        (not-below (recorded_version policy n).version cur.version fresh))
  where
    not-below : (a b : ℕ) → b ≤ a → ltb a b ≡ false
    not-below a b h = ground arith

    and-false : (a b : Bool) → b ≡ false → (a && b) ≡ false
    and-false a b h = ground arith

    if-false : (x y : PolicyRegistry) (b : Bool) → b ≡ false → (if b then x else y) ≡ y
    if-false x y b h = rw h refl

set-NotBack :
    (registry : PolicyRegistry) (id : String) (new : PolicyVersion) (o : String) (v : PolicyVersion)
    → ((cur : PolicyVersion)
        → registry id ≡ some cur
        → (new.policy_id ≡ cur.policy_id) × (cur.version ≤ new.version))
    → registry o ≡ some v
    → (v' : PolicyVersion) × (set registry id new o ≡ some v')
      × (v'.policy_id ≡ v.policy_id)
      × (v.version ≤ v'.version)
set-NotBack registry id new o v newer e = elim (Bool-cases (o === id)) [
  | inl same ↦
      let (policy, order) = newer v (ap registry (sym ((eq_iff o id).0 same)) ∙ e) in
      (new, (rw same refl), policy, order)
  | inr other ↦ (v, (rw other e), refl, omega arith)
]

pub record-NotBack :
    (decimal : ℕ → String) (registry : PolicyRegistry) (id : String) (policy : SecurityPolicy)
    (n : ℕ)
    → may_distribute decimal (candidate_of policy) (registry id) ≡ none
    → NotBack registry (record_version registry id (recorded_version policy n))
unfolding record_version
record-NotBack decimal registry id policy n allowed o v e =
    subst
      (λ (r : PolicyRegistry).
        (v' : PolicyVersion) × (r o ≡ some v')
        × (v'.policy_id ≡ v.policy_id)
        × (v.version ≤ v'.version))
      (sym (record-sets decimal registry id policy n (registry id) allowed))
      (set-NotBack registry id (recorded_version policy n) o v
        (λ cur is_cur.
          let (same, order) =
            allowed-order decimal policy cur
              (ap (may_distribute decimal (candidate_of policy)) (sym is_cur) ∙ allowed) in
          let later = recorded-le policy n in (same, omega (arith, order, later)))
        e)
