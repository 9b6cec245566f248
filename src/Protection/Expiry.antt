-- ===== src/Protection/Expiry.antt =====
-- packages/database/src/protection.ts: when a route is compiled open.
use uscs.Common.{
  ℕ, String, true, false, Option, none, some, ◌≡◌, ◌≢◌, ◌↔◌, refl, sym, ◌⊎◌, inl, inr, Bool-cases,
  false≢true, ◌===◌,
}
use uscs.Io.{truthy}
use uscs.Protection.{
  DeploymentMode, open_to_all, by_ip, by_password, DeploymentProtection, unprotected,
  deployment_protection_is_active, compiled_protection_for, compiled_active,
}

compiled_active-unprotected :
    (m : DeploymentMode) (protection : DeploymentProtection) (digest : Option String)
    → m ≢ open_to_all
    → (compiled_active m protection digest ≡ unprotected)
      ↔ ((m ≡ by_password) × (truthy digest ≡ none))
compiled_active-unprotected open_to_all protection digest h = absurd (h refl)
compiled_active-unprotected by_ip protection digest h = (λ e. cc, λ (e, _). cc)
compiled_active-unprotected by_password protection none h = (λ e. (refl, refl), λ _. refl)
compiled_active-unprotected by_password protection (some d) h = elim (Bool-cases (d === "")) [
  | inl empty ↦ rw empty (λ e. (refl, refl), λ _. refl)
  | inr full ↦ rw full (λ e. cc, λ (_, e). cc)
]

active-closed :
    (protection : DeploymentProtection) (now : ℕ)
    → deployment_protection_is_active protection now ≡ true
    → protection.mode ≢ open_to_all
unfolding deployment_protection_is_active
active-closed protection now active e = false≢true (rw e at active)

-- A route is compiled open exactly when its protection is not in effect or is a password without
-- a digest.
pub compiled-unprotected_iff :
    (protection : DeploymentProtection) (digest : Option String) (now : ℕ)
    → (compiled_protection_for (some protection) digest now ≡ unprotected) ↔ (
        (deployment_protection_is_active protection now ≡ false)
        ⊎ ((protection.mode ≡ by_password) × (truthy digest ≡ none)))
unfolding compiled_protection_for
compiled-unprotected_iff protection digest now =
    elim (Bool-cases (deployment_protection_is_active protection now)) [
      | inl active ↦
          let (there, back) =
            compiled_active-unprotected protection.mode protection digest
              (active-closed protection now active) in
          rw active (
            (λ e. inr (there e)),
            (λ h. elim h [ inl lapsed ↦ absurd (false≢true (sym lapsed)) | inr bare ↦ back bare ]),
          )
      | inr lapsed ↦ rw lapsed (λ e. inl refl, λ _. refl)
    ]
