-- ===== src/Protection.antt =====
-- packages/database/src/protection.ts: when a posture is in effect, and what a route is compiled to.
-- An expiry is the time that its text names in milliseconds, or `unreadable` for a text that is no
-- date, which no comparison holds of; `now` is `now.getTime()`.
pub mod Expiry
mod Tests
use uscs.Common.{
  ℕ, String, Bool, true, false, Option, none, some, List, get_or_else, ltb, if◌then◌else◌, not,
}
use uscs.Io.{truthy}

pub data Instant : Type 0 where
  at : ℕ → Instant
  unreadable : Instant

pub data ProtectionMode : Type 0 where
  off attack : ProtectionMode

pub data DeploymentMode : Type 0 where
  open_to_all by_ip by_password : DeploymentMode

pub record DeploymentProtection : Type 0 where
  pub mode : DeploymentMode
  pub allowed_cidrs : List String
  pub basic_user : Option String
  pub expires_at : Option Instant

pub data CompiledProtection : Type 0 where
  unprotected : CompiledProtection
  ip : List String → CompiledProtection
  password : (basic_user basic_password_sha256 : String) → CompiledProtection

-- `new Date(expiresAt).getTime() > now.getTime()`
abbrev pub is_later : Instant → ℕ → Bool
is_later (at t) now = ltb now t
is_later unreadable now = false

abbrev pub unexpired : Option Instant → ℕ → Bool
unexpired none now = true
unexpired (some t) now = is_later t now

unfoldable pub protection_is_active : ProtectionMode → Option Instant → ℕ → Bool
protection_is_active attack expires_at now = unexpired expires_at now
protection_is_active off expires_at now = false

unfoldable pub deployment_protection_is_active : DeploymentProtection → ℕ → Bool
deployment_protection_is_active protection now = elim protection.mode [
  | open_to_all ↦ false
  | _ ↦ unexpired protection.expires_at now
]

abbrev with_digest : Option String → DeploymentProtection → CompiledProtection
with_digest none protection = unprotected
with_digest (some digest) protection = password (get_or_else protection.basic_user "") digest

-- From a posture that is in effect on.
abbrev compiled_active : DeploymentMode → DeploymentProtection → Option String → CompiledProtection
compiled_active by_ip protection digest = ip protection.allowed_cidrs
compiled_active _ protection digest = with_digest (truthy digest) protection

unfoldable pub compiled_protection_for :
    Option DeploymentProtection → Option String → ℕ → CompiledProtection
compiled_protection_for none digest now = unprotected
compiled_protection_for (some protection) digest now =
    if not (deployment_protection_is_active protection now)
    then unprotected
    else compiled_active protection.mode protection digest
