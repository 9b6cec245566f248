-- ===== src/Security.antt =====
-- packages/security/src/index.ts: policies, their validation, and the order of their versions.
-- A version is a natural number; the other numbers that the source refuses are not modelled.
-- `decimal` prints a number. A test answers `none`, or the reason of its refusal.
pub mod Registry
pub mod Incidents
pub mod Distribution
mod Tests
use Prim.Native.String.{◌++◌ as ◌<>◌}
use uscs.Common.{
  ℕ, String, Bool, true, false, Option, none, some, List, [], ◌∷◌, if◌then◌else◌, ltb, ◌===◌, not,
  includes, utf16_length, is_blank,
}

abbrev pub risk_levels : List String
risk_levels = "low" ∷ "medium" ∷ "high" ∷ "critical" ∷ []

abbrev pub enforcement_actions : List String
enforcement_actions = "allow" ∷ "log" ∷ "challenge" ∷ "block" ∷ "quarantine" ∷ []

pub record SecurityPolicy : Type 0 where
  pub id : String
  pub organization_id : String
  pub name : String
  pub risk_level : String
  pub action : String
  pub version : ℕ

pub record PolicyVersion : Type 0 where
  pub policy_id : String
  pub version : ℕ

unfoldable pub validate_policy : SecurityPolicy → Option String
validate_policy policy =
    if is_blank policy.name
    then some "A policy must have a name."
    else if ltb 120 (utf16_length policy.name)
    then some "A policy name is at most 120 characters."
    else if ltb policy.version 1
    then some "A policy version must be a positive integer."
    else if not (includes risk_levels policy.risk_level)
    then some "Unknown risk level."
    else if not (includes enforcement_actions policy.action)
    then some "Unknown enforcement action."
    else none

abbrev stale_reason : (decimal : ℕ → String) → ℕ → ℕ → String
stale_reason decimal candidate active =
    "Version "
    <> (decimal candidate
        <> (" is older than the active version "
            <> (decimal active <> ". Policy never rolls backwards.")))

unfoldable pub may_distribute :
    (decimal : ℕ → String) → PolicyVersion → Option PolicyVersion → Option String
may_distribute decimal candidate none = none
may_distribute decimal candidate (some active) =
    if not (candidate.policy_id === active.policy_id)
    then some "The candidate policy is not the active policy."
    else if ltb candidate.version active.version
    then some (stale_reason decimal candidate.version active.version)
    else none
