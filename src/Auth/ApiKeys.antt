-- ===== src/Auth/ApiKeys.antt =====
-- packages/auth/src/api-keys.ts. Times are milliseconds since the epoch; the SHA-256 of a
-- secret and the random part of a new one come from the platform and are arguments.
use Prim.Native.String
use uscs.Common.{
  utf16_length, ℕ, zero, suc, String, Bool, true, false, not, ◌&&◌, Option, none, some, List, [],
  ◌∷◌, ltb, leb, find, filter, includes, if◌then◌else◌,
}
use uscs.Authorization.{OrgRole, Membership, capabilities, has_capability, is_membership_of}
use text.Mathlib.Text.{starts_with}

pub record ApiKeyAuthority : Type 0 where
  pub id : String
  pub organization_id : String
  pub owner_id : String
  pub scopes : List String
  pub created_at : ℕ
  pub revoked_at : Option ℕ

pub record ApiKeyRecord : Type 0 where
  pub authority : ApiKeyAuthority
  pub open authority use *
  pub name : String
  pub key_hash : String
  pub key_prefix : String
  pub last_used_at : Option ℕ

pub record IssuedApiKey : Type 0 where
  pub issued : ApiKeyRecord
  pub secret : String

abbrev pub secret_prefix : String
secret_prefix = "cw_live_"

-- `[...new Set(xs)]` keeps the first of equal texts.
unfoldable pub unique_from : List String → List String → List String
unique_from seen [] = []
unique_from seen (x ∷ xs) =
    let kept = x ∷ unique_from (x ∷ seen) xs in
    let dropped = unique_from seen xs in if includes seen x then dropped else kept

unfoldable pub bounded_scopes : List String → OrgRole → List String
unfolding unique_from
bounded_scopes requested role = filter (has_capability role) (unique_from [] requested)

-- `secret.slice(0, n)` of an ASCII text.
abbrev slice_from_start : ℕ → String → String
slice_from_start zero s = String.[]
slice_from_start (suc n) String.[] = String.[]
slice_from_start (suc n) (String.◌∷◌ c s) = String.◌∷◌ c (slice_from_start n s)

pub record IssueInput : Type 0 where
  pub id : String
  pub organization_id : String
  pub owner_id : String
  pub name : String
  pub role : OrgRole
  pub requested_scopes : List String
  pub now : ℕ

module _ (hash_api_key : String → String) where
  unfoldable pub issue_api_key : String → IssueInput → IssuedApiKey
  unfolding bounded_scopes
  issue_api_key random_part input =
      let secret = String.◌++◌ secret_prefix random_part in
      record {
        issued = record {
          authority = record {
            id = input.id;
            organization_id = input.organization_id;
            owner_id = input.owner_id;
            scopes = bounded_scopes input.requested_scopes input.role;
            created_at = input.now;
            revoked_at = none;
          };
          name = input.name;
          key_hash = hash_api_key secret;
          key_prefix = slice_from_start 12 secret;
          last_used_at = none;
        };
        secret = secret;
      }

abbrev is_null : Option ℕ → Bool
is_null none = true
is_null (some _) = false

unfoldable pub is_key_active : ApiKeyAuthority → ℕ → Bool
is_key_active key now = is_null key.revoked_at && leb key.created_at now

unfoldable pub looks_like_api_key : String → Bool
looks_like_api_key presented =
    starts_with presented secret_prefix && ltb 28 (utf16_length presented)

unfoldable pub key_allows : ApiKeyAuthority → String → ℕ → Bool
unfolding is_key_active
key_allows key scope now = if not (is_key_active key now) then false else includes key.scopes scope

-- The filter of `effectiveScopes`, once the owner's membership is found.
abbrev pub scopes_within : Option Membership → List String → List String
scopes_within none scopes = []
scopes_within (some m) scopes =
    filter (λ scope. includes capabilities scope && has_capability m.role scope) scopes

unfoldable pub effective_scopes : ApiKeyAuthority → List Membership → ℕ → List String
unfolding is_key_active
effective_scopes key memberships now =
    if not (is_key_active key now)
    then []
    else scopes_within (find (is_membership_of key.organization_id key.owner_id) memberships)
        key.scopes
