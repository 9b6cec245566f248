-- ===== src/Auth/Tests.antt =====
-- Runs of the permission matrix and of the scopes of keys on small inputs.
use uscs.Common.{◌≡◌, ◌↔◌, true, none, List, [], ◌∷◌, includes}
use uscs.Authorization.{member, Membership}
use uscs.Auth.ApiKeys.{ApiKeyAuthority, effective_scopes}
use uscs.Auth.Scopes.{Grants, effective_scopes_iff}

abbrev pub ci_key : ApiKeyAuthority
ci_key = record {
  id = "key-1";
  organization_id = "org-1";
  owner_id = "user-1";
  scopes = "deployment:create" ∷ "org:delete" ∷ [];
  created_at = 100;
  revoked_at = none;
}

abbrev pub members : List Membership
members = record { organization_id = "org-1"; user_id = "user-1"; role = member } ∷ []

effective_scopes_iff_example :
    (includes (effective_scopes ci_key members 200) "deployment:create" ≡ true)
    ↔ Grants ci_key members 200 "deployment:create"
effective_scopes_iff_example = effective_scopes_iff ci_key members 200 "deployment:create"
