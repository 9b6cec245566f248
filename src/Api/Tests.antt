-- ===== src/Api/Tests.antt =====
-- Runs of the guard and of the request context on small inputs. The world is the clock.
use uscs.Common.{
  ℕ, ◌≡◌, ◌≢◌, refl, String, Bool, true, false, false≢true, ap, Option, none, some, List, [], ◌∷◌,
  is_some, if◌then◌else◌, ◌===◌,
}
use uscs.Authorization.{member, Membership, can, role_in, has_capability, role_capabilities}
use uscs.Auth.ApiKeys.{ApiKeyAuthority, looks_like_api_key, effective_scopes, is_key_active}
use uscs.Auth.Scopes.{Grants}
use uscs.Api.Action.{throws, pure}
use uscs.Api.Guard.{RequestContext, allowed}
use uscs.Api.Context.{
  ApiKeyResolver, ContextDeps, authentication_required, role_for_key, authenticate_api_key,
  build_context,
}
use uscs.Api.Context.Laws.{build_context-IsRefused, build_context-delegated}

abbrev key : Option ℕ → ApiKeyAuthority
key revoked_at = record {
  id = "key-1";
  organization_id = "org-1";
  owner_id = "user-1";
  scopes = "deployment:create" ∷ "org:delete" ∷ [];
  created_at = 100;
  revoked_at = revoked_at;
}

abbrev members : List Membership
members = record { organization_id = "org-1"; user_id = "user-1"; role = member } ∷ []

abbrev keyed : RequestContext
keyed = record {
  principal = record { user_id = "user-1"; email = ""; display_name = none };
  memberships = members;
  api_key =
      some
        record { key_id = "key-1"; organization_id = "org-1"; scopes = "deployment:create" ∷ [] };
}

abbrev secret : String
secret = "cw_live_0123456789012345678901234567"

abbrev resolver : Option ℕ → ApiKeyResolver ℕ
resolver revoked_at = record {
  find_api_key_by_hash = λ h. pure (if h === secret then some (key revoked_at) else none);
  mark_api_key_used = λ o k. pure tt;
  get_profile_for_service = λ u. pure none;
}

abbrev deps : Option ℕ → ContextDeps ℕ
deps revoked_at = record {
  verify = λ t. pure none;
  memberships_for = λ u. pure members;
  api_keys = some (resolver revoked_at);
  now = λ w. w;
}

abbrev has_revocation : Option ℕ → Bool
has_revocation revoked_at = is_some revoked_at

revoked : ◌≢◌ {A = Option ℕ} (some 150) none
revoked e = false≢true (ap (λ o. if has_revocation o then false else true) e)

build_context-IsRefused_example :
    build_context (λ s. s) (deps (some 150)) (some secret) 200
    ≡ (throws authentication_required, 200)
unfolding looks_like_api_key
build_context-IsRefused_example =
    build_context-IsRefused (λ s. s) (deps (some 150)) (resolver (some 150)) secret 200 200 refl
      refl (some (key (some 150))) refl revoked

build_context-delegated_example :
    (◌≡◌ {A = String} "org-1" "org-1") × Grants (key none) members 200 "deployment:create"
unfolding looks_like_api_key build_context authenticate_api_key role_for_key effective_scopes
    is_key_active allowed can role_in has_capability role_capabilities
build_context-delegated_example =
    build_context-delegated (λ s. s) (deps none) (resolver none) secret 200 200 refl refl (key none)
      keyed 200 "org-1" "deployment:create" refl refl refl
