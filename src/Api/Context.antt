-- ===== src/Api/Context.antt =====
-- apps/api/src/context.ts: from a bearer token to the context of a request. The identity
-- provider, the stores and the clock are the fields of `ContextDeps`, actions on the world `W`.
pub mod Laws
use uscs.Common.{
  ℕ, String, Bool, true, false, not, ◌&&◌, Option, none, some, List, [], ◌∷◌, ◌===◌, find, is_some,
  if◌then◌else◌,
}
use uscs.Contracts.{Principal}
use uscs.Authorization.{OrgRole, Membership, is_membership_of, role_of}
use uscs.Auth.{SupabaseSession, to_principal}
use uscs.Auth.ApiKeys.{ApiKeyAuthority, looks_like_api_key, effective_scopes}
use uscs.Api.Action.{
  unauthenticated, ApiError, Failure, api, Result, value, throws, Action, pure, raise, raise_if,
  ◌>>=◌, ◌>>◌,
}
use uscs.Api.Guard.{ApiKeyAuth, RequestContext}

pub record ApiKeyResolver (W : Type 0) : Type 0 where
  pub find_api_key_by_hash : String → Action W (Option ApiKeyAuthority)
  pub mark_api_key_used : String → String → Action W (Unit {0})
  pub get_profile_for_service : String → Action W (Option String)

pub record ContextDeps (W : Type 0) : Type 0 where
  pub verify : String → Action W (Option SupabaseSession)
  pub memberships_for : String → Action W (List Membership)
  pub api_keys : Option (ApiKeyResolver W)
  pub now : W → ℕ

abbrev pub authentication_required : Failure
authentication_required =
    api (record { code = unauthenticated; message = "Authentication required."; details = [] })

unfoldable pub role_for_key : ApiKeyAuthority → List Membership → Option OrgRole
role_for_key key memberships =
    role_of (find (is_membership_of key.organization_id key.owner_id) memberships)

abbrev or_unauthenticated : {W A : Type 0} → Option A → Action W A
or_unauthenticated none = raise authentication_required
or_unauthenticated (some a) = pure a

abbrev email_of : Option String → String
email_of none = ""
email_of (some email) = email

-- `try { await m } catch {}`
abbrev ignore_errors : {W : Type 0} → Action W (Unit {0}) → Action W (Unit {0})
ignore_errors m w = let (_, w') = m w in (value tt, w')

-- `presented && ...`: an absent or empty token is falsy.
abbrev presented_token : Option String → Option String
presented_token none = none
presented_token (some t) = if t === "" then none else some t

module _ {W : Type 0} (hash_api_key : String → String) (deps : ContextDeps W) where
  abbrev clock : Action W ℕ
  clock w = (value (deps.now w), w)

  unfoldable pub authenticate_api_key : ApiKeyResolver W → String → Action W RequestContext
  unfolding role_for_key
  authenticate_api_key resolver presented = do
    found ← resolver.find_api_key_by_hash (hash_api_key presented)
    key ← or_unauthenticated found
    raise_if (is_some key.revoked_at) authentication_required
    memberships ← deps.memberships_for key.owner_id
    now ← clock
    raise_if (not (is_some (role_for_key key memberships))) authentication_required
    profile ← resolver.get_profile_for_service key.owner_id
    pure (record {
      principal = record { user_id = key.owner_id; email = email_of profile; display_name = none };
      memberships = memberships;
      api_key = some (record {
        key_id = key.id;
        organization_id = key.organization_id;
        scopes = effective_scopes key memberships now;
      });
    })

  -- `deps.apiKeys?.markApiKeyUsed(...)` in its `try`, after the key is authenticated.
  abbrev stamp_key : ApiKeyResolver W → Option ApiKeyAuth → Action W (Unit {0})
  stamp_key resolver none = pure tt
  stamp_key resolver (some key) =
      ignore_errors (resolver.mark_api_key_used key.organization_id key.key_id)

  abbrev context_of_key : Option (ApiKeyResolver W) → String → Action W RequestContext
  context_of_key none presented = raise authentication_required
  context_of_key (some resolver) presented = do
    ctx ← authenticate_api_key resolver presented
    stamp_key resolver ctx.api_key
    pure ctx

  -- `resolvePrincipal`, whose `UnauthenticatedError` the caller turns into the API's error.
  abbrev resolve_principal : Option String → Action W Principal
  resolve_principal none = raise authentication_required
  resolve_principal (some token) = do
    found ← deps.verify token
    session ← or_unauthenticated found
    or_unauthenticated (to_principal session)

  abbrev context_of_session : Option String → Action W RequestContext
  context_of_session token = do
    principal ← resolve_principal token
    memberships ← deps.memberships_for principal.user_id
    pure (record { principal = principal; memberships = memberships; api_key = none })

  abbrev context_of : Option String → Action W RequestContext
  context_of none = context_of_session none
  context_of (some token) =
      if looks_like_api_key token
      then context_of_key deps.api_keys token
      else context_of_session (some token)

  unfoldable pub build_context : Option String → Action W RequestContext
  build_context access_token = context_of (presented_token access_token)
