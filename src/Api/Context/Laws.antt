-- ===== src/Api/Context/Laws.antt =====
-- What a request that authenticated with an API key may do (apps/api/src/context.ts).
use uscs.Common.{
  ◌≡◌, subst, ◌≢◌, ◌===◌, eq_of_===, false≢true, inl, inr, String, true, false, Option, none, some,
  List, arith, Bool-cases,
}
use uscs.Authorization.{Membership}
use uscs.Auth.ApiKeys.{ApiKeyAuthority, looks_like_api_key, effective_scopes}
use uscs.Auth.Scopes.{Grants, effective_scopes_iff}
use uscs.Api.Action.{Result, value, throws}
use uscs.Api.Guard.{ApiKeyAuth, RequestContext, allowed}
use uscs.Api.Guard.Laws.{KeyAdmits, allowed_iff}
use uscs.Api.Context.{
  ApiKeyResolver, ContextDeps, authentication_required, authenticate_api_key, build_context,
}

module _ {W : Type 0} (hash_api_key : String → String) (deps : ContextDeps W)
    (resolver : ApiKeyResolver W) (presented : String) (w w1 : W) where
  -- The world in which the clock is read: after the owner's memberships are loaded.
  abbrev pub loaded : ApiKeyAuthority → Result (List Membership) × W
  loaded key = deps.memberships_for key.owner_id w1

  -- The context of a key: its scopes are the effective ones of the stored key, not revoked.
  abbrev pub IsOf : ApiKeyAuthority → RequestContext → Type 0
  IsOf key ctx =
      (key.revoked_at ≡ none)
      × (ctx.api_key
          ≡ some (record {
            key_id = key.id;
            organization_id = key.organization_id;
            scopes = effective_scopes key ctx.memberships (deps.now (loaded key).1);
          }))

  authenticate_api_key-IsOf :
      (key : ApiKeyAuthority) (w' : W) (ctx : RequestContext)
      → resolver.find_api_key_by_hash (hash_api_key presented) w ≡ (value (some key), w1)
      → authenticate_api_key hash_api_key deps resolver presented w ≡ (value ctx, w')
      → IsOf key ctx
  unfolding authenticate_api_key
  authenticate_api_key-IsOf key w' ctx found h = ground arith

  -- The key that the store found is missing or revoked.
  abbrev pub IsRefused : Option ApiKeyAuthority → Type 0
  IsRefused none = Unit
  IsRefused (some key) = key.revoked_at ≢ none

  authenticate_api_key-IsRefused :
      (found : Option ApiKeyAuthority)
      → resolver.find_api_key_by_hash (hash_api_key presented) w ≡ (value found, w1)
      → IsRefused found
      → authenticate_api_key hash_api_key deps resolver presented w
        ≡ (throws authentication_required, w1)
  unfolding authenticate_api_key
  authenticate_api_key-IsRefused none e h = ground arith
  authenticate_api_key-IsRefused (some key) e h = ground arith

  nonempty : looks_like_api_key presented ≡ true → (presented === "") ≡ false
  unfolding looks_like_api_key
  nonempty h = elim (Bool-cases (presented === "")) [
    | inl empty ↦
        absurd
          (false≢true (subst (λ s. looks_like_api_key s ≡ true) (eq_of_=== presented "" empty) h))
    | inr e ↦ e
  ]

  module _ (wired : deps.api_keys ≡ some resolver)
      (shaped : looks_like_api_key presented ≡ true) where
    -- A token with the shape of a key whose key is unknown or revoked is refused with the one
    -- answer `Authentication required.`, in the world that the lookup left: no membership or
    -- profile is read and no session is tried.
    pub build_context-IsRefused :
        (found : Option ApiKeyAuthority)
        → resolver.find_api_key_by_hash (hash_api_key presented) w ≡ (value found, w1)
        → IsRefused found
        → build_context hash_api_key deps (some presented) w ≡ (throws authentication_required, w1)
    unfolding build_context
    build_context-IsRefused found e h =
        ground (arith, nonempty shaped, authenticate_api_key-IsRefused found e h)

    -- Stamping the key after it is authenticated changes nothing of the context.
    authenticates :
        (ctx : RequestContext) (w' : W)
        → build_context hash_api_key deps (some presented) w ≡ (value ctx, w')
        → authenticate_api_key hash_api_key deps resolver presented w
          ≡ (value ctx, (authenticate_api_key hash_api_key deps resolver presented w).1)
    unfolding build_context
    authenticates ctx w' h = ground (arith, nonempty shaped)

    context-IsOf :
        (key : ApiKeyAuthority) (ctx : RequestContext) (w' : W)
        → resolver.find_api_key_by_hash (hash_api_key presented) w ≡ (value (some key), w1)
        → build_context hash_api_key deps (some presented) w ≡ (value ctx, w')
        → IsOf key ctx
    unfolding build_context
    context-IsOf key ctx w' e h = authenticate_api_key-IsOf key _ ctx e (authenticates ctx w' h)

    -- If a token with the shape of a key is looked up as a stored key and the request context is
    -- built, then whatever the context allows in an organization is in the key's own
    -- organization, and is a stored scope of the vocabulary that the owner's present role there
    -- grants to an active key.
    pub build_context-delegated :
        (key : ApiKeyAuthority) (ctx : RequestContext) (w' : W) (organization c : String)
        → resolver.find_api_key_by_hash (hash_api_key presented) w ≡ (value (some key), w1)
        → build_context hash_api_key deps (some presented) w ≡ (value ctx, w')
        → allowed ctx organization c ≡ true
        → (key.organization_id ≡ organization)
          × Grants key ctx.memberships (deps.now (loaded key).1) c
    build_context-delegated key ctx w' organization c e h a =
        let (live, same) = context-IsOf key ctx w' e h in
        let admits =
          subst (λ (o : Option ApiKeyAuth). KeyAdmits o organization c) same
            ((allowed_iff ctx organization c).0 a).1 in
        (
          admits.0,
          (effective_scopes_iff key ctx.memberships (deps.now (loaded key).1) c).0 admits.1,
        )
