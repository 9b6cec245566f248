-- ===== src/Routes/RoundTrip.antt =====
-- `parseRoute` of apps/web/src/routes.ts reads back what `toPath` writes.
use Prim.Native.String.{◌++◌ as append}
use uscs.Common.{
  String, true, false, List, [], ◌∷◌, Option, none, some, ◌≡◌, refl, ap, ◌∙◌, arith, is_empty,
  split, lacks, inl, inr, split-append,
}
use uscs.Routes.{
  Route, landing, auth_callback, organizations, organization, projects, project, deployments,
  domains, database, security, setup, git, env, project_logs, project_analytics, project_settings,
  audit, observability, billing, org_deployments, members, settings, api_keys, docs,
  workspace_section, project_section, not_found, slash, parse_route, parse_clean, parse_segments,
  to_path, org_path, project_path, decode_all,
}
use uscs.Routes.Printable.{
  Filled, IsPrintable, parse_workspace, parse_workspace_sub, parse_project, parse_project_sub,
}
use uscs.Routes.Paths.{
  IsCodec, EndsWell, Closes, filled, split-org_path, split_projects, split_section,
  org_path-EndsWell, section-EndsWell, decode_all-cons, parse_route_of, EndsWell-append,
  encode-EndsWell, split_sub,
}

module _ (encode : String → String) (decode : String → Option String)
    (codec : IsCodec encode decode) where
  by_org :
      (org rest : String) (tail segs : List String) (r : Route)
      → Filled org
      → Closes rest
      → split slash rest ≡ "" ∷ tail
      → filled tail ≡ true
      → decode_all decode tail ≡ some segs
      → parse_segments (org_path encode org rest) ("orgs" ∷ org ∷ segs) ≡ r
      → parse_route decode (org_path encode org rest) ≡ some r
  by_org org rest tail segs r h c t n d e =
      let first = codec.encode_filled org h in
      parse_route_of encode decode codec (org_path encode org rest) (encode org ∷ tail) (org ∷ segs)
        (org_path-EndsWell encode decode codec org rest h c)
        (split-org_path encode decode codec org rest tail t) (ground (arith, first, n))
        (decode_all-cons encode decode codec (encode org) org tail segs (codec.decode-encode org) d)
      ∙ ap some e

  by_project :
      (org proj rest : String) (tail segs : List String) (r : Route)
      → Filled org
      → Filled proj
      → Closes rest
      → split slash rest ≡ "" ∷ tail
      → filled tail ≡ true
      → decode_all decode tail ≡ some segs
      → parse_segments (project_path encode org proj rest) ("orgs" ∷ org ∷ "projects" ∷ proj ∷ segs)
        ≡ r
      → parse_route decode (project_path encode org proj rest) ≡ some r
  by_project org proj rest tail segs r h k c t n d e =
      let first = codec.encode_filled proj k in
      by_org org (append "/projects/" (append (encode proj) rest)) ("projects" ∷ encode proj ∷ tail)
        ("projects" ∷ proj ∷ segs) r h
        (inr (section-EndsWell encode decode codec "/projects/" proj rest k c))
        (split_projects encode decode codec proj rest tail t) (ground (arith, first, n))
        (decode_all-cons encode decode codec "projects" "projects" (encode proj ∷ tail)
          (proj ∷ segs) (codec.decode_plain "projects" refl)
          (decode_all-cons encode decode codec (encode proj) proj tail segs
            (codec.decode-encode proj) d))
        e

  -- A path that ends in one word behind the organization, or behind the project.
  word_of_org :
      (org word : String) (name : String) (r : Route)
      → Filled org
      → EndsWell word
      → split slash word ≡ "" ∷ name ∷ []
      → is_empty name ≡ false
      → lacks b'%' name ≡ true
      → parse_segments (org_path encode org word) ("orgs" ∷ org ∷ name ∷ []) ≡ r
      → parse_route decode (org_path encode org word) ≡ some r
  word_of_org org word name r h w t n p e =
      by_org org word (name ∷ []) (name ∷ []) r h (inr w) t (ground (arith, n))
        (decode_all-cons encode decode codec name name [] [] (codec.decode_plain name p) refl) e

  word_of_project :
      (org proj word : String) (name : String) (r : Route)
      → Filled org
      → Filled proj
      → EndsWell word
      → split slash word ≡ "" ∷ name ∷ []
      → is_empty name ≡ false
      → lacks b'%' name ≡ true
      → parse_segments
          (project_path encode org proj word)
          ("orgs" ∷ org ∷ "projects" ∷ proj ∷ name ∷ [])
        ≡ r
      → parse_route decode (project_path encode org proj word) ≡ some r
  word_of_project org proj word name r h k w t n p e =
      by_project org proj word (name ∷ []) (name ∷ []) r h k (inr w) t (ground (arith, n))
        (decode_all-cons encode decode codec name name [] [] (codec.decode_plain name p) refl) e

  decoded :
      (s : String) (rest segs : List String)
      → decode_all decode rest ≡ some segs
      → decode_all decode (encode s ∷ rest) ≡ some (s ∷ segs)
  decoded s rest segs d =
      decode_all-cons encode decode codec (encode s) s rest segs (codec.decode-encode s) d

  closed : (sub : String) → Filled sub → Closes (append "/" (encode sub))
  closed sub g = inr (EndsWell-append "/" (encode sub) (encode-EndsWell encode decode codec sub g))

  -- With a percent codec whose decoding gives back what was encoded and leaves a text without a
  -- percent sign as it is, and whose encoding of a text has no slash and is empty only for the
  -- empty text, the path that is printed for a route other than `not_found`, with identifiers
  -- that are not empty and with declared sections and parts, parses to this very route.
  pub parse_route-to_path :
      (r : Route) → IsPrintable r → parse_route decode (to_path encode r) ≡ some r
  unfolding to_path parse_segments
  parse_route-to_path landing h = unfold parse_route parse_clean in refl
  parse_route-to_path auth_callback h = unfold parse_route parse_clean in refl
  parse_route-to_path organizations h =
      parse_route_of encode decode codec "/orgs" [] [] (refl, refl) refl refl refl
  parse_route-to_path (organization org) h = by_org org "" [] [] _ h (inl refl) refl refl refl refl
  parse_route-to_path (projects org) h =
      word_of_org org "/projects" "projects" _ h (refl, refl) refl refl refl refl
  parse_route-to_path (project org proj) (h, k) =
      by_project org proj "" [] [] _ h k (inl refl) refl refl refl refl
  parse_route-to_path (deployments org proj) (h, k) =
      word_of_project org proj "/deployments" "deployments" _ h k (refl, refl) refl refl refl refl
  parse_route-to_path (domains org proj) (h, k) =
      word_of_project org proj "/domains" "domains" _ h k (refl, refl) refl refl refl refl
  parse_route-to_path (setup org proj) (h, k) =
      word_of_project org proj "/setup" "setup" _ h k (refl, refl) refl refl refl refl
  parse_route-to_path (git org proj) (h, k) =
      word_of_project org proj "/git" "git" _ h k (refl, refl) refl refl refl refl
  parse_route-to_path (env org proj) (h, k) =
      word_of_project org proj "/env" "env" _ h k (refl, refl) refl refl refl refl
  parse_route-to_path (project_logs org proj) (h, k) =
      word_of_project org proj "/logs" "logs" _ h k (refl, refl) refl refl refl refl
  parse_route-to_path (project_analytics org proj) (h, k) =
      word_of_project org proj "/analytics" "analytics" _ h k (refl, refl) refl refl refl refl
  parse_route-to_path (project_settings org proj) (h, k) =
      word_of_project org proj "/settings" "settings" _ h k (refl, refl) refl refl refl refl
  parse_route-to_path (audit org) h =
      word_of_org org "/audit" "audit" _ h (refl, refl) refl refl refl refl
  parse_route-to_path (observability org) h =
      word_of_org org "/observability" "observability" _ h (refl, refl) refl refl refl refl
  parse_route-to_path (billing org) h =
      word_of_org org "/billing" "billing" _ h (refl, refl) refl refl refl refl
  parse_route-to_path (org_deployments org) h =
      word_of_org org "/deployments" "deployments" _ h (refl, refl) refl refl refl refl
  parse_route-to_path (members org) h =
      word_of_org org "/members" "members" _ h (refl, refl) refl refl refl refl
  parse_route-to_path (settings org) h =
      word_of_org org "/settings" "settings" _ h (refl, refl) refl refl refl refl
  parse_route-to_path (docs org) h =
      word_of_org org "/docs" "docs" _ h (refl, refl) refl refl refl refl
  parse_route-to_path (api_keys org) h =
      let plain = λ (t : String) (p : lacks b'%' t ≡ true). codec.decode_plain t p in
      by_org org "/settings/api-keys" ("settings" ∷ "api-keys" ∷ []) ("settings" ∷ "api-keys" ∷ [])
        _ h (inr (refl, refl)) refl refl
        (decode_all-cons encode decode codec "settings" "settings" ("api-keys" ∷ [])
          ("api-keys" ∷ []) (plain "settings" refl)
          (decode_all-cons encode decode codec "api-keys" "api-keys" [] [] (plain "api-keys" refl)
            refl))
        refl
  parse_route-to_path (security org none) h =
      word_of_org org "/security" "security" _ h (refl, refl) refl refl refl refl
  parse_route-to_path (security org (some proj)) (h, k) =
      rw k (word_of_project org proj "/security" "security" _ h k (refl, refl) refl refl refl refl)
  parse_route-to_path (database org proj none) (h, k) =
      word_of_project org proj "/database" "database" _ h k (refl, refl) refl refl refl refl
  parse_route-to_path (database org proj (some s)) (h, k, f, d) =
      let sub = EndsWell-append "/" (encode s) (encode-EndsWell encode decode codec s f) in
      rw f (
        by_project org proj (append "/database" (append "/" (encode s)))
          ("database" ∷ encode s ∷ []) ("database" ∷ s ∷ []) _ h k
          (inr (EndsWell-append "/database" (append "/" (encode s)) sub))
          (rw
            (
              split-append slash "/database" (append "/" (encode s)),
              split_sub encode decode codec s,
            )
            refl)
          (rw (codec.encode_filled s f) refl)
          (decode_all-cons encode decode codec "database" "database" (encode s ∷ []) (s ∷ [])
            (codec.decode_plain "database" refl) (decoded s [] [] refl))
          (rw d refl))
  parse_route-to_path (workspace_section org s none) (h, f, w, _) =
      by_org org (append "/" (append (encode s) "")) (encode s ∷ []) (s ∷ []) _ h
        (inr (section-EndsWell encode decode codec "/" s "" f (inl refl)))
        (split_section encode decode codec s "" [] refl) (rw (codec.encode_filled s f) refl)
        (decoded s [] [] refl) (parse_workspace _ org s w)
  parse_route-to_path (workspace_section org s (some sub)) (h, f, w, (g, q)) = rw g (
      by_org org (append "/" (append (encode s) (append "/" (encode sub))))
        (encode s ∷ encode sub ∷ []) (s ∷ sub ∷ []) _ h
        (inr (section-EndsWell encode decode codec "/" s _ f (closed sub g)))
        (split_section encode decode codec s _ _ (split_sub encode decode codec sub))
        (rw (codec.encode_filled s f, codec.encode_filled sub g) refl)
        (decoded s (encode sub ∷ []) (sub ∷ []) (decoded sub [] [] refl))
        (parse_workspace_sub _ org s sub w q))
  parse_route-to_path (project_section org proj s none) (h, k, f, w, _) =
      by_project org proj (append "/" (append (encode s) "")) (encode s ∷ []) (s ∷ []) _ h k
        (inr (section-EndsWell encode decode codec "/" s "" f (inl refl)))
        (split_section encode decode codec s "" [] refl) (rw (codec.encode_filled s f) refl)
        (decoded s [] [] refl) (parse_project _ org proj s w)
  parse_route-to_path (project_section org proj s (some sub)) (h, k, f, w, (g, q)) = rw g (
      by_project org proj (append "/" (append (encode s) (append "/" (encode sub))))
        (encode s ∷ encode sub ∷ []) (s ∷ sub ∷ []) _ h k
        (inr (section-EndsWell encode decode codec "/" s _ f (closed sub g)))
        (split_section encode decode codec s _ _ (split_sub encode decode codec sub))
        (rw (codec.encode_filled s f, codec.encode_filled sub g) refl)
        (decoded s (encode sub ∷ []) (sub ∷ []) (decoded sub [] [] refl))
        (parse_project_sub _ org proj s sub w q))
  parse_route-to_path (not_found path) h = absurd h
