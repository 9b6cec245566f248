-- ===== src/Routes.antt =====
-- apps/web/src/routes.ts: the routes of the dashboard, read from a path and written to one.
-- `encodeURIComponent` and `decodeURIComponent` are parameters; `decode` has no value where the
-- latter throws a `URIError`, and then `parseRoute` throws.
pub mod Sections
mod Paths
mod Printable
mod RoundTrip
mod Tests
use Prim.Native.String.{◌++◌ as append}
use uscs.Common.{
  ℕ, zero, suc, String, Bool, true, false, not, ◌&&◌, ◌||◌, List, [], ◌∷◌, Option, none, some,
  length, filter, ◌==◌, ◌===◌, if◌then◌else◌, is_empty, split, strip_end, is_some,
}
use uscs.Routes.Sections.{
  is_database_section, is_workspace_section, is_project_section, is_sub_section,
}

pub data Route : Type 0 where
  landing auth_callback organizations : Route
  organization projects : String → Route
  project deployments domains : String → String → Route
  database : String → String → Option String → Route
  security : String → Option String → Route
  setup git env project_logs project_analytics project_settings : String → String → Route
  audit observability billing org_deployments members settings api_keys docs : String → Route
  workspace_section : String → String → Option String → Route
  project_section : String → String → String → Option String → Route
  not_found : String → Route

abbrev pub slash : ℕ
slash = b'/'

-- `segments[i] === name`
abbrev pub at_is : List String → ℕ → String → Bool
at_is [] i name = false
at_is (s ∷ rest) zero name = s === name
at_is (s ∷ rest) (suc i) name = at_is rest i name

-- `segments[i]!`: every use follows a test of the length.
abbrev pub at : List String → ℕ → String
at [] i = ""
at (s ∷ rest) zero = s
at (s ∷ rest) (suc i) = at rest i

-- `path.replace(/\/+$/, "") || "/"`
abbrev pub cleaned : String → String
cleaned path = let bare = strip_end slash path in if is_empty bare then "/" else bare

-- `encodeURIComponent(s)` of the optional last segment: the empty text is dropped.
abbrev pub optional_segment : (String → String) → Option String → String
optional_segment encode none = ""
optional_segment encode (some s) = if is_empty s then "" else append "/" (encode s)

-- The route of the segments of a path, from the tests in their order.
unfoldable pub parse_segments : String → List String → Route
parse_segments clean segs =
    let len = length segs in
    let orgs = at_is segs 0 "orgs" in
    let in_projects = at_is segs 2 "projects" in
    let org = at segs 1 in
    let proj = at segs 3 in
    if orgs && len == 1
    then organizations
    else if orgs && len == 2
    then organization org
    else if orgs && in_projects && len == 3
    then projects org
    else if orgs && in_projects && len == 4
    then project org proj
    else if orgs && in_projects && at_is segs 4 "deployments" && len == 5
    then deployments org proj
    else if orgs && in_projects && len == 5 && at_is segs 4 "domains"
    then domains org proj
    else if orgs && in_projects && len == 5 && at_is segs 4 "security"
    then security org (some proj)
    else if orgs && in_projects && len == 5 && at_is segs 4 "setup"
    then setup org proj
    else if orgs && in_projects && len == 5 && at_is segs 4 "git"
    then git org proj
    else if orgs && in_projects && len == 5 && at_is segs 4 "env"
    then env org proj
    else if orgs && in_projects && len == 5 && at_is segs 4 "logs"
    then project_logs org proj
    else if orgs && in_projects && len == 5 && at_is segs 4 "analytics"
    then project_analytics org proj
    else if orgs && in_projects && len == 5 && at_is segs 4 "settings"
    then project_settings org proj
    else if orgs && in_projects && len == 5 && (at_is segs 4 "database" || at_is segs 4 "data")
    then database org proj none
    else if orgs && in_projects && at_is segs 4 "database" && len == 6
    then (if is_database_section (at segs 5)
        then database org proj (some (at segs 5))
        else not_found clean)
    else if orgs && at_is segs 2 "settings" && at_is segs 3 "api-keys" && len == 4
    then api_keys org
    else if orgs && at_is segs 2 "audit" && len == 3
    then audit org
    else if orgs && at_is segs 2 "observability" && len == 3
    then observability org
    else if orgs && at_is segs 2 "security" && len == 3
    then security org none
    else if orgs && at_is segs 2 "deployments" && len == 3
    then org_deployments org
    else if orgs && at_is segs 2 "members" && len == 3
    then members org
    else if orgs && at_is segs 2 "billing" && len == 3
    then billing org
    else if orgs && at_is segs 2 "docs" && len == 3
    then docs org
    else if orgs && at_is segs 2 "settings" && len == 3
    then settings org
    else if orgs && len == 3 && is_workspace_section (at segs 2)
    then workspace_section org (at segs 2) none
    else if orgs && len == 4 && is_workspace_section (at segs 2) && is_sub_section (at segs 2) proj
    then workspace_section org (at segs 2) (some proj)
    else if orgs && in_projects && len == 5 && is_project_section (at segs 4)
    then project_section org proj (at segs 4) none
    else if orgs
        && in_projects
        && len == 6
        && is_project_section (at segs 4)
        && is_sub_section (at segs 4) (at segs 5)
    then project_section org proj (at segs 4) (some (at segs 5))
    else not_found clean

-- The route of the decoded segments, if they could be decoded.
abbrev pub routed : String → Option (List String) → Option Route
routed clean none = none
routed clean (some segs) = some (parse_segments clean segs)

module _ (decode : String → Option String) where
  -- `segments.map(decodeURIComponent)`
  abbrev pub decode_all : List String → Option (List String)
  decode_all [] = some []
  decode_all (s ∷ rest) = elim (decode s) [
    | none ↦ none
    | some t ↦ elim (decode_all rest) [ none ↦ none | some ts ↦ some (t ∷ ts) ]
  ]

  -- `parseRoute` from its second line on.
  unfoldable pub parse_clean : String → Option Route
  parse_clean clean =
      if clean === "/"
      then some landing
      else if clean === "/auth/callback"
      then some auth_callback
      else routed clean (decode_all (filter (λ s. not (is_empty s)) (split slash clean)))

  -- `none` is the exception that `decodeURIComponent` throws.
  unfoldable pub parse_route : String → Option Route
  unfolding parse_clean
  parse_route path = parse_clean (cleaned path)

module _ (encode : String → String) where
  -- `/orgs/${encodeURIComponent(organizationId)}` and what follows it.
  abbrev pub org_path : String → String → String
  org_path org rest = append "/orgs/" (append (encode org) rest)

  -- `/orgs/${...}/projects/${encodeURIComponent(projectId)}` and what follows it.
  abbrev pub project_path : String → String → String → String
  project_path org proj rest = org_path org (append "/projects/" (append (encode proj) rest))

  unfoldable pub to_path : Route → String
  to_path landing = "/"
  to_path auth_callback = "/auth/callback"
  to_path organizations = "/orgs"
  to_path (organization org) = org_path org ""
  to_path (projects org) = org_path org "/projects"
  to_path (project org proj) = project_path org proj ""
  to_path (deployments org proj) = project_path org proj "/deployments"
  to_path (domains org proj) = project_path org proj "/domains"
  to_path (database org proj section) =
      project_path org proj (append "/database" (optional_segment encode section))
  to_path (security org none) = org_path org "/security"
  to_path (security org (some proj)) =
      if is_empty proj then org_path org "/security" else project_path org proj "/security"
  to_path (setup org proj) = project_path org proj "/setup"
  to_path (git org proj) = project_path org proj "/git"
  to_path (env org proj) = project_path org proj "/env"
  to_path (project_logs org proj) = project_path org proj "/logs"
  to_path (project_analytics org proj) = project_path org proj "/analytics"
  to_path (project_settings org proj) = project_path org proj "/settings"
  to_path (audit org) = org_path org "/audit"
  to_path (observability org) = org_path org "/observability"
  to_path (billing org) = org_path org "/billing"
  to_path (org_deployments org) = org_path org "/deployments"
  to_path (members org) = org_path org "/members"
  to_path (settings org) = org_path org "/settings"
  to_path (api_keys org) = org_path org "/settings/api-keys"
  to_path (docs org) = org_path org "/docs"
  to_path (workspace_section org section sub) =
      org_path org (append "/" (append (encode section) (optional_segment encode sub)))
  to_path (project_section org proj section sub) =
      project_path org proj (append "/" (append (encode section) (optional_segment encode sub)))
  to_path (not_found path) = path
