-- ===== src/Routes/Printable.antt =====
-- The routes of apps/web/src/routes.ts that have a path of their own, and which section the tests of
-- `parseRoute` pick.
use uscs.Common.{
  String, true, false, List, [], ◌∷◌, Option, none, some, ◌≡◌, refl, ap, arith, ◌===◌, is_empty,
  includes, Bool-cases, inl, inr, eq_of_===,
}
use uscs.Routes.Sections.{
  is_database_section, is_workspace_section, is_project_section, is_sub_section, workspace_sections,
  project_sections,
}
use uscs.Routes.{
  Route, landing, auth_callback, organizations, organization, projects, project, deployments,
  domains, database, security, setup, git, env, project_logs, project_analytics, project_settings,
  audit, observability, billing, org_deployments, members, settings, api_keys, docs,
  workspace_section, project_section, not_found, parse_segments,
}

abbrev pub Filled : String → Type 0
Filled s = is_empty s ≡ false

-- The optional sub-item of a section is one of the section's own.
abbrev pub SubFits : String → Option String → Type 0
SubFits section none = Unit
SubFits section (some sub) = Filled sub × (is_sub_section section sub ≡ true)

-- The ids of a route are not empty, its sections are listed, and it is not `not_found`.
abbrev pub IsPrintable : Route → Type 0
IsPrintable landing = Unit
IsPrintable auth_callback = Unit
IsPrintable organizations = Unit
IsPrintable (organization org) = Filled org
IsPrintable (projects org) = Filled org
IsPrintable (project org proj) = Filled org × Filled proj
IsPrintable (deployments org proj) = Filled org × Filled proj
IsPrintable (domains org proj) = Filled org × Filled proj
IsPrintable (database org proj none) = Filled org × Filled proj
IsPrintable (database org proj (some s)) =
    Filled org × Filled proj × Filled s × (is_database_section s ≡ true)
IsPrintable (security org none) = Filled org
IsPrintable (security org (some proj)) = Filled org × Filled proj
IsPrintable (setup org proj) = Filled org × Filled proj
IsPrintable (git org proj) = Filled org × Filled proj
IsPrintable (env org proj) = Filled org × Filled proj
IsPrintable (project_logs org proj) = Filled org × Filled proj
IsPrintable (project_analytics org proj) = Filled org × Filled proj
IsPrintable (project_settings org proj) = Filled org × Filled proj
IsPrintable (audit org) = Filled org
IsPrintable (observability org) = Filled org
IsPrintable (billing org) = Filled org
IsPrintable (org_deployments org) = Filled org
IsPrintable (members org) = Filled org
IsPrintable (settings org) = Filled org
IsPrintable (api_keys org) = Filled org
IsPrintable (docs org) = Filled org
IsPrintable (workspace_section org s sub) =
    Filled org × Filled s × (is_workspace_section s ≡ true) × SubFits s sub
IsPrintable (project_section org proj s sub) =
    Filled org × Filled proj × Filled s × (is_project_section s ≡ true) × SubFits s sub
IsPrintable (not_found path) = ⊥

-- A listed section is not a word that is not listed.
apart :
    (xs : List String) (s t : String)
    → includes xs s ≡ true
    → includes xs t ≡ false
    → (s === t) ≡ false
apart xs s t h k = elim (Bool-cases (s === t)) [
  | inl e ↦ let same = eq_of_=== s t e in ground (arith, h, k, ap (includes xs) same)
  | inr e ↦ e
]

-- The generic page of a workspace section comes after every named page.
pub parse_workspace :
    (path org s : String)
    → is_workspace_section s ≡ true
    → parse_segments path ("orgs" ∷ org ∷ s ∷ []) ≡ workspace_section org s none
unfolding parse_segments
parse_workspace path org s h =
    let no = apart workspace_sections s in
    rw
      (
        no "projects" h refl,
        no "settings" h refl,
        no "audit" h refl,
        no "observability" h refl,
        no "security" h refl,
        no "deployments" h refl,
        no "members" h refl,
        no "billing" h refl,
        no "docs" h refl,
        h,
      )
      refl

pub parse_workspace_sub :
    (path org s sub : String)
    → is_workspace_section s ≡ true
    → is_sub_section s sub ≡ true
    → parse_segments path ("orgs" ∷ org ∷ s ∷ sub ∷ []) ≡ workspace_section org s (some sub)
unfolding parse_segments
parse_workspace_sub path org s sub h k =
    let no = apart workspace_sections s in
    rw
      (
        no "projects" h refl,
        no "settings" h refl,
        no "audit" h refl,
        no "observability" h refl,
        no "security" h refl,
        no "deployments" h refl,
        no "members" h refl,
        no "billing" h refl,
        no "docs" h refl,
        h,
        k,
      )
      refl

pub parse_project :
    (path org proj s : String)
    → is_project_section s ≡ true
    → parse_segments path ("orgs" ∷ org ∷ "projects" ∷ proj ∷ s ∷ [])
      ≡ project_section org proj s none
unfolding parse_segments
parse_project path org proj s h =
    let no = apart project_sections s in
    rw
      (
        no "deployments" h refl,
        no "domains" h refl,
        no "security" h refl,
        no "setup" h refl,
        no "git" h refl,
        no "env" h refl,
        no "logs" h refl,
        no "analytics" h refl,
        no "settings" h refl,
        no "database" h refl,
        no "data" h refl,
        h,
      )
      refl

pub parse_project_sub :
    (path org proj s sub : String)
    → is_project_section s ≡ true
    → is_sub_section s sub ≡ true
    → parse_segments path ("orgs" ∷ org ∷ "projects" ∷ proj ∷ s ∷ sub ∷ [])
      ≡ project_section org proj s (some sub)
unfolding parse_segments
parse_project_sub path org proj s sub h k =
    let no = apart project_sections s in
    rw (no "deployments" h refl, no "database" h refl, h, k) refl
