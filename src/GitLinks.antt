-- ===== src/GitLinks.antt =====
-- apps/api/src/procedures/git-links.ts: connecting a repository to a project, and checking the
-- deliveries of its webhook. The store, the cipher and the digests are outside: parameters.
pub mod Verify
use Prim.Native.String.{◌++◌ as ◌<>◌}
use Prim.Native.Char.{code}
use uscs.Common.{
  ℕ, String, Bool, true, false, not, ◌&&◌, ◌||◌, Option, none, some, List, [], ◌∷◌, ◌++◌, ltb, leb,
  ◌==◌, ◌===◌, any, includes, if◌then◌else◌, is_empty, is_some, trim, get_or_else, utf16_length,
  strip_end, split,
}
use uscs.Io.{truthy}
use uscs.Api.Action.{
  not_found, invalid_input, conflict, engine_unavailable, Failure, Result, value, throws, Action,
  pure, raise, raise_if, lift, ◌>>=◌, ◌>>◌,
}
use uscs.Api.Guard.{RequestContext}
use uscs.Api.Audit.{Meta, AuditEvent, failure, found_or, require, event_of}
use uscs.RootDirectory.{drop_slashes}
use uscs.Requests.Rows.{Project, Kind, production, CreateInput, RequestResult}
use uscs.Requests.{project_not_found}
use uscs.Requests.Keys.{without_prefix, is_lower_or_digit, is_upper}

pub data GitProvider : Type 0 where
  github gitlab bitbucket generic : GitProvider

abbrev pub provider_text : GitProvider → String
provider_text github = "github"
provider_text gitlab = "gitlab"
provider_text bitbucket = "bitbucket"
provider_text generic = "generic"

abbrev pub git_providers : List String
git_providers = "github" ∷ "gitlab" ∷ "bitbucket" ∷ "generic" ∷ []

unfoldable pub clone_url_for : GitProvider → String → Option String
clone_url_for github repository = some ("https://github.com/" <> (repository <> ".git"))
clone_url_for gitlab repository = some ("https://gitlab.com/" <> (repository <> ".git"))
clone_url_for bitbucket repository = some ("https://bitbucket.org/" <> (repository <> ".git"))
clone_url_for generic repository = none

pub record ProjectGitLink : Type 0 where
  pub id : String
  pub organization_id : String
  pub project_id : String
  pub provider : GitProvider
  pub repository : String
  pub production_branch : String
  pub previews_enabled : Bool
  pub secret_prefix : String
  pub created_by : String

pub record GitLinkCreate : Type 0 where
  pub id : String
  pub organization_id : String
  pub project_id : String
  pub provider : GitProvider
  pub repository : String
  pub production_branch : String
  pub previews_enabled : Bool
  pub secret_encrypted : String
  pub secret_prefix : String
  pub created_by : String

-- `decrypt` has no value for a ciphertext that is not the key's.
pub record SecretCipher : Type 0 where
  pub encrypt : String → String
  pub decrypt : String → Option String

pub record GitLinkDeps (W : Type 0) : Type 0 where
  pub get_project : String → String → Action W (Option Project)
  pub list_git_links : String → String → Action W (List ProjectGitLink)
  pub create_git_link : Option (GitLinkCreate → Action W ProjectGitLink)
  pub get_git_link_for_service : Option (String → String → Action W (Option ProjectGitLink))
  pub get_git_link_secret : Option (String → String → Action W (Option String))
  pub delete_git_link : Option (String → String → String → Action W Bool)
  pub record_audit_event : AuditEvent → Action W (Unit {0})
  pub cipher : Option SecretCipher
  pub new_id : Action W String
  pub new_secret : Action W String

pub record ConnectInput : Type 0 where
  pub project_id : String
  pub provider : GitProvider
  pub repository : String
  pub production_branch : Option String
  pub previews_enabled : Option Bool

pub record ConnectedGitLink : Type 0 where
  pub link : ProjectGitLink
  pub webhook_secret : String

-- The names of the methods that the store lacks.
abbrev pub missing : List (String × Bool) → List String
missing [] = []
missing ((name, present) ∷ rest) =
    let later = missing rest in if present then later else name ∷ later

abbrev pub joined : List String → String
joined [] = ""
joined (s ∷ []) = s
joined (s ∷ t ∷ rest) = s <> (", " <> joined (t ∷ rest))

abbrev pub is_none_missing : List String → Bool
is_none_missing [] = true
is_none_missing (s ∷ rest) = false

abbrev is_repository_code : ℕ → Bool
is_repository_code n = is_lower_or_digit n || (n == b'.') || (n == b'_') || (n == b'-')

abbrev repository_codes : String → Bool
repository_codes String.[] = true
repository_codes (String.◌∷◌ c s) = is_repository_code (code c) && repository_codes s

abbrev is_repository_part : String → Bool
is_repository_part s = not (is_empty s) && repository_codes s

abbrev two_parts : List String → Bool
two_parts (owner ∷ name ∷ []) = is_repository_part owner && is_repository_part name
two_parts _ = false

-- `REPOSITORY_PATTERN.test(text)`: two parts with a slash between them.
unfoldable pub is_repository_name : String → Bool
is_repository_name text = two_parts (split b'/' text)

-- `/^[^/]+\//` behind a scheme: a host of at least one character, and what follows its slash.
abbrev behind_host : Bool → String → Option String
behind_host seen String.[] = none
behind_host seen (String.◌∷◌ c s) =
    let later = behind_host true s in
    if code c == b'/' then (if seen then some s else none) else later

abbrev host_dropped : String → Option String → String
host_dropped whole none = whole
host_dropped whole (some rest) = get_or_else (behind_host false rest) whole

-- `replace(/^https?:\/\/[^/]+\//, "")`
abbrev without_host : String → String
without_host s = elim (without_prefix "https://" s) [
  | some rest ↦ host_dropped s (some rest)
  | none ↦ host_dropped s (without_prefix "http://" s)
]

-- `replace(/\.git$/, "")`
abbrev without_git : String → String
without_git String.[] = ""
without_git (String.◌∷◌ c s) =
    let rest = without_git s in if String.◌∷◌ c s === ".git" then "" else String.◌∷◌ c rest

unfoldable pub normalise_repository : (String → String) → String → Result String
unfolding is_repository_name
normalise_repository lower given =
    let repository =
      drop_slashes (strip_end b'/' (without_git (without_host (lower (trim given))))) in
    if not (is_repository_name repository)
    then throws (failure invalid_input "Repository must be in the form owner/name.")
    else value repository

abbrev is_branch_start : ℕ → Bool
is_branch_start n = is_upper n || is_lower_or_digit n

abbrev is_branch_code : ℕ → Bool
is_branch_code n = is_branch_start n || (n == b'.') || (n == b'_') || (n == b'/') || (n == b'-')

abbrev branch_codes : String → Bool
branch_codes String.[] = true
branch_codes (String.◌∷◌ c s) = is_branch_code (code c) && branch_codes s

abbrev is_branch : String → Bool
is_branch String.[] = false
is_branch (String.◌∷◌ c s) = is_branch_start (code c) && branch_codes s

unfoldable pub normalise_branch : String → String → Result String
normalise_branch given label =
    let branch = trim given in
    if is_empty branch || ltb 200 (utf16_length branch) || not (is_branch branch)
    then throws (failure invalid_input (label <> " is not a valid git branch."))
    else value branch

abbrev pub no_cipher : Failure
no_cipher =
    failure engine_unavailable
      "Set CLOUD_WAI_SECRET_ENCRYPTION_KEY to store a webhook secret for this repository."

module _ {W : Type 0} (lower : String → String) (secret_prefix : String → String)
    (deps : GitLinkDeps W) where
  abbrev lacking : List String
  lacking = missing (
      ("createGitLink", is_some deps.create_git_link)
      ∷ ("getGitLinkForService", is_some deps.get_git_link_for_service)
      ∷ ("getGitLinkSecret", is_some deps.get_git_link_secret)
      ∷ ("deleteGitLink", is_some deps.delete_git_link)
      ∷ [])

  abbrev cannot_record : Failure
  cannot_record =
      failure engine_unavailable ("This deployment cannot record " <> (joined lacking <> " yet."))

  -- `writesFor`
  abbrev writes_for : Action W (Unit {0})
  writes_for = raise_if (not (is_none_missing lacking)) cannot_record

  abbrev project_for : RequestContext → String → String → Action W Project
  project_for ctx id capability = do
    found ← deps.get_project ctx.principal.user_id id
    project ← found_or found project_not_found
    require ctx project.organization_id capability
    pure project

  abbrev is_linked : GitProvider → String → ProjectGitLink → Bool
  is_linked provider repository link =
      (provider_text link.provider === provider_text provider) && (link.repository === repository)

  unfoldable pub connect_git_link : RequestContext → ConnectInput → Action W ConnectedGitLink
  unfolding normalise_repository normalise_branch
  connect_git_link ctx input = do
    project ← project_for ctx input.project_id "project:update"
    cipher ← found_or deps.cipher no_cipher
    raise_if (not (includes git_providers (provider_text input.provider)))
        (failure invalid_input "Unknown git provider.")
    repository ← lift (normalise_repository lower input.repository)
    branch ←
        lift (normalise_branch (get_or_else input.production_branch "main") "Production branch")
    existing ← deps.list_git_links ctx.principal.user_id project.id
    raise_if (any (is_linked input.provider repository) existing)
        (failure conflict "That repository is already linked to this project.")
    writes_for
    create ← found_or deps.create_git_link cannot_record
    secret ← deps.new_secret
    id ← deps.new_id
    link ← create (record {
      id = id;
      organization_id = project.organization_id;
      project_id = project.id;
      provider = input.provider;
      repository = repository;
      production_branch = branch;
      previews_enabled = get_or_else input.previews_enabled false;
      secret_encrypted = cipher.encrypt secret;
      secret_prefix = secret_prefix secret;
      created_by = ctx.principal.user_id;
    })
    deps.record_audit_event (
        event_of ctx project.organization_id "git.linked" "project_git_link" link.id (
          ("projectId", Meta.text project.id)
          ∷ ("provider", Meta.text (provider_text input.provider))
          ∷ ("repository", Meta.text repository)
          ∷ []))
    pure (record { link = link; webhook_secret = secret })

  unfoldable pub list_git_links : RequestContext → String → Action W (List ProjectGitLink)
  list_git_links ctx project_id = do
    project ← project_for ctx project_id "project:read"
    deps.list_git_links ctx.principal.user_id project.id

  abbrev audit_unlinked : Bool → AuditEvent → Action W (Unit {0})
  audit_unlinked true event = deps.record_audit_event event
  audit_unlinked false event = pure tt

  unfoldable pub disconnect_git_link : RequestContext → String → String → Action W Bool
  disconnect_git_link ctx project_id link_id = do
    project ← project_for ctx project_id "project:update"
    writes_for
    delete ← found_or deps.delete_git_link cannot_record
    removed ← delete ctx.principal.user_id project.organization_id link_id
    audit_unlinked removed (
        event_of ctx project.organization_id "git.unlinked" "project_git_link" link_id
          (("projectId", Meta.text project.id) ∷ []))
    pure removed

  -- The clone URL and the branch of the first link.
  abbrev source_of : List ProjectGitLink → Option (String × String)
  source_of [] = none
  source_of (link ∷ rest) = elim (clone_url_for link.provider link.repository) [
    | none ↦ none
    | some url ↦ some (url, link.production_branch)
  ]

  abbrev nothing_linked : Failure
  nothing_linked =
      failure invalid_input
        "Connect a repository to this project first, or deploy with an explicit repository from the Deployments page."

  unfoldable pub deploy_from_link :
      (RequestContext → CreateInput → Action W RequestResult)
      → RequestContext
      → String
      → Option String
      → Action W RequestResult
  deploy_from_link deploy ctx project_id key = do
    project ← project_for ctx project_id "deployment:create"
    links ← deps.list_git_links ctx.principal.user_id project.id
    source ← found_or (source_of links) nothing_linked
    deploy ctx (record {
      project_id = project.id;
      idempotency_key = truthy key;
      git_repository = some source.0;
      git_branch = some source.1;
      commit = none;
      build_pack = none;
      root_directory = none;
      kind = some production;
      staged = false;
      pull_request = none;
    })
