-- ===== src/Projects.antt =====
-- apps/api/src/procedures/organizations.ts: changing a project. `updateProject` of the store gets a
-- root directory only if the request has one, which may be null.
pub mod Names
mod Tests
use Prim.Native.Char.{code}
use Prim.Native.String.{◌++◌ as ◌<>◌}
use uscs.Common.{
  ℕ, String, Bool, true, false, not, ◌&&◌, ◌||◌, Option, none, some, List, [], ◌∷◌, ◌++◌, ◌==◌,
  ◌===◌, ltb, leb, if◌then◌else◌, is_some, trim, utf16_length,
}
use uscs.Contracts.{ExecutionModel, container, serverless}
use uscs.Api.Action.{
  not_found, invalid_input, conflict, engine_unavailable, Failure, Result, value, throws, Action,
  pure, raise_if, lift, ◌>>=◌, ◌>>◌,
}
use uscs.Api.Guard.{RequestContext}
use uscs.Api.Audit.{Meta, AuditEvent, optional_text, failure, found_or, require, event_of}
use uscs.RootDirectory.{parse_root_directory}
use uscs.Requests.{project_not_found}
use uscs.Requests.Keys.{is_lower_or_digit}

pub record Project : Type 0 where
  pub id : String
  pub organization_id : String
  pub name : String
  pub slug : String
  pub execution_model : ExecutionModel
  pub root_directory : Option String
  pub provider_resource_id : Option String

pub record ProjectUpdate : Type 0 where
  pub organization_id : String
  pub project_id : String
  pub name : Option String
  pub slug : Option String
  pub execution_model : Option ExecutionModel
  pub root_directory : Option (Option String)

pub record UpdateInput : Type 0 where
  pub project_id : String
  pub name : Option String
  pub slug : Option String
  pub execution_model : Option String
  pub root_directory : Option (Option String)

pub record ProjectDeps (W : Type 0) : Type 0 where
  pub get_project : String → String → Action W (Option Project)
  pub update_project : Option (ProjectUpdate → Action W (Option Project))
  pub record_audit_event : AuditEvent → Action W (Unit {0})

abbrev model_text : ExecutionModel → String
model_text container = "container"
model_text serverless = "serverless"

abbrev is_slug_code : ℕ → Bool
is_slug_code n = is_lower_or_digit n || (n == b'-')

abbrev slug_codes : String → Bool
slug_codes String.[] = true
slug_codes (String.◌∷◌ c s) = is_slug_code (code c) && slug_codes s

-- `/^[a-z0-9][a-z0-9-]{1,62}$/`
unfoldable pub is_slug : String → Bool
is_slug String.[] = false
is_slug (String.◌∷◌ c s) =
    is_lower_or_digit (code c) && slug_codes s && leb 1 (utf16_length s) && leb (utf16_length s) 62

unfoldable pub checked_name : Option String → Result (Option String)
checked_name none = value none
checked_name (some given) =
    let name = trim given in
    if ltb (utf16_length name) 1 || ltb 120 (utf16_length name)
    then throws (failure invalid_input "Project name must be 1-120 characters.")
    else value (some name)

unfoldable pub checked_slug : Option String → Result (Option String)
unfolding is_slug
checked_slug none = value none
checked_slug (some slug) =
    if not (is_slug slug)
    then throws (failure invalid_input "Project slug must be lowercase alphanumeric with hyphens.")
    else value (some slug)

-- `parseExecutionModel`
unfoldable pub parse_execution_model : Option String → Result (Option ExecutionModel)
parse_execution_model none = value none
parse_execution_model (some given) =
    if given === "container"
    then value (some container)
    else if given === "serverless"
    then value (some serverless)
    else throws (failure invalid_input "Execution model must be 'container' or 'serverless'.")

abbrev pub is_empty_update : UpdateInput → Bool
is_empty_update input =
    not (is_some input.name)
    && not (is_some input.slug)
    && not (is_some input.execution_model)
    && not (is_some input.root_directory)

abbrev pub nothing_given : Failure
nothing_given =
    failure invalid_input
      "Nothing to update: provide a name, a slug, an execution model or a root directory."

abbrev pub fixed_root : Failure
fixed_root = failure conflict (
    "This project's root directory is set on the hosting engine when the application "
    <> ("is created, and the engine cannot re-target it. It can only change before the "
        <> "first deployment."))

abbrev pub fixed_slug : Failure
fixed_slug = failure conflict (
    "This project's slug names the application on the hosting engine, and the engine "
    <> ("cannot rename it. The slug can only change before the first deployment creates "
        <> "the application; rename the project's name instead."))

abbrev pub cannot_rename : Failure
cannot_rename = failure engine_unavailable "This deployment cannot rename projects yet."

-- `a === b` of texts that may be null.
abbrev pub same : Option String → Option String → Bool
same none none = true
same (some a) (some b) = a === b
same _ _ = false

-- `existing.providerResourceId != null`
abbrev pub is_deployed : Project → Bool
is_deployed project = is_some project.provider_resource_id

abbrev pub slug_moves : Project → Option String → Bool
slug_moves existing none = false
slug_moves existing (some slug) = not (slug === existing.slug) && is_deployed existing

abbrev pub root_moves : Project → Option (Option String) → Bool
root_moves existing none = false
root_moves existing (some root) = not (same root existing.root_directory) && is_deployed existing

abbrev root_given : Option (Option String) → Result (Option (Option String))
root_given none = value none
root_given (some given) = elim (parse_root_directory given) [
  | value root ↦ value (some root)
  | throws e ↦ throws e
]

abbrev meta_of_model : Option ExecutionModel → List (String × Meta)
meta_of_model none = []
meta_of_model (some model) = ("executionModel", Meta.text (model_text model)) ∷ []

abbrev meta_of_root : Option (Option String) → Project → List (String × Meta)
meta_of_root none updated = []
meta_of_root (some root) updated = ("rootDirectory", optional_text updated.root_directory) ∷ []

module _ {W : Type 0} (deps : ProjectDeps W) where
  abbrev pub update_of :
      Project
      → UpdateInput
      → Option String
      → Option String
      → Option ExecutionModel
      → Option (Option String)
      → ProjectUpdate
  update_of existing input name slug model root = record {
    organization_id = existing.organization_id;
    project_id = input.project_id;
    name = name;
    slug = slug;
    execution_model = model;
    root_directory = root;
  }

  -- The write of what has passed the checks, and its audit event.
  unfoldable pub write_update : RequestContext → ProjectUpdate → Action W Project
  write_update ctx update = do
    write ← found_or deps.update_project cannot_rename
    found ← write update
    updated ← found_or found project_not_found
    deps.record_audit_event (
        event_of ctx updated.organization_id "project.updated" "project" updated.id (
          ("slug", Meta.text updated.slug) ∷ []
          ++ (meta_of_model update.execution_model ++ meta_of_root update.root_directory updated)))
    pure updated

  unfoldable pub apply_update : RequestContext → Project → UpdateInput → Action W Project
  unfolding checked_name checked_slug parse_execution_model write_update
  apply_update ctx existing input = do
    raise_if (is_empty_update input) nothing_given
    name ← lift (checked_name input.name)
    slug ← lift (checked_slug input.slug)
    model ← lift (parse_execution_model input.execution_model)
    root ← lift (root_given input.root_directory)
    raise_if (root_moves existing root) fixed_root
    raise_if (slug_moves existing slug) fixed_slug
    write_update ctx (update_of existing input name slug model root)

  unfoldable pub update_project : RequestContext → UpdateInput → Action W Project
  unfolding apply_update
  update_project ctx input = do
    found ← deps.get_project ctx.principal.user_id input.project_id
    existing ← found_or found project_not_found
    require ctx existing.organization_id "project:update"
    apply_update ctx existing input
