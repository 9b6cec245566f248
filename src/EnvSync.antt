-- ===== src/EnvSync.antt =====
-- apps/worker/src/env-sync.ts: a project's stored variables are pushed to the engine before a build.
-- The store, the engine and the cipher are outside; `decrypt` answers `none` for `null`.
pub mod Skips
mod Tests
use uscs.Common.{
  String, Bool, true, false, Option, none, some, List, [], ◌∷◌, any, get_or_else, ◌===◌,
}
use uscs.Contracts.{ProviderRef, AdapterResult, ok, err}
use uscs.Io.{Io, pure, ◌>>=◌, ◌>>◌}
use uscs.Deployment.Engine.{AdapterContext}

pub record StoredVariable : Type 0 where
  pub key : String
  pub value_encrypted : String
  pub is_build_time : Bool

pub record EnvVarState : Type 0 where
  pub key : String
  pub engine_ref : Option String

pub record EnvVarWrite : Type 0 where
  pub key : String
  pub value : String
  pub is_build_time : Bool

pub record EngineRefInput : Type 0 where
  pub organization_id : String
  pub project_id : String
  pub environment_id : String
  pub key : String
  pub engine_ref : String
  pub provider : String
  pub provider_resource_id : String

pub record EnvSyncDeps (W : Type 0) : Type 0 where
  pub list_env_vars : AdapterContext → ProviderRef → Io W (AdapterResult (List EnvVarState))
  pub create_env_var : AdapterContext → ProviderRef → EnvVarWrite → Io W (AdapterResult EnvVarState)
  pub update_env_var : AdapterContext → ProviderRef → EnvVarWrite → Io W (AdapterResult EnvVarState)
  -- organization, project, environment
  pub list_stored : String → String → String → Io W (List StoredVariable)
  pub set_engine_ref : EngineRefInput → Io W (Unit {0})
  pub decrypt : String → Option String

-- `byKey.get(variable.key)` is there.
abbrev pub is_present : List EnvVarState → String → Bool
is_present existing key = any (λ item. item.key === key) existing

module _ {W : Type 0} (deps : EnvSyncDeps W) (ctx : AdapterContext) (application : ProviderRef)
    (project_id environment_id : String) where
  abbrev pub record_ref : String → AdapterResult EnvVarState → Io W (Unit {0})
  record_ref key (err _ _) = pure tt
  record_ref key (ok _ item) = deps.set_engine_ref record {
    organization_id = ctx.organization_id;
    project_id = project_id;
    environment_id = environment_id;
    key = key;
    engine_ref = get_or_else item.engine_ref "";
    provider = application.provider;
    provider_resource_id = application.resource_id;
  }

  abbrev pub write_variable : Bool → EnvVarWrite → Io W (AdapterResult EnvVarState)
  write_variable true variable = deps.update_env_var ctx application variable
  write_variable false variable = deps.create_env_var ctx application variable

  abbrev write_of : StoredVariable → String → EnvVarWrite
  write_of variable value = record {
    key = variable.key;
    value = value;
    is_build_time = variable.is_build_time;
  }

  abbrev pub push_variable : List EnvVarState → StoredVariable → Option String → Io W (Unit {0})
  push_variable existing variable none = pure tt
  push_variable existing variable (some value) =
      write_variable (is_present existing variable.key) (write_of variable value)
      >>= record_ref variable.key

  -- The loop over the stored variables.
  unfoldable pub push_all : List EnvVarState → List StoredVariable → Io W (Unit {0})
  push_all existing [] = pure tt
  push_all existing (variable ∷ rest) =
      push_variable existing variable (deps.decrypt variable.value_encrypted)
      >> push_all existing rest

  abbrev pub push_listed : List StoredVariable → AdapterResult (List EnvVarState) → Io W (Unit {0})
  push_listed stored (err _ _) = pure tt
  push_listed stored (ok _ existing) = push_all existing stored

  abbrev pub sync_stored : List StoredVariable → Io W (Unit {0})
  sync_stored [] = pure tt
  sync_stored stored = deps.list_env_vars ctx application >>= push_listed stored

  unfoldable pub sync : Io W (Unit {0})
  sync = deps.list_stored ctx.organization_id project_id environment_id >>= sync_stored
