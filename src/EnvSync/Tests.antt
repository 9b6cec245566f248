-- ===== src/EnvSync/Tests.antt =====
-- A run of the synchronisation on a small input. The world counts the writes of the engine.
use uscs.Common.{
  ℕ, suc, ◌≡◌, String, true, false, none, some, List, [], ◌∷◌, filter, if◌then◌else◌, ◌===◌,
}
use uscs.Contracts.{succeeded, ProviderRef, ok}
use uscs.Io.{returns, pure}
use uscs.Deployment.Engine.{AdapterContext}
use uscs.EnvSync.{StoredVariable, EnvVarState, EnvSyncDeps, push_all}
use uscs.EnvSync.Skips.{is_readable, push_all-filter}

abbrev state : String → EnvVarState
state key = record { key = key; engine_ref = some "ref-1" }

abbrev deps : EnvSyncDeps ℕ
deps = record {
  list_env_vars = λ c r. pure (ok succeeded []);
  create_env_var = λ c r v w. (returns (ok succeeded (state v.key)), suc w);
  update_env_var = λ c r v w. (returns (ok succeeded (state v.key)), suc w);
  list_stored = λ o p e. pure [];
  set_engine_ref = λ i. pure tt;
  decrypt = λ s. if s === "tampered" then none else some s;
}

abbrev ctx : AdapterContext
ctx = record { organization_id = "org-1"; idempotency_key = "k1"; timeout_ms = 30000 }

abbrev application : ProviderRef
application = record {
  organization_id = "org-1";
  provider = "coolify";
  resource_type = "application";
  resource_id = "app-1";
}

abbrev stored : List StoredVariable
stored =
    record { key = "TOKEN"; value_encrypted = "tampered"; is_build_time = false }
    ∷ record { key = "URL"; value_encrypted = "cipher"; is_build_time = true }
    ∷ []

push_all-filter_example :
    push_all deps ctx application "project-1" "env-1" [] stored 0
    ≡ push_all deps ctx application "project-1" "env-1" []
        (filter (is_readable deps ctx application "project-1" "env-1") stored)
        0
push_all-filter_example = push_all-filter deps ctx application "project-1" "env-1" [] stored 0
