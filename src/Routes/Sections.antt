-- ===== src/Routes/Sections.antt =====
-- The lists of sections in apps/web/src/routes.ts.
use uscs.Common.{
  String, Bool, List, [], ◌∷◌, Option, none, some, includes, get_or_else, ◌===◌, if◌then◌else◌,
}

abbrev pub database_sections : List String
database_sections =
    "overview" ∷ "tables" ∷ "sql" ∷ "auth" ∷ "storage" ∷ "api" ∷ "roles" ∷ "logs" ∷ "settings" ∷ []

abbrev pub is_database_section : String → Bool
is_database_section value = includes database_sections value

abbrev pub workspace_sections : List String
workspace_sections =
    "logs" ∷ "analytics" ∷ "speed-insights" ∷ "firewall" ∷ "cdn" ∷ "env" ∷ "domains" ∷ "connect"
    ∷ "integrations" ∷ "storage" ∷ "flags" ∷ "agent" ∷ "ai-gateway" ∷ "sandboxes" ∷ "workflows"
    ∷ "images" ∷ "usage" ∷ "support" ∷ []

abbrev pub is_workspace_section : String → Bool
is_workspace_section value = includes workspace_sections value

abbrev pub project_sections : List String
project_sections =
    "speed-insights" ∷ "observability" ∷ "firewall" ∷ "cdn" ∷ "connect" ∷ "integrations" ∷ "storage"
    ∷ "flags" ∷ "agent" ∷ "ai-gateway" ∷ "sandboxes" ∷ "workflows" ∷ "images" ∷ "usage" ∷ "support"
    ∷ []

abbrev pub is_project_section : String → Bool
is_project_section value = includes project_sections value

-- The value of a key of a table, the first that fits.
abbrev pub entry {ℓ} : {A : Type ℓ} → String → List (String × A) → Option A
entry key [] = none
entry key ((k, v) ∷ rest) = if k === key then some v else entry key rest

abbrev pub section_subs : List (String × List String)
section_subs =
    ("firewall", "overview" ∷ "traffic" ∷ "rules" ∷ "audit-log" ∷ [])
    ∷ ("cdn", "overview" ∷ "caches" ∷ [])
    ∷ ("flags", "overview" ∷ "entities" ∷ "sdk-keys" ∷ [])
    ∷ ("storage", "overview" ∷ "buckets" ∷ [])
    ∷ ("ai-gateway", "overview" ∷ "api-keys" ∷ "models" ∷ "playground" ∷ [])
    ∷ []

abbrev pub sub_sections : String → List String
sub_sections section = get_or_else (entry section section_subs) []

abbrev pub is_sub_section : String → String → Bool
is_sub_section section sub = includes (sub_sections section) sub

abbrev pub sub_section_labels : List (String × String)
sub_section_labels =
    ("overview", "Overview")
    ∷ ("traffic", "Traffic")
    ∷ ("rules", "Rules")
    ∷ ("audit-log", "Audit Log")
    ∷ ("caches", "Caches")
    ∷ ("entities", "Entities")
    ∷ ("sdk-keys", "SDK Keys")
    ∷ ("buckets", "Buckets")
    ∷ ("api-keys", "API Keys")
    ∷ ("models", "Model List")
    ∷ ("playground", "Playground")
    ∷ []

abbrev pub sub_section_title : String → String
sub_section_title sub = get_or_else (entry sub sub_section_labels) sub
