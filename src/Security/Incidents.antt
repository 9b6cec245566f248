-- ===== src/Security/Incidents.antt =====
-- `IncidentTracker` of apps/security-control/src/index.ts. The identifier `inc-n` is the number `n`;
-- the clock is read by the caller. The map keeps its entries in the order of insertion.
pub mod Lifecycle
use uscs.Common.{
  ℕ, suc, String, Bool, true, false, Option, none, some, List, [], ◌∷◌, ◌++◌, if◌then◌else◌, ◌==◌,
  ◌===◌, ◌&&◌, find, filter, is_blank,
}

pub data Severity : Type 0 where
  low medium high critical : Severity

pub data IncidentState : Type 0 where
  open_state triaged_state resolved_state false_positive_state : IncidentState

pub record Incident : Type 0 where
  pub id : ℕ
  pub organization_id : String
  pub kind : String
  pub severity : Severity
  pub state : IncidentState
  pub summary : String
  pub opened_at : ℕ
  pub closed_at : Option ℕ
  pub resolution : Option String

pub record IncidentTracker : Type 0 where
  pub by_id : List Incident
  pub counter : ℕ

pub record OpenInput : Type 0 where
  pub organization_id : String
  pub kind : String
  pub severity : Severity
  pub summary : String

-- The two outcomes that an incident may be closed with.
pub data Closing : Type 0 where
  as_resolved as_false_positive : Closing

abbrev state_of : Closing → IncidentState
state_of as_resolved = resolved_state
state_of as_false_positive = false_positive_state

abbrev pub is_untriaged : IncidentState → Bool
is_untriaged open_state = true
is_untriaged _ = false

-- `isIncidentOpen` of packages/security/src/index.ts
abbrev pub is_incident_open : Incident → Bool
is_incident_open incident = elim incident.state [
  | open_state ↦ true
  | triaged_state ↦ true
  | _ ↦ false
]

abbrev pub empty_tracker : IncidentTracker
empty_tracker = record { by_id = []; counter = 0 }

unfoldable pub lookup : ℕ → List Incident → Option Incident
lookup i [] = none
lookup i (incident ∷ rest) = if incident.id == i then some incident else lookup i rest

-- `byId.set(id, ...)` of an entry that is there.
unfoldable pub put : Incident → List Incident → List Incident
put new [] = []
put new (incident ∷ rest) =
    let later = put new rest in if incident.id == new.id then new ∷ rest else incident ∷ later

abbrev pub new_incident : ℕ → ℕ → OpenInput → Incident
new_incident now id input = record {
  id = id;
  organization_id = input.organization_id;
  kind = input.kind;
  severity = input.severity;
  state = open_state;
  summary = input.summary;
  opened_at = now;
  closed_at = none;
  resolution = none;
}

unfoldable pub open_incident : ℕ → OpenInput → IncidentTracker → Incident × IncidentTracker
open_incident now input tracker =
    let incident = new_incident now (suc tracker.counter) input in
    (incident, record { by_id = tracker.by_id ++ (incident ∷ []); counter = suc tracker.counter })

abbrev pub triaged : Incident → Incident
triaged incident = record {
  id = incident.id;
  organization_id = incident.organization_id;
  kind = incident.kind;
  severity = incident.severity;
  state = triaged_state;
  summary = incident.summary;
  opened_at = incident.opened_at;
  closed_at = incident.closed_at;
  resolution = incident.resolution;
}

abbrev pub closed : ℕ → String → Closing → Incident → Incident
closed now resolution outcome incident = record {
  id = incident.id;
  organization_id = incident.organization_id;
  kind = incident.kind;
  severity = incident.severity;
  state = state_of outcome;
  summary = incident.summary;
  opened_at = incident.opened_at;
  closed_at = some now;
  resolution = some resolution;
}

abbrev store : Incident → IncidentTracker → Option Incident × IncidentTracker
store incident tracker =
    (some incident, record { by_id = put incident tracker.by_id; counter = tracker.counter })

abbrev triage_found : Option Incident → IncidentTracker → Option Incident × IncidentTracker
triage_found none tracker = (none, tracker)
triage_found (some incident) tracker =
    if is_untriaged incident.state then store (triaged incident) tracker else (none, tracker)

unfoldable pub triage : ℕ → IncidentTracker → Option Incident × IncidentTracker
triage i tracker = triage_found (lookup i tracker.by_id) tracker

abbrev close_found :
    ℕ → String → Closing → Option Incident → IncidentTracker → Option Incident × IncidentTracker
close_found now resolution outcome none tracker = (none, tracker)
close_found now resolution outcome (some incident) tracker =
    if is_incident_open incident
    then if is_blank resolution
      then (none, tracker)
      else store (closed now resolution outcome incident) tracker
    else (none, tracker)

unfoldable pub close :
    ℕ → ℕ → String → Closing → IncidentTracker → Option Incident × IncidentTracker
close now i resolution outcome tracker =
    close_found now resolution outcome (lookup i tracker.by_id) tracker

unfoldable pub open_incidents : String → IncidentTracker → List Incident
open_incidents organization_id tracker =
    filter (λ incident. (incident.organization_id === organization_id) && is_incident_open incident)
      tracker.by_id
