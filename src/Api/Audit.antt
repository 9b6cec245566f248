-- ===== src/Api/Audit.antt =====
-- The audit events that the procedures of apps/api/src/procedures write, and the checks that
-- they share. A method that a store may lack is an option.
use uscs.Common.{ℕ, String, Bool, List, [], Option, none, some}
use uscs.Api.Action.{ErrorCode, Failure, api, Action, pure, raise, lift}
use uscs.Api.Guard.{RequestContext, require_capability}

-- A value of the metadata of an event.
pub data Meta : Type 0 where
  text : String → Meta
  number : ℕ → Meta
  flag : Bool → Meta
  null : Meta

pub record AuditEvent : Type 0 where
  pub organization_id : String
  pub actor_id : Option String
  pub actor_email : Option String
  pub event : String
  pub target_type : String
  pub target_id : String
  pub metadata : List (String × Meta)

-- `{ key: value }` of a value that may be null.
abbrev pub optional_text : Option String → Meta
optional_text none = null
optional_text (some s) = text s

abbrev pub failure : ErrorCode → String → Failure
failure code message = api (record { code = code; message = message; details = [] })

abbrev pub found_or : {W A : Type 0} → Option A → Failure → Action W A
found_or none e = raise e
found_or (some a) e = pure a

abbrev pub require : {W : Type 0} → RequestContext → String → String → Action W (Unit {0})
require ctx organization capability = lift (require_capability ctx organization capability)

-- The event of a member's action.
abbrev pub event_of :
    RequestContext → String → String → String → String → List (String × Meta) → AuditEvent
event_of ctx organization event target_type target_id metadata = record {
  organization_id = organization;
  actor_id = some ctx.principal.user_id;
  actor_email = some ctx.principal.email;
  event = event;
  target_type = target_type;
  target_id = target_id;
  metadata = metadata;
}
