-- ===== src/Security/Tests.antt =====
-- Runs of the policy distribution and of the incidents on small inputs. The world is the clock.
use uscs.Common.{ℕ, suc, ◌≤◌, ◌≡◌, refl, some, List, [], ◌∷◌, All}
use uscs.Contracts.{succeeded, AdapterResult, ok}
use uscs.Io.{returns}
use uscs.Deployment.Engine.{AdapterContext}
use uscs.Security.{SecurityPolicy, PolicyVersion, validate_policy, may_distribute}
use uscs.Security.Registry.{record_version, empty_registry, set}
use uscs.Security.Incidents.{
  Incident, IncidentTracker, OpenInput, high, as_false_positive, empty_tracker, open_incident,
  triage, close, lookup, put, new_incident, closed,
}
use uscs.Security.Incidents.Lifecycle.{
  IsSound, stays, steps, opens, triages, closes, incidents-IsSound, closed_stays,
}
use uscs.Security.Distribution.{DistributionDeps, ControlState, distribute_policy, after_apply}
use uscs.Security.Distribution.Laws.{never_rolls_back}

abbrev policy : ℕ → SecurityPolicy
policy version = record {
  id = "policy-1";
  organization_id = "org-1";
  name = "Default";
  risk_level = "high";
  action = "block";
  version = version;
}

abbrev ctx : AdapterContext
ctx = record { organization_id = "org-1"; idempotency_key = "k1"; timeout_ms = 20000 }

abbrev edge : AdapterResult ℕ → DistributionDeps ℕ
edge answer = record {
  apply_policy = λ c r w. (returns answer, suc w);
  provider_ref = λ p. record {
    organization_id = "org-1";
    provider = "coraza";
    resource_type = "policy";
    resource_id = p.id;
  };
  clock = λ w. w;
  decimal = λ n. "n";
}

abbrev start : ControlState
start = record {
  registry = set empty_registry "org-1" (record { policy_id = "policy-1"; version = 3 });
  incidents = empty_tracker;
}

-- Version 5 is distributed, then the older version 4.
abbrev two : List (SecurityPolicy × AdapterContext)
two = (policy 5, ctx) ∷ (policy 4, ctx) ∷ []

abbrev after_two : ControlState
after_two = record {
  registry = record_version start.registry "org-1" (record { policy_id = "policy-1"; version = 5 });
  incidents = empty_tracker;
}

never_rolls_back_example :
    (v' : PolicyVersion) × (after_two.registry "org-1" ≡ some v')
    × (v'.policy_id ≡ "policy-1")
    × (3 ≤ v'.version)
unfolding distribute_policy validate_policy may_distribute after_apply record_version
never_rolls_back_example =
    never_rolls_back (edge (ok succeeded 1)) two start after_two 10 11 "org-1"
      (record { policy_id = "policy-1"; version = 3 }) refl refl

abbrev signal : OpenInput
signal = record {
  organization_id = "org-1";
  kind = "origin_leak";
  severity = high;
  summary = "suspected";
}

abbrev opened : IncidentTracker
opened = (open_incident 100 signal empty_tracker).1

abbrev over : IncidentTracker
over = (close 200 1 "not a leak" as_false_positive opened).1

abbrev closed_incident : Incident
closed_incident = closed 200 "not a leak" as_false_positive (new_incident 100 1 signal)

incidents-IsSound_example : All IsSound over.by_id
incidents-IsSound_example =
    incidents-IsSound empty_tracker over
      (steps (opens 100 signal empty_tracker)
        (steps (closes 200 1 "not a leak" as_false_positive opened) stays))
      tt

closed_stays_example :
    lookup 1 (close 300 1 "fixed" as_false_positive (triage 1 over).1).1.by_id
    ≡ some closed_incident
unfolding open_incident close lookup put
closed_stays_example =
    closed_stays over (close 300 1 "fixed" as_false_positive (triage 1 over).1).1 1 closed_incident
      (steps (triages 1 over)
        (steps (closes 300 1 "fixed" as_false_positive (triage 1 over).1) stays))
      refl refl
