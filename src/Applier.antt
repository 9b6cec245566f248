-- ===== src/Applier.antt =====
-- apps/worker/src/applier.ts: the appliers of the kinds, combined into the one that the worker calls.
pub mod Table
mod Tests
use uscs.Common.{List, [], ◌∷◌}
use uscs.Contracts.{AdapterResult}
use uscs.Io.{Io, pure, ◌>>◌}
use uscs.Queue.{Job}

abbrev pub JobOutcomeWriter : Type 0 → Type 0 → Type 0 → Type 0
JobOutcomeWriter W P V = Job P → AdapterResult V → Io W (Unit {0})

-- The loop over the appliers.
unfoldable pub build_applier :
    {W P V : Type 0} → List (JobOutcomeWriter W P V) → JobOutcomeWriter W P V
build_applier [] job result = pure tt
build_applier (apply ∷ rest) job result = apply job result >> build_applier rest job result
