-- ===== src/Applier/Table.antt =====
-- applier.ts: the order of the appliers does not matter, since each looks at the job's kind.
use uscs.Common.{List, [], ◌∷◌, ◌++◌, All, ◌≡◌, refl, ◌∙◌}
use uscs.Contracts.{AdapterResult}
use uscs.Io.{Ending, returns, raises, then_do, >>=-returns}
use uscs.Queue.{Job}
use uscs.Applier.{JobOutcomeWriter, build_applier}

module _ {W P V : Type 0} (job : Job P) (result : AdapterResult V) where
  -- The applier writes nothing for the job.
  abbrev pub IsSilent : JobOutcomeWriter W P V → Type 0
  IsSilent apply = (w : W) → apply job result w ≡ (returns tt, w)

  silent-rest :
      (rest : List (JobOutcomeWriter W P V)) (w : W)
      → All IsSilent rest
      → build_applier rest job result w ≡ (returns tt, w)
  unfolding build_applier
  silent-rest [] w h = refl
  silent-rest (apply ∷ rest) w h =
      >>=-returns (apply job result) (λ _. build_applier rest job result) w w tt (h.0 w)
      ∙ silent-rest rest w h.1

  settled :
      (rest : List (JobOutcomeWriter W P V)) (r : Ending (Unit {0})) (w : W)
      → All IsSilent rest
      → then_do (λ _. build_applier rest job result) r w ≡ (r, w)
  settled rest (returns tt) w h = silent-rest rest w h
  settled rest (raises e) w h = refl

  -- If all appliers but one write nothing for a settled job, the combined applier does for that
  -- job exactly what the one does, wherever it stands among them.
  pub build_applier-IsSilent :
      (before after : List (JobOutcomeWriter W P V)) (apply : JobOutcomeWriter W P V) (w : W)
      → All IsSilent before
      → All IsSilent after
      → build_applier (before ++ apply ∷ after) job result w ≡ apply job result w
  unfolding build_applier
  build_applier-IsSilent [] after apply w h k = settled after _ _ k
  build_applier-IsSilent (other ∷ before) after apply w h k =
      >>=-returns (other job result) (λ _. build_applier (before ++ apply ∷ after) job result) w w
        tt (h.0 w)
      ∙ build_applier-IsSilent before after apply w h.1 k
