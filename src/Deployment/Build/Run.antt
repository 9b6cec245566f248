-- ===== src/Deployment/Build/Run.antt =====
-- build-run.ts: the polls of a build.
use uscs.Common.{ℕ, zero, suc, ◌<◌, ◌≡◌, refl, ap, ◌∙◌, String, Option, none, some, arith}
use uscs.Contracts.{EngineStatus, degraded, ProviderRef, AdapterResult, ok, err}
use uscs.Io.{Ending, returns, raises, then_do, >>=-returns}
use uscs.Deployment.Engine.{AdapterContext, ServerlessArtifact}
use uscs.Deployment.Build.{
  BuildArtifact, BuildStepDeps, built, no_artifact, finished_build, to_serverless_artifact, polled,
  poll, interval, too_slow,
}

module _ {W : Type 0} (deps : BuildStepDeps W) (ctx : AdapterContext) (ref : ProviderRef) where
  -- From `w`, `n` polls find the build still going, each followed by a sleep, and end in `w'`.
  pub data StillGoing : ℕ → W → W → Type 0 where
    here : {w : W} → StillGoing 0 w w
    later :
        {n : ℕ} {w w1 w2 w3 : W} {reason : String}
        → deps.build.get_artifact ctx ref w ≡ (returns (err degraded reason), w1)
        → deps.sleep (interval deps) w1 ≡ (returns tt, w2)
        → StillGoing n w2 w3
        → StillGoing (suc n) w w3

  -- A build that is still going at each of the polls ends without code after exactly these polls,
  -- with the reason that names their number.
  pub poll-gives_up :
      (n : ℕ) (w w' : W)
      → StillGoing n w w'
      → poll deps ctx ref n w ≡ (returns (no_artifact (too_slow deps)), w')
  unfolding poll polled
  poll-gives_up zero w _ here = refl
  poll-gives_up (suc n) w w' (later asked slept rest) =
      >>=-returns (deps.build.get_artifact ctx ref) (polled deps ref (poll deps ctx ref n)) w _ _
        asked
      ∙ >>=-returns (deps.sleep (interval deps)) (λ _. poll deps ctx ref n) _ _ _ slept
      ∙ poll-gives_up n _ _ rest

  -- The builder's report that the code of a `built` answer comes from.
  abbrev pub ReportOf : ℕ → ServerlessArtifact → W → W → Type 0
  ReportOf n code w w' =
      (k : ℕ) × (w1 : W) × (status : EngineStatus) × (artifact : BuildArtifact) × (k < n)
      × StillGoing k w w1
      × (deps.build.get_artifact ctx ref w1 ≡ (returns (ok status artifact), w'))
      × (to_serverless_artifact artifact ≡ some code)

  report-later :
      (n : ℕ) (code : ServerlessArtifact) (w w1 w2 w' : W) (reason : String)
      → deps.build.get_artifact ctx ref w ≡ (returns (err degraded reason), w1)
      → deps.sleep (interval deps) w1 ≡ (returns tt, w2)
      → ReportOf n code w2 w'
      → ReportOf (suc n) code w w'
  report-later n code w w1 w2 w' reason asked slept
        (k, w3, status, artifact, small, going, answer, is_code) =
      (suc k, w3, status, artifact, omega arith, later asked slept going, answer, is_code)

  finished_build-built :
      (o : Option ServerlessArtifact) (code : ServerlessArtifact) (r : ProviderRef)
      → finished_build o ref ≡ built code r
      → (o ≡ some code) × (r ≡ ref)
  finished_build-built none code r e = cc
  finished_build-built (some c) code r e = (cc, cc)

  abbrev pub Reported : ℕ → ServerlessArtifact → ProviderRef → W → W → Type 0
  Reported n code r w w' = ReportOf n code w w' × (r ≡ ref)

  after_sleep :
      (n : ℕ) (code : ServerlessArtifact) (r : ProviderRef) (w w1 w2 w' : W) (reason : String)
      (b : Ending (Unit {0}))
      → ((v : W) → poll deps ctx ref n v ≡ (returns (built code r), w') → Reported n code r v w')
      → deps.build.get_artifact ctx ref w ≡ (returns (err degraded reason), w1)
      → deps.sleep (interval deps) w1 ≡ (b, w2)
      → then_do (λ _. poll deps ctx ref n) b w2 ≡ (returns (built code r), w')
      → Reported (suc n) code r w w'
  after_sleep n code r w w1 w2 w' reason (raises m) ih asked slept e = cc
  after_sleep n code r w w1 w2 w' reason (returns tt) ih asked slept e =
      let (report, same) = ih w2 e in
      (report-later n code w w1 w2 w' reason asked slept report, same)

  after_poll :
      (n : ℕ) (code : ServerlessArtifact) (r : ProviderRef) (w w1 w' : W)
      (a : Ending (AdapterResult BuildArtifact))
      → ((v : W) → poll deps ctx ref n v ≡ (returns (built code r), w') → Reported n code r v w')
      → deps.build.get_artifact ctx ref w ≡ (a, w1)
      → then_do (polled deps ref (poll deps ctx ref n)) a w1 ≡ (returns (built code r), w')
      → Reported (suc n) code r w w'
  unfolding polled
  after_poll n code r w w1 w' (raises m) ih asked e = cc
  after_poll n code r w w1 w' (returns (ok status artifact)) ih asked e =
      let (is_code, same) = finished_build-built (to_serverless_artifact artifact) code r cc in
      (
        (
          0,
          w,
          status,
          artifact,
          omega arith,
          here,
          asked ∙ ap (λ v. (returns (ok status artifact), v)) cc,
          is_code,
        ),
        same,
      )
  after_poll n code r w w1 w' (returns (err degraded reason)) ih asked e =
      after_sleep n code r w w1 _ w' reason _ ih asked refl e
  after_poll n code r w w1 w' (returns (err _ reason)) ih asked e = cc

  -- If the polling loop answers with code, then the builder reported an artifact that holds this
  -- code at one of the polls, each poll before it found the build still going, and the run is the
  -- one that was polled.
  pub poll_built :
      (n : ℕ) (code : ServerlessArtifact) (r : ProviderRef) (w w' : W)
      → poll deps ctx ref n w ≡ (returns (built code r), w')
      → Reported n code r w w'
  unfolding poll
  poll_built zero code r w w' e = cc
  poll_built (suc n) code r w w' e =
      after_poll n code r w _ w' _ (λ v h. poll_built n code r v w' h) refl e
