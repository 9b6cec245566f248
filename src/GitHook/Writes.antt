-- ===== src/GitHook/Writes.antt =====
-- How much a delivery to apps/api/src/git-hook.ts writes, and who sent one that is let in.
use uscs.Common.{ℕ, String, Bool, true, not, ◌&&◌, Option, none, some, List, ◌≡◌, refl, is_some}
use uscs.Io.{truthy}
use uscs.Api.Action.{Failure, Action, pure, ◌>>=◌}
use uscs.Api.Audit.{AuditEvent, found_or}
use uscs.Api.Counted.{
  Keeps, IsPaired, Pairs, Completes, Inserts, pure-Keeps, raise-Keeps, >>=-Keeps, >>=-Pairs,
  >>=-Completes, job-Completes, Keeps-Pairs, inserts-Pairs, if-Pairs,
}
use uscs.Billing.{HardCapRefusal, hard_cap_refusal}
use uscs.GitLinks.{ProjectGitLink, SecretCipher, clone_url_for}
use uscs.GitLinks.Verify.{
  Verification, verified, refused, DeliveryInput, verify_git_delivery, with_cipher, with_link,
  with_secret, decrypted,
}
use uscs.Requests.Rows.{
  Kind, is_preview, Project, Deployment, DeploymentCreate, DeploymentJob, Environment,
}
use uscs.Requests.{environment_of}
use uscs.Requests.Frames.{
  BillingReads, PreviewCounts, ensure_preview_target-Keeps, hard_cap_refusal-Keeps,
}
use uscs.GitHook.Delivery.{ParsedGitDelivery, Json}
use uscs.GitHook.{
  GitHookDeps, kind_of, environments_from, ensure_target, trigger, trigger_from, unless_replayed,
  deploy_allowed, unless_capped, for_project, deploy_from_delivery, once_verified,
  receive_git_delivery, answer, hook_key,
}

module _ {W : Type 0} (rows jobs : W → ℕ) where
  -- What the store and the queue write for the receiver.
  pub record HookCounts (deps : GitHookDeps W) : Type 0 where
    pub get_link :
        (get : String → String → Action W (Option ProjectGitLink))
        → deps.verify.get_git_link_for_service ≡ some get
        → (o l : String) → Keeps rows jobs (get o l)
    pub get_secret :
        (get : String → String → Action W (Option String))
        → deps.verify.get_git_link_secret ≡ some get
        → (o l : String) → Keeps rows jobs (get o l)
    pub get_project : (o p : String) → Keeps rows jobs (deps.get_project_for_service o p)
    pub find : (o k : String) → Keeps rows jobs (deps.find_by_idempotency_key_for_service o k)
    pub create : (row : DeploymentCreate) → Inserts rows jobs (deps.create_deployment row)
    pub environments :
        (list : String → String → Action W (List Environment))
        → deps.list_environments_for_service ≡ some list
        → (o p : String) → Keeps rows jobs (list o p)
    pub previews : PreviewCounts rows jobs deps.previews
    pub budgets : BillingReads rows jobs deps.billing
    pub enqueue : (job : DeploymentJob) → Completes rows jobs (deps.enqueue job)
    pub audit : (event : AuditEvent) → Keeps rows jobs (deps.record_audit_event event)

module _ {W : Type 0} (rows jobs : W → ℕ) (period_start : ℕ → ℕ) (ratio : ℕ → ℕ → ℕ)
    (precedes : String → String → Bool) (decimal : ℕ → String) (lower : String → String)
    (deps : GitHookDeps W) (counts : HookCounts rows jobs deps) where
  environments-Keeps :
      (o : Option (String → String → Action W (List Environment))) (organization project : String)
      (kind : Kind)
      → deps.list_environments_for_service ≡ o
      → Keeps rows jobs (
          environments_from period_start ratio precedes decimal lower deps o organization project
            kind)
  environments-Keeps none organization project kind e = pure-Keeps rows jobs none
  environments-Keeps (some list) organization project kind e =
      >>=-Keeps rows jobs (list organization project) _
        (counts.environments list e organization project)
        (λ es. pure-Keeps rows jobs (environment_of kind es))

  ensure-Keeps :
      (row : DeploymentCreate) (key : Option String)
      → Keeps rows jobs (ensure_target period_start ratio precedes decimal lower deps row key)
  ensure-Keeps row none = pure-Keeps rows jobs tt
  ensure-Keeps row (some key) =
      ensure_preview_target-Keeps rows jobs deps.previews counts.previews _

  trigger-Pairs :
      (link : ProjectGitLink) (project : Project) (row : DeploymentCreate)
      → Pairs rows jobs (trigger period_start ratio precedes decimal lower deps link project row)
  unfolding trigger
  trigger-Pairs link project row =
      inserts-Pairs rows jobs (deps.create_deployment row) _ (counts.create row) (λ d.
        >>=-Completes rows jobs
          (ensure_target period_start ratio precedes decimal lower deps row row.preview_key) _
          (ensure-Keeps row row.preview_key)
          (λ _. job-Completes rows jobs (deps.enqueue _) _ (counts.enqueue _) (λ _.
            >>=-Keeps rows jobs (deps.record_audit_event _) _ (counts.audit _)
              (λ _. pure-Keeps rows jobs _))))

  from-Pairs :
      (link : ProjectGitLink) (project : Project) (delivery : ParsedGitDelivery) (kind : Kind)
      (url : Option String)
      → Pairs rows jobs (
          trigger_from period_start ratio precedes decimal lower deps link project delivery kind
            url)
  from-Pairs link project delivery kind none = Keeps-Pairs rows jobs _ (pure-Keeps rows jobs _)
  from-Pairs link project delivery kind (some url) =
      >>=-Pairs rows jobs
        (environments_from period_start ratio precedes decimal lower deps
          deps.list_environments_for_service link.organization_id link.project_id kind)
        _
        (environments-Keeps deps.list_environments_for_service link.organization_id link.project_id
          kind refl)
        (λ e. trigger-Pairs link project _)

  replayed-Pairs :
      (link : ProjectGitLink) (project : Project) (delivery : ParsedGitDelivery) (kind : Kind)
      (existing : Option Deployment)
      → Pairs rows jobs (
          unless_replayed period_start ratio precedes decimal lower deps link project delivery kind
            existing)
  replayed-Pairs link project delivery kind (some existing) =
      Keeps-Pairs rows jobs _ (pure-Keeps rows jobs _)
  replayed-Pairs link project delivery kind none =
      from-Pairs link project delivery kind (clone_url_for link.provider link.repository)

  allowed-Pairs :
      (link : ProjectGitLink) (project : Project) (delivery : ParsedGitDelivery)
      → Pairs rows jobs
          (deploy_allowed period_start ratio precedes decimal lower deps link project delivery)
  unfolding deploy_allowed
  allowed-Pairs link project delivery =
      if-Pairs rows jobs (not (is_some delivery.branch) && not (is_some delivery.pull_request))
        (pure (answer 202 true "not_a_deployable_event")) _
        (Keeps-Pairs rows jobs _ (pure-Keeps rows jobs (answer 202 true "not_a_deployable_event")))
        (if-Pairs rows jobs (is_preview (kind_of link delivery) && not link.previews_enabled)
          (pure (answer 202 true "previews_disabled")) _
          (Keeps-Pairs rows jobs _ (pure-Keeps rows jobs (answer 202 true "previews_disabled")))
          (>>=-Pairs rows jobs
            (deps.find_by_idempotency_key_for_service link.organization_id
              (hook_key period_start ratio precedes decimal lower deps link delivery))
            _
            (counts.find link.organization_id
              (hook_key period_start ratio precedes decimal lower deps link delivery))
            (λ existing. replayed-Pairs link project delivery (kind_of link delivery) existing)))

  capped-Pairs :
      (link : ProjectGitLink) (project : Project) (delivery : ParsedGitDelivery)
      (r : Option HardCapRefusal)
      → Pairs rows jobs
          (unless_capped period_start ratio precedes decimal lower deps link project delivery r)
  capped-Pairs link project delivery none = allowed-Pairs link project delivery
  capped-Pairs link project delivery (some r) = Keeps-Pairs rows jobs _ (
      >>=-Keeps rows jobs (deps.record_audit_event _) _ (counts.audit _)
        (λ _. pure-Keeps rows jobs _))

  project-Pairs :
      (link : ProjectGitLink) (delivery : ParsedGitDelivery) (project : Option Project)
      → Pairs rows jobs
          (for_project period_start ratio precedes decimal lower deps link delivery project)
  project-Pairs link delivery none = Keeps-Pairs rows jobs _ (pure-Keeps rows jobs _)
  project-Pairs link delivery (some project) =
      >>=-Pairs rows jobs
        (hard_cap_refusal period_start ratio precedes decimal deps.billing link.organization_id
          "deployments")
        _
        (hard_cap_refusal-Keeps rows jobs period_start ratio precedes decimal deps.billing
          counts.budgets link.organization_id "deployments")
        (λ r. capped-Pairs link project delivery r)

  delivery-Pairs :
      (link : ProjectGitLink) (delivery : ParsedGitDelivery)
      → Pairs rows jobs
          (deploy_from_delivery period_start ratio precedes decimal lower deps link delivery)
  unfolding deploy_from_delivery
  delivery-Pairs link delivery =
      >>=-Pairs rows jobs (deps.get_project_for_service link.organization_id link.project_id) _
        (counts.get_project link.organization_id link.project_id)
        (λ project. project-Pairs link delivery project)

  decrypted-Keeps :
      (input : DeliveryInput) (link : ProjectGitLink) (o : Option String)
      → Keeps rows jobs (decrypted deps.verify input link o)
  decrypted-Keeps input link none = pure-Keeps rows jobs _
  decrypted-Keeps input link (some secret) = pure-Keeps rows jobs _

  secret-Keeps :
      (cipher : SecretCipher) (input : DeliveryInput) (link : ProjectGitLink) (o : Option String)
      → Keeps rows jobs (with_secret deps.verify cipher input link o)
  secret-Keeps cipher input link none = pure-Keeps rows jobs _
  secret-Keeps cipher input link (some c) = decrypted-Keeps input link (cipher.decrypt c)

  link-Keeps :
      (cipher : SecretCipher) (get : String → String → Action W (Option String))
      (input : DeliveryInput) (o : Option ProjectGitLink)
      → deps.verify.get_git_link_secret ≡ some get
      → Keeps rows jobs (with_link deps.verify cipher get input o)
  link-Keeps cipher get input none e = pure-Keeps rows jobs _
  link-Keeps cipher get input (some link) e =
      >>=-Keeps rows jobs (get input.organization_id input.link_id) _
        (counts.get_secret get e input.organization_id input.link_id)
        (λ c. secret-Keeps cipher input link (truthy c))

  methods-Keeps :
      (cipher : SecretCipher) (get : Option (String → String → Action W (Option ProjectGitLink)))
      (get_secret : Option (String → String → Action W (Option String))) (input : DeliveryInput)
      (e : Failure)
      → deps.verify.get_git_link_for_service ≡ get
      → deps.verify.get_git_link_secret ≡ get_secret
      → Keeps rows jobs (do
        g ← found_or get e
        s ← found_or get_secret e
        link ← g input.organization_id input.link_id
        with_link deps.verify cipher s input link)
  methods-Keeps cipher none s input e p q = raise-Keeps rows jobs Verification e
  methods-Keeps cipher (some get) none input e p q = raise-Keeps rows jobs Verification e
  methods-Keeps cipher (some get) (some s) input e p q =
      >>=-Keeps rows jobs (get input.organization_id input.link_id) _
        (counts.get_link get p input.organization_id input.link_id)
        (λ link. link-Keeps cipher s input link q)

  cipher-Keeps :
      (o : Option SecretCipher) (input : DeliveryInput)
      → Keeps rows jobs (with_cipher deps.verify o input)
  cipher-Keeps none input = pure-Keeps rows jobs _
  cipher-Keeps (some cipher) input =
      methods-Keeps cipher deps.verify.get_git_link_for_service deps.verify.get_git_link_secret
        input _ refl refl

  verified-Pairs :
      (parse_json : String → Option Json) (event : Option String) (body : String) (v : Verification)
      → Pairs rows jobs
          (once_verified period_start ratio precedes decimal lower deps parse_json event body v)
  verified-Pairs parse_json event body (refused r) =
      Keeps-Pairs rows jobs _ (pure-Keeps rows jobs _)
  verified-Pairs parse_json event body (verified link secret) = delivery-Pairs link _

  receive-Pairs :
      (parse_json : String → Option Json) (event : Option String) (input : DeliveryInput)
      → Pairs rows jobs (
          receive_git_delivery period_start ratio precedes decimal lower deps parse_json event
            input)
  unfolding receive_git_delivery verify_git_delivery
  receive-Pairs parse_json event input =
      >>=-Pairs rows jobs (verify_git_delivery deps.verify input) _
        (cipher-Keeps deps.verify.cipher input) (λ v. verified-Pairs parse_json event input.body v)

  -- If each call of the store and the queue writes what it names, at most one row or at most one
  -- job, then receiving a delivery, however it ends and at whatever call it throws, leaves at
  -- most one more deployment row, and a job only together with its row.
  pub receive-IsPaired :
      (parse_json : String → Option Json) (event : Option String) (input : DeliveryInput) (w : W)
      → IsPaired rows jobs w
          (receive_git_delivery period_start ratio precedes decimal lower deps parse_json event
            input w).1
  receive-IsPaired parse_json event input w = (receive-Pairs parse_json event input).paired w
