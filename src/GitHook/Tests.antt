-- ===== src/GitHook/Tests.antt =====
-- A run of the definitions for apps/api/src/git-hook.ts, and concrete instances of the theorems.
use uscs.Common.{String, Bool, true, false, Option, none, some, [], ◌∷◌, ◌===◌, ◌≡◌, refl}
use uscs.Api.Action.{value, Action, pure}
use uscs.Api.Counted.{Keeps, IsPaired, pure-Keeps}
use uscs.GitLinks.{GitProvider, github, ProjectGitLink, SecretCipher}
use uscs.GitLinks.Verify.{DeliveryInput, VerifyDeps}
use uscs.GitHook.Delivery.{Json, object, member, no_members, text, parse_git_delivery}
use uscs.GitHook.{GitHookDeps, accepted, receive_git_delivery}
use uscs.GitHook.Writes.{HookCounts, receive-IsPaired}
use uscs.GitHook.Authentic.{Authentic, receive_authentic}
use uscs.Samples.Counts.{
  given, billing_Reads, preview_Counts, create-Inserts, enqueue-Completes, find-Keeps,
}
use uscs.Samples.{
  World, empty, row_count, job_count, shop, billing, previews, find, create, enqueue,
}

abbrev linked : ProjectGitLink
linked = record {
  id = "l1";
  organization_id = "o1";
  project_id = "p1";
  provider = github;
  repository = "acme/shop";
  production_branch = "main";
  previews_enabled = true;
  secret_prefix = "whsec";
  created_by = "u1";
}

abbrev get_link : String → String → Action World (Option ProjectGitLink)
get_link organization link = pure (some linked)

abbrev get_secret : String → String → Action World (Option String)
get_secret organization link = pure (some "sealed")

abbrev cipher : SecretCipher
cipher = record { encrypt = λ s. "sealed"; decrypt = λ s. some "secret" }

abbrev checks : VerifyDeps World
checks = record {
  get_git_link_for_service = some get_link;
  get_git_link_secret = some get_secret;
  cipher = some cipher;
  compute_signature = λ secret body. "signed";
  signature_matches = λ expected sent. expected === sent;
  token_matches = λ secret sent. secret === sent;
}

abbrev hook : GitHookDeps World
hook = record {
  verify = checks;
  billing = billing 3;
  previews = previews;
  get_project_for_service = λ o p. pure (some shop);
  find_by_idempotency_key_for_service = λ o k. find k;
  create_deployment = create;
  list_environments_for_service = none;
  enqueue = λ job. enqueue job.idempotency_key;
  record_audit_event = λ e. pure tt;
}

abbrev parse_json : String → Option Json
parse_json body =
    some
      (object (member "ref" (text "refs/heads/main") (member "after" (text "abcdef1") no_members)))

abbrev pushed : DeliveryInput
pushed = record {
  organization_id = "o1";
  link_id = "l1";
  body = "{}";
  signature = some "signed";
  token = none;
}

abbrev later : String → String → Bool
later a b = false

deployed :
    receive_git_delivery
      (λ n. n)
      (λ a b. a)
      later
      (λ n. "2")
      (λ s. s)
      hook
      parse_json
      (some "push")
      pushed
      empty
    ≡ (
      value accepted,
      record {
        rows = "webhook:l1:branch-main:abcdef1" ∷ [];
        jobs = "webhook:l1:branch-main:abcdef1" ∷ [];
      },
    )
unfolding receive_git_delivery uscs.Billing.hard_cap_refusal uscs.Billing.refused_by
    parse_git_delivery uscs.GitLinks.clone_url_for
deployed = refl

hook_Counts : HookCounts row_count job_count hook
hook_Counts = record {
  get_link = λ get e o l.
      given (λ g. Keeps row_count job_count (g o l)) get_link get e
        (pure-Keeps row_count job_count _);
  get_secret = λ get e o l.
      given (λ g. Keeps row_count job_count (g o l)) get_secret get e
        (pure-Keeps row_count job_count _);
  get_project = λ o p. pure-Keeps row_count job_count _;
  find = λ o k. find-Keeps k;
  create = create-Inserts;
  environments = λ list e o p. cc;
  previews = preview_Counts;
  budgets = billing_Reads 3;
  enqueue = λ job. enqueue-Completes job.idempotency_key;
  audit = λ e. pure-Keeps row_count job_count tt;
}

receive-IsPaired_example :
    IsPaired row_count job_count empty
      (receive_git_delivery
        (λ n. n)
        (λ a b. a)
        later
        (λ n. "2")
        (λ s. s)
        hook
        parse_json
        (some "push")
        pushed
        empty).1
receive-IsPaired_example =
    receive-IsPaired row_count job_count (λ n. n) (λ a b. a) later (λ n. "2") (λ s. s) hook
      hook_Counts parse_json (some "push") pushed empty

receive_authentic_example : Authentic checks pushed
receive_authentic_example =
    receive_authentic (λ n. n) (λ a b. a) later (λ n. "2") (λ s. s) hook parse_json (some "push")
      pushed accepted empty
      (record {
        rows = "webhook:l1:branch-main:abcdef1" ∷ [];
        jobs = "webhook:l1:branch-main:abcdef1" ∷ [];
      })
      deployed refl
