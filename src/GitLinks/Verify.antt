-- ===== src/GitLinks/Verify.antt =====
-- `verifyGitDelivery` of apps/api/src/procedures/git-links.ts.
use uscs.Common.{String, Bool, false, not, Option, none, some, ◌&&◌, if◌then◌else◌}
use uscs.Io.{truthy}
use uscs.Api.Action.{engine_unavailable, Failure, Action, pure, ◌>>=◌}
use uscs.Api.Audit.{failure, found_or}
use uscs.GitLinks.{ProjectGitLink, SecretCipher}

pub data Refusal : Type 0 where
  unknown_link not_configured bad_signature : Refusal

pub data Verification : Type 0 where
  verified : ProjectGitLink → String → Verification
  refused : Refusal → Verification

pub record DeliveryInput : Type 0 where
  pub organization_id : String
  pub link_id : String
  pub body : String
  pub signature : Option String
  pub token : Option String

-- What the check reads, and the digests of packages/auth/src/secrets.ts.
pub record VerifyDeps (W : Type 0) : Type 0 where
  pub get_git_link_for_service : Option (String → String → Action W (Option ProjectGitLink))
  pub get_git_link_secret : Option (String → String → Action W (Option String))
  pub cipher : Option SecretCipher
  pub compute_signature : String → String → String
  pub signature_matches : String → String → Bool
  pub token_matches : String → String → Bool

module _ {W : Type 0} (deps : VerifyDeps W) where
  abbrev pub matches : (String → Bool) → Option String → Bool
  matches test none = false
  matches test (some given) = test given

  -- The two comparisons; an empty header counts as absent.
  unfoldable pub judged : DeliveryInput → ProjectGitLink → String → Verification
  judged input link secret =
      let by_signature =
        matches (deps.signature_matches (deps.compute_signature secret input.body))
          (truthy input.signature) in
      let by_token = matches (deps.token_matches secret) (truthy input.token) in
      if not by_signature && not by_token then refused bad_signature else verified link secret

  abbrev pub decrypted : DeliveryInput → ProjectGitLink → Option String → Action W Verification
  decrypted input link none = pure (refused not_configured)
  decrypted input link (some secret) = pure (judged input link secret)

  abbrev pub with_secret :
      SecretCipher → DeliveryInput → ProjectGitLink → Option String → Action W Verification
  with_secret cipher input link none = pure (refused unknown_link)
  with_secret cipher input link (some ciphertext) = decrypted input link (cipher.decrypt ciphertext)

  abbrev pub with_link :
      SecretCipher
      → (String → String → Action W (Option String))
      → DeliveryInput
      → Option ProjectGitLink
      → Action W Verification
  with_link cipher get_secret input none = pure (refused unknown_link)
  with_link cipher get_secret input (some link) = do
    ciphertext ← get_secret input.organization_id input.link_id
    with_secret cipher input link (truthy ciphertext)

  abbrev pub cannot_verify : Failure
  cannot_verify = failure engine_unavailable "This deployment cannot verify a webhook delivery."

  abbrev pub with_cipher : Option SecretCipher → DeliveryInput → Action W Verification
  with_cipher none input = pure (refused not_configured)
  with_cipher (some cipher) input = do
    get_link ← found_or deps.get_git_link_for_service cannot_verify
    get_secret ← found_or deps.get_git_link_secret cannot_verify
    link ← get_link input.organization_id input.link_id
    with_link cipher get_secret input link

  unfoldable pub verify_git_delivery : DeliveryInput → Action W Verification
  unfolding judged
  verify_git_delivery input = with_cipher deps.cipher input
