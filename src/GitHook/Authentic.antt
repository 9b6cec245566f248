-- ===== src/GitHook/Authentic.antt =====
-- Who sent a delivery that apps/api/src/git-hook.ts lets in.
use uscs.Common.{
  ℕ, String, Bool, true, Option, none, some, ◌≡◌, refl, Bool-cases, inl, inr, ◌⊎◌, false≢true,
}
use uscs.Io.{truthy}
use uscs.Api.Action.{value, Action}
use uscs.Api.Audit.{found_or}
use uscs.Api.Returning.{Returning, >>=-Returning, pure-Returning, found_or-value}
use uscs.GitLinks.{ProjectGitLink, SecretCipher}
use uscs.GitLinks.Verify.{
  unknown_link, not_configured, bad_signature, Verification, verified, refused, DeliveryInput,
  VerifyDeps, verify_git_delivery, with_cipher, with_link, with_secret, decrypted, judged, matches,
  cannot_verify,
}
use uscs.GitHook.Delivery.{Json}
use uscs.GitHook.{GitHookDeps, GitHookOutcome, once_verified, receive_git_delivery}

module _ {W : Type 0} (deps : VerifyDeps W) (input : DeliveryInput) where
  -- The sender knows the secret: it signed the body with it, or sent it as the token.
  abbrev pub Knows : String → Type 0
  Knows secret =
      (matches deps (deps.signature_matches (deps.compute_signature secret input.body))
          (truthy input.signature)
        ≡ true)
      ⊎ (matches deps (deps.token_matches secret) (truthy input.token) ≡ true)

  -- The secret is the one that is stored for the link, under the key of the deployment.
  pub record Authentic : Type 0 where
    pub cipher : SecretCipher
    pub ciphertext : String
    pub secret : String
    pub get_secret : String → String → Action W (Option String)
    pub before : W
    pub afterwards : W
    pub given : Option String
    pub configured : deps.cipher ≡ some cipher
    pub reads : deps.get_git_link_secret ≡ some get_secret
    pub stored : get_secret input.organization_id input.link_id before ≡ (value given, afterwards)
    pub filled : truthy given ≡ some ciphertext
    pub decrypts : cipher.decrypt ciphertext ≡ some secret
    pub knows : Knows secret

  -- A verification that is not a refusal has the property.
  abbrev pub Grants : Type 0 → Verification → Type 0
  Grants P (verified link secret) = P
  Grants P (refused reason) = Unit

  judged-Grants :
      (P : Type 0) (link : ProjectGitLink) (secret : String)
      → (Knows secret → P)
      → Grants P (judged deps input link secret)
  unfolding judged
  judged-Grants P link secret h =
      elim (Bool-cases (
        matches deps (deps.signature_matches (deps.compute_signature secret input.body))
          (truthy input.signature))) [
            | inl s ↦ let p = h (inl s) in simp s p
            | inr s ↦
                elim (Bool-cases (matches deps (deps.token_matches secret) (truthy input.token))) [
                  | inl t ↦ let p = h (inr t) in simp (s, t) p
                  | inr t ↦ simp (s, t) tt
                ]
          ]

  decrypted-Returning :
      (P : Type 0) (link : ProjectGitLink) (o : Option String)
      → ((secret : String) → o ≡ some secret → Knows secret → P)
      → Returning (Grants P) (decrypted deps input link o)
  decrypted-Returning P link none h = pure-Returning (Grants P) _ tt
  decrypted-Returning P link (some secret) h =
      pure-Returning (Grants P) (judged deps input link secret)
        (judged-Grants P link secret (h secret refl))

  secret-Returning :
      (P : Type 0) (cipher : SecretCipher) (link : ProjectGitLink) (o : Option String)
      → ((ciphertext secret : String)
          → o ≡ some ciphertext
          → cipher.decrypt ciphertext ≡ some secret
          → Knows secret
          → P)
      → Returning (Grants P) (with_secret deps cipher input link o)
  secret-Returning P cipher link none h = pure-Returning (Grants P) _ tt
  secret-Returning P cipher link (some c) h =
      decrypted-Returning P link (cipher.decrypt c) (λ secret e k. h c secret refl e k)

  link-Returning :
      (cipher : SecretCipher) (get : String → String → Action W (Option String))
      (o : Option ProjectGitLink)
      → deps.cipher ≡ some cipher
      → deps.get_git_link_secret ≡ some get
      → Returning (Grants Authentic) (with_link deps cipher get input o)
  link-Returning cipher get none c g = pure-Returning (Grants Authentic) _ tt
  link-Returning cipher get (some link) c g =
      >>=-Returning (Grants Authentic) (get input.organization_id input.link_id) _ (λ given v v' e.
        secret-Returning Authentic cipher link (truthy given) (λ ciphertext secret f d k. record {
          cipher = cipher;
          ciphertext = ciphertext;
          secret = secret;
          get_secret = get;
          before = v;
          afterwards = v';
          given = given;
          configured = c;
          reads = g;
          stored = e;
          filled = f;
          decrypts = d;
          knows = k;
        }))

  cipher-Returning :
      (o : Option SecretCipher)
      → deps.cipher ≡ o
      → Returning (Grants Authentic) (with_cipher deps o input)
  cipher-Returning none c = pure-Returning (Grants Authentic) _ tt
  cipher-Returning (some cipher) c =
      >>=-Returning (Grants Authentic) (found_or deps.get_git_link_for_service (cannot_verify deps))
        _
        (λ get_link v v' e.
          >>=-Returning (Grants Authentic) (found_or deps.get_git_link_secret (cannot_verify deps))
            _
            (λ get u u' f.
              >>=-Returning (Grants Authentic) (get_link input.organization_id input.link_id) _
                (λ link t t' g.
                  link-Returning cipher get link c
                    (found_or-value deps.get_git_link_secret (cannot_verify deps) get u u' f))))

  pub verify-Returning : Returning (Grants Authentic) (verify_git_delivery deps input)
  unfolding verify_git_delivery
  verify-Returning = cipher-Returning deps.cipher refl

module _ {W : Type 0} (period_start : ℕ → ℕ) (ratio : ℕ → ℕ → ℕ) (precedes : String → String → Bool)
    (decimal : ℕ → String) (lower : String → String) (deps : GitHookDeps W) where
  abbrev Admits : DeliveryInput → GitHookOutcome → Type 0
  Admits input o = o.ok ≡ true → Authentic deps.verify input

  once-Returning :
      (parse_json : String → Option Json) (event : Option String) (input : DeliveryInput)
      (v : Verification)
      → Grants deps.verify input (Authentic deps.verify input) v
      → Returning (Admits input) (
          once_verified period_start ratio precedes decimal lower deps parse_json event input.body
            v)
  once-Returning parse_json event input (verified link secret) h = record {
    gives = λ w w' o e k. h;
  }
  once-Returning parse_json event input (refused unknown_link) h =
      pure-Returning (Admits input) _ (λ k. absurd (false≢true k))
  once-Returning parse_json event input (refused not_configured) h =
      pure-Returning (Admits input) _ (λ k. absurd (false≢true k))
  once-Returning parse_json event input (refused bad_signature) h =
      pure-Returning (Admits input) _ (λ k. absurd (false≢true k))

  receive-Returning :
      (parse_json : String → Option Json) (event : Option String) (input : DeliveryInput)
      → Returning (Admits input) (
          receive_git_delivery period_start ratio precedes decimal lower deps parse_json event
            input)
  unfolding receive_git_delivery
  receive-Returning parse_json event input =
      >>=-Returning (Admits input) (verify_git_delivery deps.verify input) _ (λ v u u' e.
        once-Returning parse_json event input v
          ((verify-Returning deps.verify input).gives u u' v e))

  -- If a webhook delivery is answered as ok, then the deployment has a cipher, the secret that is
  -- stored for the delivery's link decrypts under it, and the delivery carries a signature that
  -- matches the digest of its body under this secret, or a token that matches the secret.
  pub receive_authentic :
      (parse_json : String → Option Json) (event : Option String) (input : DeliveryInput)
      (outcome : GitHookOutcome) (w w' : W)
      → receive_git_delivery period_start ratio precedes decimal lower deps parse_json event input w
        ≡ (value outcome, w')
      → outcome.ok ≡ true
      → Authentic deps.verify input
  receive_authentic parse_json event input outcome w w' h k =
      (receive-Returning parse_json event input).gives w w' outcome h k
