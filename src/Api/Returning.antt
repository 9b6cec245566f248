-- ===== src/Api/Returning.antt =====
-- What is known when an action returns: a postcondition, and its rule for what follows a call.
use uscs.Common.{String, Bool, true, false, Option, none, some, ◌≡◌, refl, ap, subst, ◌∙◌}
use uscs.Api.Action.{Failure, Result, value, throws, Action, pure, raise_if, ◌>>=◌, >>=-eq-value}
use uscs.Api.Guard.{RequestContext, require_capability}
use uscs.Api.Audit.{found_or, require}

only : (a : Unit {0}) → a ≡ tt
only a = refl

module _ {W : Type 0} where
  -- Whatever the action returns has the property.
  pub record Returning {A : Type 0} (Q : A → Type 0) (m : Action W A) : Type 0 where
    pub gives : (w w' : W) (a : A) → m w ≡ (value a, w') → Q a

  pub >>=-Returning :
      {A B : Type 0} (Q : B → Type 0) (m : Action W A) (f : A → Action W B)
      → ((a : A) (v v' : W) → m v ≡ (value a, v') → Returning Q (f a))
      → Returning Q (m >>= f)
  >>=-Returning Q m f h = record {
    gives = λ w w' b e.
        let (a, v, first, second) = >>=-eq-value m f e in (h a w v first).gives v w' b second;
  }

  -- A fact that does not depend on what is returned.
  pub holds-Returning : {A : Type 0} {P : Type 0} (m : Action W A) → P → Returning (λ _. P) m
  holds-Returning m p = record { gives = λ w w' a e. p }

  pub pure-Returning : {A : Type 0} (Q : A → Type 0) (a : A) → Q a → Returning Q (pure a)
  pure-Returning {A} Q a q = record {
    gives = λ w w' b e.
        subst Q (ap (λ (p : Result A × W). elim p.0 [ value x ↦ x | throws _ ↦ a ]) e) q;
  }

  pub found_or-value :
      {A : Type 0} (o : Option A) (e : Failure) (a : A) (w w' : W)
      → found_or o e w ≡ (value a, w')
      → o ≡ some a
  found_or-value none e a w w' h = cc
  found_or-value {A} (some b) e a w w' h =
      ap (λ (p : Result A × W). elim p.0 [ value x ↦ some x | throws _ ↦ some b ]) h

  pub raise_if-value :
      (b : Bool) (e : Failure) (a : Unit {0}) (w w' : W)
      → raise_if b e w ≡ (value a, w')
      → b ≡ false
  raise_if-value true e a w w' h = cc
  raise_if-value false e a w w' h = refl

  pub require-value :
      (ctx : RequestContext) (organization capability : String) (a : Unit {0}) (w w' : W)
      → require ctx organization capability w ≡ (value a, w')
      → require_capability ctx organization capability ≡ value tt
  require-value ctx organization capability a w w' e =
      ap (λ (q : Result (Unit {0}) × W). q.0) e ∙ ap value (only a)
