-- ===== src/Io.antt =====
-- The calls that packages/adapters, apps/worker and apps/security-control await: an action on
-- the world outside, of a type `W`, that returns a value or throws a message.
use uscs.Common.{String, Option, none, some, Bool, if◌then◌else◌, ◌≡◌, ap, ◌===◌}

pub data Ending (A : Type 0) : Type 0 where
  returns : A → Ending A
  raises : String → Ending A

abbrev pub Io : Type 0 → Type 0 → Type 0
Io W A = W → Ending A × W

abbrev pub pure : {W A : Type 0} → A → Io W A
pure a w = (returns a, w)

-- What follows a call, from the call's ending.
abbrev pub then_do : {W A B : Type 0} → (A → Io W B) → Ending A → W → Ending B × W
then_do f (returns a) w = f a w
then_do f (raises e) w = (raises e, w)

infixl 5 ◌>>=◌ ◌>>◌
abbrev pub ◌>>=◌ : {W A B : Type 0} → Io W A → (A → Io W B) → Io W B
◌>>=◌ m f w = let (r, w') = m w in then_do f r w'

abbrev pub ◌>>◌ : {W A B : Type 0} → Io W A → Io W B → Io W B
m >> k = m >>= λ _. k

-- A statement under an `if` with no `else`.
abbrev pub when : {W : Type 0} → Bool → Io W (Unit {0}) → Io W (Unit {0})
when b m = if b then m else pure tt

-- `s ? { field: s } : {}`, and every other test of a text that may be null: the empty text is dropped.
abbrev pub truthy : Option String → Option String
truthy none = none
truthy (some s) = if s === "" then none else some s

-- A call that returns passes its value, and the world it leaves, to what follows.
pub >>=-returns :
    {W A B : Type 0} (m : Io W A) (f : A → Io W B) (w w' : W) (a : A)
    → m w ≡ (returns a, w')
    → (m >>= f) w ≡ f a w'
>>=-returns m f w w' a e = ap (λ p. then_do f p.0 p.1) e

pub returned_value : {A : Type 0} {a b : A} → returns a ≡ returns b → a ≡ b
returned_value {a = a} e = ap (λ r. elim r [ returns x ↦ x | raises _ ↦ a ]) e
