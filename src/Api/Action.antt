-- ===== src/Api/Action.antt =====
-- apps/api/src/errors.ts, and what a procedure is: an action on the world outside that
-- returns a value, or throws an `ApiError` or some other error.
use uscs.Common.{ℕ, String, List, Bool, ◌≡◌, refl, ap, if◌then◌else◌}

pub data ErrorCode : Type 0 where
  unauthenticated forbidden not_found invalid_input conflict budget_exceeded engine_unavailable :
      ErrorCode

-- A value of the `details` of an error.
pub data Detail : Type 0 where
  text : String → Detail
  number : ℕ → Detail

pub record ApiError : Type 0 where
  pub code : ErrorCode
  pub message : String
  pub details : List (String × Detail)

pub data Failure : Type 0 where
  api : ApiError → Failure
  unexpected : String → Failure

pub data Result (A : Type 0) : Type 0 where
  value : A → Result A
  throws : Failure → Result A

abbrev pub Action : Type 0 → Type 0 → Type 0
Action W A = W → Result A × W

abbrev pub pure : {W A : Type 0} → A → Action W A
pure a w = (value a, w)

abbrev pub raise : {W A : Type 0} → Failure → Action W A
raise e w = (throws e, w)

-- A synchronous call that may throw, inside an action.
abbrev pub lift : {W A : Type 0} → Result A → Action W A
lift r w = (r, w)

infixl 5 ◌>>=◌ ◌>>◌
abbrev pub ◌>>=◌ : {W A B : Type 0} → Action W A → (A → Action W B) → Action W B
◌>>=◌ m f w = let (r, w') = m w in elim r [ value a ↦ f a w' | throws e ↦ (throws e, w') ]

abbrev pub ◌>>◌ : {W A B : Type 0} → Action W A → Action W B → Action W B
m >> k = m >>= λ _. k

abbrev pub raise_if : {W : Type 0} → Bool → Failure → Action W (Unit {0})
raise_if b e = if b then raise e else pure tt

-- A call that returns passes its value, and the world it leaves, to what follows.
pub >>=-value :
    {W A B : Type 0} (m : Action W A) (f : A → Action W B) (w w' : W) (a : A)
    → m w ≡ (value a, w')
    → (m >>= f) w ≡ f a w'
>>=-value {W} {A} {B} m f w w' a e =
    ap
      (λ (p : Result A × W).
        let r : Result B × W = elim p.0 [ value b ↦ f b p.1 | throws x ↦ (throws x, p.1) ] in r)
      e

-- After a call that throws nothing is done.
pub >>=-throws :
    {W A B : Type 0} (m : Action W A) (f : A → Action W B) (w w' : W) (x : Failure)
    → m w ≡ (throws x, w')
    → (m >>= f) w ≡ (throws x, w')
>>=-throws {W} {A} {B} m f w w' x e =
    ap
      (λ (p : Result A × W).
        let r : Result B × W = elim p.0 [ value b ↦ f b p.1 | throws y ↦ (throws y, p.1) ] in r)
      e

-- What returns was called with what the call before it returned.
pub >>=-eq-value :
    {W A B : Type 0} (m : Action W A) (f : A → Action W B) {b : B} {w w' : W}
    → (m >>= f) w ≡ (value b, w')
    → (a : A) × (v : W) × (m w ≡ (value a, v)) × (f a v ≡ (value b, w'))
>>=-eq-value {W} {A} {B} m f {b} {w} {w'} h = from (m w) refl h
  where
    from :
        (p : Result A × W)
        → m w ≡ p
        → (let r : Result B × W = elim p.0 [ value a ↦ f a p.1 | throws e ↦ (throws e, p.1) ] in r)
          ≡ (value b, w')
        → (a : A) × (v : W) × (m w ≡ (value a, v)) × (f a v ≡ (value b, w'))
    from (value a, v) e k = (a, v, e, k)
    from (throws x, v) e k = cc
