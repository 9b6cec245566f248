-- ===== src/Common/Lists.antt =====
-- Lists measured by native numbers, searched and filtered by Boolean tests.
use Prim.Native.Nat.{ℕ, suc, ◌+◌, ◌≤◌}
use Prim.Native.String.{String}
use mathlib.Core.Path.{◌≡◌, refl, ap, sym, ◌∙◌}
use mathlib.Core.Logic.{◌↔◌}
use mathlib.Core.Bool.{Bool, true, false, ◌&&◌, ◌||◌}
use mathlib.Core.Option.{Option, none, some}
use mathlib.Core.List.{List, [], ◌∷◌, ◌++◌}
use native.Mathlib.Omega.{arith}
use text.Mathlib.TextEquality.{eq_iff}
use uscs.Common.Tests.{◌===◌, &&-eq-true, &&-intro, if◌then◌else◌}

module _ {ℓ} {A : Type ℓ} where
  abbrev pub length : List A → ℕ
  length [] = 0
  length (x ∷ xs) = suc (length xs)

  -- `xs.find(p)`
  abbrev pub find : (A → Bool) → List A → Option A
  find p [] = none
  find p (x ∷ xs) = if p x then some x else find p xs

  -- `xs.filter(p)`
  abbrev pub filter : (A → Bool) → List A → List A
  filter p [] = []
  filter p (x ∷ xs) = let rest = filter p xs in if p x then x ∷ rest else rest

  -- `xs.every(p)`
  abbrev pub all : (A → Bool) → List A → Bool
  all p [] = true
  all p (x ∷ xs) = p x && all p xs

  -- `xs.some(p)`
  abbrev pub any : (A → Bool) → List A → Bool
  any p [] = false
  any p (x ∷ xs) = p x || any p xs

  abbrev pub All {κ} : (A → Type κ) → List A → Type κ
  All P [] = Unit
  All P (x ∷ xs) = P x × All P xs

  pub find_holds : (p : A → Bool) (xs : List A) (x : A) → find p xs ≡ some x → p x ≡ true
  find_holds p [] x h = cc
  find_holds p (y ∷ xs) x h = ground (arith, find_holds p xs x)

  pub length-filter : (p : A → Bool) (xs : List A) → length (filter p xs) ≤ length xs
  length-filter p [] = omega arith
  length-filter p (x ∷ xs) = ground (arith, length-filter p xs)

  pub length-append : (xs ys : List A) → length (xs ++ ys) ≡ length xs + length ys
  length-append [] ys = omega arith
  length-append (x ∷ xs) ys = omega (arith, length-append xs ys)

-- `xs.includes(s)`
abbrev pub includes : List String → String → Bool
includes [] s = false
includes (x ∷ xs) s = (x === s) || includes xs s

pub includes-filter :
    (p : String → Bool) (xs : List String) (s : String)
    → includes (filter p xs) s ≡ (includes xs s && p s)
includes-filter p [] s = refl
includes-filter p (x ∷ xs) s = ground (arith, includes-filter p xs s, eq_iff x s, ap p)

pub includes-filter_iff :
    (p : String → Bool) (xs : List String) (s : String)
    → (includes (filter p xs) s ≡ true) ↔ ((includes xs s ≡ true) × (p s ≡ true))
includes-filter_iff p xs s = (
  λ h. &&-eq-true (includes xs s) (p s) (sym (includes-filter p xs s) ∙ h),
  λ h. includes-filter p xs s ∙ &&-intro (includes xs s) (p s) h.0 h.1,
)

-- Members of `xs` are members of `ys` if each of `xs` is.
pub includes_subset :
    (xs ys : List String) (s : String)
    → all (includes ys) xs ≡ true
    → includes xs s ≡ true
    → includes ys s ≡ true
includes_subset [] ys s h m = cc
includes_subset (x ∷ xs) ys s h m = ground (arith, includes_subset xs ys s, eq_iff x s)
