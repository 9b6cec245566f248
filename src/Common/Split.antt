-- ===== src/Common/Split.antt =====
-- `text.split(sep)` for a separator of one character, and the removal of what a text ends in.
use Prim.Native.Nat.{ℕ}
use Prim.Native.Char.{Char, code}
use Prim.Native.String.{String, ◌++◌ as append}
use mathlib.Core.Bool.{Bool, true, false, not, ◌&&◌}
use mathlib.Core.List.{List, [], ◌∷◌}
use mathlib.Core.Path.{◌≡◌, refl}
use native.Mathlib.Omega.{arith}
use text.Mathlib.TextLemmas.{nil-append, cons-append}
use mathlib.Core.Logic.{inl, inr}
use uscs.Common.Tests.{◌==◌, if◌then◌else◌, Bool-cases}

abbrev pub is_empty : String → Bool
is_empty String.[] = true
is_empty (String.◌∷◌ c s) = false

-- No character of the text is the one of code `sep`.
abbrev pub lacks : ℕ → String → Bool
lacks sep String.[] = true
lacks sep (String.◌∷◌ c s) = not (code c == sep) && lacks sep s

abbrev pub onto_first : Char → List String → List String
onto_first c [] = String.◌∷◌ c "" ∷ []
onto_first c (p ∷ ps) = String.◌∷◌ c p ∷ ps

abbrev pub split : ℕ → String → List String
split sep String.[] = "" ∷ []
split sep (String.◌∷◌ c s) =
    let rest = split sep s in if code c == sep then "" ∷ rest else onto_first c rest

-- `text.replace(/c+$/, "")`
abbrev pub strip_end : ℕ → String → String
strip_end sep String.[] = ""
strip_end sep (String.◌∷◌ c s) =
    let rest = strip_end sep s in if code c == sep && is_empty rest then "" else String.◌∷◌ c rest

-- The parts of two texts that are written one after the other.
abbrev pub meet : List String → List String → List String
meet [] qs = qs
meet (p ∷ []) [] = p ∷ []
meet (p ∷ []) (q ∷ qs) = append p q ∷ qs
meet (p ∷ r ∷ ps) qs = p ∷ meet (r ∷ ps) qs

onto_first-meet :
    (c : Char) (p : String) (ps : List String) (q : String) (qs : List String)
    → onto_first c (meet (p ∷ ps) (q ∷ qs)) ≡ meet (onto_first c (p ∷ ps)) (q ∷ qs)
onto_first-meet c p [] q qs = rw cons-append refl
onto_first-meet c p (r ∷ ps) q qs = refl

-- A split has a first part.
pub split_first :
    (sep : ℕ) (s : String) → (p : String) × (ps : List String) × (split sep s ≡ p ∷ ps)
split_first sep String.[] = ("", [], refl)
split_first sep (String.◌∷◌ c s) =
    let (p, ps, e) = split_first sep s in
    elim (Bool-cases (code c == sep)) [
      | inl h ↦ ("", split sep s, rw h refl)
      | inr h ↦ (String.◌∷◌ c p, ps, rw (h, e) refl)
    ]

pub split-append :
    (sep : ℕ) (s t : String) → split sep (append s t) ≡ meet (split sep s) (split sep t)
split-append sep String.[] t =
    let (q, qs, e) = split_first sep t in rw (nil-append t, e, nil-append q) refl
split-append sep (String.◌∷◌ c s) t =
    let (p, ps, e) = split_first sep s in
    let (q, qs, f) = split_first sep t in
    rw (cons-append c s t, split-append sep s t, e, f)
      (elim (Bool-cases (code c == sep)) [
        | inl h ↦ rw h refl
        | inr h ↦ rw h (onto_first-meet c p ps q qs)
      ])

pub split-lacks : (sep : ℕ) (s : String) → lacks sep s ≡ true → split sep s ≡ s ∷ []
split-lacks sep String.[] h = refl
split-lacks sep (String.◌∷◌ c s) h = ground (arith, split-lacks sep s)

pub strip_end-lacks : (sep : ℕ) (s : String) → lacks sep s ≡ true → strip_end sep s ≡ s
strip_end-lacks sep String.[] h = refl
strip_end-lacks sep (String.◌∷◌ c s) h = ground (arith, strip_end-lacks sep s)

-- A text that ends in a character other than the separator is left as it is.
pub strip_end-append :
    (sep : ℕ) (s t : String)
    → is_empty t ≡ false
    → strip_end sep t ≡ t
    → strip_end sep (append s t) ≡ append s t
strip_end-append sep String.[] t h e = rw nil-append e
strip_end-append sep (String.◌∷◌ c s) t h e =
    rw (cons-append c s t, strip_end-append sep s t h e) (kept s t h)
  where
    kept :
        (s t : String)
        → is_empty t ≡ false
        → (if code c == sep && is_empty (append s t) then "" else String.◌∷◌ c (append s t))
          ≡ String.◌∷◌ c (append s t)
    kept String.[] t h = rw (nil-append t, h) (ground arith)
    kept (String.◌∷◌ d s) t h = rw cons-append (ground arith)
