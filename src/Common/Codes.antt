-- ===== src/Common/Codes.antt =====
-- Texts as lists of code points, where the source walks characters or applies a regular expression.
use Prim.Native.Nat.{ℕ, ◌+◌}
use Prim.Native.Char.{code}
use Prim.Native.String.{String}
use mathlib.Core.Bool.{Bool, true, false, ◌&&◌, ◌||◌}
use mathlib.Core.List.{List, [], ◌∷◌}
use uscs.Common.Tests.{leb, ◌==◌, if◌then◌else◌}

abbrev pub codes : String → List ℕ
codes String.[] = []
codes (String.◌∷◌ c s) = code c ∷ codes s

-- The canonical form of a letter under the flag `i`.
abbrev pub to_lower : ℕ → ℕ
to_lower c = if leb b'A' c && leb c b'Z' then c + 32 else c

abbrev pub begins_with : List ℕ → List ℕ → Bool
begins_with s [] = true
begins_with [] (d ∷ t) = false
begins_with (c ∷ s) (d ∷ t) = (c == d) && begins_with s t

-- `/t/.test(s)`: `t` stands somewhere in `s`.
abbrev pub contains : List ℕ → List ℕ → Bool
contains [] t = begins_with [] t
contains (c ∷ s) t = begins_with (c ∷ s) t || contains s t

abbrev pub same_codes : List ℕ → List ℕ → Bool
same_codes [] [] = true
same_codes (c ∷ s) (d ∷ t) = (c == d) && same_codes s t
same_codes _ _ = false
