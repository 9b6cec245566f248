-- ===== src/Routes/Tests.antt =====
-- Runs of the definitions for apps/web/src/routes.ts, and concrete instances of the theorems.
use Prim.Native.Char.{Char, char, code}
use text.Mathlib.TextEquality.{Char-path}
use uscs.Common.{
  String, true, false, Option, none, some, ◌≡◌, refl, sym, arith, ◌==◌, if◌then◌else◌, is_empty,
  lacks, ◌∙◌, ap, Bool-cases, inl, inr,
}
use uscs.Routes.{
  domains, workspace_section, slash, parse_route, parse_clean, parse_segments, to_path,
}
use uscs.Routes.Paths.{IsCodec}
use uscs.Routes.RoundTrip.{parse_route-to_path}

abbrev percent : Char
percent = char b'%' tt

abbrev two : Char
two = char b'2' tt

abbrev letter_f : Char
letter_f = char b'F' tt

abbrev five : Char
five = char b'5' tt

abbrev slash_char : Char
slash_char = char b'/' tt

-- An escape of the slash and of the percent sign alone.
escape : String → String
escape String.[] = ""
escape (String.◌∷◌ c s) =
    let rest = escape s in
    if code c == b'/'
    then String.◌∷◌ percent (String.◌∷◌ two (String.◌∷◌ letter_f rest))
    else if code c == b'%'
    then String.◌∷◌ percent (String.◌∷◌ two (String.◌∷◌ five rest))
    else String.◌∷◌ c rest

data State : Type 0 where
  normal after_percent after_two : State

before : Char → Option String → Option String
before c none = none
before c (some s) = some (String.◌∷◌ c s)

unescape_from : String → State → Option String
unfolding before
unescape_from String.[] normal = some ""
unescape_from String.[] after_percent = none
unescape_from String.[] after_two = none
unescape_from (String.◌∷◌ c s) normal =
    let escaped = unescape_from s after_percent in
    let plain = before c (unescape_from s normal) in if code c == b'%' then escaped else plain
unescape_from (String.◌∷◌ c s) after_percent =
    let rest = unescape_from s after_two in if code c == b'2' then rest else none
unescape_from (String.◌∷◌ c s) after_two =
    let rest = unescape_from s normal in
    if code c == b'F'
    then before slash_char rest
    else if code c == b'5'
    then before percent rest
    else none

unescape : String → Option String
unfolding unescape_from
unescape s = unescape_from s normal

unescape-escape : (s : String) → unescape (escape s) ≡ some s
unfolding unescape escape before
unescape-escape String.[] = refl
unescape-escape (String.◌∷◌ c s) = elim (Bool-cases (code c == b'/')) [
  | inl e ↦
      let same : c ≡ slash_char = Char-path c slash_char (ground arith) in
      rw e (ap (before slash_char) (unescape-escape s) ∙ ap (λ d. some (String.◌∷◌ d s)) (sym same))
  | inr e ↦ elim (Bool-cases (code c == b'%')) [
    | inl f ↦
        let same : c ≡ percent = Char-path c percent (ground arith) in
        rw (e, f)
          (ap (before percent) (unescape-escape s) ∙ ap (λ d. some (String.◌∷◌ d s)) (sym same))
    | inr f ↦ rw (e, f, f) (ap (before c) (unescape-escape s))
  ]
]

escape-lacks : (s : String) → lacks slash (escape s) ≡ true
unfolding escape
escape-lacks String.[] = refl
escape-lacks (String.◌∷◌ c s) = ground (arith, escape-lacks s)

escape_filled : (s : String) → is_empty s ≡ false → is_empty (escape s) ≡ false
unfolding escape
escape_filled String.[] h = h
escape_filled (String.◌∷◌ c s) h = ground arith

unescape_plain : (s : String) → lacks b'%' s ≡ true → unescape s ≡ some s
unfolding unescape before
unescape_plain String.[] h = refl
unescape_plain (String.◌∷◌ c s) h = ground (arith, unescape_plain s, ap (before c))

codec : IsCodec escape unescape
codec = record {
  decode-encode = unescape-escape;
  encode-lacks = escape-lacks;
  encode_filled = escape_filled;
  decode_plain = unescape_plain;
}

parse_route-to_path_example :
    parse_route unescape (to_path escape (workspace_section "a/b" "ai-gateway" (some "models")))
    ≡ some (workspace_section "a/b" "ai-gateway" (some "models"))
parse_route-to_path_example =
    parse_route-to_path escape unescape codec (workspace_section "a/b" "ai-gateway" (some "models"))
      (refl, refl, refl, (refl, refl))

trailing : parse_route unescape "/orgs/a%2Fb/projects/p/domains//" ≡ some (domains "a/b" "p")
unfolding parse_route parse_clean parse_segments unescape before
trailing = refl

malformed : parse_route unescape "/orgs/%zz" ≡ none
unfolding parse_route parse_clean parse_segments unescape before
malformed = refl
