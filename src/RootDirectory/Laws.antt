-- ===== src/RootDirectory/Laws.antt =====
-- What a directory that apps/api/src/root-directory.ts accepts is worth.
use Prim.Native.Char.{Char, char, code}
use uscs.Common.{
  ℕ, ◌≤◌, String, Bool, true, false, not, ◌&&◌, ◌||◌, Option, none, some, List, [], ◌∷◌, ◌++◌, any,
  all, ltb, ◌==◌, ◌===◌, if◌then◌else◌, is_empty, split, strip_end, trim, trim_end, get_or_else,
  utf16_length, ◌≡◌, refl, sym, ap, subst, ◌∙◌, arith, append_assoc, append-nil, Bool-cases, inl,
  inr, is_space, split_first, false≢true, &&-eq-true, eq_of_===,
}
use text.Mathlib.TextEquality.{Char-path}
use uscs.Api.Action.{Failure, Result, value, throws}
use uscs.RootDirectory.{
  slash, max_length, is_segment, segment_codes, is_segment_code, is_dots, starts_with_slash,
  has_backslash, drop_dot_slash, checked, parse_root_directory,
}

-- The directory above, which of the root is the root.
abbrev pub parent : List String → List String
parent [] = []
parent (d ∷ []) = []
parent (d ∷ e ∷ ds) = d ∷ parent (e ∷ ds)

-- Where a file system arrives that walks segments from a directory, itself a list of names.
unfoldable pub walk : List String → List String → List String
walk here [] = here
walk here (s ∷ segs) =
    walk
      (if (s === "") || (s === ".")
        then here
        else if s === ".."
        then parent here
        else here ++ s ∷ [])
      segs

walk_down : (here segs : List String) → any is_dots segs ≡ false → walk here segs ≡ here ++ segs
unfolding walk
walk_down here [] h = sym (append-nil here)
walk_down here (s ∷ segs) h =
    let step : (if (s === "") || (s === ".")
          then here
          else if s === ".."
          then parent here
          else here ++ s ∷ [])
        ≡ here ++ s ∷ [] =
      ground arith in
    rw step (walk_down (here ++ s ∷ []) segs (ground arith) ∙ append_assoc here (s ∷ []) segs)

-- A value that the checks accept.
pub record IsAccepted (p : String) : Type 0 where
  pub relative : starts_with_slash p ≡ false
  pub forward : has_backslash p ≡ false
  pub named : any is_dots (split slash p) ≡ false
  pub plain : all is_segment (split slash p) ≡ true
  pub short : utf16_length p ≤ max_length

accepted_value : {n p : String} → value (some n) ≡ value (some p) → n ≡ p
accepted_value {n} e = ap (λ r. elim r [ value o ↦ get_or_else o n | throws _ ↦ n ]) e

-- A check that throws if its test holds has let a value through.
passed :
    (b : Bool) (f : Failure) (r : Result (Option String)) (p : String)
    → (if b then throws f else r) ≡ value (some p)
    → (b ≡ false) × (r ≡ value (some p))
passed true f r p h = cc
passed false f r p h = (refl, h)

checked-IsAccepted : (n p : String) → checked n ≡ value (some p) → (n ≡ p) × IsAccepted n
unfolding checked
checked-IsAccepted n p h =
    let (a, relative) = passed (starts_with_slash n || has_backslash n) _ _ p h in
    let (b, named) = passed (any is_dots (split slash n)) _ _ p relative in
    let (c, plain) = passed (not (all is_segment (split slash n))) _ _ p named in
    let (d, short) = passed (ltb max_length (utf16_length n)) _ _ p plain in
    (
      accepted_value short,
      record {
        relative = ground (arith, relative);
        forward = ground (arith, relative);
        named = b;
        plain = ground (arith, c);
        short = ground (arith, d);
      },
    )

abbrev tail_of : List String → List String
tail_of [] = []
tail_of (s ∷ segs) = segs

tail_named : (segs : List String) → any is_dots segs ≡ false → any is_dots (tail_of segs) ≡ false
tail_named [] n = n
tail_named (t ∷ segs) n = ground arith

-- A text whose last part is not empty does not end in the separator.
strip_end_named :
    (s : String) → any is_dots (tail_of (split slash s)) ≡ false → strip_end slash s ≡ s
strip_end_named String.[] h = refl
strip_end_named (String.◌∷◌ c s) h =
    let (q, qs, e) = split_first slash s in
    elim (Bool-cases (code c == slash)) [
      | inl k ↦
          let below : any is_dots (split slash s) ≡ false = rw k at h in
          rw (strip_end_named s (tail_named (split slash s) below), k, filled s below) refl
      | inr k ↦
          let below : any is_dots (tail_of (split slash s)) ≡ false = rw e (rw (k, e) at h) in
          rw (k, strip_end_named s below) refl
    ]
  where
    tail_named :
        (segs : List String) → any is_dots segs ≡ false → any is_dots (tail_of segs) ≡ false
    tail_named [] n = n
    tail_named (t ∷ segs) n = ground arith

    filled : (t : String) → any is_dots (split slash t) ≡ false → is_empty t ≡ false
    filled String.[] n = absurd (false≢true (sym n))
    filled (String.◌∷◌ d t) n = refl

-- Each character is one of a segment, or a slash.
abbrev path_codes : String → Bool
path_codes String.[] = true
path_codes (String.◌∷◌ c s) = (is_segment_code (code c) || code c == slash) && path_codes s

path_codes_plain : (s : String) → all segment_codes (split slash s) ≡ true → path_codes s ≡ true
path_codes_plain String.[] h = refl
path_codes_plain (String.◌∷◌ c s) h =
    let (q, qs, e) = split_first slash s in
    elim (Bool-cases (code c == slash)) [
      | inl k ↦
          let below : all segment_codes (split slash s) ≡ true = rw k at h in
          ground (arith, k, path_codes_plain s below)
      | inr k ↦
          let both : ((is_segment_code (code c) && segment_codes q) && all segment_codes qs)
              ≡ true =
            rw (k, e) at h in
          let below : all segment_codes (split slash s) ≡ true = rw e (ground (arith, both)) in
          ground (arith, both, path_codes_plain s below)
    ]

segments_plain : (segs : List String) → all is_segment segs ≡ true → all segment_codes segs ≡ true
segments_plain [] h = refl
segments_plain (s ∷ segs) h = ground (arith, segments_plain segs)

code_not_space : (n : ℕ) → (is_segment_code n || n == slash) ≡ true → is_space n ≡ false
code_not_space n h = ground arith

trim_end_path : (s : String) → path_codes s ≡ true → trim_end s ≡ s
trim_end_path String.[] h = refl
trim_end_path (String.◌∷◌ c s) h =
    let (here, below) = &&-eq-true (is_segment_code (code c) || code c == slash) (path_codes s) h in
    rw (code_not_space (code c) here, trim_end_path s below) refl

trim_path : (s : String) → path_codes s ≡ true → trim s ≡ s
trim_path String.[] h = refl
trim_path (String.◌∷◌ c s) h =
    let (here, below) = &&-eq-true (is_segment_code (code c) || code c == slash) (path_codes s) h in
    rw (code_not_space (code c) here) (trim_end_path (String.◌∷◌ c s) h)

abbrev dot : Char
dot = char b'.' tt

-- A path whose first segment is not a dot has no `./` to drop.
drop_dot_slash_named : (s : String) → any is_dots (split slash s) ≡ false → drop_dot_slash s ≡ s
drop_dot_slash_named String.[] h = refl
drop_dot_slash_named (String.◌∷◌ c String.[]) h = ground arith
drop_dot_slash_named (String.◌∷◌ c (String.◌∷◌ d s)) h = elim (Bool-cases (code c == b'.')) [
  | inr k ↦ rw k refl
  | inl k ↦ elim (Bool-cases (code d == slash)) [
    | inr l ↦ rw (k, l) refl
    | inl l ↦
        let same : c ≡ dot = Char-path c dot (ground arith) in
        let away : (code c == slash) ≡ false = ground arith in
        let first : (is_dots (String.◌∷◌ c "") || any is_dots (split slash s)) ≡ false =
          rw (away, l) at h in
        absurd (
          false≢true
            (sym first ∙ ap (λ x. is_dots (String.◌∷◌ x "") || any is_dots (split slash s)) same))
  ]
]

not_blank : (p : String) → any is_dots (split slash p) ≡ false → (p === "") ≡ false
not_blank p h = elim (Bool-cases (p === "")) [
  | inl e ↦ absurd (false≢true (sym h ∙ ap (λ t. any is_dots (split slash t)) (eq_of_=== p "" e)))
  | inr e ↦ e
]

accepted_again : (p : String) → IsAccepted p → parse_root_directory (some p) ≡ value (some p)
unfolding parse_root_directory checked
accepted_again p a =
    let trimmed = trim_path p (path_codes_plain p (segments_plain (split slash p) a.plain)) in
    let stripped = strip_end_named p (tail_named (split slash p) a.named) in
    let short : ltb max_length (utf16_length p) ≡ false = ground (arith, a.short) in
    rw
      (
        trimmed,
        drop_dot_slash_named p a.named,
        stripped,
        not_blank p a.named,
        a.relative,
        a.forward,
        a.named,
        a.plain,
        short,
      )
      refl

parsed-IsAccepted :
    (given : Option String) (p : String)
    → parse_root_directory given ≡ value (some p)
    → IsAccepted p
unfolding parse_root_directory
parsed-IsAccepted given p h =
    let trimmed = trim (get_or_else given "") in
    let normalised = strip_end slash (drop_dot_slash trimmed) in
    elim (Bool-cases (trimmed === "")) [
      | inl e ↦ absurd (no_value (rw e at h))
      | inr e ↦ elim (Bool-cases (normalised === "")) [
        | inl f ↦ absurd (no_value (rw (e, f) at h))
        | inr f ↦
            let (same, a) = checked-IsAccepted normalised p (rw (e, f) at h) in
            subst IsAccepted same a
      ]
    ]
  where
    no_value : ◌≡◌ {A = Result (Option String)} (value none) (value (some p)) → ⊥
    no_value e = cc

-- A root directory that is accepted leads, walked segment by segment from the checkout, to the
-- directory below it that has just these names. It has at most 200 characters, and is accepted
-- again unchanged.
pub parse_root_directory_inside :
    (given : Option String) (p : String) (checkout : List String)
    → parse_root_directory given ≡ value (some p)
    → (walk checkout (split slash p) ≡ checkout ++ split slash p)
      × (utf16_length p ≤ 200)
      × (parse_root_directory (some p) ≡ value (some p))
parse_root_directory_inside given p checkout h =
    let a = parsed-IsAccepted given p h in
    (walk_down checkout (split slash p) a.named, a.short, accepted_again p a)
