-- ===== src/Requests/PreviewKeys.antt =====
-- The form of the preview keys of apps/api/src/procedures/deployments.ts, and when two are one.
use Prim.Native.Char.{Char, code}
use Prim.Native.String.{◌++◌ as append}
use text.Mathlib.TextLemmas.{nil-append, cons-append}
use uscs.Common.{
  ℕ, zero, suc, ◌+◌, ◌≤◌, String, Bool, true, false, ◌&&◌, ◌||◌, Option, none, some, ◌≡◌, refl,
  arith, ◌==◌, if◌then◌else◌, is_empty, strip_end, utf16_length,
}
use uscs.Requests.Keys.{
  is_lower_or_digit, collapse, drop_dashes, take, slug, letters, key_of_commit, key_of_branch,
  preview_key_for,
}

-- The characters of a key: what the table's check accepts.
abbrev pub key_codes : String → Bool
key_codes String.[] = true
key_codes (String.◌∷◌ c s) = (is_lower_or_digit (code c) || (code c == b'-')) && key_codes s

abbrev pub letter_codes : String → Bool
letter_codes String.[] = true
letter_codes (String.◌∷◌ c s) = is_lower_or_digit (code c) && letter_codes s

collapse-codes : (run : Bool) (s : String) → key_codes (collapse run s) ≡ true
unfolding collapse
collapse-codes run String.[] = refl
collapse-codes run (String.◌∷◌ c s) = ground (arith, collapse-codes true s, collapse-codes false s)

drop_dashes-codes : (s : String) → key_codes s ≡ true → key_codes (drop_dashes s) ≡ true
drop_dashes-codes String.[] h = refl
drop_dashes-codes (String.◌∷◌ c s) h = ground (arith, drop_dashes-codes s)

strip_end-codes : (s : String) → key_codes s ≡ true → key_codes (strip_end b'-' s) ≡ true
strip_end-codes String.[] h = refl
strip_end-codes (String.◌∷◌ c s) h = ground (arith, strip_end-codes s)

take-codes : (n : ℕ) (s : String) → key_codes s ≡ true → key_codes (take n s) ≡ true
unfolding take
take-codes zero s h = refl
take-codes (suc n) String.[] h = refl
take-codes (suc n) (String.◌∷◌ c s) h = ground (arith, take-codes n s)

append-codes :
    (s t : String) → key_codes s ≡ true → key_codes t ≡ true → key_codes (append s t) ≡ true
append-codes String.[] t h k = rw nil-append k
append-codes (String.◌∷◌ c s) t h k = rw cons-append (ground (arith, append-codes s t))

letters-codes : (s : String) → key_codes (letters s) ≡ true
unfolding letters
letters-codes String.[] = refl
letters-codes (String.◌∷◌ c s) = ground (arith, letters-codes s)

-- A text of such characters has one unit for each.
length-take : (n : ℕ) (s : String) → key_codes s ≡ true → utf16_length (take n s) ≤ n
unfolding take
length-take zero s h = omega arith
length-take (suc n) String.[] h = omega arith
length-take (suc n) (String.◌∷◌ c s) h = ground (arith, length-take n s)

length-append : (s t : String) → utf16_length (append s t) ≡ utf16_length s + utf16_length t
length-append String.[] t = rw nil-append (omega arith)
length-append (String.◌∷◌ c s) t = rw cons-append (omega (arith, length-append s t))

-- What is a key of at most so many characters.
abbrev pub IsKey : ℕ → String → Type 0
IsKey n s = (key_codes s ≡ true) × (utf16_length s ≤ n)

behind :
    (word part : String) (m n : ℕ) → IsKey m word → IsKey n part → IsKey (m + n) (append word part)
behind word part m n (h, k) (i, j) =
    (append-codes word part h i, omega (arith, length-append word part))

slug-IsKey : (s : String) → IsKey 100 (slug s)
unfolding slug
slug-IsKey s =
    let plain =
      strip_end-codes (drop_dashes (collapse false s))
        (drop_dashes-codes (collapse false s) (collapse-codes false s)) in
    (
      take-codes 100 (strip_end b'-' (drop_dashes (collapse false s))) plain,
      length-take 100 (strip_end b'-' (drop_dashes (collapse false s))) plain,
    )

module _ (lower : String → String) (decimal : ℕ → String) where
  if-IsKey :
      (b : Bool) (s t : String) (n : ℕ) → IsKey n s → IsKey n t → IsKey n (if b then s else t)
  if-IsKey true s t n h k = h
  if-IsKey false s t n h k = k

  commit-IsKey : (commit : Option String) → IsKey 107 (key_of_commit lower decimal commit)
  commit-IsKey none = (refl, omega arith)
  commit-IsKey (some commit) =
      let short = take 40 (letters (lower commit)) in
      let (h, k) =
        behind "commit-" short 7 40 (refl, omega arith)
          (
            take-codes 40 (letters (lower commit)) (letters-codes (lower commit)),
            length-take 40 (letters (lower commit)) (letters-codes (lower commit)),
          ) in
      if-IsKey (is_empty commit) "preview-unknown" _ 107 (refl, omega arith)
        (if-IsKey (is_empty short) "commit-unknown" _ 107 (refl, omega arith) (h, omega (arith, k)))

  branch-IsKey :
      (branch commit : Option String) → IsKey 107 (key_of_branch lower decimal branch commit)
  branch-IsKey none commit = commit-IsKey commit
  branch-IsKey (some branch) commit = if-IsKey (is_empty branch) _ _ 107 (commit-IsKey commit) (
      if-IsKey (is_empty (slug (lower branch))) "branch-unknown" _ 107 (refl, omega arith)
        (behind "branch-" (slug (lower branch)) 7 100 (refl, omega arith)
          (slug-IsKey (lower branch))))

  -- If numbers print in at most 104 digits, small letters or dashes, the preview key of any pull
  -- request, branch and commit consists of digits, small letters and dashes, and has at most 107
  -- of them.
  pub preview_key_for-IsKey :
      (pull_request : Option ℕ) (branch commit : Option String)
      → ((n : ℕ) → IsKey 104 (decimal n))
      → IsKey 107 (preview_key_for lower decimal pull_request branch commit)
  unfolding preview_key_for
  preview_key_for-IsKey none branch commit d = branch-IsKey branch commit
  preview_key_for-IsKey (some n) branch commit d =
      behind "pr-" (decimal n) 3 104 (refl, omega arith) (d n)

  -- Two separators of one character make no difference.
  collapse_same :
      (run : Bool) (s t : String) (c d : Char)
      → is_lower_or_digit (code c) ≡ false
      → is_lower_or_digit (code d) ≡ false
      → collapse run (append s (String.◌∷◌ c t)) ≡ collapse run (append s (String.◌∷◌ d t))
  unfolding collapse
  collapse_same run String.[] t c d h k = rw (nil-append, nil-append, h, k) refl
  collapse_same run (String.◌∷◌ e s) t c d h k =
      rw (cons-append, cons-append, collapse_same true s t c d h k, collapse_same false s t c d h k)
        refl

  -- Two branches that are not empty, whose small-letter texts differ only in one character that
  -- is neither a small letter nor a digit in either, have the same preview key.
  pub preview_key_for-shared :
      (a b commit s t : String) (c d : Char)
      → is_empty a ≡ false
      → is_empty b ≡ false
      → lower a ≡ append s (String.◌∷◌ c t)
      → lower b ≡ append s (String.◌∷◌ d t)
      → is_lower_or_digit (code c) ≡ false
      → is_lower_or_digit (code d) ≡ false
      → preview_key_for lower decimal none (some a) (some commit)
        ≡ preview_key_for lower decimal none (some b) (some commit)
  unfolding preview_key_for slug
  preview_key_for-shared a b commit s t c d h k e f l m =
      rw (h, k, e, f, collapse_same false s t c d l m) refl
