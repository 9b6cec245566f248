-- ===== src/Requests/Keys.antt =====
-- The texts of a deployment request in apps/api/src/procedures/deployments.ts: references,
-- repositories, idempotency keys and preview keys. `lower` is `toLowerCase`, `decimal` prints a number.
use Prim.Native.Char.{Char, char, code}
use Prim.Native.String.{◌++◌ as ◌<>◌}
use uscs.Common.{
  ℕ, zero, suc, String, Bool, true, false, not, ◌&&◌, ◌||◌, Option, none, some, List, [], ◌∷◌, leb,
  ◌==◌, ◌===◌, if◌then◌else◌, is_empty, strip_end, trim, get_or_else, utf16_length, is_space,
  includes,
}
use uscs.Api.Action.{invalid_input, Result, value, throws}
use uscs.Api.Audit.{failure}

abbrev pub dash : Char
dash = char b'-' tt

abbrev pub is_upper : ℕ → Bool
is_upper n = leb b'A' n && leb n b'Z'

abbrev pub is_lower_or_digit : ℕ → Bool
is_lower_or_digit n = (leb b'a' n && leb n b'z') || (leb b'0' n && leb n b'9')

-- `replace(/[^a-z0-9]+/g, "-")`: the flag says that a run of other characters has begun.
unfoldable pub collapse : Bool → String → String
collapse run String.[] = ""
collapse run (String.◌∷◌ c s) =
    let kept = String.◌∷◌ c (collapse false s) in
    let rest = collapse true s in
    if is_lower_or_digit (code c) then kept else if run then rest else String.◌∷◌ dash rest

abbrev pub drop_dashes : String → String
drop_dashes String.[] = ""
drop_dashes (String.◌∷◌ c s) = if code c == b'-' then drop_dashes s else String.◌∷◌ c s

-- `slice(0, n)` of a text of one unit for each character.
unfoldable pub take : ℕ → String → String
take zero s = ""
take (suc n) String.[] = ""
take (suc n) (String.◌∷◌ c s) = String.◌∷◌ c (take n s)

-- The local `slug` of `previewKeyFor`, after `toLowerCase`.
unfoldable pub slug : String → String
unfolding collapse take
slug lowered = take 100 (strip_end b'-' (drop_dashes (collapse false lowered)))

-- `replace(/[^a-z0-9]/g, "")`
unfoldable pub letters : String → String
letters String.[] = ""
letters (String.◌∷◌ c s) =
    let rest = letters s in if is_lower_or_digit (code c) then String.◌∷◌ c rest else rest

module _ (lower : String → String) (decimal : ℕ → String) where
  abbrev pub key_of_commit : Option String → String
  key_of_commit none = "preview-unknown"
  key_of_commit (some commit) =
      if is_empty commit
      then "preview-unknown"
      else let short = take 40 (letters (lower commit)) in
        if is_empty short then "commit-unknown" else "commit-" <> short

  abbrev pub key_of_branch : Option String → Option String → String
  key_of_branch none commit = key_of_commit commit
  key_of_branch (some branch) commit =
      if is_empty branch
      then key_of_commit commit
      else let part = slug (lower branch) in
        if is_empty part then "branch-unknown" else "branch-" <> part

  unfoldable pub preview_key_for : Option ℕ → Option String → Option String → String
  unfolding slug letters
  preview_key_for (some pull_request) branch commit = "pr-" <> decimal pull_request
  preview_key_for none branch commit = key_of_branch branch commit

abbrev is_ref_start : ℕ → Bool
is_ref_start n = is_upper n || is_lower_or_digit n

abbrev is_ref_code : ℕ → Bool
is_ref_code n = is_ref_start n || (n == b'.') || (n == b'_') || (n == b'/') || (n == b'-')

abbrev ref_codes : String → Bool
ref_codes String.[] = true
ref_codes (String.◌∷◌ c s) = is_ref_code (code c) && ref_codes s

-- `REF_PATTERN.test(text)`
unfoldable pub is_ref : String → Bool
is_ref String.[] = false
is_ref (String.◌∷◌ c s) = is_ref_start (code c) && ref_codes s && leb (utf16_length s) 199

-- What follows a prefix, if the text begins with it.
abbrev pub without_prefix : String → String → Option String
without_prefix String.[] s = some s
without_prefix (String.◌∷◌ d p) String.[] = none
without_prefix (String.◌∷◌ d p) (String.◌∷◌ c s) =
    if code c == code d then without_prefix p s else none

abbrev no_spaces : String → Bool
no_spaces String.[] = true
no_spaces (String.◌∷◌ c s) = not (is_space (code c)) && no_spaces s

abbrev is_repository_rest : Option String → Bool
is_repository_rest none = false
is_repository_rest (some s) = no_spaces s && leb 3 (utf16_length s) && leb (utf16_length s) 297

-- `REPO_PATTERN.test(text)`
unfoldable pub is_repository : String → Bool
is_repository text =
    is_repository_rest (without_prefix "https://" text)
    || is_repository_rest (without_prefix "http://" text)
    || is_repository_rest (without_prefix "git@" text)

unfoldable pub optional_ref : Option String → String → Result (Option String)
unfolding is_ref
optional_ref given label =
    let trimmed = trim (get_or_else given "") in
    if trimmed === ""
    then value none
    else if not (is_ref trimmed)
    then throws (failure invalid_input (label <> " is not a valid git reference."))
    else value (some trimmed)

unfoldable pub optional_repository : Option String → Result (Option String)
unfolding is_repository
optional_repository given =
    let trimmed = trim (get_or_else given "") in
    if trimmed === ""
    then value none
    else if not (is_repository trimmed)
    then throws (failure invalid_input "Repository must be an https://, http:// or git@ URL.")
    else value (some trimmed)

abbrev pub build_packs : List String
build_packs = "nixpacks" ∷ "railpack" ∷ "static" ∷ "dockerfile" ∷ "dockercompose" ∷ []

unfoldable pub optional_build_pack : Option String → Result (Option String)
optional_build_pack given =
    let trimmed = trim (get_or_else given "") in
    if trimmed === ""
    then value none
    else if not (includes build_packs trimmed)
    then throws (
        failure invalid_input
          "Build pack must be one of: nixpacks, railpack, static, dockerfile, dockercompose.")
    else value (some trimmed)
