-- ===== src/RootDirectory.antt =====
-- apps/api/src/root-directory.ts: the validator of the directory that a project builds from.
mod Laws
mod Tests
use Prim.Native.Char.{code}
use uscs.Common.{
  ℕ, String, Bool, true, false, not, ◌&&◌, ◌||◌, Option, none, some, List, [], ◌∷◌, any, all, ltb,
  leb, ◌==◌, ◌===◌, if◌then◌else◌, is_empty, split, strip_end, trim, get_or_else, utf16_length,
}
use uscs.Api.Action.{invalid_input, Result, value, throws}
use uscs.Api.Audit.{failure}

abbrev pub slash : ℕ
slash = b'/'

abbrev pub max_length : ℕ
max_length = 200

-- The characters of SEGMENT.
abbrev pub is_segment_code : ℕ → Bool
is_segment_code n =
    (leb b'A' n && leb n b'Z')
    || (leb b'a' n && leb n b'z')
    || (leb b'0' n && leb n b'9')
    || (n == b'.')
    || (n == b'_')
    || (n == b'-')

abbrev pub segment_codes : String → Bool
segment_codes String.[] = true
segment_codes (String.◌∷◌ c s) = is_segment_code (code c) && segment_codes s

-- `SEGMENT.test(segment)`
abbrev pub is_segment : String → Bool
is_segment segment = not (is_empty segment) && segment_codes segment

abbrev pub starts_with_slash : String → Bool
starts_with_slash String.[] = false
starts_with_slash (String.◌∷◌ c s) = code c == slash

abbrev pub has_backslash : String → Bool
has_backslash String.[] = false
has_backslash (String.◌∷◌ c s) = (code c == b'\\') || has_backslash s

abbrev pub drop_slashes : String → String
drop_slashes String.[] = ""
drop_slashes (String.◌∷◌ c s) = if code c == slash then drop_slashes s else String.◌∷◌ c s

-- What follows a first `.`, if that is a slash.
abbrev pub after_dot : String → String → String
after_dot whole String.[] = whole
after_dot whole (String.◌∷◌ c s) = if code c == slash then drop_slashes s else whole

-- `text.replace(/^\.\/+/, "")`
abbrev pub drop_dot_slash : String → String
drop_dot_slash String.[] = ""
drop_dot_slash (String.◌∷◌ c s) =
    if code c == b'.' then after_dot (String.◌∷◌ c s) s else String.◌∷◌ c s

abbrev pub is_dots : String → Bool
is_dots segment = (segment === "") || (segment === ".") || (segment === "..")

-- The checks on what is left of the value.
unfoldable pub checked : String → Result (Option String)
checked normalised =
    if starts_with_slash normalised || has_backslash normalised
    then throws
        (failure invalid_input "Root directory must be a relative path inside the repository.")
    else if any is_dots (split slash normalised)
    then throws
        (failure invalid_input "Root directory cannot contain '..', '.' or an empty path segment.")
    else if not (all is_segment (split slash normalised))
    then throws (
        failure invalid_input
          "Root directory may contain letters, digits, '.', '_', '-' and '/' only.")
    else if ltb max_length (utf16_length normalised)
    then throws (failure invalid_input "Root directory must be 200 characters or fewer.")
    else value (some normalised)

unfoldable pub parse_root_directory : Option String → Result (Option String)
unfolding checked
parse_root_directory given =
    let trimmed = trim (get_or_else given "") in
    if trimmed === ""
    then value none
    else let normalised = strip_end slash (drop_dot_slash trimmed) in
      if normalised === "" then value none else checked normalised
