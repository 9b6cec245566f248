-- ===== src/RootDirectory/Tests.antt =====
-- Runs of the definitions for apps/api/src/root-directory.ts, and concrete instances of the
-- theorems.
use uscs.Common.{◌≤◌, none, some, [], ◌∷◌, ◌++◌, split, utf16_length, ◌≡◌, refl}
use uscs.Api.Action.{invalid_input, value, throws}
use uscs.Api.Audit.{failure}
use uscs.RootDirectory.{slash, parse_root_directory}
use uscs.RootDirectory.Laws.{walk, parse_root_directory_inside}

normalises : parse_root_directory (some "  .//apps/web// ") ≡ value (some "apps/web")
unfolding parse_root_directory
normalises = refl

root : parse_root_directory (some "./") ≡ value none
unfolding parse_root_directory
root = refl

escapes :
    parse_root_directory (some "../etc")
    ≡ throws
        (failure invalid_input "Root directory cannot contain '..', '.' or an empty path segment.")
unfolding parse_root_directory
escapes = refl

parse_root_directory_inside_example :
    (walk ("src" ∷ []) (split slash "apps/web") ≡ ("src" ∷ []) ++ split slash "apps/web")
    × (utf16_length "apps/web" ≤ 200)
    × (parse_root_directory (some "apps/web") ≡ value (some "apps/web"))
parse_root_directory_inside_example =
    parse_root_directory_inside (some "  .//apps/web// ") "apps/web" ("src" ∷ []) normalises
