-- ===== src/GitHook/Delivery.antt =====
-- `parseGitDelivery` of apps/api/src/git-hook.ts. `JSON.parse` is a parameter of it: it has no value
-- where the parser throws. The keys of an object are distinct.
use Prim.Native.Char.{code}
use uscs.Common.{
  ℕ, String, Bool, true, false, not, ◌&&◌, ◌||◌, Option, none, some, leb, ◌==◌, ◌===◌,
  if◌then◌else◌, is_empty, is_some, get_or_else, codes, contains, utf16_length,
}
use uscs.Requests.Keys.{without_prefix}

mutual
  -- A number: whether it is above 0, and its floor then. `other` is null or a Boolean.
  pub data Json : Type 0 where
    text : String → Json
    number : Bool → ℕ → Json
    array : Elements → Json
    object : Members → Json
    other : Json

  pub data Elements : Type 0 where
    no_elements : Elements
    element : Json → Elements → Elements

  pub data Members : Type 0 where
    no_members : Members
    member : String → Json → Members → Members

-- `record[key]`: a key that is missing has no value.
abbrev pub at_key : String → Members → Option Json
at_key key no_members = none
at_key key (member k v rest) = if k === key then some v else at_key key rest

-- `asRecord(value)?.[key]`
abbrev pub key_of : String → Option Json → Option Json
key_of key (some (object members)) = at_key key members
key_of key _ = none

-- `stringAt(value)`
abbrev pub string_at : Option Json → Option String
string_at (some (text s)) = if is_empty s then none else some s
string_at _ = none

abbrev number_at : Option Json → Option (Bool × ℕ)
number_at (some (number positive floor)) = some (positive, floor)
number_at _ = none

abbrev pub first_of {ℓ} : {A : Type ℓ} → Option A → Option A → Option A
first_of (some a) b = some a
first_of none b = b

abbrev first_element : Option Json → Option Json
first_element (some (array (element v rest))) = some v
first_element _ = none

pub record ParsedGitDelivery : Type 0 where
  pub branch : Option String
  pub commit : Option String
  pub pull_request : Option ℕ
  pub event : String
  pub is_pull_request : Bool

abbrev pub unknown : ParsedGitDelivery
unknown = record {
  branch = none;
  commit = none;
  pull_request = none;
  event = "unknown";
  is_pull_request = false;
}

abbrev positive_of : Option (Bool × ℕ) → Option ℕ
positive_of none = none
positive_of (some (positive, floor)) = if positive then some floor else none

unfoldable pub parse_pull_request : Members → ParsedGitDelivery
parse_pull_request root =
    let pr = at_key "pull_request" root in
    let mr = at_key "object_attributes" root in
    let bb = at_key "pullrequest" root in
    record {
      branch = first_of (string_at (key_of "ref" (key_of "head" pr))) (
          first_of (string_at (key_of "source_branch" mr))
            (string_at (key_of "name" (key_of "branch" (key_of "source" bb)))));
      commit = first_of (string_at (key_of "sha" (key_of "head" pr))) (
          first_of (string_at (key_of "id" (key_of "last_commit" mr)))
            (string_at (key_of "hash" (key_of "commit" (key_of "source" bb)))));
      pull_request = positive_of (
          first_of (number_at (key_of "number" pr))
            (first_of (number_at (key_of "iid" mr)) (number_at (key_of "id" bb))));
      event = "pull_request";
      is_pull_request = true;
    }

abbrev is_hex : ℕ → Bool
is_hex n = (leb b'0' n && leb n b'9') || (leb b'a' n && leb n b'f') || (leb b'A' n && leb n b'F')

abbrev hex_codes : String → Bool
hex_codes String.[] = true
hex_codes (String.◌∷◌ c s) = is_hex (code c) && hex_codes s

abbrev zero_codes : String → Bool
zero_codes String.[] = true
zero_codes (String.◌∷◌ c s) = (code c == b'0') && zero_codes s

-- `/^[0-9a-f]{7,40}$/i.test(after) && !/^0+$/.test(after)`
unfoldable pub is_commit : String → Bool
is_commit s = hex_codes s && leb 7 (utf16_length s) && leb (utf16_length s) 40 && not (zero_codes s)

abbrev branch_of_ref : Option String → Option String
branch_of_ref none = none
branch_of_ref (some ref) = without_prefix "refs/heads/" ref

abbrev commit_of : Option String → Option String
commit_of none = none
commit_of (some after) = if is_commit after then some after else none

unfoldable pub parse_push : String → Members → ParsedGitDelivery
unfolding is_commit
parse_push event root = record {
  branch = first_of (branch_of_ref (string_at (at_key "ref" root))) (
      string_at
        (key_of "name" (key_of "new" (first_element (key_of "changes" (at_key "push" root))))));
  commit = commit_of (string_at (at_key "after" root));
  pull_request = none;
  event = if event === "unknown" then "push" else event;
  is_pull_request = false;
}

abbrev is_merge_request : Option String → Bool
is_merge_request none = false
is_merge_request (some kind) = kind === "merge_request"

unfoldable pub parse_root : (String → String) → Option String → Members → ParsedGitDelivery
unfolding parse_pull_request parse_push
parse_root lower event_header root =
    let object_kind = string_at (at_key "object_kind" root) in
    let event = lower (get_or_else (first_of event_header object_kind) "unknown") in
    if contains (codes event) (codes "pull_request")
      || contains (codes event) (codes "pullrequest")
      || is_merge_request object_kind
      || is_some (at_key "pull_request" root)
      || is_some (at_key "pullrequest" root)
    then parse_pull_request root
    else parse_push event root

abbrev parsed_as : (String → String) → Option String → Option Json → ParsedGitDelivery
parsed_as lower event_header (some (object root)) = parse_root lower event_header root
parsed_as lower event_header _ = unknown

unfoldable pub parse_git_delivery :
    (String → Option Json) → (String → String) → Option String → String → ParsedGitDelivery
unfolding parse_root
parse_git_delivery parse_json lower event_header body =
    parsed_as lower event_header (parse_json body)
