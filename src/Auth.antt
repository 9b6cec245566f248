-- ===== src/Auth.antt =====
-- packages/auth/src: principals and API keys.
pub mod ApiKeys
pub mod Scopes
mod Tests
use uscs.Common.{String, Option, none, some, ◌===◌, if◌then◌else◌}
use uscs.Contracts.{Principal}

-- A verified session; an absent email is `none`.
pub record SupabaseSession : Type 0 where
  pub user_id : String
  pub email : Option String
  pub display_name : Option String
  pub access_token : String

abbrev with_email : Option String → SupabaseSession → Option Principal
with_email none session = none
with_email (some email) session =
    if email === ""
    then none
    else some
        (record { user_id = session.user_id; email = email; display_name = session.display_name })

-- `none` is the thrown `UnauthenticatedError`; an empty email is falsy too.
unfoldable pub to_principal : SupabaseSession → Option Principal
to_principal session = with_email session.email session
