-- ===== src/Auth.antt =====
-- internal/features/auth: the types that its services share, and the events they publish
-- (auth_type.go, auth_helpers.go, internal/platform/events/envelope.go).
pub mod Totp
pub mod Login
pub mod Sso
pub mod Api
pub mod Password
pub mod Setup
pub mod Invitation
use dinchy.Prelude.{
  ℕ, String, Bool, true, false, ◌&&◌, ◌||◌, Option, none, some, List, [], ◌∷◌, is_some, ◌==◌,
  if◌then◌else◌,
}
use dinchy.Errors.{GoError, failure, missing_or, internal_because}
use dinchy.Errors.Codes.{Code, email_footer}
use dinchy.Db.{UserRow}
use dinchy.Db.Organizations.{MembershipRow}
use dinchy.World.{Env, Content, Envelope, Event, EventType}
use dinchy.World.Exec.{Exec, pure, raise, fail_as, ◌>>=◌, ◌>>◌}
use dinchy.World.Effects.{publish_event}

abbrev pub nil_uuid : String
nil_uuid = "00000000-0000-0000-0000-000000000000"

pub record User : Type 0 where
  pub id : String
  pub email : String
  pub display_name : String
  pub email_verified : Bool

abbrev pub user_from_row : UserRow → Option User
user_from_row row =
    if row.id == nil_uuid
    then none
    else some (record {
      id = row.id;
      email = row.email;
      display_name = row.display_name;
      email_verified = is_some row.email_verified_at;
    })

-- organizationFromFindOrganizationRow; the row's fields are those of Organization
abbrev pub organization_from_row : MembershipRow → Option MembershipRow
organization_from_row row = if row.id == nil_uuid then none else some row

pub record Target : Type 0 where
  pub target_type : String
  pub target_id : String
  pub target_display : String

module _ (env : Env) where
  abbrev pub new_target : String → String → String → Target
  new_target type id display = record {
    target_type = env.trim_space type;
    target_id = env.trim_space id;
    target_display = env.trim_space display;
  }

  abbrev pub is_invalid : Target → Bool
  is_invalid t =
      env.trim_space t.target_type == ""
      || (env.trim_space t.target_id == "" || env.trim_space t.target_display == "")

  unfoldable pub new_envelope : String → String → Target → Exec Envelope
  new_envelope user_id organization_id t =
      if is_invalid t
      then raise failure
      else pure (record {
        actor_user_id = user_id;
        actor_organization_id = organization_id;
        target_type = t.target_type;
        target_id = t.target_id;
        target_display = t.target_display;
        request_id = env.request.request_id;
        trace_id = env.request.trace_id;
        span_id = env.request.span_id;
        ip_address = env.request.remote_ip;
        user_agent = env.request.user_agent;
      })

  -- invitationContent and passwordResetContent share their footer and their link.
  abbrev pub action_url : String → String → String
  action_url path token = env.url_with_token env.links.base_url path token

  abbrev pub footer : String
  footer = env.copy email_footer []
