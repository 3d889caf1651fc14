-- ===== src/Examples/Requests.antt =====
-- The theorem on the selection of an organization at a concrete state.
use dinchy.Prelude.{◌≡◌, refl, some, none, [], find, any, update_where, keep_if}
use dinchy.Errors.{ok, err, failure, internal_because}
use dinchy.Errors.Codes.{session_create_session}
use dinchy.Db.Organizations.{MembershipRow, find_organization_by_slug}
use dinchy.Db.Sessions.{get_session_by_token_hash, revoke_session_by_token_hash}
use dinchy.World.Effects.{
  clock_now, select, statement, hash_token, cache_get, cache_set_with_ttl, cache_delete,
  publish_event,
}
use dinchy.Session.{Principal, session, logout, create}
use dinchy.Session.Revoke.{revoked_at, logout_time}
use dinchy.Auth.{new_envelope}
use dinchy.Auth.Login.{select_organization, leave_session, announce_logout}
use dinchy.Auth.Login.Selection.{leave_session-select_organization, after_session}
use dinchy.Examples.{env, world}

abbrev principal : Principal
principal = record {
  session_id = "token";
  user_id = "ada";
  email = "ada@example.com";
  display_name = "Ada";
  organization_id = "org";
  organization_name = "Default";
  organization_slug = "default";
  role = "admin";
  permissions = [];
  idle_expires_at = 150;
  expires_at = 190;
  revoked_at = none;
}

abbrev default : MembershipRow
default = record { id = "org"; name = "Default"; slug = "default"; role = "admin" }

leaves : (leave_session env "token" "default" world).0 ≡ ok (principal, default)
unfolding leave_session announce_logout logout session get_session_by_token_hash cache_get
    cache_set_with_ttl cache_delete revoke_session_by_token_hash find_organization_by_slug
    hash_token clock_now select statement new_envelope publish_event find any update_where keep_if
leaves = refl

leave_session-select_organization_example :
    ((session env "token" world).0 ≡ ok (some principal))
    × (find_organization_by_slug "ada" "default" world.db ≡ some default)
    × (select_organization env "token" "default" "ip" "agent" world
        ≡ create env "ada" "org" "ip" "agent" (leave_session env "token" "default" world).1)
    × ((select_organization env "token" "default" "ip" "agent" world).0
        ≡ err (internal_because session_create_session failure))
    × ((select_organization env "token" "default" "ip" "agent" world).1.db
        ≡ revoked_at env
            (logout_time env "token" (after_session env "token" world))
            "token"
            world.db)
leave_session-select_organization_example =
    leave_session-select_organization env "token" "default" "ip" "agent" world principal default
      leaves
