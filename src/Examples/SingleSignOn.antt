-- ===== src/Examples/SingleSignOn.antt =====
-- The theorems on the single sign-on at concrete states.
use dinchy.Prelude.{
  String, is_some, ◌≡◌, refl, true, false, some, [], ◌∷◌, find, any, keep_if, ◌==◌, ◌&&◌, ◌+◌,
  if◌then◌else◌, arith, eq_iff, ◌≢◌,
}
use dinchy.Errors.{ok, err}
use dinchy.Db.Users.{
  find_user_by_provider_account, find_user_by_email, insert_account, rejects_account,
}
use dinchy.World.{World, SsoState, SsoItem}
use dinchy.World.Effects.{clock_now, random_token, generate_id, select, statement}
use dinchy.Auth.{User}
use dinchy.Auth.Sso.{
  SsoRegistry, SsoProviderConfig, enabled_provider, start_sso, set_state, internal_return_path,
  new_goth_provider, bad_state, GothUser, Provider, complete_sso, identify, finish_sso, find_state,
  get_state, ask_provider, call, sso_user, link_by_email,
}
use dinchy.Auth.Sso.Start.{start_sso-find_state}
use dinchy.Auth.Sso.Callback.{identify-complete_sso, stored_state, IsKnownAs, IsNamedBy}
use dinchy.Config.Sso.{
  SsoEnvConfig, configured_sso_providers, supported_sso_providers, is_supported_sso_provider,
}
use dinchy.Auth.Sso.Registry.{
  new_sso_registry, list_sso_providers, complete_in, list_sso_providers_ok,
}
use dinchy.Examples.{env, world}

-- a provider that knows Ada by her email
abbrev provider : Provider
provider = record {
  begin_auth = λ state. some state;
  auth_url = λ session. some session;
  unmarshal_session = λ session. some session;
  authorize = λ n session code state. some session;
  fetch_user = λ n session. some (record { user_id = "google-ada"; email = "ada@example.com" });
}

abbrev google : SsoProviderConfig
google = record {
  id = "google";
  name = "Google";
  client_id = "client";
  secret = "secret";
  callback_url = "/callback";
  enabled = true;
}

abbrev pub sso : SsoRegistry
sso = record {
  env_providers = google ∷ [];
  state_lifetime = 10;
  cache_key = λ transaction. transaction;
  has_redis = true;
  google = λ cfg. provider;
  github = λ cfg. provider;
  gitlab = λ cfg. provider;
  parse_url =
      λ raw. some (record { is_abs = false; is_rooted = true; request_uri = raw; state = raw });
  to_lower = λ s. s;
}

abbrev started : World
started = record world {
  sso_states =
      record {
        key = "transaction";
        value = record {
          provider_id = "google";
          return_to = "/home";
          organization_slug = "";
          state = "state";
          provider_session = "state";
        };
        gone_at = 110;
      }
      ∷ [];
}

abbrev ada : User
ada = record { id = "ada"; email = "ada@example.com"; display_name = "Ada"; email_verified = true }

abbrev cached_state : SsoState
cached_state = record {
  provider_id = "google";
  return_to = "/home";
  organization_slug = "";
  state = "state";
  provider_session = "state";
}

signs_on :
    (identify env sso "google" "state" "code" "transaction" started).0 ≡ ok (ada, cached_state)
unfolding identify find_state get_state ask_provider call sso_user link_by_email
    find_user_by_provider_account find_user_by_email insert_account rejects_account clock_now
    generate_id select statement find any
signs_on = refl

identify-complete_sso_example :
    (i : SsoItem) × (cfg : SsoProviderConfig) × (provider' : Provider) × (g : GothUser)
    × (stored_state env sso "transaction" started ≡ some i)
    × (cached_state ≡ i.value)
    × (cached_state.provider_id ≡ "google")
    × (cached_state.state ≡ "state")
    × (enabled_provider env sso "google" ≡ some cfg)
    × (new_goth_provider env sso cfg ≡ some provider')
    × IsNamedBy env sso provider' cached_state "state" "code" (started.step + 1) g
    × IsKnownAs env sso "google" g started.db ada
    × (complete_sso env sso "google" "state" "code" "transaction" "ip" "agent" started
        ≡ finish_sso env sso ada cached_state "transaction" "ip" "agent"
            (identify env sso "google" "state" "code" "transaction" started).1)
    × ((complete_sso env sso "google" "state" "code" "transaction" "ip" "agent"
          started).1.db.sessions
        ≡ started.db.sessions)
identify-complete_sso_example =
    identify-complete_sso env sso "google" "state" "code" "transaction" "ip" "agent" started ada
      cached_state signs_on

starts : (start_sso env sso "google" "/home" "acme" world).0 ≡ ok ("fresh", "fresh")
unfolding start_sso set_state random_token find keep_if
starts = refl

abbrev later : World
later = record ((start_sso env sso "google" "/home" "acme" world).1) { now = world.now + 9 }

fresh : ◌≢◌ {A = String} "fresh" ""
fresh h = ground (arith, eq_iff "fresh" "")

start_sso-find_state_example :
    (cfg : SsoProviderConfig) × (provider' : Provider) × (cached : SsoState) × (enabled_provider env
        sso "google"
      ≡ some cfg)
    × (new_goth_provider env sso cfg ≡ some provider')
    × (provider'.begin_auth cached.state ≡ some cached.provider_session)
    × (provider'.auth_url cached.provider_session ≡ some "fresh")
    × (cached.provider_id ≡ "google")
    × (cached.return_to ≡ internal_return_path env sso "/home")
    × (cached.organization_slug ≡ "acme")
    × ((callback_provider query_state : String)
        → (find_state env sso callback_provider query_state "fresh" later).0 ≡ (
            if "google" == callback_provider && cached.state == query_state
            then ok cached
            else err bad_state))
start_sso-find_state_example =
    start_sso-find_state env sso "google" "/home" "acme" "fresh" "fresh" world later starts fresh
      refl (omega arith) refl

-- Google with all its settings, GitHub without its secret
abbrev settings : SsoEnvConfig
settings = record {
  google_client_id = "client";
  google_secret = "secret";
  google_callback_url = "/callback";
  github_client_id = "other";
  github_secret = "";
  github_callback_url = "";
  gitlab_client_id = "";
  gitlab_secret = "";
  gitlab_callback_url = "";
}

abbrev configured : SsoRegistry
configured = record sso { env_providers = configured_sso_providers settings }

registered : new_sso_registry (configured_sso_providers settings) ≡ some configured.env_providers
unfolding new_sso_registry configured_sso_providers is_supported_sso_provider any
registered = refl

offers_google : list_sso_providers configured.env_providers ≡ ("google", "Google") ∷ []
unfolding list_sso_providers configured_sso_providers find
offers_google = refl

list_sso_providers_ok_example :
    (new_sso_registry (configured_sso_providers settings)
      ≡ some (configured_sso_providers settings))
    × (list_sso_providers configured.env_providers ≡ complete_in settings supported_sso_providers)
    × ((id : String)
        → any (λ o. o.0 == id) (list_sso_providers configured.env_providers)
          ≡ is_some (enabled_provider env configured id))
list_sso_providers_ok_example = list_sso_providers_ok env configured settings registered
