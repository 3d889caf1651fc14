-- ===== src/Config/Sso.antt =====
-- internal/config/sso.go: the providers of the single sign-on that the settings name.
use dinchy.Prelude.{String, Bool, not, ◌&&◌, ◌||◌, List, [], ◌∷◌, any, ◌==◌, if◌then◌else◌}
use dinchy.Auth.Sso.{SsoProviderConfig}

-- SSOEnvConfig
pub record SsoEnvConfig : Type 0 where
  pub google_client_id : String
  pub google_secret : String
  pub google_callback_url : String
  pub github_client_id : String
  pub github_secret : String
  pub github_callback_url : String
  pub gitlab_client_id : String
  pub gitlab_secret : String
  pub gitlab_callback_url : String

pub record SsoProviderDefinition : Type 0 where
  pub id : String
  pub name : String

abbrev pub supported_sso_providers : List SsoProviderDefinition
supported_sso_providers =
    record { id = "google"; name = "Google" }
    ∷ record { id = "github"; name = "GitHub" }
    ∷ record { id = "gitlab"; name = "GitLab" }
    ∷ []

unfoldable pub is_supported_sso_provider : String → Bool
is_supported_sso_provider provider_id = any (λ d. d.id == provider_id) supported_sso_providers

-- the switch on the ID: the client ID, the secret and the callback URL
abbrev pub credentials : SsoEnvConfig → String → String × String × String
credentials env id =
    if id == "google"
    then (env.google_client_id, env.google_secret, env.google_callback_url)
    else if id == "github"
    then (env.github_client_id, env.github_secret, env.github_callback_url)
    else if id == "gitlab"
    then (env.gitlab_client_id, env.gitlab_secret, env.gitlab_callback_url)
    else ("", "", "")

abbrev pub provider_of : SsoEnvConfig → SsoProviderDefinition → SsoProviderConfig
provider_of env d =
    let (client_id, secret, callback_url) = credentials env d.id in
    record {
      id = d.id;
      name = d.name;
      client_id = client_id;
      secret = secret;
      callback_url = callback_url;
      enabled = not (client_id == "") && not (secret == "") && not (callback_url == "");
    }

abbrev pub is_mentioned : SsoProviderConfig → Bool
is_mentioned p = not (p.client_id == "") || not (p.secret == "") || not (p.callback_url == "")

unfoldable pub configured_from : SsoEnvConfig → List SsoProviderDefinition → List SsoProviderConfig
configured_from env [] = []
configured_from env (d ∷ ds) =
    let rest = configured_from env ds in
    if is_mentioned (provider_of env d) then provider_of env d ∷ rest else rest

unfoldable pub configured_sso_providers : SsoEnvConfig → List SsoProviderConfig
unfolding configured_from
configured_sso_providers env = configured_from env supported_sso_providers
