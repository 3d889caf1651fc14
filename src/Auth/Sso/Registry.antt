-- ===== src/Auth/Sso/Registry.antt =====
-- newSSORegistry and listSSOProviders (sso_helpers.go, sso_service.go): which providers are offered,
-- and that these are the ones that a sign-on can start with.
use dinchy.Prelude.{
  String, Bool, ◌≡◌, refl, sym, subst, ap, ◌∙◌, true, false, not, ◌&&◌, Option, none, some, List,
  [], ◌∷◌, is_some, find, any, ◌==◌, eq_iff, Bool-cases, inl, inr, if◌then◌else◌, arith,
}
use dinchy.Auth.Sso.{SsoProviderConfig, SsoRegistry, if_enabled, enabled_provider}
use dinchy.World.{Env}
use dinchy.Config.Sso.{
  SsoEnvConfig, SsoProviderDefinition, supported_sso_providers, is_supported_sso_provider,
  provider_of, is_mentioned, configured_from, configured_sso_providers,
}

-- envProviders[id] = provider, on an association list
unfoldable pub put_provider : SsoProviderConfig → List SsoProviderConfig → List SsoProviderConfig
put_provider p [] = p ∷ []
put_provider p (q ∷ qs) = if q.id == p.id then p ∷ qs else q ∷ put_provider p qs

-- the loop of newSSORegistry
unfoldable pub register :
    List SsoProviderConfig → List SsoProviderConfig → Option (List SsoProviderConfig)
unfolding put_provider
register [] providers = some providers
register (p ∷ ps) providers =
    let rest = register ps (put_provider p providers) in
    if is_supported_sso_provider p.id then rest else none

-- the providers of newSSORegistry
unfoldable pub new_sso_registry : List SsoProviderConfig → Option (List SsoProviderConfig)
unfolding register
new_sso_registry configs = register configs []

-- the loop of listSSOProviders: the ID and the name of each
abbrev if_offered : Option SsoProviderConfig → List (String × String) → List (String × String)
if_offered none out = out
if_offered (some p) out = if p.enabled then (p.id, p.name) ∷ out else out

unfoldable pub list_from :
    List SsoProviderConfig → List SsoProviderDefinition → List (String × String)
list_from providers [] = []
list_from providers (d ∷ ds) =
    if_offered (find (λ p. p.id == d.id) providers) (list_from providers ds)

unfoldable pub list_sso_providers : List SsoProviderConfig → List (String × String)
unfolding list_from
list_sso_providers providers = list_from providers supported_sso_providers

abbrev choose : {A : Type 0} → Bool → A → List A → List A
choose b x xs = if b then x ∷ xs else xs

abbrev google_in : SsoEnvConfig → SsoProviderConfig
google_in env = provider_of env (record { id = "google"; name = "Google" })

abbrev github_in : SsoEnvConfig → SsoProviderConfig
github_in env = provider_of env (record { id = "github"; name = "GitHub" })

abbrev gitlab_in : SsoEnvConfig → SsoProviderConfig
gitlab_in env = provider_of env (record { id = "gitlab"; name = "GitLab" })

-- some of the providers, in their order
abbrev chosen : SsoEnvConfig → Bool → Bool → Bool → List SsoProviderConfig
chosen env a b c = choose a (google_in env) (choose b (github_in env) (choose c (gitlab_in env) []))

-- the IDs and names of the enabled ones of a list
unfoldable pub offered : List SsoProviderConfig → List (String × String)
offered [] = []
offered (p ∷ ps) = if_offered (some p) (offered ps)

abbrev is_named : String → List SsoProviderConfig → Bool
is_named id ps = any (λ p. p.id == id) ps

unfoldable has_distinct_ids : List SsoProviderConfig → Bool
has_distinct_ids [] = true
has_distinct_ids (p ∷ ps) = not (is_named p.id ps) && has_distinct_ids ps

-- The registry takes them all, they have distinct IDs, and the listing, which goes by the supported
-- ones, has the enabled ones of them in their order.
chosen_lem :
    (env : SsoEnvConfig) (a b c : Bool)
    → (new_sso_registry (chosen env a b c) ≡ some (chosen env a b c))
      × (has_distinct_ids (chosen env a b c) ≡ true)
      × (list_sso_providers (chosen env a b c) ≡ offered (chosen env a b c))
unfolding new_sso_registry is_supported_sso_provider any list_sso_providers find offered
    has_distinct_ids
chosen_lem env true true true = (refl, refl, refl)
chosen_lem env true true false = (refl, refl, refl)
chosen_lem env true false true = (refl, refl, refl)
chosen_lem env true false false = (refl, refl, refl)
chosen_lem env false true true = (refl, refl, refl)
chosen_lem env false true false = (refl, refl, refl)
chosen_lem env false false true = (refl, refl, refl)
chosen_lem env false false false = (refl, refl, refl)

chosen_settings :
    (env : SsoEnvConfig)
    → (new_sso_registry (configured_sso_providers env) ≡ some (configured_sso_providers env))
      × (has_distinct_ids (configured_sso_providers env) ≡ true)
      × (list_sso_providers (configured_sso_providers env) ≡ offered (configured_sso_providers env))
unfolding configured_sso_providers
chosen_settings env =
    chosen_lem env (is_mentioned (google_in env)) (is_mentioned (github_in env))
      (is_mentioned (gitlab_in env))

some_injective : {A : Type 0} {a b : A} → some a ≡ some b → a ≡ b
some_injective h = cc

-- whether all three settings of a provider are there
abbrev pub is_complete : SsoProviderConfig → Bool
is_complete p = not (p.client_id == "") && not (p.secret == "") && not (p.callback_url == "")

-- the complete ones of the supported providers
unfoldable pub complete_in : SsoEnvConfig → List SsoProviderDefinition → List (String × String)
complete_in env [] = []
complete_in env (d ∷ ds) =
    choose (is_complete (provider_of env d)) (d.id, d.name) (complete_in env ds)

-- a provider that is enabled is mentioned
mentioned : (p : SsoProviderConfig) → is_complete p ≡ true → is_mentioned p ≡ true
mentioned p h = ground arith

offered-configured_from :
    (env : SsoEnvConfig) (ds : List SsoProviderDefinition)
    → offered (configured_from env ds) ≡ complete_in env ds
unfolding offered configured_from complete_in
offered-configured_from env [] = refl
offered-configured_from env (d ∷ ds) = elim (Bool-cases (is_complete (provider_of env d))) [
  | inl complete ↦
      rw (mentioned (provider_of env d) complete, complete)
        (ap (λ r. (d.id, d.name) ∷ r) (offered-configured_from env ds))
  | inr lacking ↦ elim (Bool-cases (is_mentioned (provider_of env d))) [
    | inl said ↦ rw (said, lacking) (offered-configured_from env ds)
    | inr unsaid ↦ rw (unsaid, lacking) (offered-configured_from env ds)
  ]
]

not_offered :
    (id : String) (ps : List SsoProviderConfig)
    → is_named id ps ≡ false
    → any (λ o. o.0 == id) (offered ps) ≡ false
unfolding any offered
not_offered id [] h = refl
not_offered id (p ∷ ps) h = ground (arith, not_offered id ps)

is_named-same : (i j : String) (ps : List SsoProviderConfig) → i ≡ j → is_named i ps ≡ is_named j ps
is_named-same i j ps h = ap (λ k. is_named k ps) h

module _ (world_env : Env) (sso : SsoRegistry) where
  offered-enabled :
      (id : String) (ps : List SsoProviderConfig)
      → has_distinct_ids ps ≡ true
      → any (λ o. o.0 == id) (offered ps)
        ≡ is_some (if_enabled world_env sso (find (λ p. p.id == id) ps))
  unfolding any offered find has_distinct_ids
  offered-enabled id [] h = refl
  offered-enabled id (p ∷ ps) h = elim (Bool-cases (p.id == id)) [
    | inl here ↦
        let same = is_named-same p.id id ps ((eq_iff p.id id).0 here) in
        ground (arith, not_offered id ps)
    | inr other ↦ ground (arith, offered-enabled id ps)
  ]

  -- With the providers of the settings, the registry is built; the providers that are offered are the
  -- supported ones of which the client ID, the secret and the callback URL are all set, in their
  -- order; and a provider is offered exactly if a sign-on finds it enabled.
  pub list_sso_providers_ok :
      (settings : SsoEnvConfig)
      → new_sso_registry (configured_sso_providers settings) ≡ some sso.env_providers
      → (new_sso_registry (configured_sso_providers settings)
          ≡ some (configured_sso_providers settings))
        × (list_sso_providers sso.env_providers ≡ complete_in settings supported_sso_providers)
        × ((id : String)
            → any (λ o. o.0 == id) (list_sso_providers sso.env_providers)
              ≡ is_some (enabled_provider world_env sso id))
  unfolding configured_sso_providers configured_from
  list_sso_providers_ok settings built =
      let known : sso.env_providers ≡ configured_sso_providers settings =
        some_injective (sym built ∙ (chosen_settings settings).0) in
      let (registers, distinct, lists) = chosen_settings settings in
      (
        registers,
        ap list_sso_providers known
            ∙ lists
            ∙ offered-configured_from settings supported_sso_providers,
        λ id.
            subst
              (λ ps.
                any (λ o. o.0 == id) (list_sso_providers ps)
                ≡ is_some (if_enabled world_env sso (find (λ p. p.id == id) ps)))
              (sym known)
              (ap (any (λ o. o.0 == id)) lists
                ∙ offered-enabled id (configured_sso_providers settings) distinct),
      )
