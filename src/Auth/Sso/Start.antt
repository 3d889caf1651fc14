-- ===== src/Auth/Sso/Start.antt =====
-- The transaction that startSSO (sso_service.go) stores, as the callback of completeSSO reads it.
use dinchy.Prelude.{
  ◌+◌, ◌<◌, String, true, false, ◌&&◌, ◌≡◌, ◌≢◌, refl, sym, ap, some, find, arith, eq_iff, eq_refl,
  subst, Option-cases, inl, inr, ◌==◌, if◌then◌else◌,
}
use dinchy.Errors.{ok, err, internal_because}
use dinchy.Errors.Codes.{login_sso_start}
use dinchy.World.{Env, World, SsoState, SsoItem}
use dinchy.World.Exec.{fail_as}
use dinchy.World.Effects.{random_token}
use dinchy.Auth.Sso.{
  SsoRegistry, SsoProviderConfig, Provider, start_sso, find_state, set_state, get_state, bad_state,
  internal_return_path, enabled_provider, new_goth_provider,
}
use dinchy.Auth.Sso.Callback.{stored_state}

module _ (env : Env) (sso : SsoRegistry) where
  abbrev started_state : String → String → String → String → String → SsoState
  started_state provider_id return_to slug state session = record {
    provider_id = provider_id;
    return_to = internal_return_path env sso return_to;
    organization_slug = slug;
    state = state;
    provider_session = session;
  }

  set_state-stored_state :
      (transaction : String) (value : SsoState) (w w' later : World)
      → fail_as (internal_because login_sso_start) (set_state env sso transaction value) w
        ≡ (ok tt, w')
      → later.sso_states ≡ w'.sso_states
      → later.now < w.now + sso.state_lifetime
      → (i : SsoItem) × (stored_state env sso transaction later ≡ some i) × (i.value ≡ value)
  unfolding set_state find
  set_state-stored_state transaction value w w' later h kept alive =
      let works : env.fault w.step ≡ false = ground arith in
      let stored = ap (λ x. x.1.sso_states) (sym h) in
      (
        record {
          key = sso.cache_key transaction;
          value = value;
          gone_at = w.now + sso.state_lifetime;
        },
        ground (arith, eq_refl (sso.cache_key transaction)),
        refl,
      )

  find_state-stored_state :
      (transaction provider_id query_state : String) (i : SsoItem) (w : World)
      → stored_state env sso transaction w ≡ some i
      → sso.has_redis ≡ true
      → transaction ≢ ""
      → env.fault w.step ≡ false
      → (find_state env sso provider_id query_state transaction w).0 ≡ (
          if i.value.provider_id == provider_id && i.value.state == query_state
          then ok i.value
          else err bad_state)
  unfolding find_state get_state
  find_state-stored_state transaction provider_id query_state i w found redis named up =
      ground (arith, eq_iff transaction "")

  -- the statements of a start that succeeds, up to the write
  start_sso-cases :
      (provider_id return_to slug : String) (w : World) (r : String × String)
      → (start_sso env sso provider_id return_to slug w).0 ≡ ok r
      → (cfg : SsoProviderConfig) × (provider : Provider) × (state : String) × (session : String)
        × (w₇ : World) × (enabled_provider env sso provider_id ≡ some cfg)
        × (sso.has_redis ≡ true)
        × (new_goth_provider env sso cfg ≡ some provider)
        × (provider.begin_auth state ≡ some session)
        × (provider.auth_url session ≡ some r.0)
        × (w₇.now ≡ w.now)
        × (fail_as
              (internal_because login_sso_start)
              (set_state env sso r.1 (started_state provider_id return_to slug state session))
              w₇
            ≡ (ok tt, (start_sso env sso provider_id return_to slug w).1))
  unfolding start_sso random_token set_state
  start_sso-cases provider_id return_to slug w r h =
      elim (Option-cases (enabled_provider env sso provider_id)) [
        | inl unknown ↦ absurd (ground arith)
        | inr (cfg, configured) ↦ elim (Option-cases (new_goth_provider env sso cfg)) [
          | inl unmade ↦ absurd (ground arith)
          | inr (provider, made) ↦ elim (Option-cases (provider.begin_auth (env.random w.step))) [
            | inl unbegun ↦ absurd (ground arith)
            | inr (session, begun) ↦ elim (Option-cases (provider.auth_url session)) [
              | inl unaddressed ↦ absurd (ground arith)
              | inr (url, addressed) ↦ (
                cfg,
                provider,
                env.random w.step,
                session,
                record w { step = w.step + 1 + 1 },
                configured,
                ground arith,
                made,
                begun,
                ground arith,
                refl,
                ground arith,
              )
            ]
          ]
        ]
      ]

  -- The transaction that a started sign-on returns, unless it is empty, is in Redis until its time is
  -- over: it holds the provider, the path to return to and the organization of the start, and a state
  -- and a session that the provider began with the state, whose address is the one returned. A
  -- callback against the same transactions, while Redis answers, finds it with that provider and
  -- that state, and is refused with any other.
  pub start_sso-find_state :
      (provider_id return_to slug auth_url transaction : String) (w later : World)
      → (start_sso env sso provider_id return_to slug w).0 ≡ ok (auth_url, transaction)
      → transaction ≢ ""
      → later.sso_states ≡ (start_sso env sso provider_id return_to slug w).1.sso_states
      → later.now < w.now + sso.state_lifetime
      → env.fault later.step ≡ false
      → (cfg : SsoProviderConfig) × (provider : Provider) × (cached : SsoState) × (enabled_provider
            env sso provider_id
          ≡ some cfg)
        × (new_goth_provider env sso cfg ≡ some provider)
        × (provider.begin_auth cached.state ≡ some cached.provider_session)
        × (provider.auth_url cached.provider_session ≡ some auth_url)
        × (cached.provider_id ≡ provider_id)
        × (cached.return_to ≡ internal_return_path env sso return_to)
        × (cached.organization_slug ≡ slug)
        × ((callback_provider query_state : String)
            → (find_state env sso callback_provider query_state transaction later).0 ≡ (
                if provider_id == callback_provider && cached.state == query_state
                then ok cached
                else err bad_state))
  start_sso-find_state provider_id return_to slug auth_url transaction w later h named kept alive
        up =
      let (
        cfg, provider, state, session, w₇, configured, redis, made, begun, addressed, now₇, put,
      ) =
        start_sso-cases provider_id return_to slug w (auth_url, transaction) h in
      let value = started_state provider_id return_to slug state session in
      let (i, found, is_value) =
        set_state-stored_state transaction value w₇
          (start_sso env sso provider_id return_to slug w).1 later put kept (ground arith) in
      (
        cfg,
        provider,
        value,
        configured,
        made,
        begun,
        addressed,
        refl,
        refl,
        refl,
        λ callback_provider query_state.
            subst
              (λ v. (find_state env sso callback_provider query_state transaction later).0 ≡ (
                if v.provider_id == callback_provider && v.state == query_state
                then ok v
                else err bad_state))
              is_value
              (find_state-stored_state transaction callback_provider query_state i later found redis
                named up),
      )
