-- ===== src/Auth/Sso/Callback.antt =====
-- What completeSSO (sso_service.go) has checked when it comes to the session of its user.
use dinchy.Prelude.{
  ℕ, ◌+◌, String, true, ◌≡◌, ◌⊎◌, inl, inr, subst, sym, ap, ◌∙◌, Option, none, some, find, arith,
  eq_iff, Option-cases,
}
use dinchy.Errors.{GoError, ok}
use dinchy.Db.{Db, UserRow}
use dinchy.Db.Users.{find_user_by_provider_account, find_user_by_email, insert_account}
use dinchy.World.{Env, World, SsoState, SsoItem}
use dinchy.World.Exec.{some_or}
use dinchy.World.Inversion.{bind_run, ok-injective, Result-cases}
use dinchy.World.Effects.{clock_now, generate_id, select, statement}
use dinchy.Session.Creation.{create_fails}
use dinchy.Auth.{User, user_from_row}
use dinchy.Auth.Login.{resolve_login_organization}
use dinchy.Auth.Login.Outcome.{db-resolve_login_organization}
use dinchy.Auth.Sso.{
  SsoRegistry, SsoProviderConfig, identify, is_valid_state, GothUser, Provider, complete_sso,
  finish_sso, find_state, ask_provider, sso_user, link_by_email, get_state, call, is_at,
  enabled_provider, new_goth_provider,
}

module _ (env : Env) (sso : SsoRegistry) where
  -- the transaction that a callback finds
  abbrev pub stored_state : String → World → Option SsoItem
  stored_state transaction w = find (is_at env sso w.now (sso.cache_key transaction)) w.sso_states

  find_state_ok :
      (provider_id query_state transaction : String) (w : World) (cached : SsoState)
      → (find_state env sso provider_id query_state transaction w).0 ≡ ok cached
      → ((i : SsoItem) × (stored_state transaction w ≡ some i) × (cached ≡ i.value))
        × (cached.provider_id ≡ provider_id)
        × (cached.state ≡ query_state)
        × ((find_state env sso provider_id query_state transaction w).1.db ≡ w.db)
        × ((find_state env sso provider_id query_state transaction w).1.step ≡ w.step + 1)
  unfolding find_state get_state
  find_state_ok provider_id query_state transaction w cached h =
      elim (Option-cases (stored_state transaction w)) [
        | inl absent ↦ absurd (ground arith)
        | inr (i, found) ↦ (
          (i, found, ground arith),
          ground (arith, eq_iff i.value.provider_id provider_id),
          ground (arith, eq_iff i.value.state query_state),
          ground arith,
          ground arith,
        )
      ]

  db-ask_provider :
      (provider : Provider) (cached : SsoState) (query_state code : String) (w : World)
      → (ask_provider env sso provider cached query_state code w).1.db ≡ w.db
  unfolding ask_provider call
  db-ask_provider provider cached query_state code w = ground arith

  -- The provider has authorized the transaction's session by the code, and has then named the user.
  -- `n` is the number of the first of the two calls.
  abbrev pub IsNamedBy : Provider → SsoState → String → String → ℕ → GothUser → Type 0
  IsNamedBy provider cached query_state code n g =
      (session : String) × (authorized : String) × (provider.unmarshal_session
          cached.provider_session
        ≡ some session)
      × (is_valid_state env sso (provider.auth_url session) query_state ≡ true)
      × (provider.authorize n session code query_state ≡ some authorized)
      × (provider.fetch_user (n + 1) authorized ≡ some g)

  ask_provider_ok :
      (provider : Provider) (cached : SsoState) (query_state code : String) (w : World)
      (g : GothUser)
      → (ask_provider env sso provider cached query_state code w).0 ≡ ok g
      → IsNamedBy provider cached query_state code w.step g
  unfolding ask_provider call
  ask_provider_ok provider cached query_state code w g h =
      elim (Option-cases (provider.unmarshal_session cached.provider_session)) [
        | inl garbled ↦ absurd (ground arith)
        | inr (session, read) ↦
            elim (Option-cases (provider.authorize w.step session code query_state)) [
              | inl refused ↦ absurd (ground arith)
              | inr (authorized, granted) ↦
                  (session, authorized, read, ground arith, granted, ground arith)
            ]
      ]

  sessions-sso_user :
      (provider_id : String) (g : GothUser) (w : World)
      → (sso_user env sso provider_id g w).1.db.sessions ≡ w.db.sessions
  unfolding sso_user link_by_email select statement generate_id clock_now insert_account
  sessions-sso_user provider_id g w = ground arith

  -- the user is that of the provider's account, or has the provider's email as a verified one
  abbrev pub IsKnownAs : String → GothUser → Db → User → Type 0
  IsKnownAs provider_id g db user =
      ((row : UserRow) × (find_user_by_provider_account provider_id g.user_id db ≡ some row)
        × (user_from_row row ≡ some user))
      ⊎ ((row : UserRow) × (find_user_by_email (sso.to_lower (env.trim_space g.email)) db
            ≡ some row)
          × (user_from_row row ≡ some user)
          × (user.email_verified ≡ true))

  link_by_email_ok :
      (provider_id : String) (g : GothUser) (w : World) (user : User)
      → (link_by_email env sso provider_id g w).0 ≡ ok user
      → (row : UserRow) × (find_user_by_email (sso.to_lower (env.trim_space g.email)) w.db
          ≡ some row)
        × (user_from_row row ≡ some user)
        × (user.email_verified ≡ true)
  unfolding link_by_email select statement generate_id clock_now
  link_by_email_ok provider_id g w user h =
      elim (Option-cases (find_user_by_email (sso.to_lower (env.trim_space g.email)) w.db)) [
        | inl absent ↦ absurd (ground arith)
        | inr (row, found) ↦ (row, found, ground arith, ground arith)
      ]

  sso_user_ok :
      (provider_id : String) (g : GothUser) (w : World) (user : User)
      → (sso_user env sso provider_id g w).0 ≡ ok user
      → IsKnownAs provider_id g w.db user
  unfolding sso_user select
  sso_user_ok provider_id g w user h =
      elim (Option-cases (find_user_by_provider_account provider_id g.user_id w.db)) [
        | inl absent ↦
            inr
              (link_by_email_ok provider_id g (record w { step = w.step + 1 }) user (ground arith))
        | inr (row, found) ↦ elim (Option-cases (user_from_row row)) [
          | inl nil ↦
              inr (
                link_by_email_ok provider_id g (record w { step = w.step + 1 }) user (ground arith))
          | inr (known, same) ↦ inl (row, found, ground arith)
        ]
      ]

  some_or_ok :
      {A : Type 0} (e : GoError) (o : Option A) (w w' : World) (a : A)
      → some_or e o w ≡ (ok a, w')
      → (o ≡ some a) × (w' ≡ w)
  some_or_ok e none w w' a h = absurd (ground arith)
  some_or_ok e (some b) w w' a h = (ground arith, ground arith)

  db-finish_sso :
      (user : User) (cached : SsoState) (transaction ip agent : String) (w : World)
      → (finish_sso env sso user cached transaction ip agent w).1.db ≡ w.db
  unfolding finish_sso
  db-finish_sso user cached transaction ip agent w =
      let entered = resolve_login_organization env user.id cached.organization_slug w in
      let same = db-resolve_login_organization env user.id cached.organization_slug w in
      elim (Result-cases entered.0) [
        | inr (e, failed) ↦ ground arith
        | inl (o, found) ↦
            let (failed, kept) = create_fails env user.id o.id ip agent entered.1 in ground arith
      ]

  identify-cases :
      (provider_id query_state code transaction : String) (w : World) (r : User × SsoState)
      → (identify env sso provider_id query_state code transaction w).0 ≡ ok r
      → (cfg : SsoProviderConfig) × (provider : Provider) × (g : GothUser) × (w₂ : World)
        × (w₄ : World) × (enabled_provider env sso provider_id ≡ some cfg)
        × (new_goth_provider env sso cfg ≡ some provider)
        × (find_state env sso provider_id query_state transaction w ≡ (ok r.1, w₂))
        × (ask_provider env sso provider r.1 query_state code w₂ ≡ (ok g, w₄))
        × (sso_user env sso provider_id g w₄
            ≡ (ok r.0, (identify env sso provider_id query_state code transaction w).1))
  unfolding identify
  identify-cases provider_id query_state code transaction w r h =
      let (cfg, w₁, configured, e₁, h₁) =
        bind_run (some_or _ (enabled_provider env sso provider_id)) _ w r h in
      let (cached, w₂, checked, e₂, h₂) =
        bind_run (find_state env sso provider_id query_state transaction) _ w₁ r h₁ in
      let (provider, w₃, made, e₃, h₃) =
        bind_run (some_or _ (new_goth_provider env sso cfg)) _ w₂ r h₂ in
      let (g, w₄, asked, e₄, h₄) =
        bind_run (ask_provider env sso provider cached query_state code) _ w₃ r h₃ in
      let (user, w₅, known, e₅, h₅) = bind_run (sso_user env sso provider_id g) _ w₄ r h₄ in
      let (is_cfg, w₁-w) =
        some_or_ok _ (enabled_provider env sso provider_id) w w₁ cfg configured in
      let (is_provider, w₃-w₂) = some_or_ok _ (new_goth_provider env sso cfg) w₂ w₃ provider made in
      let same : (user, cached) ≡ r = ok-injective h₅ in
      let is_cached : cached ≡ r.1 = ap (λ x. x.1) same in
      let ended = ap (λ x. x.1) (e₁ ∙ e₂ ∙ e₃ ∙ e₄ ∙ e₅) in
      (
        cfg,
        provider,
        g,
        w₂,
        w₄,
        is_cfg,
        is_provider,
        ap (find_state env sso provider_id query_state transaction) (sym w₁-w)
            ∙ checked
            ∙ ap (λ c. (ok c, w₂)) is_cached,
        subst (λ c. ask_provider env sso provider c query_state code w₂ ≡ (ok g, w₄)) is_cached
            (ap (ask_provider env sso provider cached query_state code) (sym w₃-w₂) ∙ asked),
        known ∙ ap (λ u. (ok u, w₅)) (ap (λ x. x.0) same) ∙ ap (λ v. (ok r.0, v)) (sym ended),
      )

  -- A callback that reaches the session of its user has found the transaction in Redis, for this
  -- provider, which is enabled, and with the state of the query. The provider has authorized the
  -- session that the transaction holds by the code of the callback and has named a user, and the
  -- user is the one with that provider's account, or with the provider's email if it is verified.
  -- The rest of the callback is run for that user and that transaction, and no session is stored.
  pub identify-complete_sso :
      (provider_id query_state code transaction ip agent : String) (w : World) (user : User)
      (cached : SsoState)
      → (identify env sso provider_id query_state code transaction w).0 ≡ ok (user, cached)
      → (i : SsoItem) × (cfg : SsoProviderConfig) × (provider : Provider) × (g : GothUser)
        × (stored_state transaction w ≡ some i)
        × (cached ≡ i.value)
        × (cached.provider_id ≡ provider_id)
        × (cached.state ≡ query_state)
        × (enabled_provider env sso provider_id ≡ some cfg)
        × (new_goth_provider env sso cfg ≡ some provider)
        × IsNamedBy provider cached query_state code (w.step + 1) g
        × IsKnownAs provider_id g w.db user
        × (complete_sso env sso provider_id query_state code transaction ip agent w
            ≡ finish_sso env sso user cached transaction ip agent
                (identify env sso provider_id query_state code transaction w).1)
        × ((complete_sso env sso provider_id query_state code transaction ip agent w).1.db.sessions
            ≡ w.db.sessions)
  unfolding complete_sso
  identify-complete_sso provider_id query_state code transaction ip agent w user cached h =
      let (cfg, provider, g, w₂, w₄, configured, made, checked, asked, known) =
        identify-cases provider_id query_state code transaction w (user, cached) h in
      let ((i, found, is_value), same_provider, same_state, db₂, step₂) =
        find_state_ok provider_id query_state transaction w cached (ap (λ x. x.0) checked) in
      let db₄ : w₄.db ≡ w.db =
        ap (λ x. x.1.db) (sym asked)
        ∙ db-ask_provider provider cached query_state code w₂
        ∙ ap (λ x. x.1.db) (sym checked)
        ∙ db₂ in
      let step : w₂.step ≡ w.step + 1 = ap (λ x. x.1.step) (sym checked) ∙ step₂ in
      let identified = (identify env sso provider_id query_state code transaction w).1 in
      let run : complete_sso env sso provider_id query_state code transaction ip agent w
          ≡ finish_sso env sso user cached transaction ip agent identified =
        ground arith in
      (
        i,
        cfg,
        provider,
        g,
        found,
        is_value,
        same_provider,
        same_state,
        configured,
        made,
        subst (λ n. IsNamedBy provider cached query_state code n g) step
            (ask_provider_ok provider cached query_state code w₂ g (ap (λ x. x.0) asked)),
        subst (λ d. IsKnownAs provider_id g d user) db₄
            (sso_user_ok provider_id g w₄ user (ap (λ x. x.0) known)),
        run,
        ap (λ x. x.1.db.sessions) run
            ∙ ap (λ d. d.sessions) (db-finish_sso user cached transaction ip agent identified)
            ∙ ap (λ x. x.1.db.sessions) (sym known)
            ∙ sessions-sso_user provider_id g w₄
            ∙ ap (λ d. d.sessions) db₄,
      )
