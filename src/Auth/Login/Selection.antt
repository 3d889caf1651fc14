-- ===== src/Auth/Login/Selection.antt =====
-- What SelectOrganization (auth_service.go) has checked and changed when it creates a session.
use dinchy.Prelude.{
  ◌+◌, String, ◌≡◌, ◌≢◌, sym, ap, ◌∙◌, subst, Option, none, some, arith, Option-cases, inl, inr,
}
use dinchy.Errors.{ok, err, failure, internal_because}
use dinchy.Errors.Codes.{session_create_session}
use dinchy.Session.Creation.{create_fails}
use dinchy.Db.Organizations.{MembershipRow, find_organization_by_slug}
use dinchy.World.{Env, World}
use dinchy.World.Inversion.{Result-cases}
use dinchy.World.Effects.{publish_event, select}
use dinchy.Session.{Principal, session, logout, create}
use dinchy.Session.Resolve.{db-session, session_empty}
use dinchy.Session.Revoke.{db-logout, revoked_at, logout_time}
use dinchy.Auth.{new_envelope}
use dinchy.Auth.Login.{select_organization, leave_session, announce_logout}

module _ (env : Env) where
  db-announce_logout : (p : Option Principal) (w : World) → (announce_logout env p w).1.db ≡ w.db
  unfolding announce_logout new_envelope publish_event
  db-announce_logout none w = ground arith
  db-announce_logout (some p) w = ground arith

  -- the empty token resolves to no principal
  presented :
      {raw_token : String} (w : World) (p : Principal)
      → (session env raw_token w).0 ≡ ok (some p)
      → raw_token ≢ ""
  presented {raw_token} w p h empty =
      absurd (ground (arith, session_empty env w, empty, ap (λ t. (session env t w).0) empty))

  -- the state after the two lookups of a selection
  abbrev pub after_session : String → World → World
  after_session raw_token w =
      let w' = (session env raw_token w).1 in record w' { step = w'.step + 1 }

  leave_session-cases :
      (raw_token slug : String) (w : World) (r : Principal × MembershipRow)
      → (leave_session env raw_token slug w).0 ≡ ok r
      → (q : Option Principal) × (w₁ : World) × (w₂ : World) × ((session env raw_token w).0
          ≡ ok (some r.0))
        × (find_organization_by_slug r.0.user_id slug (session env raw_token w).1.db ≡ some r.1)
        × (logout env raw_token (after_session raw_token w) ≡ (ok q, w₁))
        × (announce_logout env q w₁ ≡ (ok tt, w₂))
        × ((leave_session env raw_token slug w).1 ≡ w₂)
  unfolding leave_session select
  leave_session-cases raw_token slug w r h = elim (Result-cases (session env raw_token w).0) [
    | inr (e, failed) ↦ absurd (ground arith)
    | inl (none, missing) ↦ absurd (ground arith)
    | inl (some p, resolved) ↦
        elim (Option-cases
          (find_organization_by_slug p.user_id slug (session env raw_token w).1.db)) [
            | inl absent ↦ absurd (ground arith)
            | inr (o, found) ↦
                elim (Result-cases (logout env raw_token (after_session raw_token w)).0) [
                  | inr (e, failed) ↦ absurd (ground arith)
                  | inl (q, ended) ↦
                      let w₁ = (logout env raw_token (after_session raw_token w)).1 in
                      elim (Result-cases (announce_logout env q w₁).0) [
                        | inr (e, failed) ↦ absurd (ground arith)
                        | inl (_, told) ↦ (
                          q,
                          w₁,
                          (announce_logout env q w₁).1,
                          ground arith,
                          ground arith,
                          ground arith,
                          ground arith,
                          ground arith,
                        )
                      ]
                ]
          ]
  ]

  -- A selection that reaches session creation has resolved the presented token to a principal and
  -- found the organization of that slug among the organizations of the principal's user. Create is
  -- then called for that user and that organization. Since it fails, the selection ends with the
  -- error of session creation: the unrevoked sessions with the presented token's hash are revoked,
  -- and there is no new one.
  pub leave_session-select_organization :
      (raw_token slug ip agent : String) (w : World) (p : Principal) (o : MembershipRow)
      → (leave_session env raw_token slug w).0 ≡ ok (p, o)
      → ((session env raw_token w).0 ≡ ok (some p))
        × (find_organization_by_slug p.user_id slug w.db ≡ some o)
        × (select_organization env raw_token slug ip agent w
            ≡ create env p.user_id o.id ip agent (leave_session env raw_token slug w).1)
        × ((select_organization env raw_token slug ip agent w).0
            ≡ err (internal_because session_create_session failure))
        × ((select_organization env raw_token slug ip agent w).1.db
            ≡ revoked_at env (logout_time env raw_token (after_session raw_token w)) raw_token w.db)
  unfolding select_organization
  leave_session-select_organization raw_token slug ip agent w p o h =
      let w' = after_session raw_token w in
      let (q, w₁, w₂, resolved, found, ended, told, same) =
        leave_session-cases raw_token slug w (p, o) h in
      let left = (leave_session env raw_token slug w).1 in
      let made : select_organization env raw_token slug ip agent w
          ≡ create env p.user_id o.id ip agent left =
        ground arith in
      let (failed, kept) = create_fails env p.user_id o.id ip agent left in
      let unchanged : w'.db ≡ w.db = db-session env raw_token w in
      (
        resolved,
        subst (λ d. find_organization_by_slug p.user_id slug d ≡ some o) unchanged found,
        made,
        ap (λ x. x.0) made ∙ failed,
        ap (λ x. x.1.db) made
            ∙ kept
            ∙ ap (λ v. v.db) same
            ∙ ap (λ x. x.1.db) (sym told)
            ∙ db-announce_logout q w₁
            ∙ ap (λ x. x.1.db) (sym ended)
            ∙ db-logout env raw_token w' q (presented w p resolved) (ap (λ x. x.0) ended)
            ∙ ap (revoked_at env (logout_time env raw_token w') raw_token) unchanged,
      )
