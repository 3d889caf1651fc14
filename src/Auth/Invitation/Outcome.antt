-- ===== src/Auth/Invitation/Outcome.antt =====
-- What AcceptInvitation (invite_service.go) has done when it succeeds, and when it fails.
use dinchy.Prelude.{
  ℕ, ◌+◌, ◌≤◌, String, ◌≡◌, ◌≢◌, Option, none, some, sym, ap, ◌∙◌, refl, find-update_where, eq_refl,
  arith, Option-cases, inl, inr, eq_iff, update_where, ◌==◌, ◌&&◌, ◌⊎◌, ◌++◌, [], ◌∷◌, subst,
}
use dinchy.Errors.{GoError, Result, ok, err}
use dinchy.Db.{Db, InvitationRow, UserRow, AccountRow, MemberRow}
use dinchy.Db.Organizations.{
  MembershipRow, is_open, mark_accepted, find_invitation_by_token, consume_invitation,
  insert_member, find_organization_by_id,
}
use dinchy.Db.Users.{
  insert_user, update_user_email_verified_at, update_user_password_hash, insert_account,
}
use dinchy.World.{Env, World}
use dinchy.World.Inversion.{bind_run}
use dinchy.World.Effects.{
  clock_now, generate_id, hash_password, hash_token, select, statement, begin_tx, rollback, commit,
}
use dinchy.Auth.{User}
use dinchy.Auth.Invitation.{
  Invitation, accept_transaction, enroll, enroll_user, join, accept, acceptable, provision_user,
  provision_account, provision_member, invitation_from_row, status_pending,
}

module _ (env : Env) where
  -- Accepting an invitation is one transaction: if it ends with an error, of any of its statements
  -- or of its commit, the database is as it was.
  pub accept_transaction_atomic :
      (token display_name password : String) (w : World) (e : GoError)
      → (accept_transaction env token display_name password w).0 ≡ err e
      → (accept_transaction env token display_name password w).1.db ≡ w.db
  unfolding accept_transaction begin_tx rollback commit clock_now select
  accept_transaction_atomic token display_name password w e h = ground arith

  -- the time at which the transaction reads the clock
  abbrev pub accept_time : World → ℕ
  accept_time w = w.now + env.drift (w.step + 1)

  abbrev after_lookup : World → World
  after_lookup w = record w { now = accept_time w; step = w.step + 1 + 1 + 1 }

  accept_transaction_lem :
      (token display_name password : String) (w : World) (r : User × String) (row : InvitationRow)
      → find_invitation_by_token (hash_token env token) w.db ≡ some row
      → (accept_transaction env token display_name password w).0 ≡ ok r
      → ((accept env
            (invitation_from_row row)
            (accept_time w)
            display_name
            password
            (after_lookup w)).0
          ≡ ok r)
        × ((accept_transaction env token display_name password w).1.db
            ≡ (accept env
                (invitation_from_row row)
                (accept_time w)
                display_name
                password
                (after_lookup w)).1.db)
  unfolding accept_transaction begin_tx rollback commit clock_now select
  accept_transaction_lem token display_name password w r row found h = (ground arith, ground arith)

  accept_transaction-find :
      (token display_name password : String) (w : World) (r : User × String)
      → (accept_transaction env token display_name password w).0 ≡ ok r
      → find_invitation_by_token (hash_token env token) w.db ≢ none
  unfolding accept_transaction begin_tx rollback commit clock_now select
  accept_transaction-find token display_name password w r h absent = ground arith

  accept-cases :
      (found : Option Invitation) (now : ℕ) (display_name password : String) (w : World)
      (r : User × String)
      → (accept env found now display_name password w).0 ≡ ok r
      → (i : Invitation) × (acceptable found now ≡ some i)
        × (accept env found now display_name password w ≡ enroll env i now display_name password w)
  unfolding accept
  accept-cases found now display_name password w r h = elim (Option-cases (acceptable found now)) [
    | inl refused ↦ absurd (ground arith)
    | inr (i, allowed) ↦ (i, allowed, ground arith)
  ]

  acceptable_ok :
      (row : InvitationRow) (i : Invitation) (now : ℕ)
      → acceptable (invitation_from_row row) now ≡ some i
      → (row.status ≡ status_pending)
        × (row.accepted_at ≡ none)
        × (now ≤ row.expires_at)
        × (i.id ≡ row.id)
        × (i.organization_id ≡ row.organization_id)
        × (i.role ≡ row.role)
  acceptable_ok row i now h = (
    ground (arith, eq_iff row.status status_pending),
    ground arith,
    ground arith,
    ground arith,
    ground arith,
    ground arith,
  )

  invitations-provision_user :
      (email display_name : String) (now : ℕ) (found : Result UserRow) (w : World)
      → (provision_user env email display_name now found w).1.db.invitations ≡ w.db.invitations
  unfolding provision_user generate_id statement insert_user update_user_email_verified_at
  invitations-provision_user email display_name now found w = ground arith

  invitations-provision_account :
      (user : User) (email hash : String) (now : ℕ) (found : Result AccountRow) (w : World)
      → (provision_account env user email hash now found w).1.db.invitations ≡ w.db.invitations
  unfolding provision_account generate_id statement insert_account update_user_password_hash
  invitations-provision_account user email hash now found w = ground arith

  invitations-provision_member :
      (user : User) (i : Invitation) (now : ℕ) (found : Result MembershipRow) (w : World)
      → (provision_member env user i now found w).1.db.invitations ≡ w.db.invitations
  unfolding provision_member generate_id statement insert_member
  invitations-provision_member user i now found w = ground arith

  enroll_ok :
      (i : Invitation) (now : ℕ) (display_name password : String) (w : World) (r : User × String)
      → (enroll env i now display_name password w).0 ≡ ok r
      → (r.1 ≡ i.organization_id)
        × ((enroll env i now display_name password w).1.db.invitations
            ≡ update_where
                (λ row. row.id == i.id && is_open row)
                (mark_accepted now)
                w.db.invitations)
  unfolding enroll enroll_user join hash_password select statement consume_invitation
  enroll_ok i now display_name password w r h = grind (
    arith, invitations-provision_user, invitations-provision_account, invitations-provision_member,
  )

  -- The user is in the organization: as a member before, when nothing is added, or by a row with the
  -- role.
  abbrev pub Joins : String → String → String → Db → Db → Type 0
  Joins user_id organization_id role before after =
      ((m : MembershipRow) × (find_organization_by_id user_id organization_id before ≡ some m)
        × (after.members ≡ before.members))
      ⊎ ((m : MemberRow) × (after.members ≡ before.members ++ m ∷ [])
          × (m.user_id ≡ user_id)
          × (m.organization_id ≡ organization_id)
          × (m.role ≡ role))

  -- what is left of a membership's tables
  abbrev HasMembers : Db → Db → Type 0
  HasMembers before after =
      (after.members ≡ before.members) × (after.organizations ≡ before.organizations)

  members-provision_user :
      (email display_name : String) (now : ℕ) (found : Result UserRow) (w : World)
      → HasMembers w.db (provision_user env email display_name now found w).1.db
  unfolding provision_user generate_id statement insert_user update_user_email_verified_at
  members-provision_user email display_name now found w = (ground arith, ground arith)

  members-provision_account :
      (user : User) (email hash : String) (now : ℕ) (found : Result AccountRow) (w : World)
      → HasMembers w.db (provision_account env user email hash now found w).1.db
  unfolding provision_account generate_id statement insert_account update_user_password_hash
  members-provision_account user email hash now found w = (ground arith, ground arith)

  enroll_user-HasMembers :
      (i : Invitation) (now : ℕ) (display_name password : String) (w : World) (user : User)
      → (enroll_user env i now display_name password w).0 ≡ ok user
      → HasMembers w.db (enroll_user env i now display_name password w).1.db
  unfolding enroll_user hash_password select
  enroll_user-HasMembers i now display_name password w user h =
      grind (arith, members-provision_user, members-provision_account)

  join-Joins :
      (i : Invitation) (now : ℕ) (user : User) (w : World) (r : User × String)
      → (join env i now user w).0 ≡ ok r
      → (r ≡ (user, i.organization_id))
        × Joins user.id i.organization_id i.role w.db (join env i now user w).1.db
  unfolding join provision_member generate_id statement insert_member consume_invitation select
  join-Joins i now user w r h =
      elim (Option-cases (find_organization_by_id user.id i.organization_id w.db)) [
        | inl absent ↦ (
          ground arith,
          inr (
            record {
              id = env.new_id (w.step + 1);
              organization_id = i.organization_id;
              user_id = user.id;
              role = i.role;
              created_at = now;
              updated_at = now;
            },
            ground arith,
            refl,
            refl,
            refl,
          ),
        )
        | inr (m, found) ↦ (ground arith, inl (m, found, ground arith))
      ]

  Joins-HasMembers :
      (user_id organization_id role : String) (before between after : Db)
      → HasMembers before between
      → Joins user_id organization_id role between after
      → Joins user_id organization_id role before after
  unfolding find_organization_by_id
  Joins-HasMembers user_id organization_id role before between after (members, organizations)
        (inl (m, found, same)) =
      inl (m, rw (sym members, sym organizations) found, same ∙ members)
  Joins-HasMembers user_id organization_id role before between after (members, organizations)
        (inr (m, added, of_user, entered, with_role)) =
      inr (m, added ∙ ap (λ ms. ms ++ m ∷ []) members, of_user, entered, with_role)

  enroll-Joins :
      (i : Invitation) (now : ℕ) (display_name password : String) (w : World) (r : User × String)
      → (enroll env i now display_name password w).0 ≡ ok r
      → Joins r.0.id i.organization_id i.role w.db (enroll env i now display_name password w).1.db
  unfolding enroll
  enroll-Joins i now display_name password w r h =
      let (user, w₁, enrolled, e₁, h₁) =
        bind_run (enroll_user env i now display_name password) _ w r h in
      let (same, joined) = join-Joins i now user w₁ r h₁ in
      let kept =
        enroll_user-HasMembers i now display_name password w user (ap (λ x. x.0) enrolled) in
      let joined' : Joins user.id i.organization_id i.role w₁.db
          (enroll env i now display_name password w).1.db =
        subst (λ v. Joins user.id i.organization_id i.role w₁.db v.1.db) (sym e₁) joined in
      subst
        (λ u.
          Joins u.id i.organization_id i.role w.db (enroll env i now display_name password w).1.db)
        (ap (λ x. x.0) (sym same))
        (Joins-HasMembers user.id i.organization_id i.role w.db w₁.db
          (enroll env i now display_name password w).1.db
          (subst (λ v. HasMembers w.db v.1.db) enrolled kept) joined')

  -- An invitation is accepted only with the token of a stored one that is pending, was not accepted
  -- and has not expired at the time that the transaction reads. The user that is returned
  -- belongs to the invitation's organization from then on: it was a member before and the members
  -- are the same, or one row is added for it, in that organization and with the invitation's role.
  -- Of the invitations only this one has changed: it is marked as accepted at that time.
  pub accept_transaction_ok :
      (token display_name password : String) (w : World) (r : User × String)
      → (accept_transaction env token display_name password w).0 ≡ ok r
      → (row : InvitationRow) × (find_invitation_by_token (hash_token env token) w.db ≡ some row)
        × (row.status ≡ status_pending)
        × (row.accepted_at ≡ none)
        × (accept_time w ≤ row.expires_at)
        × (r.1 ≡ row.organization_id)
        × Joins r.0.id row.organization_id row.role w.db
            (accept_transaction env token display_name password w).1.db
        × ((accept_transaction env token display_name password w).1.db.invitations
            ≡ update_where
                (λ i. i.id == row.id && is_open i)
                (mark_accepted (accept_time w))
                w.db.invitations)
  accept_transaction_ok token display_name password w r h =
      elim (Option-cases (find_invitation_by_token (hash_token env token) w.db)) [
        | inl absent ↦ absurd (accept_transaction-find token display_name password w r h absent)
        | inr (row, found) ↦
            let (passed, same) =
              accept_transaction_lem token display_name password w r row found h in
            let (i, allowed, body) =
              accept-cases (invitation_from_row row) (accept_time w) display_name password
                (after_lookup w) r passed in
            let (pending, unused, early, same_id, same_org, same_role) =
              acceptable_ok row i (accept_time w) allowed in
            let passed' = sym (ap (λ x. x.0) body) ∙ passed in
            let after =
              (enroll env i (accept_time w) display_name password (after_lookup w)).1.db in
            let joins =
              enroll-Joins i (accept_time w) display_name password (after_lookup w) r passed' in
            let (joined_to, marked) =
              enroll_ok i (accept_time w) display_name password (after_lookup w) r
                (sym (ap (λ x. x.0) body) ∙ passed) in
            (
              row,
              found,
              pending,
              unused,
              early,
              joined_to ∙ same_org,
              subst (λ d. Joins r.0.id row.organization_id row.role w.db d)
                  (sym (same ∙ ap (λ x. x.1.db) body))
                  (subst (λ q. Joins r.0.id q row.role w.db after) same_org
                    (subst (λ q. Joins r.0.id i.organization_id q w.db after) same_role joins)),
              ap (λ d. d.invitations) same
                  ∙ ap (λ x. x.1.db.invitations) body
                  ∙ marked
                  ∙ ap
                      (λ id.
                        update_where (λ k. k.id == id && is_open k) (mark_accepted (accept_time w))
                          w.db.invitations)
                      same_id,
            )
      ]

  -- An invitation's token works once: after an acceptance that succeeded, a later one with the same
  -- token against the same invitations does not, whatever calls fail.
  pub accept_transaction_once :
      (token display_name password display_name' password' : String) (w later : World)
      (r r' : User × String)
      → (accept_transaction env token display_name password w).0 ≡ ok r
      → later.db.invitations
        ≡ (accept_transaction env token display_name password w).1.db.invitations
      → (accept_transaction env token display_name' password' later).0 ≢ ok r'
  unfolding find_invitation_by_token
  accept_transaction_once token display_name password display_name' password' w later r r' h same
        h' =
      let (row, found, pending, unused, _, _, _, marked) =
        accept_transaction_ok token display_name password w r h in
      let (row', found', pending', _, _, _, _, _) =
        accept_transaction_ok token display_name' password' later r' h' in
      let now_accepted =
        find-update_where (λ i. i.token_hash == hash_token env token)
          (λ i. i.id == row.id && is_open i) (mark_accepted (accept_time w)) w.db.invitations
          (λ i. refl) in
      ground (arith, eq_refl row.id, now_accepted, eq_iff row.status "pending")
