-- ===== src/Auth/Invitation/Creation.antt =====
-- What CreateInvitation (invite_service.go) has stored and sent.
use dinchy.Prelude.{
  ℕ, ◌+◌, String, true, ◌≡◌, ◌⊎◌, Option, none, some, [], ◌∷◌, ◌++◌, arith, refl, ◌==◌,
  if◌then◌else◌, eq_iff,
}
use dinchy.Errors.{GoError, failure, ok, err, internal_because}
use dinchy.Errors.Codes.{invitation_send_email}
use dinchy.Permission.{auth_invitations_create}
use dinchy.Db.{InvitationRow}
use dinchy.Db.Organizations.{find_pending_invitation, insert_invitation}
use dinchy.World.{Env, World}
use dinchy.World.Effects.{
  clock_now, generate_id, random_token, hash_token, select, statement, send_mail,
}
use dinchy.Session.{Principal, has_permission}
use dinchy.Auth.{nil_uuid}
use dinchy.Auth.Invitation.{
  Invitation, require_free, issue_invitation, invitation_from_row, create_invitation,
  invitation_content, status_pending,
}

module _ (env : Env) where
  -- The guards write nothing.
  require_free_lem :
      (organization_id email : String) (w : World)
      → ((require_free env organization_id email w).1.db ≡ w.db)
        × ((require_free env organization_id email w).1.mails ≡ w.mails)
        × ((require_free env organization_id email w).1.now ≡ w.now)
  unfolding require_free select
  require_free_lem organization_id email w = (ground arith, ground arith, ground arith)

  require_free_ok :
      (organization_id email : String) (w : World)
      → (require_free env organization_id email w).0 ≡ ok tt
      → (row : InvitationRow) → find_pending_invitation organization_id email w.db ≡ some row
      → row.id ≡ nil_uuid
  unfolding require_free select
  require_free_ok organization_id email w h row found = ground (arith, eq_iff row.id nil_uuid)

  issue_invitation_err :
      (inviter : Principal) (email role : String) (now : ℕ) (w : World) (e : GoError)
      → (issue_invitation env inviter email role now w).0 ≡ err e
      → ((issue_invitation env inviter email role now w).1.mails ≡ w.mails)
        × (((issue_invitation env inviter email role now w).1.db ≡ w.db)
            ⊎ (e ≡ internal_because invitation_send_email failure))
  unfolding issue_invitation generate_id random_token statement send_mail insert_invitation
  issue_invitation_err inviter email role now w e h = (ground arith, ground arith)

  -- A refused invitation has left the mails as they were, and the database too, unless all that
  -- failed was the mail: then the error is that of the mail.
  pub create_invitation_refused :
      (inviter : Option Principal) (email role : String) (w : World) (e : GoError)
      → (create_invitation env inviter email role w).0 ≡ err e
      → ((create_invitation env inviter email role w).1.mails ≡ w.mails)
        × (((create_invitation env inviter email role w).1.db ≡ w.db)
            ⊎ (e ≡ internal_because invitation_send_email failure))
  unfolding create_invitation clock_now
  create_invitation_refused none email role w e h = (ground arith, ground arith)
  create_invitation_refused (some p) email role w e h =
      let w₁ = record w { now = w.now + env.drift w.step; step = w.step + 1 } in
      let guarded = require_free_lem p.organization_id email w₁ in
      let issued =
        issue_invitation_err p email role (w.now + env.drift w.step)
          (require_free env p.organization_id email w₁).1 e in
      (ground (arith, guarded, issued), ground (arith, guarded, issued))

  -- the states at the guards and at the writes of CreateInvitation
  abbrev at_guards : World → World
  at_guards w = record w { now = w.now + env.drift w.step; step = w.step + 1 }

  issue_invitation_ok :
      (inviter : Principal) (email role : String) (now : ℕ) (w : World) (i : Invitation)
      → (issue_invitation env inviter email role now w).0 ≡ ok i
      → (row : InvitationRow) × (raw_token : String) × ((issue_invitation env inviter email role now
            w).1.db.invitations
          ≡ w.db.invitations ++ row ∷ [])
        × ((issue_invitation env inviter email role now w).1.mails
            ≡ w.mails
              ++ record {
                to = email;
                content = invitation_content env inviter.organization_name role raw_token;
              }
                ∷ [])
        × (row.token_hash ≡ hash_token env raw_token)
        × (row.organization_id ≡ inviter.organization_id)
        × (row.status ≡ status_pending)
        × (row.expires_at ≡ now + env.auth_config.invite_lifetime)
        × (invitation_from_row row ≡ (if i.id == nil_uuid then none else some i))
  unfolding issue_invitation generate_id random_token statement send_mail insert_invitation
  issue_invitation_ok inviter email role now w i h =
      let row : InvitationRow = record {
        id = env.new_id (w.step + 1);
        organization_id = inviter.organization_id;
        email = email;
        role = role;
        status = status_pending;
        token_hash = hash_token env (env.random w.step);
        expires_at = now + env.auth_config.invite_lifetime;
        invited_by_user_id = inviter.user_id;
        accepted_at = none;
        created_at = now;
        updated_at = now;
      } in
      (row, env.random w.step, ground arith, ground arith, refl, refl, refl, refl, ground arith)

  -- An invitation is created only by a principal with the permission to, where no invitation for the
  -- email is pending in the organization. One pending invitation is then stored, and one mail with
  -- its link sent: the row holds the hash of the token that the mail's link has, for the configured
  -- lifetime.
  pub create_invitation_ok :
      (inviter : Option Principal) (email role : String) (w : World) (i : Invitation)
      → (create_invitation env inviter email role w).0 ≡ ok i
      → (p : Principal) × (row : InvitationRow) × (raw_token : String) × (inviter ≡ some p)
        × (has_permission p.permissions auth_invitations_create ≡ true)
        × ((found : InvitationRow)
            → find_pending_invitation p.organization_id email w.db ≡ some found
            → found.id ≡ nil_uuid)
        × ((create_invitation env inviter email role w).1.db.invitations
            ≡ w.db.invitations ++ row ∷ [])
        × ((create_invitation env inviter email role w).1.mails
            ≡ w.mails
              ++ record {
                to = email;
                content = invitation_content env p.organization_name role raw_token;
              }
                ∷ [])
        × (row.token_hash ≡ hash_token env raw_token)
        × (row.organization_id ≡ p.organization_id)
        × (row.status ≡ status_pending)
        × (row.expires_at ≡ w.now + env.drift w.step + env.auth_config.invite_lifetime)
  unfolding create_invitation clock_now
  create_invitation_ok none email role w i h = absurd (ground arith)
  create_invitation_ok (some p) email role w i h =
      let guarded = require_free env p.organization_id email (at_guards w) in
      let (row, raw_token, rows, mails, hashed, organization, status, until, _) =
        issue_invitation_ok p email role (w.now + env.drift w.step) guarded.1 i (ground arith) in
      let (db, sent, _) = require_free_lem p.organization_id email (at_guards w) in
      (
        p,
        row,
        raw_token,
        refl,
        ground arith,
        require_free_ok p.organization_id email (at_guards w) (ground arith),
        ground (arith, rows, db),
        ground (arith, mails, sent),
        hashed,
        organization,
        status,
        until,
      )
