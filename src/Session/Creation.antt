-- ===== src/Session/Creation.antt =====
-- Create (session_service.go) against the table of the migrations.
use dinchy.Prelude.{String, ◌≡◌, arith}
use dinchy.Errors.{err, failure, internal_because}
use dinchy.Errors.Codes.{session_create_session}
use dinchy.Db.Sessions.{insert_session}
use dinchy.World.{Env, World}
use dinchy.World.Effects.{clock_now, generate_id, statement}
use dinchy.Session.{create, new_session}

module _ (env : Env) where
  -- Create stores no session: it returns the error of session creation and leaves the database as it
  -- was, since it sets no last_seen_at and the table takes no session without one.
  pub create_fails :
      (user_id organization_id ip user_agent : String) (w : World)
      → ((create env user_id organization_id ip user_agent w).0
          ≡ err (internal_because session_create_session failure))
        × ((create env user_id organization_id ip user_agent w).1.db ≡ w.db)
  unfolding create new_session generate_id clock_now statement insert_session
  create_fails user_id organization_id ip user_agent w = (ground arith, ground arith)
