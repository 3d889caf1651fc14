-- ===== src/Workers.antt =====
-- internal/workers/session_cleanup_background_job.go: the job that deletes ended sessions.
pub mod Cleanup
use dinchy.Prelude.{ℕ, ◌-◌, ◌*◌}
use dinchy.Errors.{internal_because}
use dinchy.Errors.Codes.{workers_session_cleanup}
use dinchy.Db.Sessions.{delete_ended_sessions}
use dinchy.World.{Env}
use dinchy.World.Exec.{Exec, pure, fail_as, ◌>>=◌, ◌>>◌}
use dinchy.World.Effects.{clock_now, statement}

-- 24 hours, in nanoseconds
abbrev pub session_cleanup_retention : ℕ
session_cleanup_retention = 24 * 60 * 60 * 1_000_000_000

module _ (env : Env) where
  -- cleanupEndedSessions
  unfoldable pub cleanup_ended_sessions : Exec (Unit {0})
  cleanup_ended_sessions = do
    now ← clock_now env
    fail_as (internal_because workers_session_cleanup)
        (statement env (delete_ended_sessions (now - session_cleanup_retention) now))
