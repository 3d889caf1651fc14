-- ===== src/Lib.antt =====
-- Dinchy: accounts, sessions and organizations of a self-hosted Go server.
--
-- The server keeps users, organizations and sessions in PostgreSQL. The services of
-- internal/features act on them through the statements of internal/platform/store/sqlcgen: auth
-- sets up the first user, logs users in, resets passwords, invites members and checks one-time
-- codes; session issues, resolves and revokes session tokens, and keeps resolved principals in a
-- Redis cache (internal/platform/cache). In front of them stand the middleware of
-- internal/transport and the handlers of the API. The services publish events to a Redis stream
-- (internal/platform/events), from which the subscriber of internal/features/audit fills the audit
-- log; jobs of internal/workers clean up.
--
-- Which file models which part:
--   Db, Db/Users, Db/Organizations, Db/Tokens, Db/TwoFactors, Db/Sessions: the tables as lists of
--     rows (sqlcgen/models.go), and each statement of users.sql.go and sessions.sql.go as a
--     function on them. A SELECT of one row is the first row that passes its test; a write gives
--     none where a constraint of internal/platform/store/migrations rejects it.
--   Permission: internal/foundation/permission. Errors, Errors/Codes: internal/foundation/errors,
--     and the codes of internal/foundation/i18n that the services return.
--   World: the state of a run (database, cache, mails, events, time) and its environment.
--     World/Exec is the monad of a handler, whose writes stay where it fails; World/Effects are the
--     calls that a service makes; World/Transaction is the rollback that ends a failed transaction;
--     World/Inversion are the lemmas on handlers that return a value.
--   Session: internal/features/session. Its children prove what resolving a token returns
--     (Resolve), that revocation holds (Revoke), the bound on cached principals (Caching), and
--     creation against the table of the migrations (Creation).
--   Auth: the shared types of internal/features/auth and internal/platform/events. Auth/Login is
--     auth_service.go and auth_helpers.go, where Login and SelectOrganization are in two parts, up
--     to Create and from it on, as completeSSO is in Auth/Sso; Auth/Totp is totp_service.go, whose
--     lockout is also a state machine on one row (Auth/Totp/Policy) that the handlers implement
--     (Auth/Totp/Service); Auth/Password is password_service.go; Auth/Setup is setup_service.go;
--     Auth/Invitation is invite_service.go; Auth/Sso is sso_service.go and sso_helpers.go over
--     goth; Auth/Api is handler.go, the operations of the API over these services.
--   Security: internal/foundation/security, the text of a password's hash: its issue, its parser
--     (Security/RoundTrip), and what it accepts (Security/Accepted). It fills the interface
--     PasswordHasher that the services take.
--   Events: internal/platform/events over Redis as the parameter Broker. Events/Delivery is the
--     lemma on any subscriber that no message is lost; Events/Drain is the repeated job.
--   Db/AuditLogs and Audit: the statements of audit.sql.go and internal/features/audit: what is
--     read back of an event (Audit/RoundTrip), its listing (Audit/Listing), and the service as the
--     subscriber of the bus (Audit/Subscriber, Audit/Redelivery).
--   Transport: the middleware of internal/transport/middleware in the order of server.go, and what
--     reaches an operation (Transport/Guards); Transport/Render is internal/transport/render, and
--     Transport/Leaks what a response says.
--   Workers: internal/workers, the cleanup of ended sessions.
--   Manifest: internal/manifest, the catalogs that the code generators read. Manifest/Tree are the
--     nested modules that events (event.go) and messages (i18n.go) stand in, with their merging
--     (Manifest/Merge) and the walk of a validation (Manifest/Walk); Manifest/Naming is naming.go, of
--     which Manifest/Constants compares the two ways to name a constant; Manifest/Validation are the
--     tests of events (Manifest/Distinct) and messages (Manifest/Messages); Manifest/Permissions is
--     permission.go.
--   Transform: internal/foundation/transform. Config: internal/config, the tree of settings that the
--     source walks by reflection (env.go), its defaults (Config/Defaults), Load (Config/Load) and the
--     providers (Config/Sso); Config/Leaves and Config/Loaded are on what is loaded.
--     Auth/Sso/Registry builds the registry of the single sign-on from these providers.
--   I18n: internal/foundation/i18n/runtime.go, the catalog of messages: the order of its tags
--     (I18n/Order), and the tag and the text that a request gets (I18n/Matching).
--   Examples: concrete states, and the theorems applied to them.
--   Prelude: Boolean tests, options and lists that all of these share.
--
-- Conventions. Identifiers are their canonical strings, so parsing and printing a UUID is the
-- identity. Times are nanoseconds since the Unix epoch and durations nanoseconds, as natural
-- numbers; all times are UTC. Each effect takes a number from a counter, and the environment
-- decides by it whether the call fails, how much time passes and what is drawn: a theorem holds
-- for every environment. A call that fails has changed nothing. A transaction is the state before
-- it, which a rollback or a failed commit brings back. Redis drops an item at its time. Time
-- passes where the clock is read and where Redis stores a principal, for all that came before.
-- Functions of other packages (sha256, argon2, the authenticator's codes, url, text of mails, the
-- collation of the database) are fields of the environment. Every loop is over a list, but for the
-- digits of a uint32, at most ten, and the job of a subscriber, whose number of runs is an
-- argument.
--
-- Not modelled: the interleaving of two requests; the metadata of an error but in its rendering,
-- and its logged flag; log lines; the minimum duration of ForgotPassword, which is a wait; the
-- envelope's own id and time in the services, which leave them unset; users.last_login_at and the
-- settings but the instance name, which nothing of the modelled services reads; the headers, the
-- language, the IDs and the deadline of a request; the rounding of a stored time to microseconds;
-- the trimming of the stream by its retention window; the rules of the configuration's validator,
-- which is a library; the parameters of a message; a negative limit of the audit log, which the
-- API refuses; the authenticator's own reading of the time, which is that of the service. The code
-- generators, the mail templates and the logging are parts of their own and are not modelled.
pub mod Prelude
pub mod Errors
pub mod Permission
pub mod Db
pub mod World
pub mod Session
pub mod Security
pub mod Events
pub mod Audit
pub mod Transport
pub mod Workers
pub mod Manifest
pub mod Transform
pub mod Config
pub mod I18n
pub mod Auth
pub mod Examples
