-- ===== src/Errors.antt =====
-- internal/foundation/errors: the errors that services return. `app` and `caused` are an AppError
-- without and with a cause; `no_rows` is pgx.ErrNoRows; `failure` is any other error of a driver.
-- Metadata and the `logged` flag of an AppError, which no service reads, are left out.
pub mod Codes
use dinchy.Prelude.{ℕ, ◌≡◌, refl, Bool, true, false, ◌||◌, arith, if◌then◌else◌, Option, none, some}
use dinchy.Errors.Codes.{Code}

pub data Status : Type 0 where
  bad_request unauthorized forbidden conflict too_many_requests : Status
  unprocessable_entity internal_server_error : Status

abbrev pub http_status : Status → ℕ
http_status bad_request = 400
http_status unauthorized = 401
http_status forbidden = 403
http_status conflict = 409
http_status too_many_requests = 429
http_status unprocessable_entity = 422
http_status internal_server_error = 500

pub data GoError : Type 0 where
  no_rows : GoError
  failure : GoError
  app : Status → Code → GoError
  caused : Status → Code → GoError → GoError
  joined : GoError → GoError → GoError

abbrev pub internal : Code → GoError
internal code = app internal_server_error code

abbrev pub internal_because : Code → GoError → GoError
internal_because code cause = caused internal_server_error code cause

-- errors.Is(err, pgx.ErrNoRows), through the causes and the joined errors
abbrev pub is_no_rows : GoError → Bool
is_no_rows no_rows = true
is_no_rows failure = false
is_no_rows (app s c) = false
is_no_rows (caused s c cause) = is_no_rows cause
is_no_rows (joined a b) = is_no_rows a || is_no_rows b

-- The usual translation of a query's error: `absent` for a missing row, else `other`.
abbrev pub missing_or : GoError → Code → GoError → GoError
missing_or absent other e = if is_no_rows e then absent else internal_because other e

pub data Result {ℓ} (A : Type ℓ) : Type ℓ where
  ok : A → Result A
  err : GoError → Result A

-- the first AppError that errors.As finds, through the joined errors
unfoldable pub as_app_error : GoError → Option GoError
as_app_error no_rows = none
as_app_error failure = none
as_app_error (app s c) = some (app s c)
as_app_error (caused s c cause) = some (caused s c cause)
as_app_error (joined a b) =
    let rest = as_app_error b in elim (as_app_error a) [ none ↦ rest | some e ↦ some e ]

-- Annotate: an AppError keeps its status, code and cause, and any other error becomes a 500 with the
-- catch-all code.
unfoldable pub annotate : GoError → GoError
unfolding as_app_error
annotate e = elim (as_app_error e) [
  | none ↦ internal_because Code.server_internal_error e
  | some found ↦ found
]
