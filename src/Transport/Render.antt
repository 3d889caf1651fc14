-- ===== src/Transport/Render.antt =====
-- internal/transport/render/render.go: the response that a client gets for an error.
use dinchy.Prelude.{
  ℕ, String, Bool, not, Option, none, some, List, [], ◌∷◌, leb, ltb, ◌||◌, if◌then◌else◌,
}
use dinchy.Errors.{
  GoError, Status, no_rows, failure, app, caused, joined, http_status, internal_server_error,
  internal_because,
}
use dinchy.Errors.Codes.{Code, server_internal_error, validation_failed}

-- The metadata of an AppError, its text, the localized message of a code, and the details that huma
-- gives for the errors of a request's validation.
pub record Catalog : Type 0 where
  pub meta : GoError → List (String × String)
  pub text : GoError → String
  pub message : GoError → String
  pub message_of : Code → String
  pub validation_details : List GoError → List (String × String)

-- DebugPayload
pub record DebugPayload : Type 0 where
  pub code : Option Code
  pub cause : String
  pub meta : List (String × String)

-- ErrorResponse with its ResponsePayload
pub record ErrorResponse : Type 0 where
  pub status : ℕ
  pub code : Code
  pub message : String
  pub meta : List (String × String)
  pub debug : Option DebugPayload

-- the AppError in an error, with the error that it was found as
pub record AppError : Type 0 where
  pub status : Status
  pub code : Code
  pub cause : Option GoError
  pub self : GoError

abbrev or_else : {A : Type 0} → Option A → Option A → Option A
or_else none b = b
or_else (some a) b = some a

-- appErrorFrom: errors.As finds the error itself, or the first of the joined ones that has one
unfoldable pub app_error_from : GoError → Option AppError
app_error_from no_rows = none
app_error_from failure = none
app_error_from (app s c) = some (record { status = s; code = c; cause = none; self = app s c })
app_error_from (caused s c e) =
    some (record { status = s; code = c; cause = some e; self = caused s c e })
app_error_from (joined a b) = or_else (app_error_from a) (app_error_from b)

-- the errors of ResponseFor in turn
unfoldable pub first_app_error : List GoError → Option AppError
unfolding app_error_from
first_app_error [] = none
first_app_error (e ∷ es) = or_else (app_error_from e) (first_app_error es)

module _ (catalog : Catalog) (expose_internal : Bool) where
  abbrev cause_text : Option GoError → String
  cause_text none = ""
  cause_text (some e) = catalog.text e

  -- debugForAppError
  abbrev debug_for_app_error : AppError → DebugPayload
  debug_for_app_error e = record {
    code = some e.code;
    cause = cause_text e.cause;
    meta = catalog.meta e.self;
  }

  -- debugForErrs, of the errors that are not nil
  abbrev debug_for_errs : List GoError → Option DebugPayload
  debug_for_errs [] = none
  debug_for_errs (e ∷ es) = some (record { code = none; cause = catalog.text e; meta = [] })

  abbrev if_exposed : Option DebugPayload → Option DebugPayload
  if_exposed debug = if expose_internal then debug else none

  -- localizedResponse
  unfoldable pub localized_response : AppError → ErrorResponse
  localized_response e =
      let debug = if_exposed (some (debug_for_app_error e)) in
      if leb (http_status internal_server_error) (http_status e.status)
      then record {
        status = http_status e.status;
        code = server_internal_error;
        message = catalog.message_of server_internal_error;
        meta = [];
        debug = debug;
      }
      else record {
        status = http_status e.status;
        code = e.code;
        message = catalog.message e.self;
        meta = catalog.meta e.self;
        debug = debug;
      }

  -- Renderer.Resolve, of an error that is not nil
  abbrev pub resolve_found : GoError → Option AppError → ErrorResponse
  resolve_found e (some a) = localized_response a
  resolve_found e none = localized_response (record {
    status = internal_server_error;
    code = server_internal_error;
    cause = some e;
    self = internal_because server_internal_error e;
  })

  unfoldable pub resolve : GoError → ErrorResponse
  unfolding app_error_from localized_response
  resolve e = resolve_found e (app_error_from e)

  abbrev pub is_unprocessable : ℕ → Bool
  is_unprocessable status = not (ltb status 422 || ltb 422 status)

  unfoldable pub generic_response : ℕ → List GoError → ErrorResponse
  generic_response status errs =
      let debug = if_exposed (debug_for_errs errs) in
      if is_unprocessable status
      then record {
        status = 422;
        code = validation_failed;
        message = catalog.message_of validation_failed;
        meta = catalog.validation_details errs;
        debug = debug;
      }
      else record {
        status = status;
        code = server_internal_error;
        message = catalog.message_of server_internal_error;
        meta = [];
        debug = debug;
      }

  abbrev pub response_found : ℕ → List GoError → Option AppError → ErrorResponse
  response_found status errs (some e) = localized_response e
  response_found status errs none = generic_response status errs

  -- Renderer.ResponseFor
  unfoldable pub response_for : ℕ → List GoError → ErrorResponse
  unfolding first_app_error localized_response generic_response
  response_for status errs = response_found status errs (first_app_error errs)
